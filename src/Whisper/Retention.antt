-- ===== src/Whisper/Retention.antt =====
-- The type Retention of whisper/whisper.go, its order, and validateRetentions. Its two numbers are
-- not negative.
use buckytools.Prelude.{
  ℕ, ◌*◌, ◌/◌, ◌%◌, ◌≤◌, ◌<◌, ◌≡◌, refl, sym, ◌∙◌, ◌↔◌, inl, inr, Bool, not, Option, none, some,
  List, [], ◌∷◌, arith, ltb, leb, ◌==◌, if◌then◌else◌, Bool-cases, Option-cases, All,
}

pub record Retention : Type 0 where
  pub seconds_per_point : ℕ
  pub number_of_points : ℕ

abbrev pub point_size : ℕ
point_size = 12

unfoldable pub max_retention : Retention → ℕ
max_retention r = r.seconds_per_point * r.number_of_points

unfoldable pub size : Retention → ℕ
size r = r.number_of_points * point_size

-- `RetentionsByPrecision.Less`.
unfoldable pub less : Retention → Retention → Bool
less a b = ltb a.seconds_per_point b.seconds_per_point

-- `sort.Sort` of few elements: insertion from the left, an equal element behind the others.
unfoldable pub insert : Retention → List Retention → List Retention
insert r [] = r ∷ []
insert r (x ∷ xs) = if less r x then r ∷ (x ∷ xs) else x ∷ insert r xs

unfoldable pub sort : List Retention → List Retention → List Retention
sort done [] = done
sort done (r ∷ rs) = sort (insert r done) rs

unfoldable pub sort_retentions : List Retention → List Retention
sort_retentions rs = sort [] rs

insert-All :
    (P : Retention → Type 0) (r : Retention) (l : List Retention)
    → P r
    → All P l
    → All P (insert r l)
unfolding insert
insert-All P r [] h hs = (h, tt)
insert-All P r (x ∷ xs) h hs = elim (Bool-cases (less r x)) [
  | inl first ↦ rw first (h, hs)
  | inr later ↦ rw later (hs.0, insert-All P r xs h hs.1)
]

sort-All :
    (P : Retention → Type 0) (rs done : List Retention)
    → All P done
    → All P rs
    → All P (sort done rs)
unfolding sort
sort-All P [] done hd hr = hd
sort-All P (r ∷ rs) done hd hr = sort-All P rs (insert r done) (insert-All P r done hr.0 hd) hr.1

pub sort_retentions-All :
    (P : Retention → Type 0) (rs : List Retention) → All P rs → All P (sort_retentions rs)
unfolding sort_retentions
sort_retentions-All P rs h = sort-All P rs [] tt h

-- The errors of `validateRetentions`.
pub data RetentionError : Type 0 where
  no_retentions same_precision uneven_precision shorter_interval too_few_points : RetentionError

-- One round of its loop: a retention and the next one.
unfoldable pub validate_pair : Retention → Retention → Option RetentionError
validate_pair retention next =
    if not (ltb retention.seconds_per_point next.seconds_per_point)
    then some same_precision
    else if not (next.seconds_per_point % retention.seconds_per_point == 0)
    then some uneven_precision
    else if leb (max_retention next) (max_retention retention)
    then some shorter_interval
    else if ltb retention.number_of_points (next.seconds_per_point / retention.seconds_per_point)
    then some too_few_points
    else none

unfoldable pub validate_from : Retention → List Retention → Option RetentionError
validate_from r [] = none
validate_from r (next ∷ rs) = elim (validate_pair r next) [
  | some e ↦ some e
  | none ↦ validate_from next rs
]

unfoldable pub validate_retentions : List Retention → Option RetentionError
validate_retentions [] = some no_retentions
validate_retentions (r ∷ rs) = validate_from r rs

-- What Graphite asks of an archive and the next coarser one.
pub record Coarser (a b : Retention) : Type 0 where
  pub precision : a.seconds_per_point < b.seconds_per_point
  pub divides : b.seconds_per_point % a.seconds_per_point ≡ 0
  pub longer : a.seconds_per_point * a.number_of_points < b.seconds_per_point * b.number_of_points
  pub consolidates : b.seconds_per_point / a.seconds_per_point ≤ a.number_of_points

abbrev pub IsChain : Retention → List Retention → Type 0
IsChain r [] = Unit
IsChain r (next ∷ rs) = Coarser r next × IsChain next rs

abbrev pub IsWellFormed : List Retention → Type 0
IsWellFormed [] = ⊥
IsWellFormed (r ∷ rs) = IsChain r rs

validate_pair-none : (a b : Retention) → validate_pair a b ≡ none → Coarser a b
unfolding validate_pair max_retention
validate_pair-none a b h = ground arith

validate_pair-Coarser : (a b : Retention) → Coarser a b → validate_pair a b ≡ none
unfolding validate_pair max_retention
validate_pair-Coarser a b h = ground arith

validate_from-IsChain :
    (r : Retention) (rs : List Retention) → (validate_from r rs ≡ none) ↔ IsChain r rs
unfolding validate_from
validate_from-IsChain r [] = ((λ e. tt), (λ h. refl))
validate_from-IsChain r (next ∷ rs) = elim (Option-cases (validate_pair r next)) [
  | inl fits ↦
      rw (fits, validate_from)
        (
          (λ e. (validate_pair-none r next fits, (validate_from-IsChain next rs).0 e)),
          (λ c. (validate_from-IsChain next rs).1 c.1),
        )
  | inr (e, bad) ↦
      rw (bad, validate_from) ((λ h. cc), (λ c. sym bad ∙ validate_pair-Coarser r next c.0))
]

-- `validateRetentions` accepts exactly the lists, not empty, in which each retention is followed by
-- one that is coarser, a multiple of it, longer, and not too coarse to be filled from it.
pub validate_retentions_iff :
    (rs : List Retention) → (validate_retentions rs ≡ none) ↔ IsWellFormed rs
unfolding validate_retentions
validate_retentions_iff [] = ((λ e. cc), (λ h. absurd h))
validate_retentions_iff (r ∷ rs) = validate_from-IsChain r rs
