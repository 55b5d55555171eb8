-- ===== src/Whisper/UpdateMany/Extract.antt =====
-- What extractPoints of whisper/whisper.go hands to an archive.
use buckytools.Prelude.{
  ℕ, zero, suc, ◌≡◌, refl, sym, ap, ap₂, ◌∙◌, inl, inr, true, false, Option, none, some, List, [],
  ◌∷◌, ◌++◌, append-nil, append_assoc, arith, Bool-cases, length, take, All, length-append,
  take-append-drop, take-append, drop-append,
}
use buckytools.Prelude.Int.{ℤ, pos, ◌-ℤ◌, ltb_ℤ}
use buckytools.Whisper.UpdateMany.{
  TimeSeriesPoint, after_one, first_older, split_at, extract_points,
}

-- A point that an archive of a retention reaches at a time.
abbrev pub IsCovered : ℤ → ℕ → TimeSeriesPoint → Type 0
IsCovered now max_retention p = ltb_ℤ p.time (now -ℤ pos max_retention) ≡ false

split_whole :
    (o : Option ℕ) (ps : List TimeSeriesPoint) → (split_at ps o).0 ++ (split_at ps o).1 ≡ ps
unfolding split_at
split_whole none ps = append-nil ps
split_whole (some zero) ps = refl
split_whole (some (suc i)) ps = take-append-drop i ps

take_fewer :
    (P : TimeSeriesPoint → Type 0) (i : ℕ) (ps : List TimeSeriesPoint)
    → All P (take (suc i) ps)
    → All P (take i ps)
take_fewer P zero ps h = tt
take_fewer P (suc i) [] h = tt
take_fewer P (suc i) (p ∷ ps) h = (h.0, take_fewer P i ps h.1)

module _ (now : ℤ) (r : ℕ) where
  Before : List TimeSeriesPoint → Option ℕ → Type 0
  Before ps none = All (IsCovered now r) ps
  Before ps (some i) = All (IsCovered now r) (take i ps)

  Before-after_one :
      (p : TimeSeriesPoint) (ps : List TimeSeriesPoint) (o : Option ℕ)
      → IsCovered now r p
      → Before ps o
      → Before (p ∷ ps) (after_one o)
  unfolding Before after_one
  Before-after_one p ps none hp h = (hp, h)
  Before-after_one p ps (some i) hp h = (hp, h)

  first_older-Before : (ps : List TimeSeriesPoint) → Before ps (first_older (now -ℤ pos r) ps)
  unfolding Before first_older
  first_older-Before [] = tt
  first_older-Before (p ∷ ps) = elim (Bool-cases (ltb_ℤ p.time (now -ℤ pos r))) [
    | inl older ↦ rw older tt
    | inr covered ↦
        rw covered
          (Before-after_one p ps (first_older (now -ℤ pos r) ps) covered (first_older-Before ps))
  ]

  split_at-IsCovered :
      (ps : List TimeSeriesPoint) (o : Option ℕ)
      → Before ps o
      → All (IsCovered now r) (split_at ps o).0
  unfolding Before split_at
  split_at-IsCovered ps none h = h
  split_at-IsCovered ps (some zero) h = tt
  split_at-IsCovered ps (some (suc i)) h = take_fewer (IsCovered now r) i ps h

-- No point is lost or moved: the points for an archive and those that remain are the points given, in
-- order. Each point for the archive is one that its retention reaches.
extract_points-IsCovered :
    (ps : List TimeSeriesPoint) (now : ℤ) (r : ℕ)
    → ((extract_points ps now r).0 ++ (extract_points ps now r).1 ≡ ps)
      × All (IsCovered now r) (extract_points ps now r).0
unfolding extract_points
extract_points-IsCovered ps now r = (
  split_whole (first_older (now -ℤ pos r) ps) ps,
  split_at-IsCovered now r ps (first_older (now -ℤ pos r) ps) (first_older-Before now r ps),
)

first_older-append :
    (now : ℤ) (r : ℕ) (cs : List TimeSeriesPoint) (q : TimeSeriesPoint) (qs : List TimeSeriesPoint)
    → All (IsCovered now r) cs
    → ltb_ℤ q.time (now -ℤ pos r) ≡ true
    → first_older (now -ℤ pos r) (cs ++ (q ∷ qs)) ≡ some (length cs)
unfolding first_older after_one
first_older-append now r [] q qs h old = rw old refl
first_older-append now r (c ∷ cs) q qs h old =
    rw (h.0, first_older-append now r cs q qs h.1 old) refl

-- Where the points go beyond an archive's retention, the last point p that its retention reaches is
-- not handed to it: p remains with the older ones.
extract_points-last :
    (now : ℤ) (r : ℕ) (cs : List TimeSeriesPoint) (p q : TimeSeriesPoint)
    (qs : List TimeSeriesPoint)
    → All (IsCovered now r) (cs ++ (p ∷ []))
    → ltb_ℤ q.time (now -ℤ pos r) ≡ true
    → extract_points (cs ++ (p ∷ (q ∷ qs))) now r ≡ (cs, p ∷ (q ∷ qs))
unfolding extract_points split_at
extract_points-last now r cs p q qs h old =
    let index : first_older (now -ℤ pos r) (cs ++ (p ∷ (q ∷ qs))) ≡ some (suc (length cs)) =
      ap (first_older (now -ℤ pos r)) (sym (append_assoc cs (p ∷ []) (q ∷ qs)))
      ∙ (first_older-append now r (cs ++ (p ∷ [])) q qs h old
          ∙ ap some (length-append cs (p ∷ []) ∙ omega arith)) in
    ap (split_at (cs ++ (p ∷ (q ∷ qs)))) index
    ∙ ap₂ (λ a b. (a, b)) (take-append (length cs) cs (p ∷ (q ∷ qs)) refl)
        (drop-append (length cs) cs (p ∷ (q ∷ qs)) refl)
