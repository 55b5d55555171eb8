-- ===== src/Fill/Gaps.antt =====
-- The windows that OpenWSP of fill/fill.go fills, against a description by the runs of missing values.
use buckytools.Prelude.{
  ℕ, suc, ◌+◌, ◌-◌, ◌*◌, ◌≡◌, refl, ap, ◌∙◌, inl, inr, true, false, Option, none, some, List, [],
  ◌∷◌, ◌++◌, ltb, if◌then◌else◌, Bool-cases, length, All,
}
use buckytools.Prelude.Int.{ℤ, pos, ◌-ℤ◌}
use buckytools.Whisper.Header.{Whisper}
use buckytools.Fill.{is_nan, Filler}

-- The values of a series as known values and gaps: a gap is its first missing value, the others, and the
-- known value behind it. A series may end in a gap.
pub data Gaps : Type 0 where
  ended : Gaps
  known : ℕ → Gaps → Gaps
  gap : ℕ → List ℕ → ℕ → Gaps → Gaps
  last_gap : ℕ → List ℕ → Gaps

abbrev pub flatten : Gaps → List ℕ
flatten ended = []
flatten (known v g) = v ∷ flatten g
flatten (gap n ns v g) = n ∷ (ns ++ (v ∷ flatten g))
flatten (last_gap n ns) = n ∷ ns

abbrev pub IsMissing : ℕ → Type 0
IsMissing v = is_nan v ≡ true

abbrev pub IsKnown : ℕ → Type 0
IsKnown v = is_nan v ≡ false

-- Each value is known or missing as its place in the description says.
abbrev pub IsRight : Gaps → Type 0
IsRight ended = Unit
IsRight (known v g) = IsKnown v × IsRight g
IsRight (gap n ns v g) = IsMissing n × All IsMissing ns × IsKnown v × IsRight g
IsRight (last_gap n ns) = IsMissing n × All IsMissing ns

-- The windows of the gaps, from the step before a gap to the known value behind it, or to the last
-- value. A gap is left alone unless it is longer than the precision, and at the end one of one value.
abbrev pub windows : ℕ → ℕ → ℕ → Gaps → List (ℤ × ℤ)
windows step precision t ended = []
windows step precision t (known v g) = windows step precision (t + step) g
windows step precision t (gap n ns v g) =
    let behind = t + suc (length ns) * step in
    let rest = windows step precision (behind + step) g in
    if ltb precision (behind - t) then (pos t -ℤ pos step, pos behind) ∷ rest else rest
windows step precision t (last_gap n []) = []
windows step precision t (last_gap n (m ∷ ns)) =
    (pos t -ℤ pos step, pos (t + suc (length ns) * step)) ∷ []

-- The windows are filled one after the other, up to a panic.
abbrev pub fill_all_windows : Filler → List (ℤ × ℤ) → Whisper → Option Whisper
fill_all_windows fill [] dst = some dst
fill_all_windows fill ((start, stop) ∷ ws) dst = elim (fill start stop dst) [
  | none ↦ none
  | some dst ↦ fill_all_windows fill ws dst
]

-- The description of a series.
add_missing : ℕ → Gaps → Gaps
add_missing n ended = last_gap n []
add_missing n (known v g) = gap n [] v g
add_missing n (gap m ns v g) = gap n (m ∷ ns) v g
add_missing n (last_gap m ns) = last_gap n (m ∷ ns)

pub describe : List ℕ → Gaps
describe [] = ended
describe (v ∷ vs) = if is_nan v then add_missing v (describe vs) else known v (describe vs)

flatten-add_missing : (n : ℕ) (g : Gaps) → flatten (add_missing n g) ≡ n ∷ flatten g
unfolding add_missing
flatten-add_missing n ended = refl
flatten-add_missing n (known v g) = refl
flatten-add_missing n (gap m ns v g) = refl
flatten-add_missing n (last_gap m ns) = refl

add_missing-IsRight : (n : ℕ) (g : Gaps) → IsMissing n → IsRight g → IsRight (add_missing n g)
unfolding add_missing
add_missing-IsRight n ended hn h = (hn, tt)
add_missing-IsRight n (known v g) hn h = (hn, tt, h.0, h.1)
add_missing-IsRight n (gap m ns v g) hn h = (hn, (h.0, h.1), h.2, h.3)
add_missing-IsRight n (last_gap m ns) hn h = (hn, h)

pub flatten-describe : (vs : List ℕ) → flatten (describe vs) ≡ vs
unfolding describe
flatten-describe [] = refl
flatten-describe (v ∷ vs) = elim (Bool-cases (is_nan v)) [
  | inl missing ↦
      rw missing (flatten-add_missing v (describe vs) ∙ ap (λ l. v ∷ l) (flatten-describe vs))
  | inr here ↦ rw here (ap (λ l. v ∷ l) (flatten-describe vs))
]

pub describe-IsRight : (vs : List ℕ) → IsRight (describe vs)
unfolding describe
describe-IsRight [] = tt
describe-IsRight (v ∷ vs) = elim (Bool-cases (is_nan v)) [
  | inl missing ↦ rw missing (add_missing-IsRight v (describe vs) missing (describe-IsRight vs))
  | inr here ↦ rw here ((here, describe-IsRight vs))
]
