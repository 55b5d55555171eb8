-- ===== src/Whisper/UpdateMany/Aligned.antt =====
-- alignPoints of whisper/whisper.go against a description without its map of positions.
use buckytools.Prelude.{
  ℕ, ◌≡◌, refl, sym, ap, ◌∙◌, inl, inr, Bool, true, false, Option, none, some, List, [], ◌∷◌, arith,
  if◌then◌else◌, Bool-cases, All,
}
use mathlib.Core.Path.{subst}
use buckytools.Prelude.Int.{ℤ, ◌==ℤ◌, eq_of_==ℤ, ==ℤ_refl}
use buckytools.Whisper.Archive.{ArchiveInfo, align}
use buckytools.Whisper.Point.{DataPoint}
use buckytools.Whisper.UpdateMany.{TimeSeriesPoint, data_point, align_points}
use buckytools.Whisper.UpdateMany.Upsert.{upsert, upserted, align_points-upserted}

-- The value that a list of points holds for an interval.
abbrev pub value_at : ℤ → List DataPoint → Option ℕ
value_at k [] = none
value_at k (p ∷ ps) = if p.interval ==ℤ k then some p.value else value_at k ps

-- The value of the last of the points given for an interval.
abbrev pub last_at : ArchiveInfo → ℤ → List TimeSeriesPoint → Option ℕ → Option ℕ
last_at a k [] found = found
last_at a k (p ∷ ps) found = last_at a k ps (if align a p.time ==ℤ k then some p.value else found)

abbrev pub Apart : ℤ → List DataPoint → Type 0
Apart k ps = value_at k ps ≡ none

-- No two points of one interval.
abbrev pub IsDistinct : List DataPoint → Type 0
IsDistinct [] = Unit
IsDistinct (p ∷ ps) = Apart p.interval ps × IsDistinct ps

value_at-upsert :
    (k : ℤ) (p : DataPoint) (ps : List DataPoint)
    → value_at k (upsert p ps) ≡ (if p.interval ==ℤ k then some p.value else value_at k ps)
unfolding upsert
value_at-upsert k p [] = refl
value_at-upsert k p (q ∷ qs) =
    ground (arith, eq_of_==ℤ q.interval p.interval, value_at-upsert k p qs, ==ℤ_refl q.interval)

upsert-Apart :
    (p q : DataPoint) (qs : List DataPoint)
    → (q.interval ==ℤ p.interval) ≡ false
    → Apart q.interval qs
    → Apart q.interval (upsert p qs)
upsert-Apart p q qs h apart =
    ground
      (arith, value_at-upsert q.interval p qs, eq_of_==ℤ p.interval q.interval, ==ℤ_refl q.interval)

upsert-IsDistinct : (p : DataPoint) (ps : List DataPoint) → IsDistinct ps → IsDistinct (upsert p ps)
unfolding upsert
upsert-IsDistinct p [] h = (refl, tt)
upsert-IsDistinct p (q ∷ qs) h = elim (Bool-cases (q.interval ==ℤ p.interval)) [
  | inl same ↦
      let eq = eq_of_==ℤ q.interval p.interval same in
      rw same ((ap (λ k. value_at k qs) (sym eq) ∙ h.0, h.1))
  | inr other ↦ rw other ((upsert-Apart p q qs other h.0, upsert-IsDistinct p qs h.1))
]

value_at-upserted :
    (a : ArchiveInfo) (k : ℤ) (ts : List TimeSeriesPoint) (ps : List DataPoint)
    → value_at k (upserted a ts ps) ≡ last_at a k ts (value_at k ps)
unfolding upserted data_point
value_at-upserted a k [] ps = refl
value_at-upserted a k (t ∷ ts) ps =
    value_at-upserted a k ts (upsert (data_point a t) ps)
    ∙ ap (last_at a k ts) (value_at-upsert k (data_point a t) ps)

upserted-IsDistinct :
    (a : ArchiveInfo) (ts : List TimeSeriesPoint) (ps : List DataPoint)
    → IsDistinct ps
    → IsDistinct (upserted a ts ps)
unfolding upserted
upserted-IsDistinct a [] ps h = h
upserted-IsDistinct a (t ∷ ts) ps h =
    upserted-IsDistinct a ts (upsert (data_point a t) ps) (upsert-IsDistinct (data_point a t) ps h)

upsert-All :
    (P : DataPoint → Type 0) (p : DataPoint) (ps : List DataPoint)
    → P p
    → All P ps
    → All P (upsert p ps)
unfolding upsert
upsert-All P p [] hp h = (hp, tt)
upsert-All P p (q ∷ qs) hp h = elim (Bool-cases (q.interval ==ℤ p.interval)) [
  | inl same ↦ rw same ((hp, h.1))
  | inr other ↦ rw other ((h.0, upsert-All P p qs hp h.1))
]

upserted-All :
    (a : ArchiveInfo) (ts : List TimeSeriesPoint) (P : DataPoint → Type 0) (ps : List DataPoint)
    → All (λ t. P (data_point a t)) ts
    → All P ps
    → All P (upserted a ts ps)
unfolding upserted
upserted-All a [] P ps hp h = h
upserted-All a (t ∷ ts) P ps hp h =
    upserted-All a ts P (upsert (data_point a t) ps) hp.1 (upsert-All P (data_point a t) ps hp.0 h)

-- What holds of each point's aligned form holds of the aligned points.
pub align_points-All :
    (a : ArchiveInfo) (ts : List TimeSeriesPoint) (P : DataPoint → Type 0)
    → All (λ t. P record { interval = align a t.time; value = t.value }) ts
    → All P (align_points a ts)
unfolding data_point
align_points-All a ts P hp = rw (align_points-upserted a ts) (upserted-All a ts P [] hp tt)

-- What holds of all points holds of one that is found.
pub value_at-All :
    (P : DataPoint → Type 0) (k : ℤ) (v : ℕ) (ps : List DataPoint)
    → All P ps
    → value_at k ps ≡ some v
    → P record { interval = k; value = v }
value_at-All P k v [] h e = absurd cc
value_at-All P k v (p ∷ ps) h e = elim (Bool-cases (p.interval ==ℤ k)) [
  | inl same ↦ subst P (found p (eq_of_==ℤ p.interval k same) (when_true _ _ _ same e)) h.0
  | inr other ↦ value_at-All P k v ps h.1 (when_false _ _ _ other e)
]
  where
    found :
        (p : DataPoint)
        → p.interval ≡ k
        → some p.value ≡ some v
        → p ≡ record { interval = k; value = v }
    found p ek ev = cc

    when_true : (b : Bool) (x y : Option ℕ) → b ≡ true → (if b then x else y) ≡ some v → x ≡ some v
    when_true b x y h e = ground arith

    when_false :
        (b : Bool) (x y : Option ℕ) → b ≡ false → (if b then x else y) ≡ some v → y ≡ some v
    when_false b x y h e = ground arith

abbrev Head : List DataPoint → ℤ → Type 0
Head l k = (q : DataPoint) × (ps : List DataPoint) × (l ≡ q ∷ ps) × (q.interval ≡ k)

upsert-Head :
    (p q : DataPoint) (qs : List DataPoint) (k : ℤ) → q.interval ≡ k → Head (upsert p (q ∷ qs)) k
unfolding upsert
upsert-Head p q qs k h = elim (Bool-cases (q.interval ==ℤ p.interval)) [
  | inl same ↦ rw same ((p, qs, refl, sym (eq_of_==ℤ q.interval p.interval same) ∙ h))
  | inr other ↦ rw other ((q, upsert p qs, refl, h))
]

upserted-Head :
    (a : ArchiveInfo) (ts : List TimeSeriesPoint) (q : DataPoint) (qs : List DataPoint) (k : ℤ)
    → q.interval ≡ k
    → Head (upserted a ts (q ∷ qs)) k
unfolding upserted
upserted-Head a [] q qs k h = (q, qs, refl, h)
upserted-Head a (t ∷ ts) q qs k h =
    let (r, rs, eq, first) = upsert-Head (data_point a t) q qs k h in
    rw eq (upserted-Head a ts r rs k first)

-- The first aligned point is of the first point's interval.
pub align_points-Head :
    (a : ArchiveInfo) (t : TimeSeriesPoint) (ts : List TimeSeriesPoint)
    → Head (align_points a (t ∷ ts)) (align a t.time)
unfolding upserted upsert data_point
align_points-Head a t ts =
    rw (align_points-upserted a (t ∷ ts))
      (upserted-Head a ts (data_point a t) [] (align a t.time) refl)

-- The aligned points are of different intervals.
pub align_points-IsDistinct :
    (a : ArchiveInfo) (ts : List TimeSeriesPoint) → IsDistinct (align_points a ts)
align_points-IsDistinct a ts = rw (align_points-upserted a ts) (upserted-IsDistinct a ts [] tt)

-- The aligned points are of different intervals, and for each interval they hold the value of the last
-- point whose time lies in it, and none for an interval without a point.
pub align_points-last_at :
    (a : ArchiveInfo) (ts : List TimeSeriesPoint)
    → IsDistinct (align_points a ts)
      × ((k : ℤ) → value_at k (align_points a ts) ≡ last_at a k ts none)
align_points-last_at a ts = (
  align_points-IsDistinct a ts,
  (λ k. ap (value_at k) (align_points-upserted a ts) ∙ value_at-upserted a k ts []),
)
