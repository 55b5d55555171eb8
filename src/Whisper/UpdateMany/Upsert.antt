-- ===== src/Whisper/UpdateMany/Upsert.antt =====
-- alignPoints of whisper/whisper.go as insertions of points without its map of positions.
use buckytools.Prelude.{
  ℕ, suc, ◌≡◌, refl, sym, ap, ap₂, ◌∙◌, inl, inr, true, List, [], ◌∷◌, ◌++◌, append-nil,
  append_assoc, arith, if◌then◌else◌, Bool-cases, length, set, length-append,
}
use buckytools.Prelude.Int.{◌==ℤ◌, eq_of_==ℤ}
use buckytools.Whisper.Archive.{ArchiveInfo}
use buckytools.Whisper.Point.{DataPoint}
use buckytools.Whisper.UpdateMany.{
  TimeSeriesPoint, Positions, position_of, place_point, data_point, align_from, align_points,
}

-- A point takes the place of the one of its interval, or comes last.
unfoldable pub upsert : DataPoint → List DataPoint → List DataPoint
upsert p [] = p ∷ []
upsert p (q ∷ qs) = if q.interval ==ℤ p.interval then p ∷ qs else q ∷ upsert p qs

-- The map from the intervals to their positions.
indexed : ℕ → List DataPoint → Positions
indexed n [] = []
indexed n (p ∷ ps) = (p.interval, n) ∷ indexed (suc n) ps

set_at :
    (pre : List DataPoint) (q p : DataPoint) (qs : List DataPoint)
    → set (pre ++ (q ∷ qs)) (length pre) p ≡ pre ++ (p ∷ qs)
set_at [] q p qs = refl
set_at (r ∷ pre) q p qs = ap (λ l. r ∷ l) (set_at pre q p qs)

same_index :
    (n : ℕ) (p q : DataPoint) (qs : List DataPoint)
    → (q.interval ==ℤ p.interval) ≡ true
    → indexed n (q ∷ qs) ≡ indexed n (p ∷ qs)
unfolding indexed
same_index n p q qs h = ap (λ k. (k, n) ∷ indexed (suc n) qs) (eq_of_==ℤ q.interval p.interval h)

place_point-upsert :
    (p : DataPoint) (pre ps : List DataPoint) (before : Positions) (n : ℕ)
    → length pre ≡ n
    → place_point p (position_of p.interval (indexed n ps)) (pre ++ ps, before ++ indexed n ps)
      ≡ (pre ++ upsert p ps, before ++ indexed n (upsert p ps))
unfolding place_point position_of indexed upsert
place_point-upsert p pre [] before n h = rw (append-nil pre, append-nil before, h) refl
place_point-upsert p pre (q ∷ qs) before n h = elim (Bool-cases (q.interval ==ℤ p.interval)) [
  | inl same ↦
      rw (same, position_of, upsert, place_point)
        (ap₂ (λ a b. (a, b)) (ap (λ k. set (pre ++ (q ∷ qs)) k p) (sym h) ∙ set_at pre q p qs)
          (ap (λ l. before ++ l) (same_index n p q qs same)))
  | inr other ↦
      rw (other, position_of, upsert)
        (ap₂ (λ a b. place_point p (position_of p.interval (indexed (suc n) qs)) (a, b))
            (sym (append_assoc pre (q ∷ []) qs))
            (sym (append_assoc before ((q.interval, n) ∷ []) (indexed (suc n) qs)))
          ∙ (place_point-upsert p (pre ++ (q ∷ [])) qs (before ++ ((q.interval, n) ∷ [])) (suc n)
                (length-append pre (q ∷ []) ∙ omega (arith, h))
              ∙ ap₂ (λ a b. (a, b)) (append_assoc pre (q ∷ []) (upsert p qs))
                  (append_assoc before ((q.interval, n) ∷ []) (indexed (suc n) (upsert p qs)))))
]

unfoldable pub upserted : ArchiveInfo → List TimeSeriesPoint → List DataPoint → List DataPoint
upserted a [] ps = ps
upserted a (t ∷ ts) ps = upserted a ts (upsert (data_point a t) ps)

align_from-upserted :
    (a : ArchiveInfo) (ts : List TimeSeriesPoint) (ps : List DataPoint)
    → align_from a ts (ps, indexed 0 ps) ≡ (upserted a ts ps, indexed 0 (upserted a ts ps))
unfolding align_from upserted
align_from-upserted a [] ps = refl
align_from-upserted a (t ∷ ts) ps =
    ap (align_from a ts) (place_point-upsert (data_point a t) [] ps [] 0 refl)
    ∙ align_from-upserted a ts (upsert (data_point a t) ps)

pub align_points-upserted :
    (a : ArchiveInfo) (ts : List TimeSeriesPoint) → align_points a ts ≡ upserted a ts []
unfolding align_points indexed
align_points-upserted a ts = ap (λ s. s.0) (align_from-upserted a ts [])
