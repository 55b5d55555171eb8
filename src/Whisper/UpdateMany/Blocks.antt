-- ===== src/Whisper/UpdateMany/Blocks.antt =====
-- packSequences and the writes of archiveUpdateMany of whisper/whisper.go against the writes of one
-- point at a time.
use native.Mathlib.Nat.{div-add-mod', zero-mul}
use mathlib.Core.Path.{subst}
use buckytools.Prelude.{
  ℕ, zero, suc, ◌+◌, ◌-◌, ◌*◌, ◌/◌, ◌%◌, ◌<◌, ◌≡◌, refl, sym, ap, ap₂, ◌∙◌, inl, inr, false, none,
  some, List, [], ◌∷◌, ◌++◌, arith, ◌==◌, if◌then◌else◌, ==_iff, Bool-cases, length, All,
  length-append, take-append, drop-append,
}
use buckytools.Prelude.Int.{ℤ, pos, ◌+ℤ◌, ◌-ℤ◌, -ℤ_parts, eq_of_parts, ◌==ℤ◌, eq_of_==ℤ}
use buckytools.Whisper.File.{FileData, write_at, write_at-append}
use buckytools.Whisper.Retention.{size}
use buckytools.Whisper.Mod.{scale, floor_div, floor_mod}
use buckytools.Whisper.Archive.{
  ArchiveInfo, IsProper, point_offset, point_offset-bounds, end_offset, align,
}
use buckytools.Whisper.Point.{DataPoint, bytes, length-bytes}
use buckytools.Whisper.Update.{get_base_interval}
use buckytools.Whisper.UpdateMany.{
  TimeSeriesPoint, align_points, pack_from, pack_sequences, write_block, write_blocks, write_points,
  write_from, base_or_first,
}
use buckytools.Whisper.UpdateMany.Aligned.{
  IsDistinct, value_at, align_points-IsDistinct, align_points-Head, align_points-All,
}
use buckytools.Whisper.UpdateMany.Place.{point_offset_next}

-- A write of each point at its own place.
abbrev pub write_each : ArchiveInfo → ℤ → FileData → List DataPoint → FileData
write_each a base file [] = file
write_each a base file (p ∷ ps) =
    write_each a base (write_at file (bytes p) (point_offset a base p.interval)) ps

-- A time that is a whole number of steps.
abbrev pub IsStep : ℕ → ℤ → Type 0
IsStep s z = (k : ℤ) × (z ≡ scale k s)

abbrev pub At : ℕ → DataPoint → Type 0
At s p = IsStep s p.interval

write_block_one :
    (a : ArchiveInfo) (base : ℤ) (f : FileData) (p : DataPoint)
    → IsProper a
    → write_block a base f (p.interval, bytes p)
      ≡ write_at f (bytes p) (point_offset a base p.interval)
unfolding write_block
write_block_one a base f p h =
    let (i, less, place, inside) = point_offset-bounds a base p.interval h in
    let fits : point_offset a base p.interval + length (bytes p) - end_offset a ≡ 0 =
      omega (arith, inside, length-bytes p) in
    rw fits refl

write_block_two :
    (a : ArchiveInfo) (base : ℤ) (f : FileData) (q p : DataPoint)
    → IsProper a
    → IsStep a.seconds_per_point base
    → At a.seconds_per_point q
    → p.interval ≡ q.interval +ℤ pos a.seconds_per_point
    → write_block a base f (q.interval, bytes q ++ bytes p)
      ≡ write_at
          (write_at f (bytes q) (point_offset a base q.interval))
          (bytes p)
          (point_offset a base p.interval)
unfolding write_block end_offset size
write_block_two a base f q p h (b, eb) (j, ej) e =
    let s = a.seconds_per_point in
    let (i, less, place, next) = point_offset_next a j b h in
    let at : point_offset a base q.interval ≡ a.offset + i * 12 =
      ap₂ (point_offset a) eb ej ∙ place in
    let behind : point_offset a base p.interval
        ≡ a.offset + (if suc i == a.number_of_points then 0 else suc i) * 12 =
      ap₂ (point_offset a) eb (e ∙ ap (λ z. z +ℤ pos s) ej) ∙ next in
    let length_q = length-bytes q in
    let both : length (bytes q ++ bytes p) ≡ 24 =
      length-append (bytes q) (bytes p) ∙ omega (arith, length_q, length-bytes p) in
    elim (Bool-cases (suc i == a.number_of_points)) [
      | inl last ↦
          let wrapped : point_offset a base p.interval ≡ a.offset =
            behind ∙ rw last (omega arith) in
          let end : suc i ≡ a.number_of_points = (==_iff (suc i) a.number_of_points).0 last in
          let beyond : a.offset + i * 12 + 24 - (a.offset + a.number_of_points * 12) ≡ 12 =
            omega (arith, end) in
          rw
            (
              at,
              both,
              wrapped,
              beyond,
              take-append 12 (bytes q) (bytes p) (sym length_q),
              drop-append 12 (bytes q) (bytes p) (sym length_q),
            )
            refl
      | inr inner ↦
          let next : point_offset a base p.interval ≡ a.offset + i * 12 + length (bytes q) =
            behind ∙ rw inner (omega (arith, length_q)) in
          let room : suc i < a.number_of_points = ground (arith, inner, less) in
          let fits : a.offset + i * 12 + 24 - (a.offset + a.number_of_points * 12) ≡ 0 =
            omega (arith, room) in
          rw (at, both, next, fits)
            (sym (write_at-append f (bytes q) (bytes p) (a.offset + i * 12)))
    ]

pub other_interval :
    (p r : DataPoint) (rs : List DataPoint)
    → value_at p.interval (r ∷ rs) ≡ none
    → (r.interval ==ℤ p.interval) ≡ false
other_interval p r rs h = ground (arith, h)

module _ (a : ArchiveInfo) (base : ℤ) (proper : IsProper a)
    (hb : IsStep a.seconds_per_point base) where
  -- A block is of one or two points, since a third one is not a step from the block's start.
  pack_from-each :
      (q : DataPoint) (ps : List DataPoint) (f : FileData)
      → IsDistinct (q ∷ ps)
      → All (At a.seconds_per_point) (q ∷ ps)
      → write_blocks a base f (pack_from a.seconds_per_point q.interval (bytes q) ps)
        ≡ write_each a base f (q ∷ ps)
  unfolding write_blocks pack_from
  pack_from-each q [] f hd ha = write_block_one a base f q proper
  pack_from-each q (p ∷ []) f hd ha =
      let joined = p.interval ==ℤ (q.interval +ℤ pos a.seconds_per_point) in
      elim (Bool-cases joined) [
        | inl joins ↦ rw joins (write_block_two a base f q p proper hb ha.0 (eq_of_==ℤ _ _ joins))
        | inr other ↦
            rw (other, write_block_one a base f q proper) (write_block_one a base _ p proper)
      ]
  pack_from-each q (p ∷ r ∷ rs) f hd ha =
      let joined = p.interval ==ℤ (q.interval +ℤ pos a.seconds_per_point) in
      elim (Bool-cases joined) [
        | inl joins ↦
            let eq = eq_of_==ℤ p.interval (q.interval +ℤ pos a.seconds_per_point) joins in
            let next = ap (λ z. r.interval ==ℤ z) (sym eq) ∙ other_interval p r rs hd.1.0 in
            let rest = pack_from a.seconds_per_point r.interval (bytes r) rs in
            rw (joins, next)
              (ap (λ g. write_blocks a base g rest) (write_block_two a base f q p proper hb ha.0 eq)
                ∙ pack_from-each r rs _ hd.1.1 ha.1.1)
        | inr other ↦
            let rest = pack_from a.seconds_per_point p.interval (bytes p) (r ∷ rs) in
            rw other (
              ap (λ g. write_blocks a base g rest) (write_block_one a base f q proper)
              ∙ pack_from-each p (r ∷ rs) _ hd.1 ha.1)
      ]

-- The base that the intervals are counted from: that of the archive, or the first interval where the
-- archive has none.
abbrev pub first_base : ℕ → ℤ → ℤ
first_base zero first = first
first_base (suc base) first = pos (suc base)

first_of :
    (s : ℕ) (t : ℤ) (block : List ℕ) (ps : List DataPoint)
    → base_or_first (some 0) (pack_from s t block ps) ≡ some t
unfolding pack_from base_or_first
first_of s t block [] = refl
first_of s t block (p ∷ ps) = elim (Bool-cases (p.interval ==ℤ (t +ℤ pos s))) [
  | inl joins ↦ rw joins (first_of s t (block ++ bytes p) ps)
  | inr other ↦ rw (other, base_or_first) refl
]

pub pack_first :
    (a : ArchiveInfo) (q : DataPoint) (ps : List DataPoint) (k : ℕ)
    → base_or_first (some k) (pack_sequences a (q ∷ ps)) ≡ some (first_base k q.interval)
unfolding base_or_first pack_sequences
pack_first a q ps (suc k) = refl
pack_first a q ps zero = first_of a.seconds_per_point q.interval (bytes q) ps

pub first_base-IsStep :
    (s k : ℕ) (t : ℤ) → 0 < s → k % s ≡ 0 → IsStep s t → IsStep s (first_base k t)
unfolding scale
first_base-IsStep s zero t hs h ht = ht
first_base-IsStep s (suc k) t hs h ht =
    (pos (suc k / s), ground (arith, div-add-mod' (suc k) s, zero-mul s, h))

-- The blocks of points of different aligned intervals leave what single writes leave.
write_points-each :
    (f : FileData) (a : ArchiveInfo) (k : ℕ) (q : DataPoint) (ps : List DataPoint)
    → IsProper a
    → get_base_interval f a ≡ some k
    → k % a.seconds_per_point ≡ 0
    → IsDistinct (q ∷ ps)
    → All (At a.seconds_per_point) (q ∷ ps)
    → write_points f a (q ∷ ps) ≡ some (write_each a (first_base k q.interval) f (q ∷ ps))
unfolding write_points write_from pack_sequences
write_points-each f a k q ps proper hk whole hd ha =
    let base = first_base-IsStep a.seconds_per_point k q.interval proper.precise whole ha.0 in
    rw (hk, pack_first a q ps k)
      (ap some (pack_from-each a (first_base k q.interval) proper base q ps f hd ha))

pub align-IsStep : (a : ArchiveInfo) (t : ℤ) → IsStep a.seconds_per_point (align a t)
unfolding align floor_mod
align-IsStep a t =
    let s = a.seconds_per_point in
    let k = floor_div t s in
    (k, eq_of_parts _ _ (omega (arith, -ℤ_parts t (t -ℤ scale k s), -ℤ_parts t (scale k s))))

aligned-IsStep :
    (a : ArchiveInfo) (ts : List TimeSeriesPoint)
    → All (λ t. IsStep a.seconds_per_point (align a t.time)) ts
aligned-IsStep a [] = tt
aligned-IsStep a (t ∷ ts) = (align-IsStep a t.time, aligned-IsStep a ts)

-- In an archive that holds points and whose base interval k is a whole number of steps, the blocks of
-- the aligned points, of which those beyond the archive's end are written in two parts, leave the file
-- that a write of each aligned point at its own place leaves, one after the other, the places being
-- counted from k, or from the first point's interval where k is 0.
pub align_points-each :
    (f : FileData) (a : ArchiveInfo) (k : ℕ) (t : TimeSeriesPoint) (ts : List TimeSeriesPoint)
    → IsProper a
    → get_base_interval f a ≡ some k
    → k % a.seconds_per_point ≡ 0
    → write_points f a (align_points a (t ∷ ts))
      ≡ some (write_each a (first_base k (align a t.time)) f (align_points a (t ∷ ts)))
align_points-each f a k t ts proper hk whole =
    let (q, ps, eq, first) = align_points-Head a t ts in
    let distinct = subst IsDistinct eq (align_points-IsDistinct a (t ∷ ts)) in
    let steps =
      subst (All (At a.seconds_per_point)) eq
        (align_points-All a (t ∷ ts) (At a.seconds_per_point) (aligned-IsStep a (t ∷ ts))) in
    ap (write_points f a) eq
    ∙ (write_points-each f a k q ps proper hk whole distinct steps
        ∙ ap₂ (λ z l. some (write_each a (first_base k z) f l)) first (sym eq))
