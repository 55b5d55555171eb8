-- ===== src/Whisper/UpdateMany/Within.antt =====
-- The writes of archiveUpdateMany of whisper/whisper.go stay within its archive, whatever its points.
use mathlib.Core.Path.{subst}
use buckytools.Prelude.{
  ℕ, ◌+◌, ◌-◌, ◌≤◌, ◌≡◌, refl, sym, ap, ◌∙◌, inl, inr, some, List, [], ◌∷◌, ◌++◌, arith, ltb,
  ltb→lt, Bool-cases, length, take, drop, All, length-append, length-take, length-drop,
}
use buckytools.Prelude.Int.{ℤ, pos, ◌+ℤ◌, eq_of_==ℤ, ◌==ℤ◌}
use buckytools.Whisper.File.{FileData, read_at}
use buckytools.Whisper.Retention.{size}
use buckytools.Whisper.Archive.{ArchiveInfo, point_offset, point_offset-bounds, end_offset}
use buckytools.Whisper.Bytes.{unpack_int}
use buckytools.Whisper.Point.{DataPoint, bytes, length-bytes}
use buckytools.Whisper.Update.Regions.{
  InFile, OnlyIn, OnlyIn-refl, OnlyIn-trans, OnlyIn-write_at, InFile-OnlyIn,
  get_base_interval-InFile,
}
use buckytools.Whisper.UpdateMany.{
  TimeSeriesPoint, align_points, pack_from, pack_sequences, write_block, write_blocks, write_from,
  write_points,
}
use buckytools.Whisper.UpdateMany.Aligned.{IsDistinct, align_points-IsDistinct, align_points-Head}
use buckytools.Whisper.UpdateMany.Blocks.{first_base, other_interval, pack_first}

-- A block of two points at most.
abbrev IsShort : ℤ × List ℕ → Type 0
IsShort block = length block.1 ≤ 24

-- Wherever a block begins, its two parts lie in the archive.
write_block-OnlyIn :
    (a : ArchiveInfo) (base : ℤ) (f : FileData) (block : ℤ × List ℕ)
    → InFile f a
    → IsShort block
    → OnlyIn a f (write_block a base f block)
unfolding write_block end_offset size
write_block-OnlyIn a base f (interval, block) h short =
    let (i, less, place, inside) = point_offset-bounds a base interval h.proper in
    let offset = point_offset a base interval in
    let room = h.end_le in
    let beyond = offset + length block - end_offset a in
    let here = length block - beyond in
    let take_here = length-take here block in
    let drop_here = length-drop here block in
    elim (Bool-cases (ltb 0 beyond)) [
      | inl over ↦
          let positive = ltb→lt 0 beyond over in
          let first =
            OnlyIn-write_at a f (take here block) offset room (omega (arith, place))
              (omega (arith, place, inside, take_here, short)) in
          let len = first.same_length in
          rw over (
            OnlyIn-trans a f _ _ first (
              OnlyIn-write_at a _ (drop here block) a.offset (omega (arith, room, len))
                (omega arith) (omega (arith, place, inside, less, drop_here, short))))
      | inr fits ↦
          rw fits
            (OnlyIn-write_at a f block offset room (omega (arith, place)) (ground (arith, fits)))
    ]

write_blocks-OnlyIn :
    (a : ArchiveInfo) (base : ℤ) (blocks : List (ℤ × List ℕ)) (f : FileData)
    → InFile f a
    → All IsShort blocks
    → OnlyIn a f (write_blocks a base f blocks)
unfolding write_blocks
write_blocks-OnlyIn a base [] f h s = OnlyIn-refl a f
write_blocks-OnlyIn a base (b ∷ bs) f h s =
    let only = write_block-OnlyIn a base f b h s.0 in
    OnlyIn-trans a f _ _ only (write_blocks-OnlyIn a base bs _ (InFile-OnlyIn a f _ only a h) s.1)

one_short : (p : DataPoint) → length (bytes p) ≤ 24
one_short p = omega (arith, length-bytes p)

two_short : (q p : DataPoint) → length (bytes q ++ bytes p) ≤ 24
two_short q p = omega (arith, length-append (bytes q) (bytes p), length-bytes q, length-bytes p)

-- A third point is not a step from the start of a block.
pack_from-IsShort :
    (s : ℕ) (q : DataPoint) (ps : List DataPoint)
    → IsDistinct (q ∷ ps)
    → All IsShort (pack_from s q.interval (bytes q) ps)
unfolding pack_from
pack_from-IsShort s q [] d = (one_short q, tt)
pack_from-IsShort s q (p ∷ []) d = elim (Bool-cases (p.interval ==ℤ (q.interval +ℤ pos s))) [
  | inl joins ↦ rw joins ((two_short q p, tt))
  | inr other ↦ rw other ((one_short q, (one_short p, tt)))
]
pack_from-IsShort s q (p ∷ r ∷ rs) d = elim (Bool-cases (p.interval ==ℤ (q.interval +ℤ pos s))) [
  | inl joins ↦
      let eq = eq_of_==ℤ p.interval (q.interval +ℤ pos s) joins in
      let next = ap (λ z. r.interval ==ℤ z) (sym eq) ∙ other_interval p r rs d.1.0 in
      rw (joins, next) ((two_short q p, pack_from-IsShort s r rs d.1.1))
  | inr other ↦ rw other ((one_short q, pack_from-IsShort s p (r ∷ rs) d.1))
]

-- The writes to an archive have a base to count from, and change it only.
pub write_points-OnlyIn :
    (a : ArchiveInfo) (f : FileData) (t : TimeSeriesPoint) (ts : List TimeSeriesPoint)
    → InFile f a
    → (g : FileData) × (write_points f a (align_points a (t ∷ ts)) ≡ some g) × OnlyIn a f g
unfolding write_points write_from pack_sequences
write_points-OnlyIn a f t ts h =
    let (q, ps, eq, first) = align_points-Head a t ts in
    let distinct = subst IsDistinct eq (align_points-IsDistinct a (t ∷ ts)) in
    let k = unpack_int (read_at f a.offset 4) in
    let base = first_base k q.interval in
    let blocks = pack_sequences a (q ∷ ps) in
    rw (eq, get_base_interval-InFile f a h, pack_first a q ps k)
      (
        write_blocks a base f blocks,
        refl,
        write_blocks-OnlyIn a base blocks f h (pack_from-IsShort a.seconds_per_point q ps distinct),
      )
