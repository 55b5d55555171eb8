-- ===== src/Whisper/Update/Regions.antt =====
-- Which bytes of a file an Update changes: it writes points inside of the archives, and no others.
use buckytools.Prelude.{
  ℕ, zero, suc, ◌+◌, ◌*◌, ◌≤◌, ◌<◌, ◌≡◌, refl, ◌∙◌, ◌⊎◌, inl, inr, some, arith, ◌==◌, le→leb,
  Bool-cases, length, List,
}
use buckytools.Prelude.Int.{ℤ, pos}
use buckytools.Whisper.Bytes.{unpack_int}
use buckytools.Whisper.File.{
  FileData, read_at, read_ok, write_at, length-write_at, read_at-write_at_disjoint,
}
use buckytools.Whisper.Retention.{size}
use buckytools.Whisper.Archive.{
  ArchiveInfo, IsProper, point_offset, end_offset, point_offset-bounds,
}
use buckytools.Whisper.Point.{DataPoint, bytes, length-bytes}
use buckytools.Whisper.Update.{read_int, get_base_interval, get_point_offset, write_point}

-- An archive that holds points and lies in the file.
pub record InFile (file : FileData) (a : ArchiveInfo) : Type 0 where
  pub proper : IsProper a
  pub end_le : end_offset a ≤ length file

-- One of the five methods.
pub record IsMethod (method : ℕ) : Type 0 where
  pub positive : 0 < method
  pub small : method ≤ 5

-- A place for a point in an archive.
pub record Inside (a : ArchiveInfo) (offset : ℕ) : Type 0 where
  pub starts : a.offset ≤ offset
  pub ends : offset + 12 ≤ end_offset a
  pub whole : (offset ≡ a.offset) ⊎ (a.offset + 12 ≤ offset)

Inside-start : (a : ArchiveInfo) → IsProper a → Inside a a.offset
unfolding end_offset size
Inside-start a p = record {
  starts = omega arith;
  ends = let room : 12 ≤ a.number_of_points * 12 = let one = p.holds in omega arith in omega arith;
  whole = inl refl;
}

pub get_base_interval-InFile :
    (file : FileData) (a : ArchiveInfo)
    → InFile file a
    → get_base_interval file a ≡ some (unpack_int (read_at file a.offset 4))
unfolding get_base_interval read_int read_ok
get_base_interval-InFile file a h =
    let start = Inside-start a h.proper in
    let ends = start.ends in
    let len = h.end_le in let ok = le→leb (a.offset + 4) (length file) (omega arith) in rw ok refl

-- The place of an interval is a place for a point.
pub Inside-point_offset :
    (a : ArchiveInfo) (base t : ℤ) → IsProper a → Inside a (point_offset a base t)
Inside-point_offset a base t p =
    let (i, within, offset, last) = point_offset-bounds a base t p in
    record {
      starts = omega (arith, offset);
      ends = omega (arith, last);
      whole = whole_points i (point_offset a base t) offset;
    }
  where
    whole_points : (i o : ℕ) → o ≡ a.offset + i * 12 → (o ≡ a.offset) ⊎ (a.offset + 12 ≤ o)
    whole_points zero o e = inl (omega arith)
    whole_points (suc i) o e = inr (omega arith)

-- An archive in the file has a place for every interval, inside of it.
pub get_point_offset-Inside :
    (file : FileData) (t : ℤ) (a : ArchiveInfo)
    → InFile file a
    → (offset : ℕ) × (get_point_offset file t a ≡ some offset) × Inside a offset
unfolding get_point_offset
get_point_offset-Inside file t a h =
    let base = unpack_int (read_at file a.offset 4) in
    rw (get_base_interval-InFile file a h, get_point_offset)
      (elim (Bool-cases (base == 0)) [
        | inl e ↦ rw e (a.offset, refl, Inside-start a h.proper)
        | inr e ↦
            rw e (point_offset a (pos base) t, refl, Inside-point_offset a (pos base) t h.proper)
      ])

pub write_point-Inside :
    (file : FileData) (p : DataPoint) (a : ArchiveInfo)
    → InFile file a
    → (offset : ℕ) × (write_point file p a ≡ some (write_at file (bytes p) offset))
      × (get_point_offset file p.interval a ≡ some offset)
      × Inside a offset
unfolding write_point
write_point-Inside file p a h =
    let (offset, e, inside) = get_point_offset-Inside file p.interval a h in
    (offset, rw (e, write_point) refl, e, inside)

-- `g` is `f` with other bytes inside of an archive only.
pub record OnlyIn (a : ArchiveInfo) (f g : FileData) : Type 0 where
  pub same_length : length g ≡ length f
  pub outside : (o n : ℕ) → (o + n ≤ a.offset) ⊎ (end_offset a ≤ o) → read_at g o n ≡ read_at f o n

pub OnlyIn-refl : (a : ArchiveInfo) (f : FileData) → OnlyIn a f f
OnlyIn-refl a f = record { same_length = refl; outside = λ o n h. refl }

pub OnlyIn-trans : (a : ArchiveInfo) (f g h : FileData) → OnlyIn a f g → OnlyIn a g h → OnlyIn a f h
OnlyIn-trans a f g h fg gh = record {
  same_length = gh.same_length ∙ fg.same_length;
  outside = λ o n away. gh.outside o n away ∙ fg.outside o n away;
}

-- A write within an archive.
pub OnlyIn-write_at :
    (a : ArchiveInfo) (f : FileData) (bs : List ℕ) (offset : ℕ)
    → end_offset a ≤ length f
    → a.offset ≤ offset
    → offset + length bs ≤ end_offset a
    → OnlyIn a f (write_at f bs offset)
OnlyIn-write_at a f bs offset room starts ends = record {
  same_length = length-write_at f bs offset (omega arith);
  outside = λ o n away. read_at-write_at_disjoint f bs offset o n (apart o n away);
}
  where
    apart :
        (o n : ℕ)
        → (o + n ≤ a.offset) ⊎ (end_offset a ≤ o)
        → (o + n ≤ offset) ⊎ (offset + length bs ≤ o)
    apart o n (inl before) = inl (omega arith)
    apart o n (inr behind) = inr (omega arith)

pub OnlyIn-write :
    (a : ArchiveInfo) (f : FileData) (p : DataPoint) (offset : ℕ)
    → InFile f a
    → Inside a offset
    → OnlyIn a f (write_at f (bytes p) offset)
OnlyIn-write a f p offset h inside =
    let ends = inside.ends in
    OnlyIn-write_at a f (bytes p) offset h.end_le inside.starts
      (omega (arith, ends, length-bytes p))

pub InFile-OnlyIn :
    (a : ArchiveInfo) (f g : FileData) → OnlyIn a f g → (b : ArchiveInfo) → InFile f b → InFile g b
InFile-OnlyIn a f g c b h =
    let same = c.same_length in
    let ends = h.end_le in record { proper = h.proper; end_le = omega arith }

-- An archive in the file, behind a place in it.
pub record Behind (f : FileData) (place : ℕ) (a : ArchiveInfo) : Type 0 where
  pub in_file : InFile f a
  pub starts : place ≤ a.offset
