-- ===== src/Whisper/Update/Place.antt =====
-- The place that getPointOffset of whisper/whisper.go gives an interval is kept by a write there.
use buckytools.Prelude.{
  ℕ, ◌+◌, ◌≤◌, ◌≡◌, refl, sym, ap, ◌∙◌, ◌≢◌, ◌⊎◌, inl, inr, some, arith, ◌==◌, Bool-cases,
}
use buckytools.Prelude.Int.{ℤ, pos, ◌-ℤ◌, -ℤ_parts, eq_of_parts}
use native.Mathlib.Nat.{mod-eq_of_lt, zero-div, zero-mul}
use buckytools.Prelude.Index.{get_or, get_or-append_lt}
use buckytools.Whisper.Bytes.{
  unpack_int, word_from, to_u32, put_word, length-put_word, word_from-put_word,
}
use buckytools.Whisper.Mod.{floor_mod, quotient, scale, floor_div}
use buckytools.Whisper.File.{
  FileData, read_at, write_at, read_at-write_at_disjoint, read_at_of_bytes, byte_at-write_at_in,
}
use buckytools.Whisper.Retention.{size}
use buckytools.Whisper.Archive.{ArchiveInfo, point_offset}
use buckytools.Whisper.Point.{DataPoint, Fits, bytes, bytes_lem, length-bytes}
use buckytools.Whisper.Update.{get_base_interval, get_point_offset}
use buckytools.Whisper.Update.Regions.{InFile, Inside, get_base_interval-InFile}

floor_mod_zero : (b : ℕ) → floor_mod (pos 0) b ≡ pos 0
unfolding floor_mod floor_div scale ◌-ℤ◌
floor_mod_zero b = ground (arith, zero-div b, zero-mul b)

quotient_zero : (b : ℕ) → quotient (pos 0) b ≡ pos 0
unfolding quotient
quotient_zero b = ap pos (zero-div b)

pub point_offset_base : (a : ArchiveInfo) (t : ℕ) → point_offset a (pos t) (pos t) ≡ a.offset
unfolding point_offset scale
point_offset_base a t =
    let none_apart : pos t -ℤ pos t ≡ pos 0 =
      eq_of_parts _ (pos 0) (omega (arith, -ℤ_parts (pos t) (pos t))) in
    rw (none_apart, quotient_zero a.seconds_per_point, floor_mod_zero (size a.retention))
      (omega arith)

-- A read of the first word of a point at its place.
read_at_interval :
    (f : FileData) (p : DataPoint) (offset : ℕ)
    → read_at (write_at f (bytes p) offset) offset 4 ≡ put_word 4 (to_u32 p.interval)
read_at_interval f p offset =
    let four = length-put_word 4 (to_u32 p.interval) in
    let twelve = length-bytes p in
    ap (read_at (write_at f (bytes p) offset) offset) (sym four)
    ∙ read_at_of_bytes (write_at f (bytes p) offset) (put_word 4 (to_u32 p.interval)) offset
        (λ j lt.
          byte_at-write_at_in f (bytes p) offset j (omega (arith, twelve, four, lt))
          ∙ (ap (λ l. get_or l j 0) (bytes_lem p)
              ∙ get_or-append_lt (put_word 4 (to_u32 p.interval)) (put_word 8 p.value) j 0 lt))

pub same_base :
    (f g : FileData) (t : ℤ) (a : ArchiveInfo)
    → InFile f a
    → InFile g a
    → read_at f a.offset 4 ≡ read_at g a.offset 4
    → get_point_offset f t a ≡ get_point_offset g t a
unfolding get_point_offset
same_base f g t a hf hg e =
    rw (get_base_interval-InFile f a hf, get_base_interval-InFile g a hg, e, get_point_offset) refl

-- The first word of a written point is its time.
word_of_time :
    (f : FileData) (p : DataPoint) (offset : ℕ)
    → (fits : Fits p) → unpack_int (read_at (write_at f (bytes p) offset) offset 4) ≡ fits.time
unfolding unpack_int
word_of_time f p offset fits =
    ap (word_from 0) (read_at_interval f p offset)
    ∙ (ap (λ t. word_from 0 (put_word 4 (to_u32 t))) fits.interval_eq
        ∙ (ap (λ v. word_from 0 (put_word 4 v)) (mod-eq_of_lt fits.time_lt)
            ∙ word_from-put_word 4 fits.time fits.time_lt))

-- A point that is written at an archive's start sets its base interval.
pub get_base_interval-start :
    (f : FileData) (p : DataPoint) (a : ArchiveInfo) (offset : ℕ)
    → (fits : Fits p) → InFile (write_at f (bytes p) offset) a
    → offset ≡ a.offset
    → get_base_interval (write_at f (bytes p) offset) a ≡ some fits.time
get_base_interval-start f p a offset fits hg start =
    let g = write_at f (bytes p) offset in
    get_base_interval-InFile g a hg
    ∙ ap some (ap (λ o. unpack_int (read_at g o 4)) (sym start) ∙ word_of_time f p offset fits)

-- The place of a point stays its place after it is written there.
pub place_kept :
    (f : FileData) (p : DataPoint) (a : ArchiveInfo) (offset : ℕ)
    → Fits p
    → InFile f a
    → InFile (write_at f (bytes p) offset) a
    → Inside a offset
    → get_point_offset f p.interval a ≡ some offset
    → get_point_offset (write_at f (bytes p) offset) p.interval a ≡ some offset
unfolding get_point_offset
place_kept f p a offset fits hf hg inside e = elim inside.whole [
  | inr behind ↦
      let same = read_at-write_at_disjoint f (bytes p) offset a.offset 4 (inl (omega arith)) in
      sym (same_base f (write_at f (bytes p) offset) p.interval a hf hg (sym same)) ∙ e
  | inl start ↦
      let time_eq = fits.interval_eq in
      rw (get_base_interval-start f p a offset fits hg start, time_eq, start, get_point_offset)
        (elim (Bool-cases (fits.time == 0)) [
          | inl zero_base ↦ rw zero_base refl
          | inr other ↦ rw other (ap some (point_offset_base a fits.time))
        ])
]

-- The time of an archive's first point after a write: that of the point written, or what it was, if an
-- earlier write has set it.
abbrev pub BaseAfter : FileData → FileData → ArchiveInfo → ℕ → Type 0
BaseAfter f g a time =
    (k : ℕ) × (get_base_interval g a ≡ some k)
    × ((k ≡ time) ⊎ ((get_base_interval f a ≡ some k) × (k ≢ 0)))

pub write_at-BaseAfter :
    (f : FileData) (p : DataPoint) (a : ArchiveInfo) (offset : ℕ)
    → (fits : Fits p) → InFile f a
    → InFile (write_at f (bytes p) offset) a
    → Inside a offset
    → get_point_offset f p.interval a ≡ some offset
    → BaseAfter f (write_at f (bytes p) offset) a fits.time
unfolding unpack_int get_point_offset
write_at-BaseAfter f p a offset fits hf hg inside e = elim inside.whole [
  | inl start ↦ (fits.time, get_base_interval-start f p a offset fits hg start, inl refl)
  | inr behind ↦
      let g = write_at f (bytes p) offset in
      let k = unpack_int (read_at f a.offset 4) in
      let same = read_at-write_at_disjoint f (bytes p) offset a.offset 4 (inl (omega arith)) in
      let before = get_base_interval-InFile f a hf in
      let fresh : k ≡ 0 → ⊥ = λ z. nowhere behind (at_start before z ∙ e) in
      (k, get_base_interval-InFile g a hg ∙ ap (λ l. some (unpack_int l)) same, inr (before, fresh))
]
  where
    at_start :
        get_base_interval f a ≡ some (unpack_int (read_at f a.offset 4))
        → unpack_int (read_at f a.offset 4) ≡ 0
        → some a.offset ≡ get_point_offset f p.interval a
    at_start b z = sym (rw (b, z, get_point_offset) refl)

    nowhere : a.offset + 12 ≤ offset → some a.offset ≡ some offset → ⊥
    nowhere h w = let eq : a.offset ≡ offset = cc in absurd (omega arith)
