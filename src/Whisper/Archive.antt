-- ===== src/Whisper/Archive.antt =====
-- archiveInfo of whisper/whisper.go: where a point of time lies in an archive.
use native.Mathlib.Nat.{mod-lt, mod-eq_of_lt, div-add-mod, add-mul-mod_self_left}
use buckytools.Prelude.{ℕ, suc, ◌+◌, ◌-◌, ◌*◌, ◌/◌, ◌%◌, ◌≤◌, ◌<◌, ◌≡◌, ap, ◌∙◌, arith}
use buckytools.Prelude.Int.{ℤ, pos, negsuc, pos_part, ◌+ℤ◌, ◌-ℤ◌}
use buckytools.Whisper.Mod.{floor_mod, quotient, scale, residue, residue-lt, floor_mod-eq-residue}
use buckytools.Whisper.Retention.{Retention, point_size, size}

pub record ArchiveInfo : Type 0 where
  pub retention : Retention
  pub open retention use *
  pub offset : ℕ

-- `PointOffset`: the sum is not negative, since `mod` is not.
unfoldable pub point_offset : ArchiveInfo → ℤ → ℤ → ℕ
point_offset archive base_interval interval =
    let time_distance = interval -ℤ base_interval in
    let point_distance = quotient time_distance archive.seconds_per_point in
    let byte_distance = scale point_distance point_size in
    archive.offset + pos_part (floor_mod byte_distance (size archive.retention))

-- `End`.
unfoldable pub end_offset : ArchiveInfo → ℕ
end_offset archive = archive.offset + size archive.retention

-- `Interval`.
unfoldable pub interval_after : ArchiveInfo → ℤ → ℤ
interval_after archive time =
    time -ℤ floor_mod time archive.seconds_per_point +ℤ pos archive.seconds_per_point

-- The start of the interval that a time lies in: `timestamp - mod(timestamp, secondsPerPoint)`.
unfoldable pub align : ArchiveInfo → ℤ → ℤ
align archive time = time -ℤ floor_mod time archive.seconds_per_point

-- An archive that holds points.
pub record IsProper (a : ArchiveInfo) : Type 0 where
  pub precise : 0 < a.seconds_per_point
  pub holds : 0 < a.number_of_points

-- The residue of a place in units of 12 bytes.
twelfth_mod : (k n c : ℕ) → 0 < n → c < 12 → (k * 12 + c) % (n * 12) ≡ k % n * 12 + c
twelfth_mod k n c h small =
    let split : k * 12 + c ≡ k % n * 12 + c + n * 12 * (k / n) =
      omega (arith, ap (λ (t : ℕ). t * 12) (div-add-mod k n)) in
    let below = mod-lt k h in
    rw (split, add-mul-mod_self_left (k % n * 12 + c) (n * 12) (k / n))
      (mod-eq_of_lt (omega (arith, below)))

residue-scale : (q : ℤ) (n : ℕ) → 0 < n → residue (scale q 12) (n * 12) ≡ residue q n * 12
unfolding scale
residue-scale (pos k) n h =
    let zero_off : k * 12 + 0 ≡ k * 12 = omega arith in
    ground (arith, twelfth_mod k n 0 h (omega arith), zero_off)
residue-scale (negsuc k) n h =
    let eleven : suc k * 12 - 0 - 1 ≡ k * 12 + 11 = omega arith in
    ground (arith, twelfth_mod k n 11 h (omega arith), mod-lt k h, eleven)

-- What `mod` makes of a distance in bytes.
floor_mod-scale : (q : ℤ) (n : ℕ) → 0 < n → floor_mod (scale q 12) (n * 12) ≡ pos (residue q n * 12)
floor_mod-scale q n h =
    floor_mod-eq-residue (scale q 12) (n * 12) (omega arith) ∙ ap pos (residue-scale q n h)

-- The place of a point, as a number of points.
pub point_offset-eq :
    (a : ArchiveInfo) (base interval : ℤ)
    → IsProper a
    → point_offset a base interval
      ≡ a.offset + residue (quotient (interval -ℤ base) a.seconds_per_point) a.number_of_points * 12
unfolding point_offset size
point_offset-eq a base interval p =
    ap (λ z. a.offset + pos_part z)
      (floor_mod-scale (quotient (interval -ℤ base) a.seconds_per_point) a.number_of_points p.holds)

-- The offset of a point lies within its archive, with room for the point, and is a whole number of
-- points from the archive's start.
pub point_offset-bounds :
    (a : ArchiveInfo) (base interval : ℤ)
    → IsProper a
    → (i : ℕ) × (i < a.number_of_points)
      × (point_offset a base interval ≡ a.offset + i * point_size)
      × (point_offset a base interval + point_size ≤ end_offset a)
unfolding point_offset end_offset size
point_offset-bounds a base interval p =
    let q = quotient (interval -ℤ base) a.seconds_per_point in
    let i = residue q a.number_of_points in
    let inside = residue-lt q a.number_of_points p.holds in
    let offset = ap pos_part (floor_mod-scale q a.number_of_points p.holds) in
    (i, inside, ap (λ k. a.offset + k) offset, omega (arith, offset, inside))
