-- ===== src/Whisper/UpdateMany/Window.antt =====
-- Which places PointOffset of whisper/whisper.go gives the intervals of neighbouring steps, as many as
-- the archive has points.
use native.Mathlib.Nat.{mod-eq_of_lt, add-mul-mod_self_left}
use buckytools.Prelude.{
  ℕ, ◌+◌, ◌*◌, ◌%◌, ◌≤◌, ◌<◌, ◌≡◌, sym, ap, ◌∙◌, ◌≢◌, ◌⊎◌, inl, inr, true, false, arith,
}
use buckytools.Prelude.Int.{
  ℤ, pos, pos_part, neg_part, ◌+ℤ◌, ◌-ℤ◌, +ℤ_parts, -ℤ_parts, parts_of_eq, ◌==ℤ◌, ==ℤ_refl,
}
use buckytools.Whisper.Mod.{floor_mod, floor_div, scale, residue, residue-lt, floor_mod-eq-residue}
use buckytools.Whisper.Archive.{ArchiveInfo, IsProper, point_offset}
use buckytools.Whisper.UpdateMany.Place.{point_offset-scale, scale_parts}

-- An interval among the archive's number of points of steps from one on.
abbrev pub IsWithin : ArchiveInfo → ℤ → ℤ → Type 0
IsWithin a from z =
    (i : ℕ) × (i < a.number_of_points) × (z ≡ scale (from +ℤ pos i) a.seconds_per_point)

-- An integer is its residue and a multiple of the divisor.
residue_parts :
    (z : ℤ) (n : ℕ)
    → 0 < n
    → pos_part z + neg_part (floor_div z n) * n
      ≡ neg_part z + residue z n + pos_part (floor_div z n) * n
unfolding floor_mod
residue_parts z n h =
    let d = floor_div z n in
    omega (arith, parts_of_eq (floor_mod-eq-residue z n h), -ℤ_parts z (scale d n), scale_parts d n)

same_rest : (r r' n x y : ℕ) → r < n → r' < n → r + n * x ≡ r' + n * y → r ≡ r'
same_rest r r' n x y h h' e =
    sym (mod-eq_of_lt h)
    ∙ (sym (add-mul-mod_self_left r n x)
        ∙ (ap (λ t. t % n) e ∙ (add-mul-mod_self_left r' n y ∙ mod-eq_of_lt h')))

-- Steps that are fewer apart than the divisor have different residues.
residue_injective :
    (from b : ℤ) (n i j : ℕ)
    → i < n
    → j < n
    → residue (from +ℤ pos i -ℤ b) n ≡ residue (from +ℤ pos j -ℤ b) n
    → i ≡ j
residue_injective from b n i j hi hj e =
    let z = from +ℤ pos i -ℤ b in
    let w = from +ℤ pos j -ℤ b in
    let d = floor_div z n in
    let c = floor_div w n in
    same_rest i j n (neg_part d + pos_part c) (pos_part d + neg_part c) hi hj (
      omega (
        arith,
        e,
        residue_parts z n (omega arith),
        residue_parts w n (omega arith),
        +ℤ_parts from (pos i),
        +ℤ_parts from (pos j),
        -ℤ_parts (from +ℤ pos i) b,
        -ℤ_parts (from +ℤ pos j) b,
      ))

-- Counted from another base whose own place is the first one, the residue is the same.
residue_rebase :
    (j p b : ℤ) (n : ℕ) → 0 < n → residue (p -ℤ b) n ≡ 0 → residue (j -ℤ p) n ≡ residue (j -ℤ b) n
residue_rebase j p b n h e =
    let d = floor_div (j -ℤ p) n in
    let c = floor_div (j -ℤ b) n in
    let g = floor_div (p -ℤ b) n in
    same_rest (residue (j -ℤ p) n) (residue (j -ℤ b) n) n (pos_part d + neg_part c + pos_part g)
      (neg_part d + pos_part c + neg_part g) (residue-lt (j -ℤ p) n h) (residue-lt (j -ℤ b) n h)
      (omega (
        arith,
        e,
        residue_parts (j -ℤ p) n h,
        residue_parts (j -ℤ b) n h,
        residue_parts (p -ℤ b) n h,
        -ℤ_parts j p,
        -ℤ_parts j b,
        -ℤ_parts p b,
      ))

-- The intervals of different steps have places that do not overlap.
pub point_offset_apart :
    (a : ArchiveInfo) (from b z w : ℤ)
    → IsProper a
    → IsWithin a from z
    → IsWithin a from w
    → (z ==ℤ w) ≡ false
    → (point_offset a (scale b a.seconds_per_point) z + 12
        ≤ point_offset a (scale b a.seconds_per_point) w)
      ⊎ (point_offset a (scale b a.seconds_per_point) w + 12
          ≤ point_offset a (scale b a.seconds_per_point) z)
point_offset_apart a from b z w proper (i, hi, ez) (j, hj, ew) apart =
    let s = a.seconds_per_point in
    let n = a.number_of_points in
    let place_z =
      ap (point_offset a (scale b s)) ez ∙ point_offset-scale a (from +ℤ pos i) b proper in
    let place_w =
      ap (point_offset a (scale b s)) ew ∙ point_offset-scale a (from +ℤ pos j) b proper in
    elim (apart_of (residue (from +ℤ pos i -ℤ b) n) (residue (from +ℤ pos j -ℤ b) n) (λ e.
      let same = residue_injective from b n i j hi hj e in
      let eq : z ≡ w = ez ∙ (ap (λ k. scale (from +ℤ pos k) s) same ∙ sym ew) in
      absurd (true_false (sym (==ℤ_refl z) ∙ (ap (λ k. z ==ℤ k) eq ∙ apart))))) [
        | inl less ↦ inl (omega (arith, place_z, place_w, less))
        | inr more ↦ inr (omega (arith, place_z, place_w, more))
      ]
  where
    true_false : true ≡ false → ⊥
    true_false h = cc

    apart_of : (m k : ℕ) → m ≢ k → (m < k) ⊎ (k < m)
    apart_of m k h = ground arith

-- The places are the same when they are counted from an interval at the archive's start.
pub point_offset_rebase :
    (a : ArchiveInfo) (j p b : ℤ)
    → IsProper a
    → point_offset a (scale b a.seconds_per_point) (scale p a.seconds_per_point) ≡ a.offset
    → point_offset a (scale p a.seconds_per_point) (scale j a.seconds_per_point)
      ≡ point_offset a (scale b a.seconds_per_point) (scale j a.seconds_per_point)
point_offset_rebase a j p b proper e =
    let start : residue (p -ℤ b) a.number_of_points ≡ 0 =
      omega (arith, e, point_offset-scale a p b proper) in
    point_offset-scale a j p proper
    ∙ (ap (λ r. a.offset + r * 12) (residue_rebase j p b a.number_of_points proper.holds start)
        ∙ sym (point_offset-scale a j b proper))
