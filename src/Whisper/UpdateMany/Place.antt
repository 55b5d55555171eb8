-- ===== src/Whisper/UpdateMany/Place.antt =====
-- Where PointOffset of whisper/whisper.go puts the intervals that are whole steps from the base.
use native.Mathlib.Nat.{
  mod-lt, mod-eq_of_lt, div-add-mod, add-mul-mod_self_left, mul-div_cancel, mod_self, zero-mul,
  suc-mul, zero-mod,
}
use buckytools.Prelude.{
  ℕ, zero, suc, ◌+◌, ◌-◌, ◌*◌, ◌/◌, ◌%◌, ◌≤◌, ◌<◌, ◌≡◌, sym, ap, ◌∙◌, ◌⊎◌, inl, inr, arith, ◌==◌,
  if◌then◌else◌,
}
use buckytools.Prelude.Int.{
  ℤ, pos, negsuc, pos_part, neg_part, sub_ℕ, ◌+ℤ◌, ◌-ℤ◌, +ℤ_parts, -ℤ_parts, eq_of_parts,
}
use buckytools.Whisper.Mod.{quotient, scale, residue, residue-lt}
use buckytools.Whisper.Archive.{ArchiveInfo, IsProper, point_offset, point_offset-eq}

pub scale_parts :
    (z : ℤ) (s : ℕ) → pos_part (scale z s) + neg_part z * s ≡ neg_part (scale z s) + pos_part z * s
unfolding scale
scale_parts z s = ground arith

quotient-scale : (k : ℤ) (s : ℕ) → 0 < s → quotient (scale k s) s ≡ k
unfolding quotient scale
quotient-scale (pos k) s h = ground (arith, zero-mul s, mul-div_cancel k h)
quotient-scale (negsuc k) s h =
    let positive : suc k * s ≡ suc (suc k * s - 1) = omega (arith, suc-mul k s) in
    let whole : sub_ℕ (0 * s) (suc k * s) ≡ negsuc (suc k * s - 1) =
      ground (arith, zero-mul s, positive) in
    ap (λ z. quotient z s) whole
    ∙ (ap (sub_ℕ 0) (ap (λ t. t / s) (sym (positive ∙ omega arith)) ∙ mul-div_cancel (suc k) h)
        ∙ minus k)
  where
    minus : (k : ℕ) → sub_ℕ 0 (suc k) ≡ negsuc k
    minus k = ground arith

scale_sub : (j k : ℤ) (s : ℕ) → scale j s -ℤ scale k s ≡ scale (j -ℤ k) s
scale_sub j k s =
    let mult = ap (λ t. t * s) (-ℤ_parts j k) in
    eq_of_parts _ _ (
      omega (
        arith,
        mult,
        scale_parts j s,
        scale_parts k s,
        scale_parts (j -ℤ k) s,
        -ℤ_parts (scale j s) (scale k s),
      ))

scale_next : (j : ℤ) (s : ℕ) → scale j s +ℤ pos s ≡ scale (j +ℤ pos 1) s
scale_next j s =
    let mult = ap (λ t. t * s) (+ℤ_parts j (pos 1)) in
    eq_of_parts _ _ (
      omega
        (arith, mult, scale_parts j s, scale_parts (j +ℤ pos 1) s, +ℤ_parts (scale j s) (pos s)))

lt_or_eq : (n m : ℕ) → suc m ≤ suc n → (m < n) ⊎ (m ≡ n)
lt_or_eq n m h = ground arith

next_mod : (k n : ℕ) → 0 < n → suc k % n ≡ (if suc (k % n) == n then 0 else suc (k % n))
next_mod k n h =
    let split : suc k ≡ suc (k % n) + n * (k / n) = omega (arith, div-add-mod k n) in
    let below = mod-lt k h in
    ap (λ t. t % n) split
    ∙ (add-mul-mod_self_left (suc (k % n)) n (k / n)
        ∙ elim (lt_or_eq n (suc (k % n)) (omega (arith, below))) [
          | inl less ↦ mod-eq_of_lt less ∙ ground arith
          | inr eq ↦ ap (λ t. t % n) eq ∙ (mod_self n ∙ ground arith)
        ])

-- The place behind the last one is the first.
residue_next :
    (k : ℤ) (n : ℕ)
    → 0 < n
    → residue (k +ℤ pos 1) n ≡ (if suc (residue k n) == n then 0 else suc (residue k n))
unfolding ◌+ℤ◌
residue_next (pos k) n h = ground (arith, next_mod k n h)
residue_next (negsuc zero) n h = ground (arith, zero-mod n)
residue_next (negsuc (suc k)) n h = ground (arith, next_mod k n h, mod-lt k h)

-- The place of an interval that is whole steps from the base.
pub point_offset-scale :
    (a : ArchiveInfo) (j b : ℤ)
    → IsProper a
    → point_offset a (scale b a.seconds_per_point) (scale j a.seconds_per_point)
      ≡ a.offset + residue (j -ℤ b) a.number_of_points * 12
point_offset-scale a j b p =
    let s = a.seconds_per_point in
    let steps : quotient (scale j s -ℤ scale b s) s ≡ j -ℤ b =
      ap (λ z. quotient z s) (scale_sub j b s) ∙ quotient-scale (j -ℤ b) s p.precise in
    point_offset-eq a (scale b s) (scale j s) p
    ∙ ap (λ z. a.offset + residue z a.number_of_points * 12) steps

-- The place of the interval behind another one that is whole steps from the base.
pub point_offset_next :
    (a : ArchiveInfo) (j b : ℤ)
    → IsProper a
    → (i : ℕ) × (i < a.number_of_points)
      × (point_offset a (scale b a.seconds_per_point) (scale j a.seconds_per_point)
          ≡ a.offset + i * 12)
      × (point_offset a
            (scale b a.seconds_per_point)
            (scale j a.seconds_per_point +ℤ pos a.seconds_per_point)
          ≡ a.offset + (if suc i == a.number_of_points then 0 else suc i) * 12)
point_offset_next a j b p =
    let s = a.seconds_per_point in
    let n = a.number_of_points in
    let shifted : j +ℤ pos 1 -ℤ b ≡ j -ℤ b +ℤ pos 1 = eq_of_parts _ _ (
      omega (
        arith,
        -ℤ_parts (j +ℤ pos 1) b,
        +ℤ_parts j (pos 1),
        -ℤ_parts j b,
        +ℤ_parts (j -ℤ b) (pos 1),
      )) in
    (
      residue (j -ℤ b) n,
      residue-lt (j -ℤ b) n p.holds,
      point_offset-scale a j b p,
      ap (point_offset a (scale b s)) (scale_next j s)
          ∙ (point_offset-scale a (j +ℤ pos 1) b p
              ∙ (ap (λ z. a.offset + residue z n * 12) shifted
                  ∙ ap (λ i. a.offset + i * 12) (residue_next (j -ℤ b) n p.holds))),
    )
