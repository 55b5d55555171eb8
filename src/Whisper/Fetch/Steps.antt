-- ===== src/Whisper/Fetch/Steps.antt =====
-- The places of two intervals that follow one another, by the arithmetic of PointOffset of
-- whisper/whisper.go.
use native.Mathlib.Nat.{
  mod-lt, mod-eq_of_lt, div-add-mod, add-mul-mod_self_left, mul-add, add-mul, mul-div_cancel,
}
use buckytools.Prelude.{
  ℕ, zero, suc, ◌+◌, ◌-◌, ◌*◌, ◌/◌, ◌%◌, ◌<◌, ◌≡◌, refl, sym, ap, ◌∙◌, inl, inr, arith, ltb, ◌==◌,
  if◌then◌else◌, ltb→lt, ==_iff, Bool-cases,
}
use buckytools.Prelude.Int.{ℤ, pos, negsuc, pos_part, neg_part, ◌-ℤ◌, -ℤ_parts, eq_of_parts}
use buckytools.Whisper.Mod.{quotient, residue}

-- The next number, and the next place in a ring of n.
abbrev pub next : ℤ → ℤ
next (pos m) = pos (m + 1)
next (negsuc zero) = pos 0
next (negsuc (suc m)) = negsuc m

abbrev pub next_place : ℕ → ℕ → ℕ
next_place n i = if (i + 1) == n then 0 else i + 1

mod_next : (m n : ℕ) → 0 < n → (m + 1) % n ≡ next_place n (m % n)
mod_next m n h =
    let split = div-add-mod m n in
    let below = mod-lt m h in
    elim (Bool-cases ((m % n + 1) == n)) [
      | inl full ↦
          let eq = (==_iff (m % n + 1) n).0 full in
          let whole : m + 1 ≡ 0 + n * (m / n + 1) = omega (arith, split, eq, mul-add n (m / n) 1) in
          rw full (ap (λ k. k % n) whole ∙ (add-mul-mod_self_left 0 n (m / n + 1) ∙ mod-eq_of_lt h))
      | inr room ↦
          let whole : m + 1 ≡ m % n + 1 + n * (m / n) = omega (arith, split) in
          let lt : m % n + 1 < n = ground arith in
          rw room (
            ap (λ k. k % n) whole ∙ (add-mul-mod_self_left (m % n + 1) n (m / n) ∙ mod-eq_of_lt lt))
    ]

pub residue-next : (x : ℤ) (n : ℕ) → 0 < n → residue (next x) n ≡ next_place n (residue x n)
residue-next (pos m) n h = mod_next m n h
residue-next (negsuc zero) n h = ground (arith, mod-eq_of_lt h)
residue-next (negsuc (suc m)) n h = let step = mod_next m n h in ground (arith, step, mod-lt m h)

next_parts : (x : ℤ) → pos_part (next x) + neg_part x ≡ neg_part (next x) + pos_part x + 1
next_parts (pos m) = omega arith
next_parts (negsuc zero) = omega arith
next_parts (negsuc (suc m)) = omega arith

pub next-sub : (u b : ℕ) → pos (suc u) -ℤ pos b ≡ next (pos u -ℤ pos b)
next-sub u b = eq_of_parts _ (next (pos u -ℤ pos b)) (
    omega (
      arith,
      next_parts (pos u -ℤ pos b),
      -ℤ_parts (pos u) (pos b),
      -ℤ_parts (pos (suc u)) (pos b),
    ))

-- Division is exact for a multiple.
pub quotient_exact : (u b s : ℕ) → 0 < s → quotient (pos (u * s) -ℤ pos (b * s)) s ≡ pos u -ℤ pos b
unfolding quotient
quotient_exact u b s h = elim (Bool-cases (ltb u b)) [
  | inr above ↦
      let le : b + (u - b) ≡ u = ground arith in
      let split : u * s ≡ b * s + (u - b) * s = ap (λ k. k * s) (sym le) ∙ add-mul b (u - b) s in
      let distance : pos (u * s) -ℤ pos (b * s) ≡ pos ((u - b) * s) =
        eq_of_parts _ (pos ((u - b) * s))
          (omega (arith, split, -ℤ_parts (pos (u * s)) (pos (b * s)))) in
      let result : pos u -ℤ pos b ≡ pos (u - b) =
        eq_of_parts _ (pos (u - b)) (omega (arith, le, -ℤ_parts (pos u) (pos b))) in
      rw (distance, result, mul-div_cancel (u - b) h) refl
  | inl below ↦
      let lt = ltb→lt u b below in
      let d = b - u - 1 in
      let le : u + suc d ≡ b = omega arith in
      let split : b * s ≡ u * s + suc d * s = ap (λ k. k * s) (sym le) ∙ add-mul u (suc d) s in
      let positive : suc d * s ≡ suc (suc d * s - 1) = omega (arith, add-mul 1 d s) in
      let distance : pos (u * s) -ℤ pos (b * s) ≡ negsuc (suc d * s - 1) =
        eq_of_parts _ (negsuc (suc d * s - 1))
          (omega (arith, split, positive, -ℤ_parts (pos (u * s)) (pos (b * s)))) in
      let result : pos u -ℤ pos b ≡ negsuc d =
        eq_of_parts _ (negsuc d) (omega (arith, le, -ℤ_parts (pos u) (pos b))) in
      let whole : (suc d * s - 1 + 1) / s ≡ suc d =
        ap (λ k. k / s) {x = suc d * s - 1 + 1} {y = suc d * s} (omega (arith, positive))
        ∙ mul-div_cancel (suc d) h in
      rw (distance, result, whole) (ground arith)
]
