-- ===== src/Whisper/Mod.antt =====
-- The arithmetic of whisper/whisper.go on numbers of either sign: its Python-like mod, and Go's
-- division. mod goes through float64, which is exact for numbers below 2 ^ 53; its divisor is not 0.
use native.Mathlib.Nat.{div-add-mod', mod-lt, zero-mul, suc-mul}
use buckytools.Prelude.{ℕ, ◌+◌, ◌-◌, ◌*◌, ◌/◌, ◌%◌, ◌<◌, ◌≡◌, arith}
use buckytools.Prelude.Int.{ℤ, pos, negsuc, pos_part, neg_part, sub_ℕ, ◌-ℤ◌}

-- `math.Floor(float64(a) / float64(b))`.
unfoldable pub floor_div : ℤ → ℕ → ℤ
floor_div (pos n) b = pos (n / b)
floor_div (negsuc n) b = negsuc (n / b)

unfoldable pub scale : ℤ → ℕ → ℤ
scale a b = sub_ℕ (pos_part a * b) (neg_part a * b)

unfoldable pub floor_mod : ℤ → ℕ → ℤ
unfolding floor_div scale
floor_mod a b = a -ℤ scale (floor_div a b) b

-- Go's `a / b`, towards zero.
unfoldable pub quotient : ℤ → ℕ → ℤ
quotient (pos n) b = pos (n / b)
quotient (negsuc n) b = sub_ℕ 0 ((n + 1) / b)

-- What `floor_mod` computes, as a number below the divisor.
abbrev pub residue : ℤ → ℕ → ℕ
residue (pos n) b = n % b
residue (negsuc n) b = b - 1 - n % b

pub residue-lt : (a : ℤ) (b : ℕ) → 0 < b → residue a b < b
residue-lt (pos n) b h = mod-lt n h
residue-lt (negsuc n) b h = omega arith

-- For a divisor that is not 0, `mod` gives the residue between 0 and the divisor, for a number of
-- either sign.
pub floor_mod-eq-residue : (a : ℤ) (b : ℕ) → 0 < b → floor_mod a b ≡ pos (residue a b)
unfolding floor_mod ◌-ℤ◌
floor_mod-eq-residue (pos n) b h = ground (arith, div-add-mod' n b, zero-mul b)
floor_mod-eq-residue (negsuc n) b h =
    ground (arith, div-add-mod' n b, zero-mul b, mod-lt n h, suc-mul (n / b) b)
