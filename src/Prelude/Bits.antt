-- ===== src/Prelude/Bits.antt =====
-- How large the results of the bit operations are.
use Prim.Native.Nat.{bit_and, bit_xor, digits, differ, bit_and-bitwise, bit_xor-bitwise}
use native.Mathlib.Nat.{pow-suc}
use Prim.Native.Nat.{ℕ, zero, suc, ◌*◌, ◌/◌, ◌%◌, ◌^◌, ◌≤◌, ◌<◌, min}
use mathlib.Core.Path.{◌≡◌}
use native.Mathlib.Omega.{arith}

differ-le : (x y : ℕ) → x ≤ 1 → y ≤ 1 → differ x y ≤ 1
differ-le zero y h k = k
differ-le (suc zero) zero h k = h
differ-le (suc zero) (suc zero) h k = omega arith
differ-le (suc zero) (suc (suc y)) h k = absurd (omega arith)
differ-le (suc (suc x)) y h k = absurd (omega arith)

xor_digits-lt : (n k a b : ℕ) → a < 2 ^ k → b < 2 ^ k → digits (λ b. b) differ n a b < 2 ^ k
xor_digits-lt zero k a b h g = g
xor_digits-lt (suc n) k zero b h g = g
xor_digits-lt (suc n) zero (suc a) b h g = absurd (omega arith)
xor_digits-lt (suc n) (suc k) (suc a) b h g =
    let power : 2 ^ suc k ≡ 2 ^ k * 2 = pow-suc 2 k in
    let rest =
      xor_digits-lt n k (suc a / 2) (b / 2) (omega (arith, power)) (omega (arith, power)) in
    let digit = differ-le (suc a % 2) (b % 2) (omega arith) (omega arith) in
    omega (arith, power, rest, digit)

-- An exclusive or has no more digits than its arguments.
pub bit_xor-lt : (k a b : ℕ) → a < 2 ^ k → b < 2 ^ k → bit_xor a b < 2 ^ k
bit_xor-lt k a b h g = omega (arith, bit_xor-bitwise a b, xor_digits-lt a k a b h g)

and_digits-le : (n a b : ℕ) → digits (λ b. zero) min n a b ≤ b
and_digits-le zero a b = omega arith
and_digits-le (suc n) zero b = omega arith
and_digits-le (suc n) (suc a) b = omega (arith, and_digits-le n (suc a / 2) (b / 2))

pub bit_and-le : (a b : ℕ) → bit_and a b ≤ b
bit_and-le a b = omega (arith, bit_and-bitwise a b, and_digits-le a a b)
