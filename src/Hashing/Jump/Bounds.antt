-- ===== src/Hashing/Jump/Bounds.antt =====
-- Jump of hashing/jump.go ends, and its result is a bucket.
use buckytools.Prelude.{
  ℕ, zero, suc, ◌+◌, ◌*◌, ◌/◌, ◌%◌, ◌^◌, ◌≤◌, ◌<◌, ◌≡◌, inl, inr, some, arith, ltb, ltb→lt, lt→ltb,
  Bool-cases,
}
use buckytools.Prelude.Int.{pos}
use buckytools.Hashing.Jump.{Float64, next_bucket, jump_loop, jump, u64}

-- What the loop relies on of float64 arithmetic: x * (2^31 / k) is not below x, for k up to 2^31 and
-- x up to 2^31. (IEEE division and multiplication round monotonically, and x is exact.)
abbrev pub Grows : Float64 → Type 0
Grows fl =
    (x k : ℕ)
    → x ≤ 2 ^ 31
    → k < 2 ^ 31
    → x
      ≤ fl.to_int
          (fl.times (fl.from_int x) (fl.divide (fl.from_int (2 ^ 31)) (fl.from_int (k + 1))))

-- The next value of the generator.
abbrev next_key : ℕ → ℕ
next_key key = (key * 2862933555777941757 + 1) % u64

module _ (fl : Float64) (grows : Grows fl) where
  next_bucket-gt : (j key : ℕ) → j < 2 ^ 31 → key < u64 → j < next_bucket fl j key
  unfolding next_bucket
  next_bucket-gt j key b h = omega (arith, grows (j + 1) (key / 2 ^ 33) (omega arith) (omega arith))

  jump_loop-lt :
      (fuel buckets key b j : ℕ)
      → buckets ≤ 2 ^ 31
      → b < buckets
      → 0 < fuel
      → buckets < j + fuel
      → (r : ℕ) × (jump_loop fl fuel buckets key (pos b) j ≡ some (pos r)) × (r < buckets)
  unfolding jump_loop
  jump_loop-lt zero buckets key b j small h f e = absurd (omega arith)
  jump_loop-lt (suc fuel) buckets key b j small h f e = elim (Bool-cases (ltb j buckets)) [
    | inr done ↦ (b, rw done, h)
    | inl more ↦
        let lt = ltb→lt j buckets more in
        let grow = next_bucket-gt j (next_key key) (omega arith) (omega arith) in
        let (r, e', inside) =
          jump_loop-lt fuel buckets (next_key key) j (next_bucket fl j (next_key key)) small lt
            (omega arith) (omega arith) in
        (r, rw more e', inside)
  ]

  -- With 1 to 2^31 buckets the loop ends in as many rounds as there are buckets, and the result is
  -- the index of a bucket.
  pub jump-lt :
      (key buckets : ℕ)
      → 0 < buckets
      → buckets ≤ 2 ^ 31
      → (r : ℕ) × (jump fl key buckets ≡ some (pos r)) × (r < buckets)
  unfolding jump
  jump-lt key buckets h small =
      let grow = next_bucket-gt 0 (next_key key) (omega arith) (omega arith) in
      let (r, e, inside) =
        jump_loop-lt buckets buckets (next_key key) 0 (next_bucket fl 0 (next_key key)) small h h
          (omega arith) in
      (r, rw (lt→ltb 0 buckets h) e, inside)
