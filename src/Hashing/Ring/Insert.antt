-- ===== src/Hashing/Ring/Insert.antt =====
-- insertRing of hashing/hashing.go puts an entry in its place and keeps the others.
use buckytools.Prelude.{
  ℕ, zero, suc, ◌+◌, ◌-◌, ◌≤◌, ◌<◌, ◌≡◌, refl, sym, ap, inl, inr, List, [], ◌∷◌, ◌++◌, arith, ◌==◌,
  Bool-cases, length, set, take, drop, length-append, take-append, take_all, drop_all,
}
use buckytools.Hashing.Ring.{RingEntry, bisect_right, insert_ring, shift_up}

-- The entry at index i, and what stood there one place further.
unfoldable pub insert_at {ℓ} : {A : Type ℓ} → ℕ → A → List A → List A
insert_at i e xs = take i xs ++ (e ∷ drop i xs)

bisect_right-le : (ring : List RingEntry) (e : RingEntry) → bisect_right ring e ≤ length ring
unfolding bisect_right
bisect_right-le [] e = omega arith
bisect_right-le (x ∷ xs) e = ground (arith, bisect_right-le xs e)

set_shifted {ℓ} :
    {A : Type ℓ} (ring : List A) (e last : A) (i : ℕ)
    → i < length ring
    → set
        (take (suc i) (ring ++ (last ∷ []))
          ++ take (length ring - i) (drop i (ring ++ (last ∷ []))))
        i
        e
      ≡ insert_at i e ring
unfolding insert_at
set_shifted [] e last i h = absurd (omega arith)
set_shifted (x ∷ xs) e last zero h =
    let count : suc (length xs) - 0 ≡ suc (length xs) = omega arith in
    rw (count, take-append (length xs) xs (last ∷ []) refl)
set_shifted (x ∷ xs) e last (suc i) h =
    let count : suc (length xs) - suc i ≡ length xs - i = omega arith in
    rw count (ap (λ l. x ∷ l) (set_shifted xs e last i (omega arith)))

-- Where the entry does not go to the end.
pub set-shift_up {ℓ} :
    {A : Type ℓ} (ring : List A) (e : A) (i : ℕ)
    → i < length ring
    → set (shift_up (ring ++ (e ∷ [])) i) i e ≡ insert_at i e ring
unfolding shift_up
set-shift_up ring e i h =
    let up : i + 1 ≡ suc i = omega arith in
    let count : length (ring ++ (e ∷ [])) - 1 - i ≡ length ring - i =
      omega (arith, length-append ring (e ∷ [])) in
    rw (up, count) (set_shifted ring e e i h)

pub insert_at-length {ℓ} :
    {A : Type ℓ} (ring : List A) (e : A) (i : ℕ)
    → i ≡ length ring
    → insert_at i e ring ≡ ring ++ (e ∷ [])
unfolding insert_at
insert_at-length ring e i h = rw (take_all i ring (omega arith), drop_all i ring (omega arith))

-- `insertRing` grows the slice, moves its tail and writes the entry: this inserts it at the index
-- that `bisectRight` gives.
pub insert_ring-eq-insert_at :
    (ring : List RingEntry) (e : RingEntry)
    → insert_ring ring e ≡ insert_at (bisect_right ring e) e ring
unfolding insert_ring insert_at
insert_ring-eq-insert_at ring e =
    let i = bisect_right ring e in
    let bound = bisect_right-le ring e in
    let grown = length-append ring (e ∷ []) in
    elim (Bool-cases (i == length (ring ++ (e ∷ [])) - 1)) [
      | inl end ↦ rw end (sym (insert_at-length ring e i (ground (arith, grown))))
      | inr inside ↦ rw inside (set-shift_up ring e i (ground (arith, grown, bound)))
    ]
