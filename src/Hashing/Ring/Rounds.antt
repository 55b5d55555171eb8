-- ===== src/Hashing/Ring/Rounds.antt =====
-- The rounds that the walk of GetNodes (hashing/hashing.go) around the ring has left.
use native.Mathlib.Nat.{mod-lt, div-add-mod, div_self, div-eq_of_lt}
use buckytools.Prelude.{
  ℕ, suc, ◌+◌, ◌-◌, ◌*◌, ◌/◌, ◌<◌, ◌≡◌, ap, ◌∙◌, inl, inr, false, arith, leb, ◌==◌, if◌then◌else◌,
  ==_iff, Bool-cases, length,
}
use buckytools.Prelude.Text.{Text}
use buckytools.Hashing.Ring.{Hasher, HashRing, mod_int, start_index, bisect_left, key_entry}

pub mod_int_next :
    (index l : ℕ) → index < l → mod_int (index + 1) l ≡ (if index + 1 == l then 0 else index + 1)
unfolding mod_int
mod_int_next index l h = elim (Bool-cases (index + 1 == l)) [
  | inl end ↦
      let eq : index + 1 ≡ l = (==_iff (index + 1) l).0 end in
      let one = div_self {n = l} (omega (arith, h)) in
      rw end (ap (λ k. k - l * (k / l)) eq ∙ omega (arith, ap (λ q. l * q) one))
  | inr inner ↦
      let less : index + 1 < l = ground (arith, inner, h) in
      let nothing = div-eq_of_lt less in rw (inner, nothing) (omega arith)
]

-- The rounds that are left from an index to the one at which the walk ends.
pub rounds_left : ℕ → ℕ → ℕ → ℕ
rounds_left l start index = if leb start index then l - index + start - 1 else start - 1 - index

pub rounds_left-next :
    (l start index : ℕ)
    → 0 < start
    → start < l
    → index < l
    → (index + 1 == start) ≡ false
    → suc (rounds_left l start (if index + 1 == l then 0 else index + 1))
      ≡ rounds_left l start index
unfolding rounds_left
rounds_left-next l start index hs hl hi h = ground arith

pub rounds_left_start : (l start : ℕ) → start < l → rounds_left l start start < l
unfolding rounds_left
rounds_left_start l start h = ground arith

pub start_index-lt :
    (h : Hasher) (t : HashRing) (key : Text)
    → 0 < length t.ring
    → start_index h t key < length t.ring
unfolding start_index mod_int
start_index-lt h t key hl =
    let i = bisect_left t.ring (key_entry h key) in
    omega (arith, div-add-mod i (length t.ring), mod-lt i hl)
