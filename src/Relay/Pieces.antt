-- ===== src/Relay/Pieces.antt =====
-- What readSlice of cmd/bucky-pickle-relay/main.go makes of the pieces in which the bytes of a connection arrive.
use buckytools.Prelude.{
  ℕ, zero, suc, ◌+◌, ◌-◌, ◌≤◌, ◌≡◌, refl, sym, ap, ◌∙◌, inl, inr, false, none, some, List, [], ◌∷◌,
  ◌++◌, arith, ltb, ◌==◌, Bool-cases, length, take, drop, length-append,
}
use buckytools.Prelude.{take-append_left, drop-append_left, take-append_right, drop-append_right}
use buckytools.Relay.Frames.{NetError, read_pieces}

-- All the bytes of a connection.
abbrev pub bytes_of : List (List ℕ) → List ℕ
bytes_of [] = []
bytes_of (p ∷ ps) = p ++ bytes_of ps

-- A buffer is filled with the first bytes, and the others are left.
pub read_pieces-bytes_of :
    (ending : NetError) (n : ℕ) (ps : List (List ℕ))
    → n ≤ length (bytes_of ps)
    → (left : List (List ℕ)) × (read_pieces ending n ps
        ≡ (take n (bytes_of ps), record { pieces = left; ending = ending }, none))
      × (bytes_of left ≡ drop n (bytes_of ps))
unfolding read_pieces
read_pieces-bytes_of ending zero [] h = ([], refl, refl)
read_pieces-bytes_of ending (suc n) [] h = absurd (omega arith)
read_pieces-bytes_of ending zero (p ∷ ps) h = (p ∷ ps, refl, refl)
read_pieces-bytes_of ending (suc n) (p ∷ ps) h = elim (Bool-cases (ltb (suc n) (length p))) [
  | inl fits ↦
      let short : suc n ≤ length p = ground arith in
      let room : (suc n == 0) ≡ false = ground arith in
      (
        drop (suc n) p ∷ ps,
        rw (room, fits, take-append_left (suc n) p (bytes_of ps) short) refl,
        sym (drop-append_left (suc n) p (bytes_of ps) short),
      )
  | inr all ↦
      let m = suc n - length p in
      let room : (suc n == 0) ≡ false = ground arith in
      let size : suc n ≡ length p + m = ground arith in
      let enough : m ≤ length (bytes_of ps) = omega (arith, length-append p (bytes_of ps)) in
      let (left, e, f) = read_pieces-bytes_of ending m ps enough in
      (
        left,
        rw (room, all, e)
            (ap (λ l. (l, record { pieces = left; ending = ending }, none))
              (sym (take-append_right m p (bytes_of ps))
                ∙ ap (λ k. take k (p ++ bytes_of ps)) (sym size))),
        f
            ∙ sym (drop-append_right m p (bytes_of ps))
            ∙ ap (λ k. drop k (p ++ bytes_of ps)) (sym size),
      )
]

pub read_pieces_nothing :
    (ending : NetError) (n : ℕ) (ps : List (List ℕ))
    → bytes_of ps ≡ []
    → (read_pieces ending (suc n) ps).2 ≡ some ending
unfolding read_pieces
read_pieces_nothing ending n [] e = ground arith
read_pieces_nothing ending n ([] ∷ ps) e =
    let rest = read_pieces_nothing ending n ps e in ground arith
read_pieces_nothing ending n ((b ∷ p) ∷ ps) e = absurd cc
