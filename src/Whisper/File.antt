-- ===== src/Whisper/File.antt =====
-- The bytes of an open file: os.File's WriteAt and ReadAt. A write past the end fills the gap with
-- zeros. A read past the end leaves the buffer's zeros, and is an error. Other errors of the disk are
-- not modelled.
use native.Mathlib.Decide.{dec_lt}
use buckytools.Prelude.{
  ℕ, zero, suc, ◌+◌, ◌-◌, ◌≤◌, ◌<◌, ◌≡◌, refl, sym, ap, ap₂, ◌∙◌, ◌⊎◌, inl, inr, Bool, List, [],
  ◌∷◌, ◌++◌, append_assoc, arith, leb, length, take, drop, replicate, length-append, length-take,
  length-drop, length-replicate, take_all, take-append, drop-append, drop-drop,
}
use buckytools.Prelude.Index.{
  get_or, get_or-append_lt, get_or-append_add, get_or_past, get_or-take, get_or-drop,
  get_or-replicate,
}

abbrev pub FileData : Type 0
FileData = List ℕ

unfoldable pub write_at : FileData → List ℕ → ℕ → FileData
write_at f bs off = take off f ++ (replicate (off - length f) 0 ++ (bs ++ drop (off + length bs) f))

abbrev pub byte_at : FileData → ℕ → ℕ
byte_at f i = get_or f i 0

unfoldable pub read_at : FileData → ℕ → ℕ → List ℕ
read_at f off zero = []
read_at f off (suc n) = byte_at f off ∷ read_at f (off + 1) n

-- Whether the whole buffer was read.
unfoldable pub read_ok : FileData → ℕ → ℕ → Bool
read_ok f off n = leb (off + n) (length f)

-- What a write leaves before its place.
prefix : FileData → ℕ → List ℕ
prefix f off = take off f ++ replicate (off - length f) 0

length-prefix : (f : FileData) (off : ℕ) → length (prefix f off) ≡ off
unfolding prefix
length-prefix f off =
    length-append (take off f) (replicate (off - length f) 0)
    ∙ omega (arith, length-take off f, length-replicate {A = ℕ} (off - length f) 0)

write_at-prefix :
    (f : FileData) (bs : List ℕ) (off : ℕ)
    → write_at f bs off ≡ prefix f off ++ (bs ++ drop (off + length bs) f)
unfolding write_at prefix
write_at-prefix f bs off =
    sym (append_assoc (take off f) (replicate (off - length f) 0) (bs ++ drop (off + length bs) f))

byte_at-prefix : (f : FileData) (off i : ℕ) → i < off → byte_at (prefix f off) i ≡ byte_at f i
unfolding prefix
byte_at-prefix f off i h = elim (dec_lt i (length f)) [
  | yes inside ↦
      get_or-append_lt (take off f) _ i 0 (omega (arith, length-take off f))
      ∙ get_or-take off f i 0 h
  | no past ↦
      let whole = take_all off f (omega arith) in
      let k : length f + (i - length f) ≡ i = omega arith in
      rw (whole, get_or_past f i 0 (omega arith))
        (ap (λ j. get_or (f ++ replicate (off - length f) 0) j 0) (sym k)
          ∙ (get_or-append_add f (replicate (off - length f) 0) (i - length f) 0
              ∙ get_or-replicate (off - length f) (i - length f) 0))
]

-- A byte before a written block is as it was.
byte_at-write_at_before :
    (f : FileData) (bs : List ℕ) (off i : ℕ) → i < off → byte_at (write_at f bs off) i ≡ byte_at f i
byte_at-write_at_before f bs off i h = rw (write_at-prefix f bs off) (
    get_or-append_lt (prefix f off) _ i 0 (omega (arith, length-prefix f off))
    ∙ byte_at-prefix f off i h)

-- A byte of a written block is what was written.
pub byte_at-write_at_in :
    (f : FileData) (bs : List ℕ) (off j : ℕ)
    → j < length bs
    → byte_at (write_at f bs off) (off + j) ≡ get_or bs j 0
byte_at-write_at_in f bs off j h = rw (write_at-prefix f bs off) (
    ap (λ k. get_or (prefix f off ++ (bs ++ drop (off + length bs) f)) (k + j) 0)
      (sym (length-prefix f off))
    ∙ (get_or-append_add (prefix f off) _ j 0 ∙ get_or-append_lt bs _ j 0 h))

-- A byte behind a written block is as it was.
byte_at-write_at_after :
    (f : FileData) (bs : List ℕ) (off k : ℕ)
    → byte_at (write_at f bs off) (off + (length bs + k)) ≡ byte_at f (off + length bs + k)
byte_at-write_at_after f bs off k = rw (write_at-prefix f bs off) (
    ap (λ n. get_or (prefix f off ++ (bs ++ drop (off + length bs) f)) (n + (length bs + k)) 0)
      (sym (length-prefix f off))
    ∙ (get_or-append_add (prefix f off) _ (length bs + k) 0
        ∙ (get_or-append_add bs _ k 0 ∙ get_or-drop (off + length bs) f k 0)))

byte_at-write_at_outside :
    (f : FileData) (bs : List ℕ) (off i : ℕ)
    → (i < off) ⊎ (off + length bs ≤ i)
    → byte_at (write_at f bs off) i ≡ byte_at f i
byte_at-write_at_outside f bs off i (inl h) = byte_at-write_at_before f bs off i h
byte_at-write_at_outside f bs off i (inr h) =
    let k = i - (off + length bs) in
    let here : off + (length bs + k) ≡ i = omega arith in
    let there : off + length bs + k ≡ i = omega arith in
    ap (byte_at (write_at f bs off)) (sym here)
    ∙ (byte_at-write_at_after f bs off k ∙ ap (byte_at f) there)

-- A read is known by its bytes.
pub read_at_of_bytes :
    (g : FileData) (bs : List ℕ) (off : ℕ)
    → ((j : ℕ) → j < length bs → byte_at g (off + j) ≡ get_or bs j 0)
    → read_at g off (length bs) ≡ bs
unfolding read_at
read_at_of_bytes g [] off h = refl
read_at_of_bytes g (b ∷ bs) off h =
    let zero_off : off + 0 ≡ off = omega arith in
    ap₂ ◌∷◌ (ap (byte_at g) (sym zero_off) ∙ h 0 (omega arith))
      (read_at_of_bytes g bs (off + 1) (λ j lt. ap (byte_at g) (shift j) ∙ h (suc j) (omega arith)))
  where
    shift : (j : ℕ) → off + 1 + j ≡ off + suc j
    shift j = omega arith

-- Reading where a block was just written gives the block.
pub read_at-write_at :
    (f : FileData) (bs : List ℕ) (off : ℕ) → read_at (write_at f bs off) off (length bs) ≡ bs
read_at-write_at f bs off =
    read_at_of_bytes (write_at f bs off) bs off (byte_at-write_at_in f bs off)

-- A write leaves a read alone whose bytes lie outside of it.
pub read_at-write_at_disjoint :
    (f : FileData) (bs : List ℕ) (off o n : ℕ)
    → (o + n ≤ off) ⊎ (off + length bs ≤ o)
    → read_at (write_at f bs off) o n ≡ read_at f o n
unfolding read_at
read_at-write_at_disjoint f bs off o zero h = refl
read_at-write_at_disjoint f bs off o (suc n) h =
    ap₂ ◌∷◌ (byte_at-write_at_outside f bs off o (first h))
      (read_at-write_at_disjoint f bs off (o + 1) n (rest h))
  where
    first : (o + suc n ≤ off) ⊎ (off + length bs ≤ o) → (o < off) ⊎ (off + length bs ≤ o)
    first (inl a) = inl (omega arith)
    first (inr a) = inr a

    rest : (o + suc n ≤ off) ⊎ (off + length bs ≤ o) → (o + 1 + n ≤ off) ⊎ (off + length bs ≤ o + 1)
    rest (inl a) = inl (omega arith)
    rest (inr a) = inr (omega arith)

pub length-read_at : (f : FileData) (off n : ℕ) → length (read_at f off n) ≡ n
unfolding read_at
length-read_at f off zero = refl
length-read_at f off (suc n) = ap suc (length-read_at f (off + 1) n)

pub length-write_at :
    (f : FileData) (bs : List ℕ) (off : ℕ)
    → off + length bs ≤ length f
    → length (write_at f bs off) ≡ length f
unfolding write_at
length-write_at f bs off h =
    let zeros : off - length f ≡ 0 = omega arith in
    rw zeros (
      length-append (take off f) (bs ++ drop (off + length bs) f)
      ∙ omega (
        arith,
        length-take off f,
        length-append bs (drop (off + length bs) f),
        length-drop (off + length bs) f,
      ))

write_inside :
    (q d b : List ℕ) (n : ℕ) → n ≡ length q → write_at (q ++ d) b n ≡ q ++ (b ++ drop (length b) d)
unfolding write_at
write_inside q d b n h =
    let none_missing : n - length (q ++ d) ≡ 0 = omega (arith, h, length-append q d) in
    let past : drop (n + length b) (q ++ d) ≡ drop (length b) d =
      sym (drop-drop (length b) n (q ++ d)) ∙ ap (drop (length b)) (drop-append n q d h) in
    rw (take-append n q d h, none_missing, past) refl

-- Two writes, one behind the other, are one write of both blocks.
pub write_at-append :
    (f : FileData) (a b : List ℕ) (off : ℕ)
    → write_at (write_at f a off) b (off + length a) ≡ write_at f (a ++ b) off
write_at-append f a b off =
    let p = prefix f off in
    let d = drop (off + length a) f in
    let long : off + length a ≡ length (p ++ a) =
      sym (length-append p a ∙ ap (λ k. k + length a) (length-prefix f off)) in
    let rest : drop (length b) d ≡ drop (off + length (a ++ b)) f =
      drop-drop (length b) (off + length a) f
      ∙ ap (λ k. drop k f) (omega (arith, length-append a b)) in
    ap (λ g. write_at g b (off + length a)) (write_at-prefix f a off ∙ sym (append_assoc p a d))
    ∙ (write_inside (p ++ a) d b (off + length a) long
        ∙ (append_assoc p a (b ++ drop (length b) d)
            ∙ (ap (λ l. p ++ l) (sym (append_assoc a b (drop (length b) d)))
                ∙ (ap (λ l. p ++ ((a ++ b) ++ l)) rest ∙ sym (write_at-prefix f (a ++ b) off)))))
