-- ===== src/Whisper/Bytes.antt =====
-- The big-endian words of whisper/whisper.go: packInt, packFloat64, unpackInt and their kin. A
-- float is its bit pattern, as math.Float64bits gives it.
use native.Mathlib.Nat.{pow-suc}
use buckytools.Prelude.{
  ℕ, zero, suc, ◌+◌, ◌-◌, ◌*◌, ◌/◌, ◌%◌, ◌^◌, ◌<◌, ◌≡◌, refl, sym, ap, ◌∙◌, List, [], ◌∷◌, ◌++◌,
  arith, length, take, drop, length-append, take-append, drop-append, drop-drop,
}
use buckytools.Prelude.Int.{ℤ, pos, negsuc}

-- The low n bytes of a word, the highest first.
unfoldable pub put_word : ℕ → ℕ → List ℕ
put_word zero v = []
put_word (suc n) v = put_word n (v / 256) ++ ((v % 256) ∷ [])

unfoldable pub word_from : ℕ → List ℕ → ℕ
word_from acc [] = acc
word_from acc (b ∷ bs) = word_from (acc * 256 + b) bs

-- `uint32(v)`.
abbrev pub to_u32 : ℤ → ℕ
to_u32 (pos n) = n % 2 ^ 32
to_u32 (negsuc n) = 2 ^ 32 - 1 - n % 2 ^ 32

abbrev pub int_size : ℕ
int_size = 4

abbrev pub float_size : ℕ
float_size = 4

abbrev pub float64_size : ℕ
float64_size = 8

-- A write of `bs` into `b[i:]`.
unfoldable pub splice : List ℕ → ℕ → List ℕ → List ℕ
splice b i bs = take i b ++ (bs ++ drop (i + length bs) b)

-- The `pack` functions return the buffer, and advance by their size.
unfoldable pub pack_int : List ℕ → ℤ → ℕ → List ℕ
pack_int b v i = splice b i (put_word 4 (to_u32 v))

unfoldable pub pack_float32 : List ℕ → ℕ → ℕ → List ℕ
pack_float32 b v i = splice b i (put_word 4 v)

unfoldable pub pack_float64 : List ℕ → ℕ → ℕ → List ℕ
pack_float64 b v i = splice b i (put_word 8 v)

unfoldable pub unpack_int : List ℕ → ℕ
unpack_int b = word_from 0 b

unfoldable pub unpack_float32 : List ℕ → ℕ
unpack_float32 b = word_from 0 b

unfoldable pub unpack_float64 : List ℕ → ℕ
unpack_float64 b = word_from 0 b

pub length-put_word : (n v : ℕ) → length (put_word n v) ≡ n
unfolding put_word
length-put_word zero v = refl
length-put_word (suc n) v =
    length-append (put_word n (v / 256)) ((v % 256) ∷ [])
    ∙ omega (arith, length-put_word n (v / 256))

word_from-append_one :
    (acc : ℕ) (xs : List ℕ) (b : ℕ) → word_from acc (xs ++ (b ∷ [])) ≡ word_from acc xs * 256 + b
unfolding word_from
word_from-append_one acc [] b = refl
word_from-append_one acc (x ∷ xs) b = word_from-append_one (acc * 256 + x) xs b

-- Reading n bytes back gives the word, if it fits them.
pub word_from-put_word : (n v : ℕ) → v < 256 ^ n → word_from 0 (put_word n v) ≡ v
unfolding put_word
word_from-put_word zero v h = unfold word_from in omega arith
word_from-put_word (suc n) v h =
    let power : 256 ^ suc n ≡ 256 ^ n * 256 = pow-suc 256 n in
    let rest = word_from-put_word n (v / 256) (omega (arith, power)) in
    word_from-append_one 0 (put_word n (v / 256)) (v % 256) ∙ omega (arith, rest)

to_u32-lt : (v : ℤ) → to_u32 v < 256 ^ 4
to_u32-lt (pos n) = omega arith
to_u32-lt (negsuc n) = omega arith

pub splice_prefix :
    (a bs old rest : List ℕ)
    → length bs ≡ length old
    → splice (a ++ (old ++ rest)) (length a) bs ≡ a ++ (bs ++ rest)
unfolding splice
splice_prefix a bs old rest h =
    let past : drop (length a + length bs) (a ++ (old ++ rest)) ≡ rest =
      sym (drop-drop (length bs) (length a) (a ++ (old ++ rest)))
      ∙ (ap (drop (length bs)) (drop-append (length a) a (old ++ rest) refl)
          ∙ drop-append (length bs) old rest h) in
    rw (take-append (length a) a (old ++ rest) refl, past)
