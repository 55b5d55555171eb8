-- ===== src/Bucky/Name.antt =====
-- CleanMetric of cmd/bucky/common.go: the key of a metric without slashes and adjacent dots.
pub mod Clean
use buckytools.Prelude.{
  ℕ, zero, suc, ◌≤◌, ◌<◌, ◌≡◌, refl, sym, ap, ◌∙◌, inl, inr, Bool, true, false, ◌&&◌, ◌||◌, [], ◌∷◌,
  arith, ◌==◌, if◌then◌else◌, Bool-cases, length, drop,
}
use buckytools.Prelude.Text.{Text, codes}
use buckytools.Prelude.Strings.{has_prefix, contains, replace_byte}

-- Whether two bytes are dots.
unfoldable pub is_pair : ℕ → ℕ → Bool
is_pair c d = (c == b'.') && (d == b'.')

-- `strings.Replace(m, "..", ".", -1)`.
unfoldable pub replace_pairs : Text → Text
unfolding is_pair
replace_pairs [] = []
replace_pairs (c ∷ []) = c ∷ []
replace_pairs (c ∷ (d ∷ s)) =
    let after_pair = replace_pairs s in
    let after_one = replace_pairs (d ∷ s) in
    if is_pair c d then b'.' ∷ after_pair else c ∷ after_one

abbrev pub two_dots : Text
two_dots = codes ".."

-- The loop, as long as there are adjacent dots.
unfoldable pub clean_loop : ℕ → Text → Text
unfolding contains replace_pairs
clean_loop zero m = m
clean_loop (suc fuel) m =
    let rest = clean_loop fuel (replace_pairs m) in if contains m two_dots then rest else m

-- `CleanMetric`, with the length of the key as fuel.
unfoldable pub clean_metric : Text → Text
unfolding clean_loop replace_byte has_prefix
clean_metric m =
    let slashless = replace_byte b'/' b'.' m in
    let cleaned = clean_loop (length slashless) slashless in
    if has_prefix cleaned (codes ".") then drop 1 cleaned else cleaned

-- A text from which every dot that follows a dot is left out; `c` is its first byte.
abbrev pub squeeze_after : ℕ → Text → Text
squeeze_after c [] = c ∷ []
squeeze_after c (d ∷ s) = let rest = squeeze_after d s in if is_pair c d then rest else c ∷ rest

abbrev pub squeeze : Text → Text
squeeze [] = []
squeeze (c ∷ s) = squeeze_after c s

is_pair_dots : (c d : ℕ) → is_pair c d ≡ true → (c ≡ b'.') × (d ≡ b'.')
unfolding is_pair
is_pair_dots c d h = (ground arith, ground arith)

contains_pair :
    (c d : ℕ) (s : Text)
    → contains (c ∷ (d ∷ s)) two_dots ≡ (is_pair c d || contains (d ∷ s) two_dots)
unfolding contains has_prefix is_pair
contains_pair c d s = ground arith

replace_pairs_pair :
    (c d : ℕ) (s : Text) → is_pair c d ≡ true → replace_pairs (c ∷ (d ∷ s)) ≡ b'.' ∷ replace_pairs s
unfolding replace_pairs
replace_pairs_pair c d s h = rw h refl

replace_pairs_one :
    (c d : ℕ) (s : Text)
    → is_pair c d ≡ false
    → replace_pairs (c ∷ (d ∷ s)) ≡ c ∷ replace_pairs (d ∷ s)
unfolding replace_pairs
replace_pairs_one c d s h = rw h refl

squeeze_after-replace_pairs :
    (c : ℕ) (s : Text) → squeeze_after c (replace_pairs s) ≡ squeeze_after c s
unfolding replace_pairs
squeeze_after-replace_pairs c [] = refl
squeeze_after-replace_pairs c (d ∷ []) = refl
squeeze_after-replace_pairs c (d ∷ (e ∷ s)) = elim (Bool-cases (is_pair d e)) [
  | inl pair ↦
      let (d_eq, e_eq) = is_pair_dots d e pair in
      let rest = squeeze_after-replace_pairs b'.' s in
      rw (replace_pairs_pair d e s pair)
        (rw (d_eq, e_eq) (unfold is_pair in ap (λ l. if is_pair c b'.' then l else c ∷ l) rest))
  | inr one ↦
      ap (squeeze_after c) (replace_pairs_one d e s one)
      ∙ ap (λ l. if is_pair c d then l else c ∷ l) (squeeze_after-replace_pairs d (e ∷ s))
]

squeeze_after-clean :
    (c : ℕ) (s : Text) → contains (c ∷ s) two_dots ≡ false → squeeze_after c s ≡ c ∷ s
squeeze_after-clean c [] h = refl
squeeze_after-clean c (d ∷ s) h =
    let both = sym (contains_pair c d s) ∙ h in
    let first : is_pair c d ≡ false = ground arith in
    let later : contains (d ∷ s) two_dots ≡ false = ground arith in
    rw (first, squeeze_after-clean d s later) refl

length-replace_pairs : (s : Text) → length (replace_pairs s) ≤ length s
unfolding replace_pairs
length-replace_pairs [] = omega arith
length-replace_pairs (c ∷ []) = omega arith
length-replace_pairs (c ∷ (d ∷ s)) =
    let pair = length-replace_pairs s in let one = length-replace_pairs (d ∷ s) in ground arith

-- A pass over a text with adjacent dots makes it shorter.
length-replace_pairs_lt :
    (s : Text) → contains s two_dots ≡ true → length (replace_pairs s) < length s
unfolding contains has_prefix
length-replace_pairs_lt [] h = absurd (ground arith)
length-replace_pairs_lt (c ∷ []) h = absurd (ground arith)
length-replace_pairs_lt (c ∷ (d ∷ s)) h = elim (Bool-cases (is_pair c d)) [
  | inl pair ↦
      omega
        (arith, ap (λ (l : Text). length l) (replace_pairs_pair c d s pair), length-replace_pairs s)
  | inr one ↦
      let both = sym (contains_pair c d s) ∙ h in
      let later : contains (d ∷ s) two_dots ≡ true = ground arith in
      omega (
        arith,
        ap (λ (l : Text). length l) (replace_pairs_one c d s one),
        length-replace_pairs_lt (d ∷ s) later,
      )
]

squeeze-replace_pairs : (s : Text) → squeeze (replace_pairs s) ≡ squeeze s
unfolding replace_pairs
squeeze-replace_pairs [] = refl
squeeze-replace_pairs (c ∷ []) = refl
squeeze-replace_pairs (c ∷ (d ∷ s)) = elim (Bool-cases (is_pair c d)) [
  | inl pair ↦
      ap squeeze (replace_pairs_pair c d s pair)
      ∙ squeeze_after-replace_pairs b'.' s
      ∙ rw (pair, (is_pair_dots c d pair).1) refl
  | inr one ↦ ap squeeze (replace_pairs_one c d s one) ∙ squeeze_after-replace_pairs c (d ∷ s)
]

squeeze-clean : (s : Text) → contains s two_dots ≡ false → squeeze s ≡ s
squeeze-clean [] h = refl
squeeze-clean (c ∷ s) h = squeeze_after-clean c s h

-- The loop comes to its end, at the text without the dots that follow a dot.
pub clean_loop-squeeze : (fuel : ℕ) (m : Text) → length m ≤ fuel → clean_loop fuel m ≡ squeeze m
unfolding clean_loop
clean_loop-squeeze zero [] h = refl
clean_loop-squeeze zero (c ∷ m) h = absurd (omega arith)
clean_loop-squeeze (suc fuel) m h = elim (Bool-cases (contains m two_dots)) [
  | inl dots ↦
      let shorter = length-replace_pairs_lt m dots in
      rw dots (
        clean_loop-squeeze fuel (replace_pairs m) (omega (arith, shorter))
        ∙ squeeze-replace_pairs m)
  | inr clean ↦ rw clean (sym (squeeze-clean m clean))
]
