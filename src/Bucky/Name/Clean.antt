-- ===== src/Bucky/Name/Clean.antt =====
-- What CleanMetric gives is a clean key.
use buckytools.Prelude.{
  ℕ, ◌≡◌, refl, sym, ap, ◌∙◌, inl, inr, false, [], ◌∷◌, arith, ◌==◌, if◌then◌else◌, Bool-cases,
  length, drop,
}
use buckytools.Prelude.Text.{Text, codes}
use buckytools.Prelude.Strings.{has_prefix, contains, replace_byte, Lacks}
use buckytools.Bucky.Name.{
  is_pair, is_pair_dots, contains_pair, two_dots, squeeze_after, squeeze, clean_loop-squeeze,
  clean_metric,
}

squeeze_after_head : (c : ℕ) (s : Text) → (t : Text) × (squeeze_after c s ≡ c ∷ t)
squeeze_after_head c [] = ([], refl)
squeeze_after_head c (d ∷ s) = elim (Bool-cases (is_pair c d)) [
  | inl pair ↦
      let (t, e) = squeeze_after_head d s in
      let (c_eq, d_eq) = is_pair_dots c d pair in
      (t, rw pair (e ∙ ap (λ x. x ∷ t) (d_eq ∙ sym c_eq)))
  | inr one ↦ (squeeze_after d s, rw one refl)
]

contains-squeeze_after : (c : ℕ) (s : Text) → contains (squeeze_after c s) two_dots ≡ false
unfolding contains
contains-squeeze_after c [] = ground arith
contains-squeeze_after c (d ∷ s) = elim (Bool-cases (is_pair c d)) [
  | inl pair ↦ rw pair (contains-squeeze_after d s)
  | inr one ↦
      let (t, e) = squeeze_after_head d s in
      let rest = ap (λ l. contains l two_dots) (sym e) ∙ contains-squeeze_after d s in
      rw one (ap (λ l. contains (c ∷ l) two_dots) e ∙ contains_pair c d t ∙ rw (one, rest) refl)
]

contains-squeeze : (s : Text) → contains (squeeze s) two_dots ≡ false
unfolding contains has_prefix
contains-squeeze [] = refl
contains-squeeze (c ∷ s) = contains-squeeze_after c s

-- A key without adjacent dots, less its first byte if that is a dot, neither has adjacent dots nor
-- begins with one.
first_dot :
    (s : Text)
    → contains s two_dots ≡ false
    → let t = if has_prefix s (codes ".") then drop 1 s else s in
      (contains t two_dots ≡ false) × (has_prefix t (codes ".") ≡ false)
unfolding contains has_prefix
first_dot [] h = (refl, refl)
first_dot (c ∷ []) h = ground arith
first_dot (c ∷ (d ∷ s)) h =
    let pair = sym (contains_pair c d s) ∙ h in
    let later : contains (d ∷ s) two_dots ≡ false = ground arith in
    let apart : is_pair c d ≡ false = ground arith in
    elim (Bool-cases (c == b'.')) [
      | inl dot ↦ rw dot (later, unfold is_pair in ground arith)
      | inr other ↦ rw other (h, rw other refl)
    ]

Lacks-replace_byte : (m : Text) → Lacks b'/' (replace_byte b'/' b'.' m)
unfolding replace_byte
Lacks-replace_byte [] = tt
Lacks-replace_byte (c ∷ m) = (ground arith, Lacks-replace_byte m)

Lacks-squeeze_after : (c : ℕ) (s : Text) → Lacks b'/' (c ∷ s) → Lacks b'/' (squeeze_after c s)
Lacks-squeeze_after c [] h = h
Lacks-squeeze_after c (d ∷ s) h = elim (Bool-cases (is_pair c d)) [
  | inl pair ↦ rw pair (Lacks-squeeze_after d s h.1)
  | inr one ↦ rw one (h.0, Lacks-squeeze_after d s h.1)
]

Lacks-squeeze : (s : Text) → Lacks b'/' s → Lacks b'/' (squeeze s)
Lacks-squeeze [] h = tt
Lacks-squeeze (c ∷ s) h = Lacks-squeeze_after c s h

Lacks-first_dot :
    (s : Text) → Lacks b'/' s → Lacks b'/' (if has_prefix s (codes ".") then drop 1 s else s)
Lacks-first_dot [] h = unfold has_prefix in tt
Lacks-first_dot (c ∷ s) h = elim (Bool-cases (has_prefix (c ∷ s) (codes "."))) [
  | inl dot ↦ rw dot h.1
  | inr other ↦ rw other h
]

-- What `CleanMetric` gives has no adjacent dots, does not begin with a dot and has no slash.
clean_metric-Lacks :
    (m : Text)
    → (contains (clean_metric m) two_dots ≡ false)
      × (has_prefix (clean_metric m) (codes ".") ≡ false)
      × Lacks b'/' (clean_metric m)
unfolding clean_metric
clean_metric-Lacks m =
    let slashless = replace_byte b'/' b'.' m in
    rw (clean_loop-squeeze (length slashless) slashless (omega arith)) (
      let (dots, start) = first_dot (squeeze slashless) (contains-squeeze slashless) in
      (
        dots,
        start,
        Lacks-first_dot (squeeze slashless) (Lacks-squeeze slashless (Lacks-replace_byte m)),
      ))
