-- ===== src/Metrics/RoundTrip.antt =====
-- MetricToRelative and RelativeToMetric of metrics/metrics.go undo one another.
use buckytools.Prelude.{
  ℕ, ◌≡◌, refl, sym, ap, ap₂, ◌∙◌, ◌≢◌, true, false, List, [], ◌∷◌, ◌++◌, append_assoc, arith, ◌==◌,
  if◌then◌else◌, All, All-append, All-map,
}
use buckytools.Prelude.Text.{Text, codes, text_eq}
use buckytools.Prelude.Strings.{has_prefix, replace_byte, remove_first, join, Lacks}
use buckytools.Metrics.{metric_to_relative, relative_to_metric}
use buckytools.Metrics.Clean.{clean, clean-join, IsPlain}

-- An element of a metric's name: not empty, and neither a dot nor a slash in it.
pub record IsElement (part : Text) : Type 0 where
  pub not_empty : part ≢ []
  pub no_dot : Lacks b'.' part
  pub no_slash : Lacks b'/' part

replace_byte-Lacks : (a b : ℕ) (s : Text) → Lacks a s → replace_byte a b s ≡ s
unfolding replace_byte
replace_byte-Lacks a b [] h = refl
replace_byte-Lacks a b (c ∷ s) h =
    let other : (c == a) ≡ false = let k = h.0 in ground arith in
    rw other (ap (λ l. c ∷ l) (replace_byte-Lacks a b s h.1))

replace_byte-append :
    (a b : ℕ) (s t : Text) → replace_byte a b (s ++ t) ≡ replace_byte a b s ++ replace_byte a b t
unfolding replace_byte
replace_byte-append a b [] t = refl
replace_byte-append a b (c ∷ s) t =
    ap (λ l. (if c == a then b else c) ∷ l) (replace_byte-append a b s t)

replace_byte-join :
    (a b : ℕ) (parts : List Text)
    → All (Lacks a) parts
    → replace_byte a b (join a parts) ≡ join b parts
unfolding join replace_byte
replace_byte-join a b [] h = refl
replace_byte-join a b (p ∷ []) h = replace_byte-Lacks a b p h.0
replace_byte-join a b (p ∷ (q ∷ parts)) h =
    let same : (a == a) ≡ true = ground arith in
    replace_byte-append a b p (a ∷ join a (q ∷ parts))
    ∙ rw same (
        ap₂ (λ l r. l ++ (b ∷ r)) (replace_byte-Lacks a b p h.0)
          (replace_byte-join a b (q ∷ parts) h.1))

-- The suffix is the first of its kind in a text with no dot before it.
remove_first-append :
    (s : Text) → Lacks b'.' s → remove_first (codes ".wsp") (s ++ codes ".wsp") ≡ s
unfolding remove_first has_prefix
remove_first-append [] h = refl
remove_first-append (c ∷ s) h =
    let other : (c == b'.') ≡ false = let k = h.0 in ground arith in
    rw other (ap (λ l. c ∷ l) (remove_first-append s h.1))

-- The elements of the path of a metric: the last one with the suffix.
abbrev with_suffix : List Text → List Text
with_suffix [] = []
with_suffix (p ∷ []) = (p ++ codes ".wsp") ∷ []
with_suffix (p ∷ (q ∷ parts)) = p ∷ with_suffix (q ∷ parts)

join-with_suffix :
    (p : Text) (parts : List Text)
    → join b'/' (p ∷ parts) ++ codes ".wsp" ≡ join b'/' (with_suffix (p ∷ parts))
unfolding join
join-with_suffix p [] = refl
join-with_suffix p (q ∷ []) = append_assoc p (b'/' ∷ q) (codes ".wsp")
join-with_suffix p (q ∷ (r ∷ parts)) =
    append_assoc p (b'/' ∷ join b'/' (q ∷ (r ∷ parts))) (codes ".wsp")
    ∙ ap (λ l. p ++ (b'/' ∷ l)) (join-with_suffix q (r ∷ parts))

Lacks-join : (b c : ℕ) (parts : List Text) → c ≢ b → All (Lacks b) parts → Lacks b (join c parts)
unfolding join
Lacks-join b c [] d h = tt
Lacks-join b c (p ∷ []) d h = h.0
Lacks-join b c (p ∷ (q ∷ parts)) d h =
    All-append (λ (x : ℕ). x ≢ b) p (c ∷ join c (q ∷ parts)) h.0
      (d, Lacks-join b c (q ∷ parts) d h.1)

IsElement-IsPlain : (part : Text) → IsElement part → IsPlain part
unfolding text_eq
IsElement-IsPlain [] h = absurd (h.not_empty refl)
IsElement-IsPlain (c ∷ p) h =
    let other : (c == b'.') ≡ false = let k = h.no_dot.0 in ground arith in
    record { not_empty = refl; not_dot = rw other refl; not_up = rw other refl }

suffix-IsPlain : (part : Text) → IsElement part → IsPlain (part ++ codes ".wsp")
unfolding text_eq
suffix-IsPlain [] h = absurd (h.not_empty refl)
suffix-IsPlain (c ∷ p) h =
    let other : (c == b'.') ≡ false = let k = h.no_dot.0 in ground arith in
    record { not_empty = refl; not_dot = rw other refl; not_up = rw other refl }

with_suffix-IsPlain : (parts : List Text) → All IsElement parts → All IsPlain (with_suffix parts)
with_suffix-IsPlain [] h = tt
with_suffix-IsPlain (p ∷ []) h = (suffix-IsPlain p h.0, tt)
with_suffix-IsPlain (p ∷ (q ∷ parts)) h =
    (IsElement-IsPlain p h.0, with_suffix-IsPlain (q ∷ parts) h.1)

suffix-Lacks : Lacks b'/' (codes ".wsp")
suffix-Lacks = (
  (λ e. absurd (omega arith)),
  ((λ e. absurd (omega arith)), ((λ e. absurd (omega arith)), ((λ e. absurd (omega arith)), tt))),
)

with_suffix-Lacks : (parts : List Text) → All IsElement parts → All (Lacks b'/') (with_suffix parts)
with_suffix-Lacks [] h = tt
with_suffix-Lacks (p ∷ []) h =
    (All-append (λ (x : ℕ). x ≢ b'/') p (codes ".wsp") h.0.no_slash suffix-Lacks, tt)
with_suffix-Lacks (p ∷ (q ∷ parts)) h = (h.0.no_slash, with_suffix-Lacks (q ∷ parts) h.1)

clean-path :
    (p : Text) (parts : List Text)
    → All IsElement (p ∷ parts)
    → clean (join b'/' (p ∷ parts) ++ codes ".wsp") ≡ join b'/' (p ∷ parts) ++ codes ".wsp"
unfolding join
clean-path [] parts h = absurd (h.0.not_empty refl)
clean-path (c ∷ p) [] h =
    clean-join c (p ++ codes ".wsp") [] (with_suffix-Lacks ((c ∷ p) ∷ []) h)
      (with_suffix-IsPlain ((c ∷ p) ∷ []) h)
clean-path (c ∷ p) (q ∷ parts) h =
    let joined = join-with_suffix (c ∷ p) (q ∷ parts) in
    ap clean joined
    ∙ (clean-join c p (with_suffix (q ∷ parts)) (with_suffix-Lacks ((c ∷ p) ∷ (q ∷ parts)) h)
          (with_suffix-IsPlain ((c ∷ p) ∷ (q ∷ parts)) h)
        ∙ sym joined)

-- The name of a metric, as its elements with dots between them, goes to a relative path and back.
pub relative_to_metric-metric_to_relative :
    (p : Text) (parts : List Text)
    → All IsElement (p ∷ parts)
    → relative_to_metric (metric_to_relative (join b'.' (p ∷ parts))) ≡ join b'.' (p ∷ parts)
unfolding relative_to_metric metric_to_relative
relative_to_metric-metric_to_relative p parts h =
    let dots : All (Lacks b'.') (p ∷ parts) =
      All-map IsElement (Lacks b'.') (p ∷ parts) (λ x e. e.no_dot) h in
    let slashes : All (Lacks b'/') (p ∷ parts) =
      All-map IsElement (Lacks b'/') (p ∷ parts) (λ x e. e.no_slash) h in
    let path : replace_byte b'.' b'/' (join b'.' (p ∷ parts)) ++ codes ".wsp"
        ≡ join b'/' (p ∷ parts) ++ codes ".wsp" =
      ap (λ l. l ++ codes ".wsp") (replace_byte-join b'.' b'/' (p ∷ parts) dots) in
    let cleaned : clean (join b'/' (p ∷ parts) ++ codes ".wsp")
        ≡ join b'/' (p ∷ parts) ++ codes ".wsp" =
      clean-path p parts h in
    let whole : metric_to_relative (join b'.' (p ∷ parts)) ≡ join b'/' (p ∷ parts) ++ codes ".wsp" =
      ap clean path ∙ cleaned in
    let lacks : Lacks b'.' (join b'/' (p ∷ parts)) =
      Lacks-join b'.' b'/' (p ∷ parts) (λ e. absurd (omega arith)) dots in
    ap relative_to_metric whole
    ∙ (ap (λ l. replace_byte b'/' b'.' (remove_first (codes ".wsp") l)) cleaned
        ∙ (ap (replace_byte b'/' b'.') (remove_first-append (join b'/' (p ∷ parts)) lacks)
            ∙ replace_byte-join b'/' b'.' (p ∷ parts) slashes))
