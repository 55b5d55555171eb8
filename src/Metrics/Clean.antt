-- ===== src/Metrics/Clean.antt =====
-- Go's path.Clean and path.Join, which metrics/metrics.go uses on slash-separated paths.
use buckytools.Prelude.{
  ℕ, ◌≡◌, refl, sym, ap, ◌∙◌, Bool, true, false, ◌||◌, List, [], ◌∷◌, ◌++◌, append-nil, arith, ◌==◌,
  if◌then◌else◌, All,
}
use buckytools.Prelude.Text.{Text, codes, text_eq}
use buckytools.Prelude.Strings.{split, join, join-cons, Lacks, split-join}

-- The elements of a path that are kept: `done` is what is kept so far, the last one first. Of `..`
-- it removes the element before it, but not another `..`; at a root there is nothing above.
unfoldable pub keep_element : Bool → List Text → Text → List Text
keep_element rooted done part =
    if text_eq part [] || text_eq part (codes ".")
    then done
    else if text_eq part (codes "..")
    then elim done [
      | [] ↦ if rooted then [] else part ∷ []
      | last ∷ before ↦ if text_eq last (codes "..") then part ∷ (last ∷ before) else before
    ]
    else part ∷ done

unfoldable pub keep_elements : Bool → List Text → List Text → List Text
unfolding keep_element
keep_elements rooted done [] = done
keep_elements rooted done (p ∷ ps) = keep_elements rooted (keep_element rooted done p) ps

-- The elements in order.
unfoldable pub in_order : List Text → List Text → List Text
in_order out [] = out
in_order out (p ∷ ps) = in_order (p ∷ out) ps

unfoldable pub or_dot : Text → Text
or_dot [] = codes "."
or_dot (c ∷ s) = c ∷ s

unfoldable pub clean : Text → Text
unfolding keep_elements in_order split join or_dot text_eq
clean [] = codes "."
clean (c ∷ s) =
    if c == b'/'
    then b'/' ∷ join b'/' (in_order [] (keep_elements true [] (split b'/' s)))
    else or_dot (join b'/' (in_order [] (keep_elements false [] (split b'/' (c ∷ s)))))

-- `path.Join` of two elements.
unfoldable pub path_join : Text → Text → Text
unfolding clean
path_join [] [] = []
path_join [] (c ∷ s) = clean (c ∷ s)
path_join (c ∷ s) [] = clean (c ∷ s)
path_join (c ∷ s) (d ∷ t) = clean ((c ∷ s) ++ (b'/' ∷ (d ∷ t)))

clean_runs :
    (clean (codes "a//b/./c/../d") ≡ codes "a/b/d")
    × (clean (codes "/../a") ≡ codes "/a")
    × (clean (codes "../../a") ≡ codes "../../a")
    × (clean (codes "a/..") ≡ codes ".")
unfolding clean
clean_runs = (refl, refl, refl, refl)

-- An element that `Clean` leaves alone.
pub record IsPlain (part : Text) : Type 0 where
  pub not_empty : text_eq part [] ≡ false
  pub not_dot : text_eq part (codes ".") ≡ false
  pub not_up : text_eq part (codes "..") ≡ false

keep_elements-Plain :
    (rooted : Bool) (done parts : List Text)
    → All IsPlain parts
    → keep_elements rooted done parts ≡ in_order done parts
unfolding keep_elements in_order
keep_elements-Plain rooted done [] h = refl
keep_elements-Plain rooted done (p ∷ ps) h =
    let empty = h.0.not_empty in
    let dot = h.0.not_dot in
    let up = h.0.not_up in
    let kept : keep_element rooted done p ≡ p ∷ done = rw (empty, dot, up, keep_element) refl in
    ap (λ d. keep_elements rooted d ps) kept ∙ keep_elements-Plain rooted (p ∷ done) ps h.1

in_order-in_order :
    (out done parts : List Text) → in_order out (in_order done parts) ≡ in_order (parts ++ out) done
unfolding in_order
in_order-in_order out done [] = refl
in_order-in_order out done (p ∷ ps) = in_order-in_order out (p ∷ done) ps

-- A path that joins such elements, none with a slash, is its own clean form, when its first byte is
-- no slash either.
pub clean-join :
    (c : ℕ) (p : Text) (parts : List Text)
    → All (Lacks b'/') ((c ∷ p) ∷ parts)
    → All IsPlain ((c ∷ p) ∷ parts)
    → clean (join b'/' ((c ∷ p) ∷ parts)) ≡ join b'/' ((c ∷ p) ∷ parts)
unfolding clean in_order
clean-join c p parts lacks plain =
    let first = join-cons b'/' c p parts in
    let no_slash : (c == b'/') ≡ false = let h = lacks.0.0 in ground arith in
    let cut : split b'/' (c ∷ join b'/' (p ∷ parts)) ≡ (c ∷ p) ∷ parts =
      ap (split b'/') (sym first) ∙ split-join b'/' (c ∷ p) parts lacks in
    let kept : in_order [] (keep_elements false [] ((c ∷ p) ∷ parts)) ≡ (c ∷ p) ∷ parts =
      ap (in_order []) (keep_elements-Plain false [] ((c ∷ p) ∷ parts) plain)
      ∙ (in_order-in_order [] [] ((c ∷ p) ∷ parts) ∙ append-nil ((c ∷ p) ∷ parts)) in
    let s = join b'/' (p ∷ parts) in
    ap clean first
    ∙ (ap
          (λ b.
            if b
            then b'/' ∷ join b'/' (in_order [] (keep_elements true [] (split b'/' s)))
            else or_dot (join b'/' (in_order [] (keep_elements false [] (split b'/' (c ∷ s))))))
          no_slash
        ∙ (ap (λ ps. or_dot (join b'/' (in_order [] (keep_elements false [] ps)))) cut
            ∙ (ap (λ ps. or_dot (join b'/' ps)) kept ∙ (ap or_dot first ∙ sym first))))
