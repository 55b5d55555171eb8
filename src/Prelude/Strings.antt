-- ===== src/Prelude/Strings.antt =====
-- What the program uses of Go's packages strings, path and net, on texts.
use Prim.Native.Nat.{ℕ, ◌-◌}
use mathlib.Core.Path.{◌≡◌, refl, sym, ap, ap₂, ◌∙◌}
use mathlib.Core.Logic.{◌≢◌}
use mathlib.Core.Bool.{Bool, true, false, ◌&&◌, ◌||◌}
use mathlib.Core.List.{List, [], ◌∷◌, ◌++◌, append-nil, append_assoc}
use native.Mathlib.Omega.{arith}
use buckytools.Prelude.Tests.{ltb, ◌==◌, if◌then◌else◌}
use buckytools.Prelude.Lists.{length, drop, All}
use buckytools.Prelude.Text.{Text, text_eq}

-- `strings.HasPrefix` and `strings.HasSuffix`.
unfoldable pub has_prefix : Text → Text → Bool
has_prefix s [] = true
has_prefix [] (p ∷ ps) = false
has_prefix (c ∷ s) (p ∷ ps) = (c == p) && has_prefix s ps

unfoldable pub has_suffix : Text → Text → Bool
has_suffix s suffix =
    if ltb (length s) (length suffix)
    then false
    else text_eq (drop (length s - length suffix) s) suffix

-- `strings.Contains`.
unfoldable pub contains : Text → Text → Bool
unfolding has_prefix
contains [] p = has_prefix [] p
contains (c ∷ s) p = has_prefix (c ∷ s) p || contains s p

-- `strings.Replace(s, a, b, -1)` of one byte by another.
unfoldable pub replace_byte : ℕ → ℕ → Text → Text
replace_byte a b [] = []
replace_byte a b (c ∷ s) = (if c == a then b else c) ∷ replace_byte a b s

-- `strings.Replace(s, p, "", 1)`.
unfoldable pub remove_first : Text → Text → Text
unfolding has_prefix
remove_first p [] = []
remove_first p (c ∷ s) =
    if has_prefix (c ∷ s) p then drop (length p) (c ∷ s) else c ∷ remove_first p s

-- A text cut at a byte, with what has been collected of the first part, reversed or not: in order.
unfoldable pub split_from : ℕ → Text → Text → List Text
split_from b part [] = part ∷ []
split_from b part (c ∷ s) =
    let rest = split_from b [] s in
    let longer = split_from b (part ++ (c ∷ [])) s in if c == b then part ∷ rest else longer

-- `strings.Split(s, b)`.
unfoldable pub split : ℕ → Text → List Text
unfolding split_from
split b s = split_from b [] s

-- `strings.Join(parts, b)`.
unfoldable pub join : ℕ → List Text → Text
join b [] = []
join b (p ∷ []) = p
join b (p ∷ (q ∷ parts)) = p ++ (b ∷ join b (q ∷ parts))

-- A text without a byte.
abbrev pub Lacks : ℕ → Text → Type 0
Lacks b s = All (λ (c : ℕ). c ≢ b) s

pub join-cons :
    (b c : ℕ) (p : Text) (parts : List Text) → join b ((c ∷ p) ∷ parts) ≡ c ∷ join b (p ∷ parts)
unfolding join
join-cons b c p [] = refl
join-cons b c p (q ∷ parts) = refl

same_byte : (b : ℕ) → (b == b) ≡ true
same_byte b = ground arith

other_byte : (c b : ℕ) → c ≢ b → (c == b) ≡ false
other_byte c b h = ground arith

split_from-join :
    (b : ℕ) (part p : Text) (parts : List Text)
    → All (Lacks b) (p ∷ parts)
    → split_from b part (join b (p ∷ parts)) ≡ (part ++ p) ∷ parts
unfolding split_from join
split_from-join b part [] [] h = ap (λ l. l ∷ []) (sym (append-nil part))
split_from-join b part [] (q ∷ parts) h =
    rw same_byte (ap₂ ◌∷◌ (sym (append-nil part)) (split_from-join b [] q parts h.1))
split_from-join b part (c ∷ p) parts h =
    rw (join-cons b c p parts, split_from, other_byte c b h.0.0)
      (split_from-join b (part ++ (c ∷ [])) p parts (h.0.1, h.1)
        ∙ ap (λ l. l ∷ parts) (append_assoc part (c ∷ []) p))

-- Splitting at a byte undoes joining with it, for parts that lack the byte.
pub split-join :
    (b : ℕ) (p : Text) (parts : List Text)
    → All (Lacks b) (p ∷ parts)
    → split b (join b (p ∷ parts)) ≡ p ∷ parts
unfolding split
split-join b p parts h = split_from-join b [] p parts h
