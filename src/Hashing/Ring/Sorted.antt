-- ===== src/Hashing/Ring/Sorted.antt =====
-- The order of ring entries (cmp of hashing/hashing.go), and that insertion keeps a ring in it.
use buckytools.Prelude.{
  ◌≤◌, ◌<◌, ◌≡◌, refl, sym, ap, ◌∙◌, ◌⊎◌, inl, inr, true, false, List, [], ◌∷◌, arith, ltb,
  if◌then◌else◌, ltb→lt, Bool-cases, All, All-map,
}
use buckytools.Prelude.Int.{pos, ltb_ℤ}
use buckytools.Prelude.Text.{Text, text_lt, text_lt_irrefl, text_lt_trans, text_lt_connected}
use buckytools.Hashing.Ring.{RingEntry, cmp, bisect_right, insert_ring}
use buckytools.Hashing.Ring.Insert.{insert_at, insert_ring-eq-insert_at}

-- `a` may stand before `b`.
abbrev pub Le : RingEntry → RingEntry → Type 0
Le a b = ltb_ℤ (pos 0) (cmp a b) ≡ false

abbrev pub IsSorted : List RingEntry → Type 0
IsSorted [] = Unit
IsSorted (x ∷ xs) = All (Le x) xs × IsSorted xs

pub Le-position : (a b : RingEntry) → Le a b → a.position ≤ b.position
unfolding cmp
Le-position a b h = ground arith

-- Of two entries one may stand before the other.
Le_total : (a b : RingEntry) → ltb_ℤ (pos 0) (cmp a b) ≡ true → Le b a
unfolding cmp
Le_total a b h = ground (
  arith,
  text_lt_trans a.node.server b.node.server a.node.server,
  text_lt_irrefl a.node.server,
  text_lt_trans a.node.instance_name b.node.instance_name a.node.instance_name,
  text_lt_irrefl a.node.instance_name,
)

-- The order of two texts as `cmp` tests it.
abbrev TextLe : Text → Text → Type 0
TextLe s t = text_lt t s ≡ false

TextLe-trans : (s t u : Text) → TextLe s t → TextLe t u → TextLe s u
TextLe-trans s t u h k = elim (Bool-cases (text_lt u s)) [
  | inr e ↦ e
  | inl e ↦ elim (Bool-cases (text_lt s t)) [
    | inl f ↦ absurd (false_of (sym k ∙ text_lt_trans u s t e f))
    | inr f ↦ absurd (false_of (sym k ∙ ap (text_lt u) (sym (text_lt_connected s t f h)) ∙ e))
  ]
]
  where
    false_of : false ≡ true → ⊥
    false_of p = cc

-- `Le`, read lexicographically.
abbrev Before : RingEntry → RingEntry → Type 0
Before a b =
    (a.position < b.position)
    ⊎ ((a.position ≡ b.position)
        × ((text_lt a.node.server b.node.server ≡ true)
            ⊎ ((a.node.server ≡ b.node.server) × TextLe a.node.instance_name b.node.instance_name)))

Before-of_Le : (a b : RingEntry) → Le a b → Before a b
unfolding cmp
Before-of_Le a b h = elim (Bool-cases (ltb a.position b.position)) [
  | inl p ↦ inl (ltb→lt _ _ p)
  | inr p ↦ elim (Bool-cases (text_lt a.node.server b.node.server)) [
    | inl s ↦ inr (ground arith, inl s)
    | inr s ↦ inr (
      ground arith,
      inr (
        text_lt_connected a.node.server b.node.server s (ground arith),
        ground (
          arith,
          text_lt_trans a.node.instance_name b.node.instance_name a.node.instance_name,
          text_lt_irrefl a.node.instance_name,
        ),
      ),
    )
  ]
]

Le_of_Before : (a b : RingEntry) → Before a b → Le a b
unfolding cmp
Le_of_Before a b (inl h) = ground arith
Le_of_Before a b (inr (p, inl s)) =
    ground
      (arith, text_lt_trans a.node.server b.node.server a.node.server, text_lt_irrefl a.node.server)
Le_of_Before a b (inr (p, inr (s, i))) = ground (arith, text_lt_irrefl a.node.server)

Before-trans : (a b c : RingEntry) → Before a b → Before b c → Before a c
Before-trans a b c (inl h) (inl k) = inl (omega arith)
Before-trans a b c (inl h) (inr k) = inl (omega (arith, k.0))
Before-trans a b c (inr h) (inl k) = inl (omega (arith, h.0))
Before-trans a b c (inr (p, inl h)) (inr (q, inl k)) =
    inr (p ∙ q, inl (text_lt_trans a.node.server b.node.server c.node.server h k))
Before-trans a b c (inr (p, inl h)) (inr (q, inr (e, i))) = inr (p ∙ q, inl (rw (← e) h))
Before-trans a b c (inr (p, inr (e, i))) (inr (q, inl k)) = inr (p ∙ q, inl (rw e k))
Before-trans a b c (inr (p, inr (e, i))) (inr (q, inr (f, j))) = inr (
  p ∙ q,
  inr (e ∙ f, TextLe-trans a.node.instance_name b.node.instance_name c.node.instance_name i j),
)

Le_trans : (a b c : RingEntry) → Le a b → Le b c → Le a c
Le_trans a b c h k = Le_of_Before a c (Before-trans a b c (Before-of_Le a b h) (Before-of_Le b c k))

-- Insertion where `bisectRight` says.
unfoldable pub insert_sorted : RingEntry → List RingEntry → List RingEntry
insert_sorted e [] = e ∷ []
insert_sorted e (x ∷ xs) = if ltb_ℤ (pos 0) (cmp x e) then e ∷ (x ∷ xs) else x ∷ insert_sorted e xs

insert_at-bisect_right :
    (e : RingEntry) (xs : List RingEntry) → insert_at (bisect_right xs e) e xs ≡ insert_sorted e xs
unfolding insert_at bisect_right insert_sorted
insert_at-bisect_right e [] = refl
insert_at-bisect_right e (x ∷ xs) = elim (Bool-cases (ltb_ℤ (pos 0) (cmp x e))) [
  | inl p ↦ rw p
  | inr p ↦ rw p (ap (λ l. x ∷ l) (insert_at-bisect_right e xs))
]

pub insert_ring-eq-insert_sorted :
    (ring : List RingEntry) (e : RingEntry) → insert_ring ring e ≡ insert_sorted e ring
insert_ring-eq-insert_sorted ring e =
    insert_ring-eq-insert_at ring e ∙ insert_at-bisect_right e ring

pub All-insert_sorted {κ} :
    (P : RingEntry → Type κ) (e : RingEntry) (xs : List RingEntry)
    → P e
    → All P xs
    → All P (insert_sorted e xs)
unfolding insert_sorted
All-insert_sorted P e [] h k = (h, tt)
All-insert_sorted P e (x ∷ xs) h k = elim (Bool-cases (ltb_ℤ (pos 0) (cmp x e))) [
  | inl p ↦ rw p (h, k)
  | inr p ↦ rw p (k.0, All-insert_sorted P e xs h k.1)
]

insert_sorted-IsSorted :
    (e : RingEntry) (xs : List RingEntry) → IsSorted xs → IsSorted (insert_sorted e xs)
unfolding insert_sorted
insert_sorted-IsSorted e [] h = (tt, tt)
insert_sorted-IsSorted e (x ∷ xs) h = elim (Bool-cases (ltb_ℤ (pos 0) (cmp x e))) [
  | inl p ↦
      let first = Le_total x e p in
      rw p ((first, All-map (Le x) (Le e) xs (λ y. Le_trans e x y first) h.0), h)
  | inr p ↦ rw p (All-insert_sorted (Le x) e xs p h.0, insert_sorted-IsSorted e xs h.1)
]

-- `insertRing` keeps a ring sorted.
pub insert_ring-IsSorted :
    (ring : List RingEntry) (e : RingEntry) → IsSorted ring → IsSorted (insert_ring ring e)
insert_ring-IsSorted ring e h = rw insert_ring-eq-insert_sorted (insert_sorted-IsSorted e ring h)
