-- ===== src/Hashing/Ring/Nearest.antt =====
-- GetNode of a well-formed ring (hashing/hashing.go, hashing/fnv1a.go) finds the entry that is nearest clockwise.
use native.Mathlib.Nat.{le_refl}
use buckytools.Prelude.{
  ℕ, suc, ◌+◌, ◌-◌, ◌%◌, ◌≤◌, ◌<◌, ◌≡◌, refl, ap, ◌∙◌, ◌≢◌, ◌⊎◌, inl, inr, none, some, List, [],
  ◌∷◌, arith, leb, Bool-cases, get_elem?, All,
}
use buckytools.Prelude.Text.{Text}
use buckytools.Hashing.Ring.{RingEntry, Hasher, HashRing, get_node}
use buckytools.Hashing.Ring.Sorted.{Le, IsSorted, Le-position}
use buckytools.Hashing.Ring.Owner.{
  find_from, owner, node_of, get_node-eq-owner, owner_found, owner_wrapped,
}
use buckytools.Hashing.Ring.Valid.{ring_size, InSpace, IsValid, HasSpace, HasSpace}

-- How far q lies after p, going up and round the ring.
abbrev pub clockwise : ℕ → ℕ → ℕ
clockwise p q = (q + ring_size - p) % ring_size

module _ (p : ℕ) (small : p < ring_size) where
  abbrev Nearest : ℕ → List RingEntry → Type 0
  Nearest q ring = All (λ x. clockwise p q ≤ clockwise p x.position) ring

  Nearest-of_le :
      (q : ℕ) (e : RingEntry) (ring : List RingEntry)
      → p ≤ q
      → q ≤ e.position
      → All (Le e) ring
      → All InSpace ring
      → e.position < ring_size
      → Nearest q ring
  Nearest-of_le q e [] low le h s i = tt
  Nearest-of_le q e (x ∷ xs) low le h s i =
      let above = Le-position e x h.0 in
      (omega (arith, above, s.0), Nearest-of_le q e xs low le h.1 s.1 i)

  -- Either the search finds an entry, and it is the nearest, or all positions lie below p.
  find_from-Nearest :
      (ring : List RingEntry)
      → IsSorted ring
      → All InSpace ring
      → ((e : RingEntry) × (find_from p ring ≡ some e)
          × (p ≤ e.position)
          × (e.position < ring_size)
          × Nearest e.position ring)
        ⊎ ((find_from p ring ≡ none) × All (λ x. x.position < p) ring)
  unfolding find_from
  find_from-Nearest [] h s = inr (refl, tt)
  find_from-Nearest (x ∷ xs) h s = elim (Bool-cases (leb p x.position)) [
    | inl at ↦
        let low : p ≤ x.position = ground arith in
        inl (
          x,
          rw at,
          low,
          s.0,
          (le_refl _, Nearest-of_le x.position x xs low (le_refl x.position) h.0 s.1 s.0),
        )
    | inr below ↦
        let under : x.position < p = ground arith in
        elim (find_from-Nearest xs h.1 s.1) [
          | inl (e, found, low, high, near) ↦
              inl (e, rw (below, found), low, high, (omega (arith, s.0), near))
          | inr (nothing, all) ↦ inr (rw (below, nothing), (under, all))
        ]
  ]

  Nearest-of_below :
      (e : RingEntry) (ring : List RingEntry)
      → e.position < p
      → All (Le e) ring
      → All (λ x. x.position < p) ring
      → Nearest e.position ring
  Nearest-of_below e [] b h s = tt
  Nearest-of_below e (x ∷ xs) b h s =
      let above = Le-position e x h.0 in
      (omega (arith, above, s.0), Nearest-of_below e xs b h.1 s.1)

  find_from-get_elem? :
      (ring : List RingEntry) (e : RingEntry)
      → find_from p ring ≡ some e
      → (i : ℕ) × (get_elem? ring i ≡ some e)
  unfolding find_from
  find_from-get_elem? [] e h = cc
  find_from-get_elem? (x ∷ xs) e h = elim (Bool-cases (leb p x.position)) [
    | inl hit ↦ (0, rw hit at h)
    | inr below ↦ let (i, found) = find_from-get_elem? xs e (rw below at h) in (suc i, found)
  ]

  owner-Nearest :
      (x : RingEntry) (xs : List RingEntry)
      → IsSorted (x ∷ xs)
      → All InSpace (x ∷ xs)
      → (e : RingEntry) × (i : ℕ) × (owner p (x ∷ xs) ≡ some e)
        × (get_elem? (x ∷ xs) i ≡ some e)
        × Nearest e.position (x ∷ xs)
  owner-Nearest x xs h s = elim (find_from-Nearest (x ∷ xs) h s) [
    | inl (e, found, low, high, near) ↦
        let (i, at) = find_from-get_elem? (x ∷ xs) e found in
        (e, i, owner_found p (x ∷ xs) e found, at, near)
    | inr (nothing, all) ↦ (
      x,
      0,
      owner_wrapped p (x ∷ xs) nothing,
      refl,
      (le_refl _, Nearest-of_below x xs all.0 h.0 all.1),
    )
  ]

-- On a valid ring that is not empty `GetNode` returns the node of an entry of the ring that lies
-- nearest to the key's position, going up and round the ring.
pub get_node_nearest :
    (h : Hasher) (t : HashRing) (key : Text)
    → HasSpace h
    → IsValid t
    → t.ring ≢ []
    → (e : RingEntry) × (i : ℕ) × (get_node h t key ≡ some e.node)
      × (get_elem? t.ring i ≡ some e)
      × All
          (λ x. clockwise (h.position_of key) e.position ≤ clockwise (h.position_of key) x.position)
          t.ring
get_node_nearest h t key space v full = go t.ring refl
  where
    go :
        (ring : List RingEntry)
        → t.ring ≡ ring
        → (e : RingEntry) × (i : ℕ) × (get_node h t key ≡ some e.node)
          × (get_elem? t.ring i ≡ some e)
          × All
              (λ x.
                clockwise (h.position_of key) e.position ≤ clockwise (h.position_of key) x.position)
              t.ring
    go [] same = absurd (full same)
    go (x ∷ xs) same =
        let (e, i, own, at_i, near) =
          owner-Nearest (h.position_of key) (space key) x xs (rw same at v.sorted)
            (rw same at v.in_space) in
        (
          e,
          i,
          get_node-eq-owner h t key ∙ ap node_of (ap (owner (h.position_of key)) same ∙ own),
          rw same at_i,
          rw same near,
        )
