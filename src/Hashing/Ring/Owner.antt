-- ===== src/Hashing/Ring/Owner.antt =====
-- GetNode and AddNode (hashing/hashing.go, hashing/fnv1a.go): which entry a key has, and what
-- another node changes.
use native.Mathlib.Nat.{div-add-mod, mod-eq_of_lt}
use native.Mathlib.Decide.{dec_lt}
use buckytools.Prelude.{
  ℕ, zero, suc, ◌+◌, ◌%◌, ◌≤◌, ◌<◌, ◌≡◌, refl, sym, ap, ◌∙◌, ◌⊎◌, inl, inr, false, Option, none,
  some, List, [], ◌∷◌, arith, leb, ◌==◌, if◌then◌else◌, length, get_elem?,
}
use buckytools.Prelude.Text.{Text}
use buckytools.Hashing.Node.{Node}
use buckytools.Hashing.Ring.{
  RingEntry, Hasher, HashRing, mod_int, bisect_left, key_entry, start_index, node_at, get_node,
  insert_ring, add_replicas, add_node,
}
use buckytools.Hashing.Ring.Sorted.{insert_sorted, insert_ring-eq-insert_sorted}

-- The first entry at position p or later.
unfoldable pub find_from : ℕ → List RingEntry → Option RingEntry
find_from p [] = none
find_from p (x ∷ xs) = if leb p x.position then some x else find_from p xs

abbrev pub first : List RingEntry → Option RingEntry
first [] = none
first (x ∷ xs) = some x

-- The entry that a position has: the first one at it or later, round the end of the ring.
unfoldable pub owner : ℕ → List RingEntry → Option RingEntry
owner p ring = elim (find_from p ring) [ some e ↦ some e | none ↦ first ring ]

abbrev pub node_of : Option RingEntry → Option Node
node_of none = none
node_of (some e) = some e.node

-- What `bisectLeft` finds: an entry that is the first from the position on, or the end.
bisect_left-find_from :
    (ring : List RingEntry) (e : RingEntry)
    → (get_elem? ring (bisect_left ring e) ≡ find_from e.position ring)
      × (bisect_left ring e ≤ length ring)
unfolding bisect_left find_from
bisect_left-find_from [] e = (refl, omega arith)
bisect_left-find_from (x ∷ xs) e = ground (arith, bisect_left-find_from xs e)

get_elem?-length {ℓ} : {A : Type ℓ} (xs : List A) → get_elem? xs (length xs) ≡ none
get_elem?-length [] = refl
get_elem?-length (x ∷ xs) = get_elem?-length xs

pub get_elem?-some {ℓ} :
    {A : Type ℓ} (xs : List A) (i : ℕ) → i < length xs → (a : A) × (get_elem? xs i ≡ some a)
get_elem?-some [] i h = absurd (omega arith)
get_elem?-some (x ∷ xs) zero h = (x, refl)
get_elem?-some (x ∷ xs) (suc i) h = get_elem?-some xs i (omega arith)

get_elem?-zero {ℓ} : {A : Type ℓ} (x : A) (xs : List A) → get_elem? (x ∷ xs) 0 ≡ some x
get_elem?-zero x xs = refl

mod_int-eq-mod : (a b : ℕ) → mod_int a b ≡ a % b
unfolding mod_int
mod_int-eq-mod a b = omega (arith, div-add-mod a b)

-- The index wraps to 0 at the end of the ring, and nowhere else.
wrapped_index :
    (i n : ℕ) → 0 < n → i ≤ n → ((i < n) × (mod_int i n ≡ i)) ⊎ ((i ≡ n) × (mod_int i n ≡ 0))
wrapped_index i n h k = elim (dec_lt i n) [
  | yes lt ↦ inl (lt, mod_int-eq-mod i n ∙ mod-eq_of_lt lt)
  | no ge ↦ inr (omega arith, ends (omega arith))
]
  where
    ends : i ≡ n → mod_int i n ≡ 0
    ends e = rw (e, mod_int-eq-mod) (grind arith)

node_at-get_elem? :
    (ring : List RingEntry) (i : ℕ) {o : Option RingEntry}
    → get_elem? ring i ≡ o
    → node_at ring i ≡ node_of o
unfolding node_at
node_at-get_elem? ring i e = rw (← e) (split (get_elem? ring i))
  where
    split :
        (o : Option RingEntry)
        → (elim o as (λ x. Option Node) [ none ↦ none | some e ↦ some e.node ]) ≡ node_of o
    split none = refl
    split (some e) = refl

-- The owner, by what the search found.
pub owner_found :
    (p : ℕ) (ring : List RingEntry) (e : RingEntry)
    → find_from p ring ≡ some e
    → owner p ring ≡ some e
unfolding owner
owner_found p ring e h = rw (h, owner)

pub owner_wrapped :
    (p : ℕ) (ring : List RingEntry) → find_from p ring ≡ none → owner p ring ≡ first ring
unfolding owner
owner_wrapped p ring h = rw (h, owner)

node_at-owner :
    (x : RingEntry) (xs : List RingEntry) (e : RingEntry)
    → node_at (x ∷ xs) (mod_int (bisect_left (x ∷ xs) e) (length (x ∷ xs)))
      ≡ node_of (owner e.position (x ∷ xs))
node_at-owner x xs e =
    let ring = x ∷ xs in
    let (found, bound) = bisect_left-find_from ring e in
    elim (wrapped_index (bisect_left ring e) (length ring) (omega arith) bound) [
      | inl (inside, index) ↦
          let (a, at) = get_elem?-some ring (bisect_left ring e) inside in
          rw (index, owner_found e.position ring a (sym found ∙ at))
            (node_at-get_elem? ring (bisect_left ring e) at)
      | inr (end, index) ↦
          let past = sym found ∙ (ap (get_elem? ring) end ∙ get_elem?-length ring) in
          rw (index, owner_wrapped e.position ring past) (node_at-get_elem? ring 0 refl)
    ]

-- `GetNode` returns the node of the first entry from the key's position on, or of the first entry
-- of the ring; it panics when the ring is empty.
pub get_node-eq-owner :
    (h : Hasher) (t : HashRing) (key : Text)
    → get_node h t key ≡ node_of (owner (h.position_of key) t.ring)
unfolding get_node start_index key_entry owner find_from
get_node-eq-owner h t key = go t.ring
  where
    go :
        (ring : List RingEntry)
        → (if length ring == 0
            then none
            else node_at ring (mod_int (bisect_left ring (key_entry h key)) (length ring)))
          ≡ node_of (owner (h.position_of key) ring)
    go [] = refl
    go (x ∷ xs) =
        let full : (suc (length xs) == 0) ≡ false = ground arith in
        rw full (node_at-owner x xs (key_entry h key))

-- One more entry: a position keeps its entry or has the new one.
find_from-insert_sorted :
    (p : ℕ) (e : RingEntry) (ring : List RingEntry)
    → (find_from p (insert_sorted e ring) ≡ find_from p ring)
      ⊎ (find_from p (insert_sorted e ring) ≡ some e)
unfolding find_from insert_sorted
find_from-insert_sorted p e [] = ground arith
find_from-insert_sorted p e (x ∷ xs) = ground (arith, find_from-insert_sorted p e xs)

first-insert_sorted :
    (e : RingEntry) (ring : List RingEntry) {o : RingEntry}
    → first ring ≡ some o
    → (first (insert_sorted e ring) ≡ some o) ⊎ (first (insert_sorted e ring) ≡ some e)
unfolding insert_sorted
first-insert_sorted e [] h = cc
first-insert_sorted e (x ∷ xs) h = ground arith

owner-insert_sorted :
    (p : ℕ) (e o : RingEntry) (ring : List RingEntry)
    → owner p ring ≡ some o
    → (owner p (insert_sorted e ring) ≡ some o) ⊎ (owner p (insert_sorted e ring) ≡ some e)
unfolding owner
owner-insert_sorted p e o ring own =
    ground (arith, find_from-insert_sorted p e ring, first-insert_sorted e ring {o = o})

pub node_of-some :
    (o : Option RingEntry) (m : Node)
    → node_of o ≡ some m
    → (e : RingEntry) × (o ≡ some e) × (e.node ≡ m)
node_of-some none m h = cc
node_of-some (some e) m h = (e, refl, cc)

node_of-owner-insert_ring :
    (p : ℕ) (e : RingEntry) (ring : List RingEntry) (m : Node)
    → node_of (owner p ring) ≡ some m
    → (node_of (owner p (insert_ring ring e)) ≡ some m)
      ⊎ (node_of (owner p (insert_ring ring e)) ≡ some e.node)
node_of-owner-insert_ring p e ring m own =
    let (o, at, node) = node_of-some (owner p ring) m own in
    rw insert_ring-eq-insert_sorted (elim (owner-insert_sorted p e o ring at) [
      | inl kept ↦ inl (ap node_of kept ∙ ap some node)
      | inr moved ↦ inr (ap node_of moved)
    ])

-- A node's replicas: a position keeps the node that it has or has the new one.
owner-add_replicas :
    (h : Hasher) (n : Node) (p i left : ℕ) (ring : List RingEntry) (m : Node)
    → node_of (owner p ring) ≡ some m
    → (node_of (owner p (add_replicas h n i left ring)) ≡ some m)
      ⊎ (node_of (owner p (add_replicas h n i left ring)) ≡ some n)
unfolding add_replicas
owner-add_replicas h n p i zero ring m own = inl own
owner-add_replicas h n p i (suc left) ring m own =
    let e : RingEntry = record { position = h.position_of (h.replica_key n i); node = n } in
    elim (node_of-owner-insert_ring p e ring m own) [
      | inl kept ↦ owner-add_replicas h n p (i + 1) left (insert_ring ring e) m kept
      | inr moved ↦ elim (owner-add_replicas h n p (i + 1) left (insert_ring ring e) n moved) [
        | inl again ↦ inr again
        | inr again ↦ inr again
      ]
    ]

-- Consistent hashing: after another node is added, a key is still found on the node that it had, or
-- it is found on the new node. No key moves between the other nodes.
pub get_node-add_node :
    (h : Hasher) (t : HashRing) (n : Node) (key : Text) (m : Node)
    → get_node h t key ≡ some m
    → (get_node h (add_node h t n) key ≡ some m) ⊎ (get_node h (add_node h t n) key ≡ some n)
unfolding add_node
get_node-add_node h t n key m own = rw get_node-eq-owner (
    owner-add_replicas h n (h.position_of key) 0 t.replicas t.ring m
      (sym (get_node-eq-owner h t key) ∙ own))
