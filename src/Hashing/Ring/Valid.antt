-- ===== src/Hashing/Ring/Valid.antt =====
-- The invariant of a ring (hashing/hashing.go, hashing/fnv1a.go), which AddNode and RemoveNode keep.
use buckytools.Prelude.{
  ℕ, zero, suc, ◌+◌, ◌^◌, ◌<◌, ◌≡◌, refl, ap, ◌∙◌, inl, inr, Bool, false, List, [], ◌∷◌, arith,
  Bool-cases, length, All,
}
use buckytools.Prelude.Text.{Text, text_eq}
use buckytools.Hashing.Node.{Node, node_string}
use buckytools.Hashing.Ring.{
  RingEntry, Hasher, HashRing, insert_ring, add_replicas, add_node, remove_node,
}
use buckytools.Hashing.Ring.Sorted.{
  Le, IsSorted, insert_sorted, insert_ring-eq-insert_sorted, insert_ring-IsSorted,
  All-insert_sorted,
}
use buckytools.Hashing.Ring.Remove.{without, delete_loop-eq-without}

abbrev pub ring_size : ℕ
ring_size = 2 ^ 16

abbrev pub InSpace : RingEntry → Type 0
InSpace e = e.position < ring_size

pub record IsValid (t : HashRing) : Type 0 where
  pub sorted : IsSorted t.ring
  pub in_space : All InSpace t.ring

-- A hash whose positions are 16-bit numbers.
abbrev pub HasSpace : Hasher → Type 0
HasSpace h = (key : Text) → h.position_of key < ring_size

length-insert_sorted :
    (e : RingEntry) (xs : List RingEntry) → length (insert_sorted e xs) ≡ length xs + 1
unfolding insert_sorted
length-insert_sorted e [] = refl
length-insert_sorted e (x ∷ xs) = ground (arith, length-insert_sorted e xs)

module _ (h : Hasher) (space : HasSpace h) (n : Node) where
  add_replicas-IsValid :
      (i left : ℕ) (ring : List RingEntry)
      → IsSorted ring
      → All InSpace ring
      → IsSorted (add_replicas h n i left ring)
        × All InSpace (add_replicas h n i left ring)
        × (length (add_replicas h n i left ring) ≡ length ring + left)
  unfolding add_replicas
  add_replicas-IsValid i zero ring s p = (s, p, omega arith)
  add_replicas-IsValid i (suc left) ring s p =
      let e : RingEntry = record { position = h.position_of (h.replica_key n i); node = n } in
      let same = insert_ring-eq-insert_sorted ring e in
      let p' : All InSpace (insert_ring ring e) =
        rw same (All-insert_sorted InSpace e ring (space (h.replica_key n i)) p) in
      let (s', q, count) =
        add_replicas-IsValid (i + 1) left (insert_ring ring e) (insert_ring-IsSorted ring e s) p' in
      let one : length (insert_ring ring e) ≡ length ring + 1 =
        ap length same ∙ length-insert_sorted e ring in
      (s', q, omega (arith, count, one))

-- `AddNode` keeps a ring sorted and within 16 bits, and adds one entry for each replica.
pub add_node-IsValid :
    (h : Hasher) (t : HashRing) (n : Node)
    → HasSpace h
    → IsValid t
    → IsValid (add_node h t n) × (length (add_node h t n).ring ≡ length t.ring + t.replicas)
unfolding add_node
add_node-IsValid h t n space v =
    let (s, p, count) = add_replicas-IsValid h space n 0 t.replicas t.ring v.sorted v.in_space in
    (record { sorted = s; in_space = p }, count)

All-without {ℓ κ} :
    {A : Type ℓ} (P : A → Type κ) (drops : A → Bool) (xs : List A)
    → All P xs
    → All P (without drops xs)
unfolding without
All-without P drops [] h = tt
All-without P drops (x ∷ xs) h = elim (Bool-cases (drops x)) [
  | inl hit ↦ rw hit (All-without P drops xs h.1)
  | inr keep ↦ rw keep (h.0, All-without P drops xs h.1)
]

without-IsSorted :
    (drops : RingEntry → Bool) (ring : List RingEntry)
    → IsSorted ring
    → IsSorted (without drops ring)
unfolding without
without-IsSorted drops [] h = tt
without-IsSorted drops (x ∷ xs) h = elim (Bool-cases (drops x)) [
  | inl hit ↦ rw hit (without-IsSorted drops xs h.1)
  | inr keep ↦ rw keep (All-without (Le x) drops xs h.0, without-IsSorted drops xs h.1)
]

-- No entry that is left matches.
without-clean {ℓ} :
    {A : Type ℓ} (drops : A → Bool) (xs : List A) → All (λ x. drops x ≡ false) (without drops xs)
unfolding without
without-clean drops [] = tt
without-clean drops (x ∷ xs) = elim (Bool-cases (drops x)) [
  | inl hit ↦ rw hit (without-clean drops xs)
  | inr keep ↦ rw keep (keep, without-clean drops xs)
]

-- `RemoveNode` keeps a ring sorted and within 16 bits, and leaves no node and no entry that prints
-- as the removed node does.
remove_node-IsValid :
    (t : HashRing) (n : Node)
    → IsValid t
    → IsValid (remove_node t n)
      × All (λ m. text_eq (node_string n) (node_string m) ≡ false) (remove_node t n).nodes
      × All (λ e. text_eq (node_string n) (node_string e.node) ≡ false) (remove_node t n).ring
unfolding remove_node
remove_node-IsValid t n v =
    let matches : RingEntry → Bool = λ e. text_eq (node_string n) (node_string e.node) in
    rw delete_loop-eq-without (
      rw delete_loop-eq-without (
        record {
          sorted = (without-IsSorted matches t.ring v.sorted);
          in_space = (All-without InSpace matches t.ring v.in_space);
        },
        without-clean _ t.nodes,
        without-clean matches t.ring,
      ))
