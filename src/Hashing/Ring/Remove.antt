-- ===== src/Hashing/Ring/Remove.antt =====
-- RemoveNode (hashing/hashing.go, hashing/fnv1a.go): what the two deleting loops leave, and which
-- keys move.
use buckytools.Prelude.{
  ℕ, zero, suc, ◌+◌, ◌≤◌, ◌≡◌, refl, sym, ap, ◌∙◌, inl, inr, Bool, true, false, not, none, some,
  List, [], ◌∷◌, ◌++◌, append_assoc, arith, Bool-cases, length, get_elem?, take, drop, filter, All,
  length-append, take-append, drop-append, drop-drop,
}
use buckytools.Prelude.Text.{Text, text_eq, text_eq_refl}
use buckytools.Hashing.Node.{Node, node_string}
use buckytools.Hashing.Ring.{
  RingEntry, Hasher, HashRing, delete_loop, get_node, insert_ring, add_replicas, add_node,
  remove_node,
}
use buckytools.Hashing.Ring.Sorted.{insert_sorted, insert_ring-eq-insert_sorted}
use buckytools.Hashing.Ring.Owner.{
  find_from, first, owner, node_of, node_of-some, get_node-eq-owner,
}

-- What the loop should leave.
unfoldable pub without {ℓ} : {A : Type ℓ} → (A → Bool) → List A → List A
without drops xs = filter (λ x. not (drops x)) xs

get_elem?-append {ℓ} :
    {A : Type ℓ} (pre : List A) (rest : List A)
    → get_elem? (pre ++ rest) (length pre) ≡ get_elem? rest 0
get_elem?-append [] rest = refl
get_elem?-append (x ∷ pre) rest = get_elem?-append pre rest

-- The slice without its element after `pre`.
cut_one {ℓ} :
    {A : Type ℓ} (pre : List A) (x : A) (rest : List A)
    → take (length pre) (pre ++ (x ∷ rest)) ++ drop (length pre + 1) (pre ++ (x ∷ rest))
      ≡ pre ++ rest
cut_one pre x rest = rw (
  take-append (length pre) pre (x ∷ rest) refl,
  sym (drop-drop 1 (length pre) (pre ++ (x ∷ rest))),
  drop-append (length pre) pre (x ∷ rest) refl,
)

module _ {ℓ} {A : Type ℓ} (drops : A → Bool) where
  delete_hit :
      (fuel i : ℕ) (xs : List A) (x : A)
      → get_elem? xs i ≡ some x
      → drops x ≡ true
      → delete_loop drops (suc fuel) i xs ≡ delete_loop drops fuel i (take i xs ++ drop (i + 1) xs)
  unfolding delete_loop
  delete_hit fuel i xs x h k = rw (h, delete_loop) (rw (k))

  delete_miss :
      (fuel i : ℕ) (xs : List A) (x : A)
      → get_elem? xs i ≡ some x
      → drops x ≡ false
      → delete_loop drops (suc fuel) i xs ≡ delete_loop drops fuel (i + 1) xs
  unfolding delete_loop
  delete_miss fuel i xs x h k = rw (h, delete_loop) (rw (k))

  delete_end :
      (fuel i : ℕ) (xs : List A) → get_elem? xs i ≡ none → delete_loop drops (suc fuel) i xs ≡ xs
  unfolding delete_loop
  delete_end fuel i xs h = rw (h, delete_loop)

  delete_loop-append :
      (fuel : ℕ) (pre rest : List A)
      → length rest ≤ fuel
      → delete_loop drops fuel (length pre) (pre ++ rest) ≡ pre ++ without drops rest
  unfolding delete_loop without
  delete_loop-append zero pre [] h = refl
  delete_loop-append zero pre (x ∷ rest) h = absurd (omega arith)
  delete_loop-append (suc fuel) pre [] h =
      delete_end fuel (length pre) (pre ++ []) (get_elem?-append pre [])
  delete_loop-append (suc fuel) pre (x ∷ rest) h =
      let at = get_elem?-append pre (x ∷ rest) in
      elim (Bool-cases (drops x)) [
        | inl hit ↦
            delete_hit fuel (length pre) (pre ++ (x ∷ rest)) x at hit
            ∙ rw (hit, cut_one pre x rest) (delete_loop-append fuel pre rest (omega arith))
        | inr keep ↦
            let moved : length pre + 1 ≡ length (pre ++ (x ∷ [])) =
              omega (arith, length-append pre (x ∷ [])) in
            delete_miss fuel (length pre) (pre ++ (x ∷ rest)) x at keep
            ∙ rw
                (
                  keep,
                  moved,
                  sym (append_assoc pre (x ∷ []) rest),
                  sym (append_assoc pre (x ∷ []) (without drops rest)),
                )
                (delete_loop-append fuel (pre ++ (x ∷ [])) rest (omega arith))
      ]

  -- The deleting loop of `RemoveNode` ends after as many rounds as there are elements, and leaves
  -- those that do not match, in order.
  pub delete_loop-eq-without : (xs : List A) → delete_loop drops (length xs) 0 xs ≡ without drops xs
  delete_loop-eq-without xs = delete_loop-append (length xs) [] xs (omega arith)

module _ (drops : RingEntry → Bool) where
  find_from-without :
      (p : ℕ) (ring : List RingEntry) (e : RingEntry)
      → find_from p ring ≡ some e
      → drops e ≡ false
      → find_from p (without drops ring) ≡ some e
  unfolding find_from without
  find_from-without p [] e h k = cc
  find_from-without p (x ∷ xs) e h k = ground (arith, find_from-without p xs e)

  find_from-without-none :
      (p : ℕ) (ring : List RingEntry)
      → find_from p ring ≡ none
      → find_from p (without drops ring) ≡ none
  unfolding find_from without
  find_from-without-none p [] h = refl
  find_from-without-none p (x ∷ xs) h = ground (arith, find_from-without-none p xs)

  first-without :
      (ring : List RingEntry) (e : RingEntry)
      → first ring ≡ some e
      → drops e ≡ false
      → first (without drops ring) ≡ some e
  unfolding without
  first-without [] e h k = cc
  first-without (x ∷ xs) e h k = ground arith

  owner-without :
      (p : ℕ) (ring : List RingEntry) (e : RingEntry)
      → owner p ring ≡ some e
      → drops e ≡ false
      → owner p (without drops ring) ≡ some e
  unfolding owner
  owner-without p ring e h k =
      ground
        (arith, find_from-without p ring e, find_from-without-none p ring, first-without ring e)

  without-insert_sorted :
      (e : RingEntry) (ring : List RingEntry)
      → drops e ≡ true
      → without drops (insert_sorted e ring) ≡ without drops ring
  unfolding without insert_sorted
  without-insert_sorted e [] h = rw h
  without-insert_sorted e (x ∷ xs) h = ground (arith, without-insert_sorted e xs h)

  without-add_replicas :
      (h : Hasher) (n : Node) (i left : ℕ) (ring : List RingEntry)
      → ((p : ℕ) → drops (record { position = p; node = n }) ≡ true)
      → without drops (add_replicas h n i left ring) ≡ without drops ring
  unfolding add_replicas
  without-add_replicas h n i zero ring all = refl
  without-add_replicas h n i (suc left) ring all =
      let p = h.position_of (h.replica_key n i) in
      let e : RingEntry = record { position = p; node = n } in
      without-add_replicas h n (i + 1) left (insert_ring ring e) all
      ∙ (ap (without drops) (insert_ring-eq-insert_sorted ring e)
          ∙ without-insert_sorted e ring (all p))

without_none {ℓ} :
    {A : Type ℓ} (drops : A → Bool) (xs : List A)
    → All (λ x. drops x ≡ false) xs
    → without drops xs ≡ xs
unfolding without
without_none drops [] h = refl
without_none drops (x ∷ xs) h = rw h.0 (ap (λ l. x ∷ l) (without_none drops xs h.1))

without-append_one {ℓ} :
    {A : Type ℓ} (drops : A → Bool) (xs : List A) (x : A)
    → drops x ≡ true
    → without drops (xs ++ (x ∷ [])) ≡ without drops xs
unfolding without
without-append_one drops [] x h = rw h
without-append_one drops (y ∷ ys) x h = ground (arith, without-append_one drops ys x h)

-- No node or entry of the ring prints as `n` does.
pub record IsAbsent (n : Node) (t : HashRing) : Type 0 where
  pub from_nodes : All (λ m. text_eq (node_string n) (node_string m) ≡ false) t.nodes
  pub from_ring : All (λ e. text_eq (node_string n) (node_string e.node) ≡ false) t.ring

-- Removing the node just added gives the ring back as it was.
pub remove_node-add_node :
    (h : Hasher) (t : HashRing) (n : Node) → IsAbsent n t → remove_node (add_node h t n) n ≡ t
unfolding remove_node add_node
remove_node-add_node h t n absent =
    let self = text_eq_refl (node_string n) in
    λ i. record t { nodes = same_nodes self i; ring = same_ring self i }
  where
    matches : Node → Bool
    matches m = text_eq (node_string n) (node_string m)

    same_nodes :
        text_eq (node_string n) (node_string n) ≡ true
        → delete_loop matches (length (t.nodes ++ (n ∷ []))) 0 (t.nodes ++ (n ∷ [])) ≡ t.nodes
    same_nodes self =
        delete_loop-eq-without matches (t.nodes ++ (n ∷ []))
        ∙ (without-append_one matches t.nodes n self
            ∙ without_none matches t.nodes absent.from_nodes)

    same_ring :
        text_eq (node_string n) (node_string n) ≡ true
        → delete_loop
            (λ e. matches e.node)
            (length (add_replicas h n 0 t.replicas t.ring))
            0
            (add_replicas h n 0 t.replicas t.ring)
          ≡ t.ring
    same_ring self =
        delete_loop-eq-without (λ e. matches e.node) (add_replicas h n 0 t.replicas t.ring)
        ∙ (without-add_replicas (λ e. matches e.node) h n 0 t.replicas t.ring (λ p. self)
            ∙ without_none (λ e. matches e.node) t.ring absent.from_ring)

-- After a node is removed, a key that was found on another node is still found there.
pub get_node-remove_node :
    (h : Hasher) (t : HashRing) (n : Node) (key : Text) (m : Node)
    → get_node h t key ≡ some m
    → text_eq (node_string n) (node_string m) ≡ false
    → get_node h (remove_node t n) key ≡ some m
unfolding remove_node
get_node-remove_node h t n key m own other =
    let (e, at, node) =
      node_of-some (owner (h.position_of key) t.ring) m (sym (get_node-eq-owner h t key) ∙ own) in
    let kept = ap (λ x. text_eq (node_string n) (node_string x)) node ∙ other in
    rw (get_node-eq-owner, delete_loop-eq-without)
      (ap node_of (owner-without _ (h.position_of key) t.ring e at kept) ∙ ap some node)
