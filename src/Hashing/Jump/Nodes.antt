-- ===== src/Hashing/Jump/Nodes.antt =====
-- JumpHashRing of hashing/jump.go: AddNode keeps the order of instances, GetNode finds a node, and
-- what GetNodes does.
use native.Mathlib.Decide.{dec_lt}
use buckytools.Prelude.{
  ℕ, zero, suc, ◌+◌, ◌-◌, ◌^◌, ◌≤◌, ◌<◌, ◌≡◌, refl, sym, ap, ◌∙◌, inl, inr, true, false, not, none,
  some, List, [], ◌∷◌, ◌++◌, append-nil, arith, leb, if◌then◌else◌, Bool-cases, length, get_elem?,
  set, All, length-append, take_all, All-map,
}
use buckytools.Prelude.Int.{pos}
use buckytools.Prelude.Text.{Text, text_eq, text_lt, text_lt_irrefl, text_lt_trans}
use buckytools.Hashing.Node.{Node}
use buckytools.Hashing.Ring.{shift_up}
use buckytools.Hashing.Ring.Insert.{insert_at, set-shift_up, insert_at-length}
use buckytools.Hashing.Jump.{
  Float64, JumpHashRing, jump, fnv1a64, instance_index, add_node, node_at, copy_elem, get_node,
  get_nodes, get_nodes_loop,
}
use buckytools.Hashing.Jump.Bounds.{Grows, jump-lt}

instance_index-le : (node : Node) (ring : List Node) → instance_index node ring ≤ length ring
unfolding instance_index
instance_index-le node [] = omega arith
instance_index-le node (x ∷ xs) = ground (arith, instance_index-le node xs)

node_at-some :
    (ring : List Node) (r : ℕ) → r < length ring → (n : Node) × (get_elem? ring r ≡ some n)
node_at-some [] r h = absurd (omega arith)
node_at-some (x ∷ xs) zero h = (x, refl)
node_at-some (x ∷ xs) (suc r) h = node_at-some xs r (omega arith)

module _ (fl : Float64) (grows : Grows fl) where
  -- On a ring that is not empty `GetNode` returns one of its nodes, and does not panic.
  pub get_node-total :
      (chr : JumpHashRing) (key : Text)
      → 0 < length chr.ring
      → length chr.ring ≤ 2 ^ 31
      → (i : ℕ) × (n : Node) × (get_node fl chr key ≡ some n) × (get_elem? chr.ring i ≡ some n)
  unfolding get_node
  get_node-total chr key full small =
      let (r, e, inside) = jump-lt fl grows (fnv1a64 key) (length chr.ring) full small in
      let (n, at) = node_at-some chr.ring r inside in (r, n, rw e (unfold node_at in at), at)

-- The first round of the loop of `GetNodes`.
get_nodes_first :
    (fl : Float64) (chr : JumpHashRing) (h r i j : ℕ) (n : Node)
    → jump fl h (suc i) ≡ some (pos j)
    → get_elem? chr.ring j ≡ some n
    → get_nodes_loop fl chr [] [] h r (suc i) ≡ (if leb (r - 1) 0 then some (n ∷ []) else none)
unfolding get_nodes_loop node_at copy_elem
get_nodes_first fl chr h r i j n e at =
    rw (e, get_nodes_loop) (rw (at, get_nodes_loop) (ground arith))

-- With at most one replica `GetNodes` returns the node of `GetNode`; with more it panics, on every
-- ring of 1 to 2^31 nodes: the slice that it means to alter has no elements.
get_nodes_lem :
    (fl : Float64) (grows : Grows fl) (chr : JumpHashRing) (key : Text)
    → 0 < length chr.ring
    → length chr.ring ≤ 2 ^ 31
    → (n : Node) × (get_node fl chr key ≡ some n)
      × (get_nodes fl chr key ≡ (if leb chr.replicas 1 then some (n ∷ []) else none))
unfolding get_node get_nodes
get_nodes_lem fl grows chr key full small =
    let (j, e, inside) = jump-lt fl grows (fnv1a64 key) (length chr.ring) full small in
    let (n, at) = node_at-some chr.ring j inside in
    let count : length chr.ring ≡ suc (length chr.ring - 1) = omega arith in
    let e' = sym (ap (jump fl (fnv1a64 key)) count) ∙ e in
    let one : leb (chr.replicas - 1) 0 ≡ leb chr.replicas 1 = ground arith in
    (
      n,
      rw e (unfold node_at in at),
      ap (get_nodes_loop fl chr [] [] (fnv1a64 key) chr.replicas) count
          ∙ (get_nodes_first fl chr (fnv1a64 key) chr.replicas (length chr.ring - 1) j n e' at
              ∙ ap (λ b. if b then some (n ∷ []) else none) one),
    )

-- Instances in the order of their texts.
abbrev pub IsOrdered : List Node → Type 0
IsOrdered [] = Unit
IsOrdered (x ∷ xs) =
    All (λ (y : Node). text_lt y.instance_name x.instance_name ≡ false) xs × IsOrdered xs

insert_instance : Node → List Node → List Node
insert_instance node [] = node ∷ []
insert_instance node (x ∷ xs) =
    if not (text_lt node.instance_name x.instance_name)
    then x ∷ insert_instance node xs
    else node ∷ (x ∷ xs)

insert_at-instance_index :
    (node : Node) (ring : List Node)
    → insert_at (instance_index node ring) node ring ≡ insert_instance node ring
unfolding insert_at instance_index insert_instance
insert_at-instance_index node [] = refl
insert_at-instance_index node (x ∷ xs) =
    elim (Bool-cases (text_lt node.instance_name x.instance_name)) [
      | inl lt ↦ rw lt
      | inr ge ↦ rw ge (ap (λ l. x ∷ l) (insert_at-instance_index node xs))
    ]

All-insert_instance {κ} :
    (P : Node → Type κ) (node : Node) (xs : List Node)
    → P node
    → All P xs
    → All P (insert_instance node xs)
unfolding insert_instance
All-insert_instance P node [] h k = (h, tt)
All-insert_instance P node (x ∷ xs) h k =
    elim (Bool-cases (text_lt node.instance_name x.instance_name)) [
      | inl lt ↦ rw lt (h, k)
      | inr ge ↦ rw ge (k.0, All-insert_instance P node xs h k.1)
    ]

le_of_lt_of_le : (s t u : Text) → text_lt s t ≡ true → text_lt u t ≡ false → text_lt u s ≡ false
le_of_lt_of_le s t u h k = elim (Bool-cases (text_lt u s)) [
  | inr e ↦ e
  | inl e ↦ absurd (absurd_of (sym k ∙ text_lt_trans u s t e h))
]
  where
    absurd_of : false ≡ true → ⊥
    absurd_of p = cc

insert_instance-IsOrdered :
    (node : Node) (ring : List Node) → IsOrdered ring → IsOrdered (insert_instance node ring)
unfolding insert_instance
insert_instance-IsOrdered node [] h = (tt, tt)
insert_instance-IsOrdered node (x ∷ xs) h =
    elim (Bool-cases (text_lt node.instance_name x.instance_name)) [
      | inr ge ↦ rw ge (
        All-insert_instance (λ y. text_lt y.instance_name x.instance_name ≡ false) node xs ge h.0,
        insert_instance-IsOrdered node xs h.1,
      )
      | inl lt ↦ rw lt (
        (
          le_of_lt_of_le node.instance_name x.instance_name x.instance_name lt
              (text_lt_irrefl x.instance_name),
          All-map _ _ xs (λ y. le_of_lt_of_le node.instance_name x.instance_name y.instance_name lt)
              h.0,
        ),
        h,
      )
    ]

set_last {ℓ} :
    {A : Type ℓ} (xs : List A) (x y : A) → set (xs ++ (x ∷ [])) (length xs) y ≡ xs ++ (y ∷ [])
set_last [] x y = refl
set_last (a ∷ xs) x y = ap (λ l. a ∷ l) (set_last xs x y)

shift_up_end :
    (ring : List Node) (node : Node)
    → shift_up (ring ++ (node ∷ [])) (length ring) ≡ ring ++ (node ∷ [])
unfolding shift_up
shift_up_end ring node =
    let grown = length-append ring (node ∷ []) in
    let rest : length (ring ++ (node ∷ [])) - 1 - length ring ≡ 0 = omega (arith, grown) in
    rw (take_all (length ring + 1) (ring ++ (node ∷ [])) (omega (arith, grown)), rest)
      (append-nil (ring ++ (node ∷ [])))

-- The slice operations of `AddNode` insert the node at its index.
set-shift_up_any :
    (ring : List Node) (node : Node) (i : ℕ)
    → i ≤ length ring
    → set (shift_up (ring ++ (node ∷ [])) i) i node ≡ insert_at i node ring
set-shift_up_any ring node i h = elim (dec_lt i (length ring)) [
  | yes lt ↦ set-shift_up ring node i lt
  | no ge ↦
      let end : i ≡ length ring = omega arith in
      rw (end, shift_up_end ring node)
        (set_last ring node node ∙ sym (insert_at-length ring node (length ring) refl))
]

-- Adding a node that has an instance keeps the ring ordered by instance.
add_node-IsOrdered :
    (chr : JumpHashRing) (node : Node)
    → text_eq node.instance_name [] ≡ false
    → IsOrdered chr.ring
    → IsOrdered (add_node chr node).ring
unfolding add_node
add_node-IsOrdered chr node named h =
    let place =
      set-shift_up_any chr.ring node (instance_index node chr.ring)
        (instance_index-le node chr.ring) in
    rw (named, place, insert_at-instance_index node chr.ring)
      (insert_instance-IsOrdered node chr.ring h)
