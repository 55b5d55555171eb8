-- ===== src/Bucky/Cluster/Agree.antt =====
-- What isHealthy finds out: the daemons of a healthy cluster agree on the place of every metric.
use buckytools.Prelude.{
  ℕ, zero, suc, ◌+◌, ◌≡◌, refl, sym, ap, ap₂, ◌∙◌, ◌↔◌, inl, inr, true, Option, none, some, List,
  [], ◌∷◌, ◌++◌, arith, Bool-cases, length, get_elem?, set, All,
}
use mathlib.Core.Path.{subst}
use buckytools.Prelude.Text.{Text, codes, text_eq, text_eq_refl, eq_of_text_eq}
use buckytools.Hashing.Node.{Node, node_cmp, node_cmp_iff}
use buckytools.Hashing.Jump.{
  Float64, JumpHashRing, new_jump_hash_ring, instance_index, node_at, jump, fnv1a64,
}
use buckytools.Hashing.Ring.{new_hash_ring, shift_up}
use buckytools.Hashing.Fnv1a.{new_fnv1a_hash_ring}
use buckytools.Hashing.Ring.Hashers.{carbon, fnv1a}
use buckytools.Hashing.Ring
use buckytools.Hashing.Jump
use buckytools.Bucky.Cluster.{
  JsonRing, Hash, carbon_hash, fnv1a_hash, jump_hash, new_hash, add_node, add_nodes, get_node,
  same_nodes, compare_members, is_healthy,
}

same_nodes-eq : (ns vs : List Node) → same_nodes ns vs ≡ true → ns ≡ vs
unfolding same_nodes
same_nodes-eq [] [] h = refl
same_nodes-eq [] (v ∷ vs) h = absurd (ground arith)
same_nodes-eq (n ∷ ns) [] h = absurd (ground arith)
same_nodes-eq (n ∷ ns) (v ∷ vs) h =
    let first : node_cmp n v ≡ true = ground arith in
    let later : same_nodes ns vs ≡ true = ground arith in
    ap₂ ◌∷◌ ((node_cmp_iff n v).0 first) (same_nodes-eq ns vs later)

same_nodes_refl : (ns : List Node) → same_nodes ns ns ≡ true
unfolding same_nodes
same_nodes_refl [] = refl
same_nodes_refl (n ∷ ns) = rw ((node_cmp_iff n n).1 refl) (same_nodes_refl ns)

-- A daemon that answered with the algorithm and the nodes of the first one.
abbrev pub Agrees : JsonRing → Option JsonRing → Type 0
Agrees master none = ⊥
Agrees master (some v) = (master.algo ≡ v.algo) × (master.nodes ≡ v.nodes)

compare_members_iff :
    (master : JsonRing) (ring : List (Option JsonRing))
    → (compare_members master ring ≡ some true) ↔ All (Agrees master) ring
unfolding compare_members
compare_members_iff master [] = (λ h. tt, λ h. refl)
compare_members_iff master (none ∷ vs) = (λ h. absurd (ground arith), λ h. absurd h.0)
compare_members_iff master (some v ∷ vs) = (
  λ h.
      let algo : text_eq master.algo v.algo ≡ true = ground arith in
      let nodes : same_nodes master.nodes v.nodes ≡ true = ground arith in
      let later : compare_members master vs ≡ some true = ground arith in
      (
        (eq_of_text_eq master.algo v.algo algo, same_nodes-eq master.nodes v.nodes nodes),
        (compare_members_iff master vs).0 later,
      ),
  λ h.
      let (algo, nodes) = h.0 in
      let same_algo : text_eq master.algo v.algo ≡ true =
        ap (text_eq master.algo) (sym algo) ∙ text_eq_refl master.algo in
      let same_length : length v.nodes ≡ length master.nodes =
        ap (λ (l : List Node). length l) (sym nodes) in
      let same : same_nodes master.nodes v.nodes ≡ true =
        ap (same_nodes master.nodes) (sym nodes) ∙ same_nodes_refl master.nodes in
      let later = (compare_members_iff master vs).1 h.1 in ground arith,
)

-- `isHealthy` says true exactly when every other daemon of the ring answered, and with the same
-- algorithm and the same nodes in the same order. There are as many others as nodes less one.
is_healthy_iff :
    (master : JsonRing) (ring : List (Option JsonRing))
    → (is_healthy master ring ≡ some true)
      ↔ ((length master.nodes ≡ length ring + 1) × All (Agrees master) ring)
unfolding is_healthy
is_healthy_iff master ring = (
  λ h.
      let members : compare_members master ring ≡ some true = ground arith in
      (ground arith, (compare_members_iff master ring).0 members),
  λ h. let count = h.0 in let members = (compare_members_iff master ring).1 h.1 in ground arith,
)

-- Two rings that place every metric alike: they differ in the count of replicas of a jump ring at most.
abbrev Alike : Hash → Hash → Type 0
Alike (carbon_hash t) (carbon_hash u) = t ≡ u
Alike (carbon_hash t) (fnv1a_hash u) = ⊥
Alike (carbon_hash t) (jump_hash u) = ⊥
Alike (fnv1a_hash t) (fnv1a_hash u) = t ≡ u
Alike (fnv1a_hash t) (carbon_hash u) = ⊥
Alike (fnv1a_hash t) (jump_hash u) = ⊥
Alike (jump_hash t) (jump_hash u) = t.ring ≡ u.ring
Alike (jump_hash t) (carbon_hash u) = ⊥
Alike (jump_hash t) (fnv1a_hash u) = ⊥

jump_add_node-Alike :
    (t u : JumpHashRing) (n : Node)
    → t.ring ≡ u.ring
    → (Jump.add_node t n).ring ≡ (Jump.add_node u n).ring
unfolding Jump.add_node
jump_add_node-Alike t u n e = elim (Bool-cases (text_eq n.instance_name [])) [
  | inl nameless ↦ rw nameless (ap (λ r. r ++ (n ∷ [])) e)
  | inr named ↦
      rw named
        (ap (λ r. set (shift_up (r ++ (n ∷ [])) (instance_index n r)) (instance_index n r) n) e)
]

add_node-Alike :
    (md5_sum : Text → List ℕ) (h g : Hash) (n : Node)
    → Alike h g
    → Alike (add_node md5_sum h n) (add_node md5_sum g n)
unfolding add_node
add_node-Alike md5_sum (carbon_hash t) (carbon_hash u) n a =
    ap (λ x. Ring.add_node (carbon md5_sum) x n) a
add_node-Alike md5_sum (carbon_hash t) (fnv1a_hash u) n a = absurd a
add_node-Alike md5_sum (carbon_hash t) (jump_hash u) n a = absurd a
add_node-Alike md5_sum (fnv1a_hash t) (fnv1a_hash u) n a = ap (λ x. Ring.add_node fnv1a x n) a
add_node-Alike md5_sum (fnv1a_hash t) (carbon_hash u) n a = absurd a
add_node-Alike md5_sum (fnv1a_hash t) (jump_hash u) n a = absurd a
add_node-Alike md5_sum (jump_hash t) (jump_hash u) n a = jump_add_node-Alike t u n a
add_node-Alike md5_sum (jump_hash t) (carbon_hash u) n a = absurd a
add_node-Alike md5_sum (jump_hash t) (fnv1a_hash u) n a = absurd a

add_nodes-Alike :
    (md5_sum : Text → List ℕ) (h g : Hash) (ns : List Node)
    → Alike h g
    → Alike (add_nodes md5_sum h ns) (add_nodes md5_sum g ns)
unfolding add_nodes
add_nodes-Alike md5_sum h g [] a = a
add_nodes-Alike md5_sum h g (n ∷ ns) a =
    add_nodes-Alike md5_sum (add_node md5_sum h n) (add_node md5_sum g n) ns
      (add_node-Alike md5_sum h g n a)

get_node-Alike :
    (md5_sum : Text → List ℕ) (fl : Float64) (h g : Hash) (key : Text)
    → Alike h g
    → get_node md5_sum fl h key ≡ get_node md5_sum fl g key
unfolding get_node Jump.get_node
get_node-Alike md5_sum fl (carbon_hash t) (carbon_hash u) key a =
    ap (λ x. Ring.get_node (carbon md5_sum) x key) a
get_node-Alike md5_sum fl (carbon_hash t) (fnv1a_hash u) key a = absurd a
get_node-Alike md5_sum fl (carbon_hash t) (jump_hash u) key a = absurd a
get_node-Alike md5_sum fl (fnv1a_hash t) (fnv1a_hash u) key a =
    ap (λ x. Ring.get_node fnv1a x key) a
get_node-Alike md5_sum fl (fnv1a_hash t) (carbon_hash u) key a = absurd a
get_node-Alike md5_sum fl (fnv1a_hash t) (jump_hash u) key a = absurd a
get_node-Alike md5_sum fl (jump_hash t) (jump_hash u) key a =
    ap (λ r. node_at r (jump fl (fnv1a64 key) (length r))) a
get_node-Alike md5_sum fl (jump_hash t) (carbon_hash u) key a = absurd a
get_node-Alike md5_sum fl (jump_hash t) (fnv1a_hash u) key a = absurd a

new_hash-Alike :
    (algo : Text) (m n : ℕ) (h : Hash)
    → new_hash algo m ≡ some h
    → (g : Hash) × (new_hash algo n ≡ some g) × Alike h g
unfolding new_hash
new_hash-Alike algo m n h e = elim (Bool-cases (text_eq algo (codes "carbon"))) [
  | inl c ↦
      let same : carbon_hash new_hash_ring ≡ h = ground arith in
      (
        carbon_hash new_hash_ring,
        rw c refl,
        subst (λ x. Alike x (carbon_hash new_hash_ring)) same refl,
      )
  | inr c ↦ elim (Bool-cases (text_eq algo (codes "fnv1a"))) [
    | inl f ↦
        let same : fnv1a_hash new_fnv1a_hash_ring ≡ h = ground arith in
        (
          fnv1a_hash new_fnv1a_hash_ring,
          rw (c, f) refl,
          subst (λ x. Alike x (fnv1a_hash new_fnv1a_hash_ring)) same refl,
        )
    | inr f ↦ elim (Bool-cases (text_eq algo (codes "jump_fnv1a"))) [
      | inl j ↦
          let same : jump_hash (new_jump_hash_ring m) ≡ h = ground arith in
          (
            jump_hash (new_jump_hash_ring n),
            rw (c, f, j) refl,
            subst (λ x. Alike x (jump_hash (new_jump_hash_ring n))) same refl,
          )
      | inr j ↦ absurd (ground arith)
    ]
  ]
]

some_eq : (w v : Option JsonRing) → some w ≡ some v → w ≡ v
some_eq w v e = cc

member_Agrees :
    (master v : JsonRing) (ring : List (Option JsonRing)) (i : ℕ)
    → All (Agrees master) ring
    → get_elem? ring i ≡ some (some v)
    → Agrees master (some v)
member_Agrees master v [] i h e = absurd (ground arith)
member_Agrees master v (w ∷ ws) zero h e = subst (Agrees master) (some_eq w (some v) e) h.0
member_Agrees master v (w ∷ ws) (suc i) h e = member_Agrees master v ws i h.1 e

-- In a healthy cluster every daemon that was asked has a ring of a known algorithm if the first one
-- has, and its ring, built as the client builds it, places every metric on the same node.
pub is_healthy-Alike :
    (md5_sum : Text → List ℕ) (fl : Float64) (master v : JsonRing) (ring : List (Option JsonRing))
    (i : ℕ) (h : Hash) (key : Text)
    → is_healthy master ring ≡ some true
    → get_elem? ring i ≡ some (some v)
    → new_hash master.algo master.replicas ≡ some h
    → (g : Hash) × (new_hash v.algo v.replicas ≡ some g)
      × (get_node md5_sum fl (add_nodes md5_sum g v.nodes) key
          ≡ get_node md5_sum fl (add_nodes md5_sum h master.nodes) key)
is_healthy-Alike md5_sum fl master v ring i h key healthy e known =
    let (algo, nodes) =
      member_Agrees master v ring i ((is_healthy_iff master ring).0 healthy).1 e in
    let (g, g_known, alike) = new_hash-Alike master.algo master.replicas v.replicas h known in
    let built = add_nodes-Alike md5_sum h g master.nodes alike in
    (
      g,
      ap (λ a. new_hash a v.replicas) (sym algo) ∙ g_known,
      ap (λ ns. get_node md5_sum fl (add_nodes md5_sum g ns) key) (sym nodes)
          ∙ sym (
              get_node-Alike md5_sum fl (add_nodes md5_sum h master.nodes)
                (add_nodes md5_sum g master.nodes) key built),
    )
