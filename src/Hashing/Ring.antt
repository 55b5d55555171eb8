-- ===== src/Hashing/Ring.antt =====
-- hashing/hashing.go: the ring of CarbonHashRing. FNV1aHashRing (hashing/fnv1a.go) has the same
-- fields and methods, and differs in the position of a text and in the key of a replica: these two
-- are the fields of a `Hasher`, which every method takes. `none` is a panic.
pub mod Insert
pub mod Sorted
pub mod Owner
pub mod Remove
mod Tests
pub mod Buckets
pub mod Walk
pub mod Rounds
pub mod Hashers
pub mod Valid
pub mod Nearest
use buckytools.Prelude.{
  ℕ, zero, suc, ◌+◌, ◌-◌, ◌*◌, ◌/◌, Bool, true, false, Option, none, some, List, [], ◌∷◌, ◌++◌, ltb,
  leb, ◌==◌, if◌then◌else◌, length, get_elem?, set, take, drop,
}
use buckytools.Prelude.Int.{ℤ, pos, negsuc, ◌+ℤ◌, ◌-ℤ◌, ltb_ℤ}
use buckytools.Prelude.Text.{Text, text_eq, text_lt}
use buckytools.Hashing.Node.{Node, new_node, node_string}

pub record RingEntry : Type 0 where
  pub position : ℕ
  pub node : Node

pub record Hasher : Type 0 where
  pub position_of : Text → ℕ
  pub replica_key : Node → ℕ → Text

pub record HashRing : Type 0 where
  pub ring : List RingEntry
  pub nodes : List Node
  pub replicas : ℕ

abbrev pub new_hash_ring : HashRing
new_hash_ring = record { ring = []; nodes = []; replicas = 100 }

-- `mod` of hashing.go, at numbers that are not negative.
unfoldable pub mod_int : ℕ → ℕ → ℕ
mod_int a b = a - b * (a / b)

unfoldable pub bisect_left : List RingEntry → RingEntry → ℕ
bisect_left [] e = 0
bisect_left (x ∷ xs) e = if leb e.position x.position then 0 else suc (bisect_left xs e)

-- The three-way comparison of entries, as Python compares tuples.
unfoldable pub cmp : RingEntry → RingEntry → ℤ
cmp a b =
    if ltb a.position b.position
    then negsuc 0
    else if ltb b.position a.position
    then pos 1
    else if text_lt a.node.server b.node.server
    then negsuc 0
    else if text_lt b.node.server a.node.server
    then pos 1
    else if text_lt a.node.instance_name b.node.instance_name
    then negsuc 0
    else if text_lt b.node.instance_name a.node.instance_name
    then pos 1
    else pos 0

unfoldable pub bisect_right : List RingEntry → RingEntry → ℕ
bisect_right [] e = 0
bisect_right (x ∷ xs) e = if ltb_ℤ (pos 0) (cmp x e) then 0 else suc (bisect_right xs e)

-- `copy(ring[i+1:], ring[i:n-1])`, where n is the length: the part from i on moves up by one place.
unfoldable pub shift_up {ℓ} : {A : Type ℓ} → List A → ℕ → List A
shift_up ring i = take (i + 1) ring ++ take (length ring - 1 - i) (drop i ring)

unfoldable pub insert_ring : List RingEntry → RingEntry → List RingEntry
unfolding shift_up
insert_ring ring e =
    let i = bisect_right ring e in
    let grown = ring ++ (e ∷ []) in
    if i == length grown - 1 then grown else set (shift_up grown i) i e

-- The loop of `AddNode`, from replica i on, for the rounds left.
unfoldable pub add_replicas : Hasher → Node → ℕ → ℕ → List RingEntry → List RingEntry
add_replicas h node i zero ring = ring
add_replicas h node i (suc left) ring =
    add_replicas h node (i + 1) left
      (insert_ring ring (record { position = h.position_of (h.replica_key node i); node = node }))

unfoldable pub add_node : Hasher → HashRing → Node → HashRing
add_node h t node = record t {
  nodes = t.nodes ++ (node ∷ []);
  ring = add_replicas h node 0 t.replicas t.ring;
}

-- `for i = 0; i < len(xs); { if matches(xs[i]) { delete xs[i] } else { i++ } }`, with fuel.
unfoldable pub delete_loop {ℓ} : {A : Type ℓ} → (A → Bool) → ℕ → ℕ → List A → List A
delete_loop drops zero i xs = xs
delete_loop drops (suc fuel) i xs = elim (get_elem? xs i) [
  | none ↦ xs
  | some x ↦ elim (drops x) [
    | true ↦ delete_loop drops fuel i (take i xs ++ drop (i + 1) xs)
    | false ↦ delete_loop drops fuel (i + 1) xs
  ]
]

unfoldable pub remove_node : HashRing → Node → HashRing
remove_node t node = record t {
  nodes = delete_loop (λ n. text_eq (node_string node) (node_string n)) (length t.nodes) 0 t.nodes;
  ring =
      delete_loop (λ e. text_eq (node_string node) (node_string e.node)) (length t.ring) 0 t.ring;
}

unfoldable pub set_replicas : HashRing → ℕ → HashRing
set_replicas t r = record t { replicas = r }

-- The entry that stands for a key.
unfoldable pub key_entry : Hasher → Text → RingEntry
key_entry h key = record { position = h.position_of key; node = new_node key 0 [] }

-- Where the search for a key starts.
unfoldable pub start_index : Hasher → HashRing → Text → ℕ
start_index h t key = mod_int (bisect_left t.ring (key_entry h key)) (length t.ring)

node_at : List RingEntry → ℕ → Option Node
node_at ring i = elim (get_elem? ring i) [ none ↦ none | some e ↦ some e.node ]

unfoldable pub get_node : Hasher → HashRing → Text → Option Node
unfolding node_at start_index
get_node h t key = if length t.ring == 0 then none else node_at t.ring (start_index h t key)

-- A Go map from texts, its entries in no order that counts.
abbrev pub StringMap : Type 0 → Type 0
StringMap V = List (Text × V)

unfoldable pub add_at : Text → ℤ → StringMap ℤ → StringMap ℤ
add_at k b [] = (k, pos 0 +ℤ b) ∷ []
add_at k b ((j, v) ∷ m) = if text_eq k j then (j, v +ℤ b) ∷ m else (j, v) ∷ add_at k b m

-- The rounds of `BucketsPerNode` after the first.
unfoldable pub count_buckets : List RingEntry → RingEntry → StringMap ℤ → StringMap ℤ
count_buckets [] last hash = hash
count_buckets (e ∷ es) last hash =
    count_buckets es e (add_at (node_string e.node) (pos e.position -ℤ pos last.position) hash)

unfoldable pub last_entry : RingEntry → List RingEntry → RingEntry
last_entry e [] = e
last_entry e (x ∷ xs) = last_entry x xs

abbrev pub max_position : ℕ
max_position = 0xFFFF

unfoldable pub buckets_per_node : HashRing → Option (StringMap ℤ)
buckets_per_node t = elim t.ring [
  | [] ↦ none
  | e ∷ es ↦ some (
      count_buckets es e (
        add_at (node_string e.node)
          (pos max_position -ℤ pos (last_entry e es).position +ℤ pos e.position) []))
]
