-- ===== src/Hashing/Fnv1a.antt =====
-- hashing/fnv1a.go: the methods of FNV1aHashRing, which are those of `Ring` at the hash `fnv1a`.
use buckytools.Prelude.{ℕ, Option, List, [], ◌∷◌}
use buckytools.Prelude.Int.{ℤ}
use buckytools.Prelude.Text.{Text}
use buckytools.Hashing.Node.{Node}
use buckytools.Hashing.Ring
use buckytools.Hashing.Ring.Walk
use buckytools.Hashing.Ring.{HashRing, StringMap}
use buckytools.Hashing.Ring.Hashers.{fnv1a, fnv1a_position-lt}
use buckytools.Hashing.Ring.Valid.{IsValid, add_node-IsValid}

abbrev pub new_fnv1a_hash_ring : HashRing
new_fnv1a_hash_ring = record { ring = []; nodes = []; replicas = 100 }

abbrev pub add_node : HashRing → Node → HashRing
add_node = Ring.add_node fnv1a

abbrev pub remove_node : HashRing → Node → HashRing
remove_node = Ring.remove_node

abbrev pub get_node : HashRing → Text → Option Node
get_node = Ring.get_node fnv1a

abbrev pub get_nodes : ℕ → HashRing → Text → Option (List Node)
get_nodes fuel = Walk.get_nodes fuel fnv1a

abbrev pub buckets_per_node : HashRing → Option (StringMap ℤ)
buckets_per_node = Ring.buckets_per_node

-- The nodes in the order in which they are added.
abbrev pub add_nodes : HashRing → List Node → HashRing
add_nodes t [] = t
add_nodes t (n ∷ ns) = add_nodes (add_node t n) ns

add_nodes-IsValid : (t : HashRing) (ns : List Node) → IsValid t → IsValid (add_nodes t ns)
add_nodes-IsValid t [] v = v
add_nodes-IsValid t (n ∷ ns) v =
    add_nodes-IsValid (add_node t n) ns (add_node-IsValid fnv1a t n fnv1a_position-lt v).0

-- A FNV1aHashRing built from any nodes is sorted with 16-bit positions, whatever the hash makes of
-- the names of the replicas.
new_ring-IsValid : (ns : List Node) → IsValid (add_nodes new_fnv1a_hash_ring ns)
new_ring-IsValid ns =
    add_nodes-IsValid new_fnv1a_hash_ring ns (record { sorted = tt; in_space = tt })
