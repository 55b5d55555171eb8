-- ===== src/Hashing/Ring/Tests.antt =====
-- A run of GetNodes on a ring of three entries, and its theorem applied there.
use buckytools.Prelude.{◌≤◌, ◌≡◌, refl, some, List, [], ◌∷◌, arith, length}
use buckytools.Prelude.Text.{codes, text_eq, show_nat}
use buckytools.Hashing.Node.{Node, node_string}
use buckytools.Hashing.Ring.{
  Hasher, HashRing, start_index, bisect_left, key_entry, mod_int, get_node,
}
use buckytools.Hashing.Ring.Walk.{get_nodes, walk_ring, collect, is_seen, AreNew, get_nodes_ends}

-- A key's place is the number of its characters.
abbrev by_length : Hasher
by_length = record { replica_key = λ n i. []; position_of = length }

abbrev node_a : Node
node_a = record { server = codes "a"; port = 2003; instance_name = codes "x" }

abbrev node_b : Node
node_b = record { server = codes "b"; port = 0; instance_name = [] }

abbrev three : HashRing
three = record {
  ring =
      record { position = 1; node = node_a }
      ∷ (record { position = 5; node = node_b } ∷ (record { position = 9; node = node_b } ∷ []));
  nodes = node_a ∷ (node_b ∷ []);
  replicas = 2;
}

-- The walk from the second entry leaves out the first one, and node_a with it.
get_nodes_runs : get_nodes 3 by_length three (codes "abc") ≡ some (node_b ∷ [])
unfolding get_nodes walk_ring collect is_seen start_index bisect_left key_entry mod_int node_string
    text_eq show_nat
get_nodes_runs = refl

get_nodes_ends_example :
    (n : Node) × (later : List Node) × (get_nodes 3 by_length three (codes "abc")
      ≡ some (n ∷ later))
    × (get_node by_length three (codes "abc") ≡ some n)
    × AreNew [] (n ∷ later)
    × (length (n ∷ later) ≤ 2)
unfolding start_index bisect_left key_entry mod_int
get_nodes_ends_example =
    get_nodes_ends by_length three (codes "abc") (omega arith) (omega arith) (omega arith)
