-- ===== src/Hashing/Tests.antt =====
-- Runs of the package hashing at concrete inputs, and its theorems applied there.
use native.Mathlib.Nat.{le-div_iff_mul-le}
use buckytools.Prelude.{
  ℕ, ◌+◌, ◌*◌, ◌/◌, ◌%◌, ◌^◌, ◌≤◌, ◌<◌, ◌≡◌, refl, ◌⊎◌, some, List, [], ◌∷◌, map, arith, length,
  get_elem?, All,
}
use buckytools.Prelude.Int.{pos, ◌+ℤ◌, ◌-ℤ◌}
use buckytools.Prelude.Text.{Text, codes, text_eq, text_lt, show_nat}
use buckytools.Hashing.Node.{
  Node, ok, err, bad_port, bad_instance, negative_port, new_node_parser, node_string,
  carbon_key_value,
}
use buckytools.Hashing.Node.RoundTrip.{parse-node_string}
use buckytools.Hashing.Ring.{
  key_entry, count_buckets, last_entry, add_at, add_replicas, RingEntry, Hasher, HashRing,
  new_hash_ring, insert_ring, bisect_right, bisect_left, cmp, add_node, remove_node, get_node,
  buckets_per_node, mod_int,
}
use buckytools.Hashing.Ring.Hashers.{
  carbon, carbon_position-lt, compute_carbon_ring_position, carbon_replica_key,
}
use buckytools.Hashing.Ring.Owner.{get_node-add_node}
use buckytools.Hashing.Ring.Remove.{remove_node-add_node, get_node-remove_node}
use buckytools.Hashing.Ring.Buckets.{total, buckets_per_node-total}
use buckytools.Hashing.Ring.Valid.{IsValid, HasSpace, add_node-IsValid}
use buckytools.Hashing.Ring.Nearest.{get_node_nearest, clockwise}
use buckytools.Hashing.Jump.{Float64, JumpHashRing, jump}
use buckytools.Hashing.Jump.Bounds.{Grows, jump-lt}

abbrev node_a : Node
node_a = record { server = codes "a"; port = 2003; instance_name = codes "x" }

abbrev node_b : Node
node_b = record { server = codes "bb"; port = 0; instance_name = [] }

node_texts :
    (node_string node_a ≡ codes "a:2003=x")
    × (node_string node_b ≡ codes "bb:0=None")
    × (carbon_key_value node_a ≡ codes "('a', 'x')")
    × (carbon_key_value node_b ≡ codes "('bb', None)")
unfolding node_string carbon_key_value text_eq show_nat
node_texts = (refl, refl, refl, refl)

parse_texts :
    (new_node_parser (codes "a:2003=x") ≡ ok node_a)
    × (new_node_parser (codes "bb") ≡ ok node_b)
    × (new_node_parser (codes "a:1:2") ≡ err bad_port)
    × (new_node_parser (codes "a=b=c") ≡ err bad_instance)
    × (new_node_parser (codes "a:-1") ≡ err negative_port)
unfolding new_node_parser
parse_texts = (refl, refl, refl, refl, refl)

parse-node_string_example : new_node_parser (node_string node_a) ≡ ok node_a
parse-node_string_example =
    parse-node_string node_a (omega arith) (omega arith) (λ e. cc) (omega arith)

-- A sum of two bytes in the place of MD5.
abbrev toy_md5 : Text → List ℕ
toy_md5 key = (length key * 37 % 256) ∷ (length key % 256) ∷ []

abbrev toy : Hasher
toy = carbon toy_md5

abbrev ring_a : HashRing
ring_a = add_node toy (record new_hash_ring { replicas = 2 }) node_a

abbrev ring_ab : HashRing
ring_ab = add_node toy ring_a node_b

ring_ab_positions : map (λ e. e.position) ring_ab.ring ≡ 1550 ∷ 1550 ∷ 48140 ∷ 48140 ∷ []
unfolding add_node add_replicas insert_ring bisect_right cmp compute_carbon_ring_position
    carbon_replica_key carbon_key_value text_lt text_eq show_nat
ring_ab_positions = refl

toy-HasSpace : HasSpace toy
toy-HasSpace key = carbon_position-lt toy_md5 key (omega arith, (omega arith, tt))

-- One entry for each node.
abbrev entry_a : RingEntry
entry_a = record { position = 48140; node = node_a }

abbrev entry_b : RingEntry
entry_b = record { position = 1550; node = node_b }

abbrev two : HashRing
two = record { ring = entry_b ∷ entry_a ∷ []; nodes = node_a ∷ node_b ∷ []; replicas = 1 }

abbrev one : HashRing
one = record { ring = entry_a ∷ []; nodes = node_a ∷ []; replicas = 1 }

two-IsValid : IsValid two
unfolding cmp
two-IsValid = record {
  sorted = ((refl, tt), (tt, tt));
  in_space = (omega arith, (omega arith, tt));
}

one-IsValid : IsValid one
one-IsValid = record { sorted = (tt, tt); in_space = (omega arith, tt) }

-- The key "k" has position 9473, and "1234567" has 775.
get_node-one : get_node toy one (codes "k") ≡ some node_a
unfolding get_node key_entry bisect_left mod_int compute_carbon_ring_position
get_node-one = refl

get_node-two : get_node toy two (codes "1234567") ≡ some node_b
unfolding get_node key_entry bisect_left mod_int compute_carbon_ring_position
get_node-two = refl

get_node-add_node_example :
    (get_node toy (add_node toy one node_b) (codes "k") ≡ some node_a)
    ⊎ (get_node toy (add_node toy one node_b) (codes "k") ≡ some node_b)
get_node-add_node_example = get_node-add_node toy one node_b (codes "k") node_a get_node-one

get_node-remove_node_example : get_node toy (remove_node two node_a) (codes "1234567") ≡ some node_b
unfolding node_string text_eq show_nat
get_node-remove_node_example =
    get_node-remove_node toy two node_a (codes "1234567") node_b get_node-two refl

remove_node-add_node_example : remove_node (add_node toy one node_b) node_b ≡ one
unfolding node_string text_eq show_nat
remove_node-add_node_example =
    remove_node-add_node toy one node_b (record { from_nodes = (refl, tt); from_ring = (refl, tt) })

add_node-IsValid_example :
    IsValid (add_node toy two node_b) × (length (add_node toy two node_b).ring ≡ 2 + 1)
add_node-IsValid_example = add_node-IsValid toy two node_b toy-HasSpace two-IsValid

get_node_nearest_example :
    (e : RingEntry) × (i : ℕ) × (get_node toy two (codes "k") ≡ some e.node)
    × (get_elem? two.ring i ≡ some e)
    × All
        (λ x.
          clockwise (toy.position_of (codes "k")) e.position
          ≤ clockwise (toy.position_of (codes "k")) x.position)
        two.ring
get_node_nearest_example = get_node_nearest toy two (codes "k") toy-HasSpace two-IsValid (λ e. cc)

buckets_two :
    buckets_per_node two
    ≡ some ((codes "bb:0=None", pos 18945) ∷ (codes "a:2003=x", pos 46590) ∷ [])
unfolding buckets_per_node count_buckets last_entry add_at node_string text_eq show_nat ◌+ℤ◌ ◌-ℤ◌
buckets_two = refl

buckets_per_node-total_example :
    total ((codes "bb:0=None", pos 18945) ∷ (codes "a:2003=x", pos 46590) ∷ []) ≡ pos 0xFFFF
buckets_per_node-total_example = buckets_per_node-total two buckets_two

-- Exact fractions in the place of float64.
abbrev exact : Float64
exact = record {
  Float = ℕ × ℕ;
  from_int = λ n. (n, 1);
  times = λ a b. (a.0 * b.0, a.1 * b.1);
  divide = λ a b. (a.0 * b.1, a.1 * b.0);
  to_int = λ a. a.0 / a.1;
}

exact-Grows : Grows exact
exact-Grows x k h small =
    let product : x * (1 * (1 * (k + 1))) ≤ x * 2 ^ 31 = grind arith in
    (le-div_iff_mul-le {k = 1 * (1 * (k + 1))} (omega arith)).1 product

abbrev jumps : JumpHashRing
jumps = record { ring = node_a ∷ node_b ∷ []; replicas = 2 }

jump-lt_example : (r : ℕ) × (jump exact 0 10 ≡ some (pos r)) × (r < 10)
jump-lt_example = jump-lt exact exact-Grows 0 10 (omega arith) (omega arith)
