-- ===== src/Hashing/Jump.antt =====
-- hashing/jump.go: the hash functions, Google's jump hash, and the ring JumpHashRing. `none` is a
-- panic. float64 is a parameter, the record `Float64` of its operations that the loop uses.
pub mod Bounds
pub mod Nodes
use Prim.Native.Nat.{bit_xor}
use buckytools.Prelude.{
  ℕ, zero, suc, ◌+◌, ◌-◌, ◌*◌, ◌/◌, ◌%◌, ◌^◌, true, false, not, Option, none, some, List, [], ◌∷◌,
  ◌++◌, ltb, leb, ◌==◌, if◌then◌else◌, length, get_elem?, set, take,
}
use buckytools.Prelude.Int.{ℤ, pos, negsuc}
use buckytools.Prelude.Text.{Text, text_eq, text_lt}
use buckytools.Hashing.Node.{Node}
use buckytools.Hashing.Ring.{shift_up}

pub record Float64 : Type 1 where
  pub Float : Type 0
  pub from_int : ℕ → Float
  pub times : Float → Float → Float
  pub divide : Float → Float → Float
  pub to_int : Float → ℕ

abbrev pub u64 : ℕ
u64 = 2 ^ 64

unfoldable pub xor_shift : ℕ → ℕ
xor_shift i =
    let a = bit_xor i (i / 2 ^ 12) in
    let b = bit_xor a (a * 2 ^ 25 % u64) in
    let c = bit_xor b (b / 2 ^ 27) in c * 2685821657736338717 % u64

unfoldable pub fnv1a64_from : ℕ → Text → ℕ
fnv1a64_from hash [] = hash
fnv1a64_from hash (d ∷ ds) = fnv1a64_from (bit_xor hash d * 1099511628211 % u64) ds

unfoldable pub fnv1a64 : Text → ℕ
unfolding fnv1a64_from
fnv1a64 bytes = fnv1a64_from 14695981039346656037 bytes

module _ (fl : Float64) where
  open fl use {from_int, times, divide, to_int}

  -- `int64(float64(b+1) * (float64(1<<31) / float64(key>>33+1)))`
  unfoldable pub next_bucket : ℕ → ℕ → ℕ
  next_bucket b key =
      to_int (times (from_int (b + 1)) (divide (from_int (2 ^ 31)) (from_int (key / 2 ^ 33 + 1))))

  -- The loop of `Jump` on fuel: `none` when the fuel is out.
  unfoldable pub jump_loop : ℕ → ℕ → ℕ → ℤ → ℕ → Option ℤ
  jump_loop zero buckets key b j = none
  jump_loop (suc fuel) buckets key b j =
      let key' = (key * 2862933555777941757 + 1) % u64 in
      let rest = jump_loop fuel buckets key' (pos j) (next_bucket j key') in
      if ltb j buckets then rest else some b

  -- One round for each bucket, and one to see the end.
  unfoldable pub jump : ℕ → ℕ → Option ℤ
  unfolding jump_loop
  jump key buckets = jump_loop (suc buckets) buckets key (negsuc 0) 0

pub record JumpHashRing : Type 0 where
  pub ring : List Node
  pub replicas : ℕ

abbrev pub new_jump_hash_ring : ℕ → JumpHashRing
new_jump_hash_ring replicas = record { ring = []; replicas = replicas }

-- The loop that looks for the place of an instance.
unfoldable pub instance_index : Node → List Node → ℕ
instance_index node [] = 0
instance_index node (x ∷ xs) =
    if not (text_lt node.instance_name x.instance_name) then suc (instance_index node xs) else 0

unfoldable pub add_node : JumpHashRing → Node → JumpHashRing
add_node chr node =
    if text_eq node.instance_name []
    then record chr { ring = chr.ring ++ (node ∷ []) }
    else (let i = instance_index node chr.ring in
        record chr { ring = set (shift_up (chr.ring ++ (node ∷ [])) i) i node })

unfoldable pub remove_node : JumpHashRing → Option JumpHashRing
remove_node chr =
    if length chr.ring == 0
    then none
    else some (record chr { ring = take (length chr.ring - 1) chr.ring })

-- `ring[j]` for the result of `Jump`, which is -1 when there is no bucket.
unfoldable pub node_at : List Node → Option ℤ → Option Node
node_at ring none = none
node_at ring (some (negsuc n)) = none
node_at ring (some (pos j)) = get_elem? ring j

-- `ring[j] = ring[i]`.
unfoldable pub copy_elem : List Node → Option ℤ → ℕ → Option (List Node)
copy_elem ring none i = none
copy_elem ring (some (negsuc n)) i = none
copy_elem ring (some (pos j)) i = elim (get_elem? ring i) [
  | none ↦ none
  | some x ↦ if ltb j (length ring) then some (set ring j x) else none
]

module _ (fl : Float64) where
  unfoldable pub get_node : JumpHashRing → Text → Option Node
  get_node chr key = node_at chr.ring (jump fl (fnv1a64 key) (length chr.ring))

  -- The loop of `GetNodes`: the slice that it alters, what it has found, the buckets left.
  unfoldable pub get_nodes_loop :
      JumpHashRing → List Node → List Node → ℕ → ℕ → ℕ → Option (List Node)
  get_nodes_loop chr ring ret h r zero = some ret
  get_nodes_loop chr ring ret h r (suc i) =
      let j = jump fl h (suc i) in
      elim (node_at chr.ring j) [
        | none ↦ none
        | some node ↦ elim (leb (r - 1) 0) [
          | true ↦ some (ret ++ (node ∷ []))
          | false ↦ elim (copy_elem ring j i) [
            | none ↦ none
            | some ring' ↦ get_nodes_loop chr ring' (ret ++ (node ∷ [])) (xor_shift h) (r - 1) i
          ]
        ]
      ]

  -- `copy(ring, chr.ring)` copies as many nodes as `ring` has: it was made with none.
  unfoldable pub get_nodes : JumpHashRing → Text → Option (List Node)
  get_nodes chr key =
      get_nodes_loop chr (take 0 chr.ring) [] (fnv1a64 key) chr.replicas (length chr.ring)
