-- ===== src/Hashing/Ring/Hashers.antt =====
-- The two hashes: computeCarbonRingPosition and AddNode's replica key (hashing/hashing.go), and
-- those of hashing/fnv1a.go with Fnv1a32 of hashing/jump.go. The MD5 sum is a parameter.
use Prim.Native.Nat.{bit_xor, bit_and}
use buckytools.Prelude.{
  ℕ, ◌+◌, ◌*◌, ◌/◌, ◌%◌, ◌^◌, ◌<◌, ◌≡◌, refl, List, [], ◌∷◌, ◌++◌, arith, take, All,
}
use buckytools.Prelude.Bits.{bit_xor-lt, bit_and-le}
use buckytools.Prelude.Text.{Text, codes, show_nat}
use buckytools.Hashing.Node.{Node, carbon_key_value, fnv1a_key_value}
use buckytools.Hashing.Ring.{Hasher}

-- The loop over the first two bytes of the digest: `result = (result << 8) + int(v)`.
unfoldable pub big_endian : ℕ → Text → ℕ
big_endian result [] = result
big_endian result (v ∷ vs) = big_endian (result * 2 ^ 8 + v) vs

unfoldable pub compute_carbon_ring_position : (Text → List ℕ) → Text → ℕ
unfolding big_endian
compute_carbon_ring_position md5_sum key = big_endian 0 (take 2 (md5_sum key))

unfoldable pub carbon_replica_key : Node → ℕ → Text
carbon_replica_key node i = carbon_key_value node ++ (codes ":" ++ show_nat i)

abbrev pub carbon : (Text → List ℕ) → Hasher
carbon md5_sum = record {
  position_of = compute_carbon_ring_position md5_sum;
  replica_key = carbon_replica_key;
}

-- `hash = (hash ^ uint32(d)) * 16777619`, wrapping at 32 bits.
unfoldable pub fnv1a32_from : ℕ → Text → ℕ
fnv1a32_from hash [] = hash
fnv1a32_from hash (d ∷ ds) = fnv1a32_from (bit_xor hash d * 16777619 % 2 ^ 32) ds

unfoldable pub fnv1a32 : Text → ℕ
unfolding fnv1a32_from
fnv1a32 bytes = fnv1a32_from 2166136261 bytes

unfoldable pub compute_fnv1a_ring_position : Text → ℕ
unfolding fnv1a32
compute_fnv1a_ring_position key =
    let digest = fnv1a32 key in bit_xor (digest / 2 ^ 16) (bit_and digest 0xFFFF)

unfoldable pub fnv1a_replica_key : Node → ℕ → Text
fnv1a_replica_key node i = show_nat i ++ (codes "-" ++ fnv1a_key_value node)

abbrev pub fnv1a : Hasher
fnv1a = record { position_of = compute_fnv1a_ring_position; replica_key = fnv1a_replica_key }

fnv1a_vectors : (fnv1a32 (codes "") ≡ 0x811c9dc5) × (fnv1a32 (codes "foobar") ≡ 0xbf9cf968)
unfolding fnv1a32
fnv1a_vectors = (refl, refl)

-- A position on the carbon ring fits 16 bits, when the sum's bytes are bytes.
pub carbon_position-lt :
    (md5_sum : Text → List ℕ) (key : Text)
    → All (λ (b : ℕ). b < 256) (md5_sum key)
    → compute_carbon_ring_position md5_sum key < 2 ^ 16
unfolding compute_carbon_ring_position
carbon_position-lt md5_sum key h = go (md5_sum key) h
  where
    go : (bs : List ℕ) → All (λ (b : ℕ). b < 256) bs → big_endian 0 (take 2 bs) < 2 ^ 16
    go [] h = omega arith
    go (a ∷ []) h = omega arith
    go (a ∷ b ∷ rest) h = omega arith

fnv1a32_from-lt : (hash : ℕ) (bytes : Text) → hash < 2 ^ 32 → fnv1a32_from hash bytes < 2 ^ 32
unfolding fnv1a32_from
fnv1a32_from-lt hash [] h = h
fnv1a32_from-lt hash (d ∷ ds) h =
    fnv1a32_from-lt (bit_xor hash d * 16777619 % 2 ^ 32) ds (omega arith)

-- A position on the fnv1a ring fits 16 bits.
pub fnv1a_position-lt : (key : Text) → compute_fnv1a_ring_position key < 2 ^ 16
unfolding compute_fnv1a_ring_position fnv1a32
fnv1a_position-lt key =
    let digest = fnv1a32_from 2166136261 key in
    let bound = fnv1a32_from-lt 2166136261 key (omega arith) in
    bit_xor-lt 16 (digest / 2 ^ 16) (bit_and digest 0xFFFF) (omega arith)
      (omega (arith, bit_and-le digest 0xFFFF))
