-- ===== src/Hashing/Ring/Buckets.antt =====
-- BucketsPerNode (hashing/hashing.go, hashing/fnv1a.go): the shares of the nodes add up.
use buckytools.Prelude.{
  ◌≡◌, refl, Bool, true, false, Option, none, some, List, [], ◌∷◌, if◌then◌else◌,
}
use buckytools.Prelude.Int.{parts_of_eq, ℤ, pos, ◌+ℤ◌, ◌-ℤ◌, int_laws}
use buckytools.Prelude.Text.{Text, text_eq}
use buckytools.Hashing.Node.{node_string}
use buckytools.Hashing.Ring.{
  RingEntry, HashRing, StringMap, add_at, count_buckets, last_entry, buckets_per_node, max_position,
}

-- The sum of a map's values.
unfoldable pub total : StringMap ℤ → ℤ
total [] = pos 0
total ((k, v) ∷ m) = v +ℤ total m

total-add_at : (k : Text) (b : ℤ) (m : StringMap ℤ) → total (add_at k b m) ≡ b +ℤ total m
unfolding total add_at
total-add_at k b [] = omega int_laws
total-add_at k b ((j, v) ∷ m) =
    split (text_eq k j) (omega int_laws) (omega (int_laws, parts_of_eq (total-add_at k b m)))
  where
    split :
        (same : Bool)
        → v +ℤ b +ℤ total m ≡ b +ℤ (v +ℤ total m)
        → v +ℤ total (add_at k b m) ≡ b +ℤ (v +ℤ total m)
        → total (if same then (j, v +ℤ b) ∷ m else (j, v) ∷ add_at k b m) ≡ b +ℤ (v +ℤ total m)
    split true p q = p
    split false p q = q

-- The differences of neighbours telescope.
total-count_buckets :
    (es : List RingEntry) (last : RingEntry) (hash : StringMap ℤ)
    → total (count_buckets es last hash) +ℤ pos last.position
      ≡ total hash +ℤ pos (last_entry last es).position
unfolding count_buckets last_entry
total-count_buckets [] last hash = refl
total-count_buckets (e ∷ es) last hash =
    let b = pos e.position -ℤ pos last.position in
    let rest = total-count_buckets es e (add_at (node_string e.node) b hash) in
    omega (int_laws, parts_of_eq rest, parts_of_eq (total-add_at (node_string e.node) b hash))

-- The buckets of all nodes add up to 65535, on every ring that is not empty.
pub buckets_per_node-total :
    (t : HashRing) {m : StringMap ℤ} → buckets_per_node t ≡ some m → total m ≡ pos 0xFFFF
unfolding buckets_per_node total
buckets_per_node-total t {m} h = go t.ring h
  where
    go :
        (ring : List RingEntry)
        → (elim ring as (λ r. Option (StringMap ℤ)) [
          | [] ↦ none
          | e ∷ es ↦ some (
              count_buckets es e (
                add_at
                  (node_string e.node)
                  (pos max_position -ℤ pos (last_entry e es).position +ℤ pos e.position)
                  []))
        ])
          ≡ some m
        → total m ≡ pos 0xFFFF
    go [] h = cc
    go (e ∷ es) h =
        let b = pos max_position -ℤ pos (last_entry e es).position +ℤ pos e.position in
        let hash = add_at (node_string e.node) b [] in
        let same : count_buckets es e hash ≡ m = cc in
        rw (← same) (
          omega (
            int_laws,
            parts_of_eq (total-count_buckets es e hash),
            parts_of_eq (total-add_at (node_string e.node) b []),
          ))
