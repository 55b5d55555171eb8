-- ===== src/Hashing/Ring/Walk.antt =====
-- GetNodes of CarbonHashRing and FNV1aHashRing (hashing/hashing.go, hashing/fnv1a.go): the walk around
-- the ring that collects its nodes. A node counts as seen by its printed form.
use mathlib.Core.Path.{subst}
use buckytools.Prelude.{
  ℕ, zero, suc, ◌+◌, ◌≤◌, ◌<◌, ◌≡◌, refl, sym, ap, ◌∙◌, inl, inr, Bool, true, false, ◌&&◌, not,
  Option, none, some, List, [], ◌∷◌, arith, ltb, ◌==◌, if◌then◌else◌, Bool-cases, Option-cases,
  length, get_elem?,
}
use buckytools.Prelude.Text.{Text, text_eq}
use buckytools.Hashing.Node.{Node, node_string}
use buckytools.Hashing.Ring.Owner.{get_elem?-some}
use buckytools.Hashing.Ring.{Hasher, HashRing, mod_int, start_index, node_at, get_node}
use buckytools.Hashing.Ring.Rounds.{
  mod_int_next, rounds_left, rounds_left-next, rounds_left_start, start_index-lt,
}

-- The map `seen`.
unfoldable pub is_seen : Text → List Text → Bool
is_seen name [] = false
is_seen name (s ∷ seen) = if text_eq s name then true else is_seen name seen

-- A node that is new comes before those found later.
unfoldable pub collect : Bool → Node → Option (List Node) → Option (List Node)
collect known node none = none
collect true node (some later) = some later
collect false node (some later) = some (node ∷ later)

-- The loop of `GetNodes`, with fuel for its rounds. It ends one entry before the one at which it starts;
-- if that is the first entry, `last` is -1, and no index is equal to it.
unfoldable pub walk_ring : ℕ → HashRing → ℕ → ℕ → List Text → Option (List Node)
walk_ring zero t start index seen = none
walk_ring (suc fuel) t start index seen = elim (get_elem? t.ring index) [
  | none ↦ none
  | some next ↦
      let name = node_string next.node in
      let known = is_seen name seen in
      let rest =
        walk_ring fuel t start (mod_int (index + 1) (length t.ring))
          (if known then seen else name ∷ seen) in
      if ltb (length seen) (length t.nodes) && not (index + 1 == start)
      then collect known next.node rest
      else some []
]

-- `GetNodes`; `none` is the panic at an empty ring, or the end of the fuel.
unfoldable pub get_nodes : ℕ → Hasher → HashRing → Text → Option (List Node)
get_nodes fuel h t key =
    if length t.ring == 0
    then none
    else walk_ring fuel t (start_index h t key) (start_index h t key) []

-- The names of nodes differ from those seen and from each other.
abbrev pub AreNew : List Text → List Node → Type 0
AreNew seen [] = Unit
AreNew seen (n ∷ ns) = (is_seen (node_string n) seen ≡ false) × AreNew (node_string n ∷ seen) ns

-- A list of nodes that a walk may give: new ones, and with those seen no more than the ring has.
abbrev pub Collected : HashRing → List Text → List Node → Type 0
Collected t seen ns = AreNew seen ns × (length seen + length ns ≤ length t.nodes)

collect-Collected :
    (t : HashRing) (seen : List Text) (n : Node) (known : Bool) (rest : Option (List Node))
    → is_seen (node_string n) seen ≡ known
    → ((ns : List Node)
        → rest ≡ some ns
        → Collected t (if known then seen else node_string n ∷ seen) ns)
    → (ns : List Node) → collect known n rest ≡ some ns
    → Collected t seen ns
unfolding collect
collect-Collected t seen n known none e h ns c = absurd (ground arith)
collect-Collected t seen n true (some later) e h ns c =
    let same : later ≡ ns = ground arith in h ns (ap some same)
collect-Collected t seen n false (some later) e h ns c =
    let same : node_cons n later ≡ ns = ground arith in
    let (new, count) = h later refl in
    subst (λ l. Collected t seen l) same ((e, new), omega (arith, count))
  where
    node_cons : Node → List Node → List Node
    node_cons n l = n ∷ l

walk_ring-Collected :
    (fuel : ℕ) (t : HashRing) (start index : ℕ) (seen : List Text) (ns : List Node)
    → length seen ≤ length t.nodes
    → walk_ring fuel t start index seen ≡ some ns
    → Collected t seen ns
unfolding walk_ring
walk_ring-Collected zero t start index seen ns hs h = absurd (ground arith)
walk_ring-Collected (suc fuel) t start index seen ns hs h =
    elim (Option-cases (get_elem? t.ring index)) [
      | inl outside ↦ absurd (ground arith)
      | inr (next, e) ↦
          let name = node_string next.node in
          let known = is_seen name seen in
          let new_seen = if known then seen else name ∷ seen in
          let rest = walk_ring fuel t start (mod_int (index + 1) (length t.ring)) new_seen in
          elim (Bool-cases (ltb (length seen) (length t.nodes) && not (index + 1 == start))) [
            | inl goes_on ↦
                let shown : collect known next.node rest ≡ some ns = ground arith in
                let fewer : length new_seen ≤ length t.nodes = ground (arith, goes_on) in
                collect-Collected t seen next.node known rest refl
                  (λ ms f.
                    walk_ring-Collected fuel t start (mod_int (index + 1) (length t.ring)) new_seen
                      ms fewer f)
                  ns shown
            | inr ends ↦
                let shown : ns ≡ [] = ground arith in
                subst (λ l. Collected t seen l) (sym shown) (tt, omega (arith, hs))
          ]
    ]

collect_found :
    (known : Bool) (n : Node) (rest : Option (List Node)) (ns : List Node)
    → rest ≡ some ns
    → (ms : List Node) × (collect known n rest ≡ some ms)
unfolding collect
collect_found known n none ns h = absurd (ground arith)
collect_found true n (some later) ns h = (later, refl)
collect_found false n (some later) ns h = (n ∷ later, refl)

walk_ring_ends :
    (fuel : ℕ) (t : HashRing) (start index : ℕ) (seen : List Text)
    → 0 < start
    → start < length t.ring
    → index < length t.ring
    → rounds_left (length t.ring) start index < fuel
    → (ns : List Node) × (walk_ring fuel t start index seen ≡ some ns)
unfolding walk_ring
walk_ring_ends zero t start index seen hs hl hi hf = absurd (omega (arith, hf))
walk_ring_ends (suc fuel) t start index seen hs hl hi hf =
    let (next, e) = get_elem?-some t.ring index hi in
    let name = node_string next.node in
    let known = is_seen name seen in
    let new_seen = if known then seen else name ∷ seen in
    elim (Bool-cases (ltb (length seen) (length t.nodes) && not (index + 1 == start))) [
      | inr ends ↦ ([], rw (e, ends, walk_ring) refl)
      | inl goes_on ↦
          let apart : (index + 1 == start) ≡ false = ground (arith, goes_on) in
          let fewer = rounds_left-next (length t.ring) start index hs hl hi apart in
          let inside : (if index + 1 == length t.ring then 0 else index + 1) < length t.ring =
            ground (arith, hi) in
          let (ns, f) =
            walk_ring_ends fuel t start (if index + 1 == length t.ring then 0 else index + 1)
              new_seen hs hl inside (omega (arith, fewer, hf)) in
          let rest : walk_ring fuel t start (mod_int (index + 1) (length t.ring)) new_seen
              ≡ some ns =
            ap (λ i. walk_ring fuel t start i new_seen) (mod_int_next index (length t.ring) hi)
            ∙ f in
          let (ms, found) = collect_found known next.node _ ns rest in
          (ms, rw (e, goes_on, walk_ring) found)
    ]

collect_first :
    (n : Node) (rest : Option (List Node)) (ns : List Node)
    → collect false n rest ≡ some ns
    → (later : List Node) × (ns ≡ n ∷ later)
unfolding collect
collect_first n none ns h = absurd (ground arith)
collect_first n (some later) ns h = (later, ground arith)

walk_ring_first :
    (fuel : ℕ) (t : HashRing) (start : ℕ) (ns : List Node)
    → 0 < length t.nodes
    → walk_ring fuel t start start [] ≡ some ns
    → (n : Node) × (later : List Node) × (ns ≡ n ∷ later) × (node_at t.ring start ≡ some n)
unfolding walk_ring node_at is_seen
walk_ring_first zero t start ns hn h = absurd (ground arith)
walk_ring_first (suc fuel) t start ns hn h = elim (Option-cases (get_elem? t.ring start)) [
  | inl outside ↦ absurd (ground arith)
  | inr (next, e) ↦
      let name = node_string next.node in
      let rest = walk_ring fuel t start (mod_int (start + 1) (length t.ring)) (name ∷ []) in
      let shown : collect false next.node rest ≡ some ns = ground (arith, hn) in
      let (later, same) = collect_first next.node rest ns shown in
      (next.node, later, same, rw (e, node_at) refl)
]

-- On a ring that has nodes and entries, and for a key whose place is not the ring's first entry,
-- GetNodes ends within as many rounds as the ring has entries. It gives the node of GetNode first, and
-- nodes of different names, no more than the ring has.
pub get_nodes_ends :
    (h : Hasher) (t : HashRing) (key : Text)
    → 0 < length t.nodes
    → 0 < length t.ring
    → 0 < start_index h t key
    → (n : Node) × (later : List Node) × (get_nodes (length t.ring) h t key ≡ some (n ∷ later))
      × (get_node h t key ≡ some n)
      × AreNew [] (n ∷ later)
      × (length (n ∷ later) ≤ length t.nodes)
unfolding get_nodes get_node
get_nodes_ends h t key hn hl hs =
    let start = start_index h t key in
    let inside : start < length t.ring = start_index-lt h t key hl in
    let few : rounds_left (length t.ring) start start < length t.ring =
      rounds_left_start (length t.ring) start inside in
    let (ns, e) = walk_ring_ends (length t.ring) t start start [] hs inside inside few in
    let (n, later, same, first) = walk_ring_first (length t.ring) t start ns hn e in
    let (new, count) =
      walk_ring-Collected (length t.ring) t start start [] (n ∷ later) (omega arith)
        (e ∙ ap some same) in
    let full : (length t.ring == 0) ≡ false = ground (arith, hl) in
    (n, later, rw full (e ∙ ap some same), rw full first, new, omega (arith, count))
