-- ===== src/Relay/Batch.antt =====
-- plainTextBatch of cmd/bucky-pickle-relay/main.go: lines put together, a number of them in each batch.
use buckytools.Prelude.{
  ℕ, zero, suc, ◌+◌, ◌≤◌, ◌<◌, ◌≡◌, refl, sym, ap, ◌∙◌, inl, inr, List, [], ◌∷◌, ◌++◌, map,
  append-nil, arith, ltb, if◌then◌else◌, Bool-cases, length, take, drop, All, length-take,
  length-drop, take-append-drop, drop-drop,
}
use buckytools.Prelude.Text.{Text}
use buckytools.Prelude.Strings.{join}

-- The loop, from an index; its last batch is what the index leaves.
unfoldable pub batch_from : ℕ → List Text → ℕ → ℕ → List Text
batch_from zero metrics size i = join b'\n' (drop i metrics) ∷ []
batch_from (suc fuel) metrics size i =
    let rest = batch_from fuel metrics size (i + size) in
    if ltb (i + size) (length metrics)
    then join b'\n' (take size (drop i metrics)) ∷ rest
    else join b'\n' (drop i metrics) ∷ []

-- `plainTextBatch`, with the number of lines as fuel; a size that is not 0 needs no more.
unfoldable pub plain_text_batch : List Text → ℕ → List Text
unfolding batch_from
plain_text_batch metrics size = batch_from (length metrics) metrics size 0

-- The parts put together.
abbrev pub concat : List (List Text) → List Text
concat [] = []
concat (g ∷ gs) = g ++ concat gs

-- A group that is not empty, nor longer than a size.
abbrev pub Fits : ℕ → List Text → Type 0
Fits size g = (0 < length g) × (length g ≤ size)

batch_from-groups :
    (fuel : ℕ) (metrics : List Text) (size i : ℕ)
    → 0 < size
    → i < length metrics
    → length metrics ≤ i + fuel
    → (groups : List (List Text)) × (batch_from fuel metrics size i ≡ map (join b'\n') groups)
      × (concat groups ≡ drop i metrics)
      × All (Fits size) groups
unfolding batch_from
batch_from-groups zero metrics size i some_size more enough = absurd (omega arith)
batch_from-groups (suc fuel) metrics size i some_size more enough =
    let first = take size (drop i metrics) in
    let left = length-drop i metrics in
    elim (Bool-cases (ltb (i + size) (length metrics))) [
      | inl goes_on ↦
          let next : i + size < length metrics = ground arith in
          let (groups, e, f, short) =
            batch_from-groups fuel metrics size (i + size) some_size next (omega arith) in
          let taken = length-take size (drop i metrics) in
          (
            first ∷ groups,
            rw (goes_on, e) refl,
            ap (λ l. first ++ l) (f ∙ sym (drop-drop size i metrics))
                ∙ take-append-drop size (drop i metrics),
            ((omega (arith, taken, left), omega (arith, taken)), short),
          )
      | inr last ↦
          let few : length metrics ≤ i + size = ground arith in
          (
            drop i metrics ∷ [],
            rw last refl,
            append-nil (drop i metrics),
            ((omega (arith, left), omega (arith, left)), tt),
          )
    ]

-- The batches of some lines are those of groups of lines, with at least one and at most so many in
-- each, that are the lines in their order. This is for a size that is not 0.
pub plain_text_batch-groups :
    (metrics : List Text) (size : ℕ)
    → 0 < size
    → 0 < length metrics
    → (groups : List (List Text)) × (plain_text_batch metrics size ≡ map (join b'\n') groups)
      × (concat groups ≡ metrics)
      × All (Fits size) groups
unfolding plain_text_batch
plain_text_batch-groups metrics size some_size some_lines =
    batch_from-groups (length metrics) metrics size 0 some_size some_lines (omega arith)
