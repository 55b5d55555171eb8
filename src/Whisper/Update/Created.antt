-- ===== src/Whisper/Update/Created.antt =====
-- The database that Create of whisper/whisper.go makes is one that the theorems on Update, UpdateMany,
-- Fetch and the fill are about.
use mathlib.Core.Path.{subst}
use buckytools.Prelude.{
  ℕ, ◌+◌, ◌*◌, ◌≤◌, ◌<◌, ◌≡◌, refl, sym, ◌∙◌, inl, inr, none, some, List, [], ◌∷◌, arith, ltb,
  if◌then◌else◌, Option-cases, length, All, All-map,
}
use buckytools.Whisper.Retention.{
  Retention, max_retention, size, sort_retentions, sort_retentions-All, validate_retentions,
  validate_retentions_iff, IsChain, IsWellFormed,
}
use buckytools.Whisper.Archive.{ArchiveInfo, IsProper}
use buckytools.Whisper.Header.{
  Whisper, header_size, total_size, largest, place_archives, new_whisper, create,
}
use buckytools.Whisper.Header.Layout.{Tiles, new_whisper-Tiles, length-place_archives}
use buckytools.Whisper.Update.Regions.{IsMethod}
use buckytools.Whisper.Update.Database.{IsDatabase, IsLongest, IsIncreasing}

-- A retention that holds points.
pub record IsPositive (r : Retention) : Type 0 where
  pub precise : 0 < r.seconds_per_point
  pub holds : 0 < r.number_of_points

place_archives-All :
    (P : Retention → Type 0) (offset : ℕ) (rs : List Retention)
    → All P rs
    → All (λ a. P a.retention) (place_archives offset rs)
unfolding place_archives
place_archives-All P offset [] h = tt
place_archives-All P offset (r ∷ rs) h = (h.0, place_archives-All P (offset + size r) rs h.1)

largest-le : (rs : List Retention) (m : ℕ) → m ≤ largest m rs
unfolding largest
largest-le [] m = omega arith
largest-le (r ∷ rs) m =
    let next = if ltb m (max_retention r) then max_retention r else m in
    let grows : m ≤ next = ground arith in omega (arith, grows, largest-le rs next)

largest-All : (rs : List Retention) (m : ℕ) → All (λ r. max_retention r ≤ largest m rs) rs
unfolding largest
largest-All [] m = tt
largest-All (r ∷ rs) m =
    let next = if ltb m (max_retention r) then max_retention r else m in
    let covers : max_retention r ≤ next = ground arith in
    (omega (arith, covers, largest-le rs next), largest-All rs next)

chain_longer :
    (m : ℕ) (r : Retention) (rs : List Retention)
    → m ≤ max_retention r
    → IsChain r rs
    → All (λ q. m ≤ max_retention q) rs
unfolding max_retention
chain_longer m r [] h chain = tt
chain_longer m r (q ∷ rs) h chain =
    let longer = chain.0.longer in
    let next : m ≤ max_retention q = omega (arith, h, longer) in
    (next, chain_longer m q rs next chain.1)

place_archives-IsIncreasing :
    (offset : ℕ) (r : Retention) (rs : List Retention)
    → IsChain r rs
    → IsIncreasing (place_archives offset (r ∷ rs))
unfolding place_archives
place_archives-IsIncreasing offset r [] chain = (tt, tt)
place_archives-IsIncreasing offset r (q ∷ rs) chain = (
  place_archives-All (λ p. max_retention r ≤ max_retention p) (offset + size r) (q ∷ rs)
      (chain_longer (max_retention r) r (q ∷ rs) (omega arith) chain),
  place_archives-IsIncreasing (offset + size r) q rs chain.1,
)

-- What the theorems on Update, UpdateMany, Fetch and the fill ask of a database.
pub record IsSound (w : Whisper) : Type 0 where
  pub database : IsDatabase w
  pub longest : IsLongest w
  pub increasing : IsIncreasing w.archives
  pub length_eq : length w.file ≡ total_size w.archives
  pub tiles : Tiles (header_size w.archives) w.archives (length w.file)

new_whisper-IsSound :
    (rs : List Retention) (m x : ℕ)
    → IsMethod m
    → IsWellFormed rs
    → All IsPositive rs
    → IsSound (new_whisper rs m x)
unfolding new_whisper
new_whisper-IsSound [] m x method h positive = absurd h
new_whisper-IsSound (r ∷ rs) m x method h positive =
    let (len, tiles, same) = new_whisper-Tiles (r ∷ rs) m x in
    let archives = place_archives (16 + 12 * length (r ∷ rs)) (r ∷ rs) in
    let count = length-place_archives (16 + 12 * length (r ∷ rs)) (r ∷ rs) in
    record {
      database = record {
        method = method;
        start = header_size archives;
        end = length (new_whisper (r ∷ rs) m x).file;
        tiles = tiles;
        end_le = omega arith;
        proper = proper (16 + 12 * length (r ∷ rs)) (r ∷ rs) positive;
        some_archive = λ e. absurd (omega (arith, e, count));
      };
      longest =
          place_archives-All (λ q. max_retention q ≤ largest 0 (r ∷ rs)) _ (r ∷ rs)
            (largest-All (r ∷ rs) 0);
      increasing = place_archives-IsIncreasing _ r rs h;
      length_eq = len;
      tiles = tiles;
    }
  where
    proper :
        (offset : ℕ) (l : List Retention)
        → All IsPositive l
        → All IsProper (place_archives offset l)
    proper offset l hl =
        All-map (λ (a : ArchiveInfo). IsPositive a.retention) IsProper (place_archives offset l)
          (λ a h. record { precise = h.precise; holds = h.holds })
          (place_archives-All IsPositive offset l hl)

-- The database that `Create` makes of retentions that hold points, for one of the five methods, is sound:
-- its archives lie side by side from the header's end to that of the file, each reaches back at least
-- as far as those before it and no further than the header says, and the file has the size that `Size`
-- says.
pub create-IsSound :
    (rs : List Retention) (m x : ℕ) (w : Whisper)
    → IsMethod m
    → All IsPositive rs
    → create rs m x ≡ some w
    → IsSound w
unfolding create
create-IsSound rs m x w method positive e =
    let sorted = sort_retentions rs in
    elim (Option-cases (validate_retentions sorted)) [
      | inl fine ↦
          let made : create rs m x ≡ some (new_whisper sorted m x) = rw (fine, create) refl in
          let same : new_whisper sorted m x ≡ w = injective _ _ (sym made ∙ e) in
          subst IsSound same (
            new_whisper-IsSound sorted m x method ((validate_retentions_iff sorted).0 fine)
              (sort_retentions-All IsPositive rs positive))
      | inr (error, bad) ↦
          let refused : create rs m x ≡ none = rw (bad, create) refl in
          absurd (nothing (sym refused ∙ e))
    ]
  where
    injective : (v u : Whisper) → some v ≡ some u → v ≡ u
    injective v u h = cc

    nothing : none ≡ some w → ⊥
    nothing h = cc
