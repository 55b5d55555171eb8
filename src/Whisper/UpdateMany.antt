-- ===== src/Whisper/UpdateMany.antt =====
-- UpdateMany of whisper/whisper.go: many points are sorted, shared out among the archives, aligned,
-- written in blocks and propagated. sort.Sort, which leaves the order of points of one time open, is a
-- parameter, time.Now an argument. A value is the bit pattern of a float64.
mod Tests
pub mod Aligned
pub mod Upsert
pub mod Extract
pub mod Blocks
pub mod Place
pub mod Window
pub mod Written
pub mod Stored
pub mod Within
pub mod Total
use buckytools.Prelude.{
  ℕ, zero, suc, ◌+◌, ◌-◌, Bool, true, false, ◌||◌, Option, none, some, List, [], ◌∷◌, ◌++◌, ltb,
  if◌then◌else◌, length, set, take, drop,
}
use buckytools.Prelude.Int.{ℤ, pos, ◌+ℤ◌, ◌-ℤ◌, ltb_ℤ, ◌==ℤ◌}
use buckytools.Whisper.File.{FileData, write_at}
use buckytools.Whisper.Retention.{max_retention}
use buckytools.Whisper.Archive.{ArchiveInfo, point_offset, end_offset, align}
use buckytools.Whisper.Point.{DataPoint, bytes}
use buckytools.Whisper.Header.{Whisper}
use buckytools.Whisper.Update.{Floats, Outcome, outcome, get_base_interval, propagate}

pub record TimeSeriesPoint : Type 0 where
  pub time : ℤ
  pub value : ℕ

unfoldable pub after_one : Option ℕ → Option ℕ
after_one none = none
after_one (some i) = some (suc i)

-- The index of the first point that is older than an archive reaches.
unfoldable pub first_older : ℤ → List TimeSeriesPoint → Option ℕ
first_older max_age [] = none
first_older max_age (p ∷ ps) =
    if ltb_ℤ p.time max_age then some 0 else after_one (first_older max_age ps)

-- `points[:i-1]` and `points[i-1:]`, or nothing and all the points at index 0.
unfoldable pub split_at :
    List TimeSeriesPoint → Option ℕ → List TimeSeriesPoint × List TimeSeriesPoint
split_at points none = (points, [])
split_at points (some zero) = ([], points)
split_at points (some (suc i)) = (take i points, drop i points)

-- `extractPoints`.
unfoldable pub extract_points :
    List TimeSeriesPoint → ℤ → ℕ → List TimeSeriesPoint × List TimeSeriesPoint
extract_points points now max_retention =
    split_at points (first_older (now -ℤ pos max_retention) points)

-- The map from the intervals to their positions in `alignPoints`.
abbrev pub Positions : Type 0
Positions = List (ℤ × ℕ)

unfoldable pub position_of : ℤ → Positions → Option ℕ
position_of k [] = none
position_of k ((j, i) ∷ ps) = if j ==ℤ k then some i else position_of k ps

-- What a round of `alignPoints` makes of the aligned points and their positions.
unfoldable pub place_point :
    DataPoint → Option ℕ → List DataPoint × Positions → List DataPoint × Positions
place_point p (some i) (aligned, positions) = (set aligned i p, positions)
place_point p none (aligned, positions) =
    (aligned ++ (p ∷ []), positions ++ ((p.interval, length aligned) ∷ []))

unfoldable pub data_point : ArchiveInfo → TimeSeriesPoint → DataPoint
data_point archive point = record { interval = align archive point.time; value = point.value }

unfoldable pub align_from :
    ArchiveInfo → List TimeSeriesPoint → List DataPoint × Positions → List DataPoint × Positions
align_from archive [] s = s
align_from archive (point ∷ points) s =
    let p = data_point archive point in
    align_from archive points (place_point p (position_of p.interval s.1) s)

-- `alignPoints`.
unfoldable pub align_points : ArchiveInfo → List TimeSeriesPoint → List DataPoint
align_points archive points = (align_from archive points ([], [])).0

-- The loop of `packSequences` behind the first point, with the last interval and the last block apart
-- from those before them. An interval and its block stand as a pair.
unfoldable pub pack_from : ℕ → ℤ → List ℕ → List DataPoint → List (ℤ × List ℕ)
pack_from step start block [] = (start, block) ∷ []
pack_from step start block (p ∷ ps) =
    let joins = p.interval ==ℤ (start +ℤ pos step) in
    let next = if joins then start else p.interval in
    let next_block = if joins then block ++ bytes p else bytes p in
    let rest = pack_from step next next_block ps in if joins then rest else (start, block) ∷ rest

-- `packSequences`.
unfoldable pub pack_sequences : ArchiveInfo → List DataPoint → List (ℤ × List ℕ)
pack_sequences archive [] = []
pack_sequences archive (p ∷ ps) = pack_from archive.seconds_per_point p.interval (bytes p) ps

-- The write of a block, in two parts where it goes beyond the archive's end. A block begins within
-- the archive, so that it never goes beyond by more than its length.
unfoldable pub write_block : ArchiveInfo → ℤ → FileData → ℤ × List ℕ → FileData
write_block archive base file (interval, block) =
    let offset = point_offset archive base interval in
    let beyond = offset + length block - end_offset archive in
    let here = length block - beyond in
    if ltb 0 beyond
    then write_at (write_at file (take here block) offset) (drop here block) archive.offset
    else write_at file block offset

unfoldable pub write_blocks : ArchiveInfo → ℤ → FileData → List (ℤ × List ℕ) → FileData
write_blocks archive base file [] = file
write_blocks archive base file (b ∷ bs) =
    write_blocks archive base (write_block archive base file b) bs

-- The base interval of an archive, or the first interval if the archive is empty. `none` is the panic
-- at `intervals[0]` or in `getBaseInterval`.
unfoldable pub base_or_first : Option ℕ → List (ℤ × List ℕ) → Option ℤ
base_or_first none blocks = none
base_or_first (some (suc base)) blocks = some (pos (suc base))
base_or_first (some zero) [] = none
base_or_first (some zero) ((interval, b) ∷ bs) = some interval

unfoldable pub write_from : ArchiveInfo → Option ℤ → FileData → List (ℤ × List ℕ) → Option FileData
write_from archive none file blocks = none
write_from archive (some base) file blocks = some (write_blocks archive base file blocks)

-- The writes of `archiveUpdateMany` to its archive.
unfoldable pub write_points : FileData → ArchiveInfo → List DataPoint → Option FileData
write_points file archive aligned =
    let blocks = pack_sequences archive aligned in
    write_from archive (base_or_first (get_base_interval file archive) blocks) file blocks

-- `lowerArchives`.
unfoldable pub lower_archives : ArchiveInfo → List ArchiveInfo → List ArchiveInfo
lower_archives archive [] = []
lower_archives archive (a ∷ rest) =
    if ltb archive.seconds_per_point a.seconds_per_point
    then a ∷ rest
    else lower_archives archive rest

-- The loop over the aligned points that propagates to one lower archive. The map `seen` is read there
-- but never written, so that it skips no point.
unfoldable pub propagate_points :
    Floats
    → Whisper
    → FileData
    → Bool
    → ArchiveInfo
    → ArchiveInfo
    → List DataPoint
    → Option (Bool × FileData)
propagate_points ops w file further higher lower [] = some (further, file)
propagate_points ops w file further higher lower (p ∷ ps) =
    elim (propagate ops w file (align lower p.interval) higher lower) [
      | none ↦ none
      | some (done, g) ↦ propagate_points ops w g (done || further) higher lower ps
    ]

-- The loop over the lower archives.
unfoldable pub propagate_many :
    Floats → Whisper → FileData → ArchiveInfo → List DataPoint → List ArchiveInfo → Option FileData
propagate_many ops w file higher aligned [] = some file
propagate_many ops w file higher aligned (lower ∷ rest) =
    elim (propagate_points ops w file false higher lower aligned) [
      | none ↦ none
      | some (true, g) ↦ propagate_many ops w g lower aligned rest
      | some (false, g) ↦ some g
    ]

-- `archiveUpdateMany`.
unfoldable pub archive_update_many :
    Floats → Whisper → FileData → ArchiveInfo → List TimeSeriesPoint → Option FileData
archive_update_many ops w file archive points =
    let aligned = align_points archive points in
    elim (write_points file archive aligned) [
      | none ↦ none
      | some g ↦ propagate_many ops w g archive aligned (lower_archives archive w.archives)
    ]

unfoldable pub reversed : List TimeSeriesPoint → List TimeSeriesPoint
reversed [] = []
reversed (p ∷ ps) = reversed ps ++ (p ∷ [])

-- The loop of `UpdateMany` over the archives.
unfoldable pub update_from :
    Floats → Whisper → ℤ → FileData → List ArchiveInfo → List TimeSeriesPoint → Option FileData
update_from ops w now file [] points = some file
update_from ops w now file (a ∷ rest) points =
    let (current, remaining) = extract_points points now (max_retention a.retention) in
    elim current [
      | [] ↦ update_from ops w now file rest remaining
      | p ∷ ps ↦ elim (archive_update_many ops w file a (reversed (p ∷ ps))) [
        | none ↦ none
        | some g ↦ elim remaining [ [] ↦ some g | q ∷ qs ↦ update_from ops w now g rest (q ∷ qs) ]
      ]
    ]

-- `UpdateMany`.
unfoldable pub update_many :
    (List TimeSeriesPoint → List TimeSeriesPoint)
    → Floats
    → ℤ
    → Whisper
    → List TimeSeriesPoint
    → Outcome
update_many newest_first ops now w points =
    outcome (update_from ops w now w.file w.archives (newest_first points))
