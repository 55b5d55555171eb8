-- ===== src/Whisper/Update.antt =====
-- Update of whisper/whisper.go: a point is written, and propagated to the lower archives. The
-- floating point arithmetic is a parameter on bit patterns, time.Now an argument. Errors of the disk
-- are not modelled, but for a read past the end of the file, at which getBaseInterval panics.
pub mod Regions
pub mod Propagated
pub mod Database
pub mod Created
pub mod Place
pub mod Lookup
use buckytools.Prelude.{
  ℕ, ◌+◌, ◌-◌, ◌*◌, ◌/◌, Bool, true, false, ◌&&◌, not, Option, none, some, List, [], ◌∷◌, ◌++◌, ltb,
  ◌==◌, if◌then◌else◌, length,
}
use buckytools.Prelude.Int.{◌==ℤ◌, ℤ, pos, pos_part, ◌+ℤ◌, ◌-ℤ◌, ltb_ℤ}
use buckytools.Whisper.Bytes.{unpack_int, int_size}
use buckytools.Whisper.Mod.{floor_mod}
use buckytools.Whisper.File.{FileData, read_at, read_ok, write_at}
use buckytools.Whisper.Retention.{point_size, max_retention, size}
use buckytools.Whisper.Archive.{ArchiveInfo, point_offset, end_offset, align}
use buckytools.Whisper.Point.{DataPoint, bytes, unpack_data_points}
use buckytools.Whisper.Header.{Whisper}

-- The operations of float64 and float32 that the package uses, on bit patterns.
pub record Floats : Type 0 where
  pub add : ℕ → ℕ → ℕ
  pub div : ℕ → ℕ → ℕ
  pub from_int : ℕ → ℕ
  pub less : ℕ → ℕ → Bool
  pub div32 : ℕ → ℕ → ℕ
  pub from_int32 : ℕ → ℕ
  pub less32 : ℕ → ℕ → Bool

unfoldable pub sum_from : Floats → ℕ → List ℕ → ℕ
sum_from ops result [] = result
sum_from ops result (v ∷ vs) = sum_from ops (ops.add result v) vs

-- `sum`; the bits of 0.0 are 0.
unfoldable pub sum : Floats → List ℕ → ℕ
unfolding sum_from
sum ops values = sum_from ops 0 values

unfoldable pub last_value : ℕ → List ℕ → ℕ
last_value v [] = v
last_value v (w ∷ ws) = last_value w ws

unfoldable pub max_value : Floats → ℕ → List ℕ → ℕ
max_value ops best [] = best
max_value ops best (v ∷ vs) = max_value ops (if ops.less best v then v else best) vs

unfoldable pub min_value : Floats → ℕ → List ℕ → ℕ
min_value ops best [] = best
min_value ops best (v ∷ vs) = min_value ops (if ops.less v best then v else best) vs

-- `aggregate`: `none` is the panic at an unknown method, or at no values where one is indexed.
unfoldable pub aggregate : Floats → ℕ → List ℕ → Option ℕ
aggregate ops method [] =
    if method == 1
    then some (ops.div (sum ops []) (ops.from_int 0))
    else if method == 2
    then some (sum ops [])
    else none
aggregate ops method (v ∷ vs) =
    if method == 1
    then some (ops.div (sum ops (v ∷ vs)) (ops.from_int (length (v ∷ vs))))
    else if method == 2
    then some (sum ops (v ∷ vs))
    else if method == 3
    then some (last_value v vs)
    else if method == 4
    then some (max_value ops v (v ∷ vs))
    else if method == 5
    then some (min_value ops v (v ∷ vs))
    else none

-- `readInt`.
unfoldable pub read_int : FileData → ℕ → Option ℕ
read_int file offset =
    if read_ok file offset int_size then some (unpack_int (read_at file offset int_size)) else none

-- `getBaseInterval`.
unfoldable pub get_base_interval : FileData → ArchiveInfo → Option ℕ
get_base_interval file archive = read_int file archive.offset

-- `getPointOffset`.
unfoldable pub get_point_offset : FileData → ℤ → ArchiveInfo → Option ℕ
get_point_offset file start archive = elim (get_base_interval file archive) [
  | none ↦ none
  | some base ↦
      if base == 0 then some archive.offset else some (point_offset archive (pos base) start)
]

-- `readSeries`, whose `end` does not lie before the archive.
unfoldable pub read_series : FileData → ℕ → ℕ → ArchiveInfo → List DataPoint
read_series file start end archive =
    if ltb start end
    then unpack_data_points (read_at file start (end - start))
    else unpack_data_points (
        read_at file start (end_offset archive - start)
        ++ read_at file archive.offset (end - archive.offset))

-- The write of a point at its place in an archive.
unfoldable pub write_point : FileData → DataPoint → ArchiveInfo → Option FileData
write_point file point archive = elim (get_point_offset file point.interval archive) [
  | none ↦ none
  | some offset ↦ some (write_at file (bytes point) offset)
]

-- The values of `propagate` that stand at the interval expected.
unfoldable pub known_values : ℤ → ℕ → List DataPoint → List ℕ
known_values current step [] = []
known_values current step (p ∷ ps) =
    let rest = known_values (current +ℤ pos step) step ps in
    if p.interval ==ℤ current then p.value ∷ rest else rest

-- The last part of `propagate`: the known values and the length of the series.
unfoldable pub write_aggregate :
    Floats → Whisper → FileData → ℤ → ArchiveInfo → List ℕ → ℕ → Option (Bool × FileData)
write_aggregate ops w file start lower known total =
    if length known == 0
    then some (false, file)
    else if ops.less32 (ops.div32 (ops.from_int32 (length known)) (ops.from_int32 total))
        w.x_files_factor
    then some (false, file)
    else elim (aggregate ops w.aggregation_method known) [
      | none ↦ none
      | some value ↦ elim (write_point file record { interval = start; value = value } lower) [
        | none ↦ none
        | some g ↦ some (true, g)
      ]
    ]

-- `propagate`.
unfoldable pub propagate :
    Floats → Whisper → FileData → ℤ → ArchiveInfo → ArchiveInfo → Option (Bool × FileData)
propagate ops w file timestamp higher lower =
    let start = align lower timestamp in
    elim (get_point_offset file start higher) [
      | none ↦ none
      | some first ↦
          let higher_points = lower.seconds_per_point / higher.seconds_per_point in
          let higher_size = higher_points * point_size in
          let relative_first = first - higher.offset in
          let relative_last =
            pos_part (floor_mod (pos (relative_first + higher_size)) (size higher.retention)) in
          let series = read_series file first (relative_last + higher.offset) higher in
          let known = known_values start higher.seconds_per_point series in
          write_aggregate ops w file start lower known (length series)
    ]

-- The loop of `Update` over the lower archives.
unfoldable pub propagate_all :
    Floats → Whisper → FileData → ℤ → ArchiveInfo → List ArchiveInfo → Option FileData
propagate_all ops w file interval higher [] = some file
propagate_all ops w file interval higher (lower ∷ rest) =
    elim (propagate ops w file interval higher lower) [
      | none ↦ none
      | some (true, g) ↦ propagate_all ops w g interval lower rest
      | some (false, g) ↦ some g
    ]

-- The loop that finds the first archive which covers an age, and those behind it.
unfoldable pub choose_archive : ℤ → ArchiveInfo → List ArchiveInfo → ArchiveInfo × List ArchiveInfo
choose_archive diff archive [] = (archive, [])
choose_archive diff archive (a ∷ rest) =
    if ltb_ℤ (pos (max_retention a.retention)) diff then choose_archive diff a rest else (a, rest)

abbrev pub no_archive : ArchiveInfo
no_archive = record {
  retention = record { seconds_per_point = 0; number_of_points = 0 };
  offset = 0;
}

-- The write of a point to its archive and to those behind it.
unfoldable pub update_archives :
    Floats → Whisper → ℕ → ℤ → ArchiveInfo → List ArchiveInfo → Option FileData
update_archives ops w value timestamp archive lower =
    let interval = align archive timestamp in
    elim (write_point w.file record { interval = interval; value = value } archive) [
      | none ↦ none
      | some file ↦ propagate_all ops w file interval archive lower
    ]

pub data Outcome : Type 0 where
  stored : FileData → Outcome
  not_covered panicked : Outcome

unfoldable pub outcome : Option FileData → Outcome
outcome none = panicked
outcome (some file) = stored file

-- `Update`.
unfoldable pub update : Floats → ℤ → Whisper → ℕ → ℤ → Outcome
update ops now w value timestamp =
    let diff = now -ℤ timestamp in
    if ltb_ℤ diff (pos w.max_retention) && not (ltb_ℤ diff (pos 0))
    then (let chosen = choose_archive diff no_archive w.archives in
        outcome (update_archives ops w value timestamp chosen.0 chosen.1))
    else not_covered
