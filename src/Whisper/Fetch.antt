-- ===== src/Whisper/Fetch.antt =====
-- Fetch of whisper/whisper.go: the values of a span of time. The clock, which Fetch and StartTime
-- read, is an argument and stands still between the two.
pub mod Series
pub mod Steps
pub mod Stored
pub mod Updated
use buckytools.Prelude.{ℕ, none, some, List, [], ◌∷◌, ◌==◌, if◌then◌else◌, replicate}
use buckytools.Prelude.Int.{◌==ℤ◌, ℤ, pos, pos_part, ◌+ℤ◌, ◌-ℤ◌, ltb_ℤ}
use buckytools.Whisper.Mod.{quotient}
use buckytools.Whisper.File.{FileData}
use buckytools.Whisper.Archive.{ArchiveInfo, point_offset, interval_after}
use buckytools.Whisper.Point.{DataPoint}
use buckytools.Whisper.Header.{Whisper}
use buckytools.Whisper.Update.{get_base_interval, read_series, choose_archive, no_archive}

-- The bits of `math.NaN()`.
abbrev pub nan : ℕ
nan = 9221120237041090561

pub record TimeSeries : Type 0 where
  pub from_time : ℤ
  pub until_time : ℤ
  pub step : ℕ
  pub values : List ℕ

-- A missing series is no error, `no_series`. At `unreadable` getBaseInterval panics.
pub data FetchResult : Type 0 where
  series : TimeSeries → FetchResult
  invalid_interval no_series unreadable : FetchResult

-- `StartTime`.
unfoldable pub start_time : ℤ → Whisper → ℤ
start_time now w = now -ℤ pos w.max_retention

-- The loop over the points read: a point from another time counts as missing.
unfoldable pub fill_values : ℤ → ℕ → List DataPoint → List ℕ
fill_values current step [] = []
fill_values current step (p ∷ ps) =
    (if p.interval ==ℤ current then p.value else nan) ∷ fill_values (current +ℤ pos step) step ps

-- What is read once the archive and the two intervals are known.
unfoldable pub fetch_archive : FileData → ArchiveInfo → ℤ → ℤ → FetchResult
fetch_archive file archive from_interval until_interval = elim (get_base_interval file archive) [
  | none ↦ unreadable
  | some base ↦
      let step = archive.seconds_per_point in
      let points = pos_part (quotient (until_interval -ℤ from_interval) step) in
      let from_offset = point_offset archive (pos base) from_interval in
      let until_offset = point_offset archive (pos base) until_interval in
      let values =
        if base == 0
        then replicate points nan
        else fill_values from_interval step (read_series file from_offset until_offset archive) in
      series record {
        from_time = from_interval;
        until_time = until_interval;
        step = step;
        values = values;
      }
]

-- `Fetch`. Its loop takes the first archive that covers the age, as the loop of `Update` does.
unfoldable pub fetch : ℤ → Whisper → ℤ → ℤ → FetchResult
fetch now w from_time until_time =
    let oldest = start_time now w in
    let from' = if ltb_ℤ from_time oldest then oldest else from_time in
    let until' = if ltb_ℤ now until_time then now else until_time in
    let archive = (choose_archive (now -ℤ from') no_archive w.archives).0 in
    if ltb_ℤ until_time from_time
    then invalid_interval
    else if ltb_ℤ now from_time
    then no_series
    else if ltb_ℤ until_time oldest
    then no_series
    else fetch_archive w.file archive (interval_after archive from') (interval_after archive until')

-- `Points` of a series.
unfoldable pub series_points : ℤ → ℕ → List ℕ → List DataPoint
series_points time step [] = []
series_points time step (v ∷ vs) =
    record { interval = time; value = v } ∷ series_points (time +ℤ pos step) step vs
