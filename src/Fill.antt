-- ===== src/Fill.antt =====
-- fill/fill.go: the gaps of one file of a metric are filled from another. time.Now is an argument, the
-- same for every reading of it. Errors of the disk are not modelled.
pub mod Gaps
pub mod Scan
pub mod Errors
pub mod Filled
pub mod Span
pub mod Windows
pub mod Complete
mod Tests
use buckytools.Prelude.{
  ℕ, ◌/◌, ◌%◌, ◌^◌, Bool, true, false, ◌&&◌, not, Option, none, some, List, [], ◌∷◌, ◌==◌,
  if◌then◌else◌,
}
use buckytools.Prelude.Int.{ℤ, pos, negsuc, ◌+ℤ◌, ◌-ℤ◌, ltb_ℤ, ◌==ℤ◌}
use buckytools.Whisper.File.{FileData}
use buckytools.Whisper.Retention.{Retention, max_retention, sort_retentions}
use buckytools.Whisper.Archive.{ArchiveInfo}
use buckytools.Whisper.Header.{Whisper}
use buckytools.Whisper.Update.{Floats, Outcome, stored, not_covered, panicked}
use buckytools.Whisper.UpdateMany.{TimeSeriesPoint, update_many}
use buckytools.Whisper.Fetch.{
  FetchResult, TimeSeries, series, invalid_interval, no_series, unreadable, start_time, fetch,
}

-- `math.IsNaN` of a bit pattern: the exponent is all ones, and the fraction is not 0.
unfoldable pub is_nan : ℕ → Bool
is_nan v = v / 2 ^ 52 % 2 ^ 11 == 2047 && not (v % 2 ^ 52 == 0)

-- `Retentions` of an open file, sorted by precision.
unfoldable pub retentions : List ArchiveInfo → List Retention
retentions [] = []
retentions (a ∷ rest) = a.retention ∷ retentions rest

abbrev pub with_file : Whisper → FileData → Whisper
with_file w file = record {
  file = file;
  aggregation_method = w.aggregation_method;
  max_retention = w.max_retention;
  x_files_factor = w.x_files_factor;
  archives = w.archives;
}

-- How a fill ends: the file filled, the file as it is when an error is returned, or a panic.
pub data Fill : Type 0 where
  filled failed : Whisper → Fill
  crashed : Fill

-- The points to merge: those of a series that are known.
unfoldable pub known_points : ℤ → ℕ → List ℕ → List TimeSeriesPoint
known_points time step [] = []
known_points time step (v ∷ vs) =
    let rest = known_points (time +ℤ pos step) step vs in
    if is_nan v then rest else record { time = time; value = v } ∷ rest

-- What the code calls: the floats, sort.Sort by newest first, and the clock.
pub record Env : Type 0 where
  pub floats : Floats
  pub newest_first : List TimeSeriesPoint → List TimeSeriesPoint
  pub now : ℤ

-- `UpdateMany` of the destination by the points that a Fetch of the source gave.
unfoldable pub merge : Env → Whisper → TimeSeries → Outcome
merge env dst ts =
    update_many env.newest_first env.floats env.now dst
      (known_points ts.from_time ts.step ts.values)

-- What a round makes of the source's answer: the filled destination, or the end of the loop. A missing
-- series is a nil pointer, at which FromTime panics.
unfoldable pub after_merge : Whisper → Outcome → Fill
after_merge dst (stored file) = filled (with_file dst file)
after_merge dst not_covered = crashed
after_merge dst panicked = crashed

unfoldable pub after_fetch : Env → Whisper → FetchResult → Fill
after_fetch env dst (series ts) = after_merge dst (merge env dst ts)
after_fetch env dst invalid_interval = failed dst
after_fetch env dst no_series = crashed
after_fetch env dst unreadable = crashed

-- The loop of `fillArchive` over the source's retentions.
unfoldable pub fill_from : Env → Whisper → Whisper → ℤ → ℤ → List Retention → Fill
fill_from env src dst start stop [] = filled dst
fill_from env src dst start stop (v ∷ vs) =
    let r_time = env.now -ℤ pos (max_retention v) in
    elim (not (ltb_ℤ r_time stop)) [
      | true ↦ fill_from env src dst start stop vs
      | false ↦
          let from_time = if ltb_ℤ start r_time then r_time else start in
          elim (after_fetch env dst (fetch env.now src from_time stop)) [
            | crashed ↦ crashed
            | failed dst ↦ failed dst
            | filled dst ↦ elim (ltb_ℤ start from_time) [
              | false ↦ filled dst
              | true ↦ fill_from env src dst start from_time vs
            ]
          ]
    ]

-- `fillArchive`.
unfoldable pub fill_archive : Env → Whisper → ℤ → ℤ → Whisper → Fill
fill_archive env src start stop dst =
    let oldest = start_time env.now src in
    if ltb_ℤ start oldest && ltb_ℤ stop oldest
    then filled dst
    else fill_from env src dst start stop (sort_retentions (retentions src.archives))

-- `OpenWSP` does not look at the error of `fillArchive`.
unfoldable pub ignore_error : Fill → Option Whisper
ignore_error (filled dst) = some dst
ignore_error (failed dst) = some dst
ignore_error crashed = none

-- A round of the machine that finds gaps: the window to fill, if any, and the new `gapstart`, which is
-- -1 outside of a gap.
unfoldable pub gap_step : ℕ → ℕ → ℤ → ℤ → ℤ → Bool → Option (ℤ × ℤ) × ℤ
gap_step step precision until start gapstart missing =
    let outside = ltb_ℤ gapstart (pos 0) in
    if missing && outside
    then (none, start)
    else if not missing && not outside
    then (if ltb_ℤ (pos precision) (start -ℤ gapstart)
        then (some (gapstart -ℤ pos step, start), negsuc 0)
        else (none, negsuc 0))
    else if not outside && (start ==ℤ (until -ℤ pos step))
    then (some (gapstart -ℤ pos step, start), gapstart)
    else (none, gapstart)

-- What a window does to the file; `none` is a panic.
abbrev pub Filler : Type 0
Filler = ℤ → ℤ → Whisper → Option Whisper

unfoldable pub fill_window : Filler → Option (ℤ × ℤ) → Whisper → Option Whisper
fill_window fill none dst = some dst
fill_window fill (some (start, stop)) dst = fill start stop dst

-- The loop of `OpenWSP` over the values of a series.
unfoldable pub scan : Filler → ℕ → ℕ → ℤ → ℤ → ℤ → List ℕ → Whisper → Option Whisper
scan fill step precision until start gapstart [] dst = some dst
scan fill step precision until start gapstart (dp ∷ dps) dst =
    let (window, next) = gap_step step precision until start gapstart (is_nan dp) in
    elim (fill_window fill window dst) [
      | none ↦ none
      | some dst ↦ scan fill step precision until (start +ℤ pos step) next dps dst
    ]

unfoldable pub scan_series : Filler → ℕ → FetchResult → Whisper → Fill
scan_series fill precision invalid_interval dst = failed dst
scan_series fill precision no_series dst = crashed
scan_series fill precision unreadable dst = crashed
scan_series fill precision (series ts) dst =
    elim (scan fill ts.step precision ts.until_time ts.from_time (negsuc 0) ts.values dst) [
      | none ↦ crashed
      | some dst ↦ filled dst
    ]

-- The loop of `OpenWSP` over the destination's retentions.
unfoldable pub open_from : Env → Whisper → ℤ → List Retention → Whisper → Fill
open_from env src start_time [] dst = filled dst
open_from env src start_time (v ∷ vs) dst =
    let from_time = env.now -ℤ pos (max_retention v) in
    let fill : Filler = λ start stop dst. ignore_error (fill_archive env src start stop dst) in
    elim (ltb_ℤ from_time start_time) [
      | false ↦ open_from env src start_time vs dst
      | true ↦
          elim (scan_series fill v.seconds_per_point (fetch env.now dst from_time start_time) dst) [
            | crashed ↦ crashed
            | failed dst ↦ failed dst
            | filled dst ↦ open_from env src from_time vs dst
          ]
    ]

-- `OpenWSP`.
unfoldable pub open_wsp : Env → Whisper → Whisper → ℤ → Fill
open_wsp env src dst start_time =
    open_from env src start_time (sort_retentions (retentions dst.archives)) dst

-- `Files`, where each path is an open file or an error of `Open`.
unfoldable pub files : Env → Option Whisper → Option Whisper → ℤ → Option Fill
files env source none start_time = none
files env none (some dst) start_time = none
files env (some src) (some dst) start_time = some (open_wsp env src dst start_time)

-- `All`.
unfoldable pub fill_all : Env → Option Whisper → Option Whisper → Option Fill
fill_all env source dest = files env source dest env.now
