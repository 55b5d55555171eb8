-- ===== src/Fill/Tests.antt =====
-- Runs of the machine of OpenWSP that finds gaps.
use buckytools.Prelude.{
  ℕ, ◌+◌, ◌*◌, ◌/◌, ◌≤◌, ◌≡◌, refl, Option, none, some, List, [], ◌∷◌, arith, ltb, length,
}
use buckytools.Prelude.Int.{pos, negsuc, pos_part, ◌+ℤ◌, ◌-ℤ◌}
use buckytools.Whisper.File.{FileData, read_at}
use buckytools.Whisper.Retention.{Retention, size, max_retention}
use buckytools.Whisper.Header.{Whisper, new_whisper, place_archives, largest, header_size}
use buckytools.Whisper.Header.Layout.{new_whisper-Tiles}
use buckytools.Whisper.Update.Database.{IsDatabase}
use buckytools.Whisper.Fetch.{nan}
use buckytools.Whisper.Update.Database.{IsLongest, IsIncreasing}
use buckytools.Fill.Complete.{open_wsp-filled}
use buckytools.Fill.{filled, with_file, Env, open_wsp, is_nan, Filler, gap_step, fill_window, scan}
use buckytools.Fill.Gaps.{flatten, describe, IsRight, windows, fill_all_windows}
use buckytools.Fill.Scan.{scan-describe}

abbrev nothing : Whisper
nothing = record {
  file = [];
  aggregation_method = 1;
  max_retention = 3600;
  x_files_factor = 0;
  archives = [];
}

-- The windows are written down in the file.
abbrev note_window : Filler
note_window start stop dst = some record {
  file = pos_part start ∷ (pos_part stop ∷ dst.file);
  aggregation_method = dst.aggregation_method;
  max_retention = dst.max_retention;
  x_files_factor = dst.x_files_factor;
  archives = dst.archives;
}

-- A gap of one value, one of two, and one of two at the end.
abbrev values : List ℕ
values = 5 ∷ (nan ∷ (6 ∷ (nan ∷ (nan ∷ (7 ∷ (nan ∷ (nan ∷ [])))))))

abbrev file_of : Option Whisper → List ℕ
file_of none = []
file_of (some w) = w.file

scan_runs :
    file_of (scan note_window 60 60 (pos 1080) (pos 600) (negsuc 0) values nothing)
    ≡ 900 ∷ (1020 ∷ (720 ∷ (900 ∷ [])))
unfolding scan gap_step is_nan fill_window ◌-ℤ◌ ◌+ℤ◌
scan_runs = refl

scan-describe_example :
    (flatten (describe values) ≡ values)
    × IsRight (describe values)
    × (scan note_window 60 60 (pos (600 + length values * 60)) (pos 600) (negsuc 0) values nothing
        ≡ fill_all_windows note_window (windows 60 60 600 (describe values)) nothing)
scan-describe_example = scan-describe note_window 60 60 600 values nothing (omega arith)

abbrev env : Env
env = record {
  floats = record {
    add = ◌+◌;
    div = ◌/◌;
    from_int = λ n. n;
    less = ltb;
    div32 = λ a b. a * 100 / b;
    from_int32 = λ n. n;
    less32 = ltb;
  };
  newest_first = λ ps. ps;
  now = pos 10000;
}

-- A new database of five minutes and of twenty.
abbrev minutes : List Retention
minutes =
    record { seconds_per_point = 60; number_of_points = 5 }
    ∷ (record { seconds_per_point = 300; number_of_points = 4 } ∷ [])

abbrev database : Whisper
database = new_whisper minutes 1 50

database-IsDatabase : IsDatabase database
unfolding new_whisper place_archives size largest max_retention
database-IsDatabase =
    let (len, tiles, same) = new_whisper-Tiles minutes 1 50 in
    record {
      method = record { positive = omega arith; small = omega arith };
      start = header_size database.archives;
      end = length database.file;
      tiles = tiles;
      end_le = omega arith;
      proper = (
        record { precise = omega arith; holds = omega arith },
        (record { precise = omega arith; holds = omega arith }, tt),
      );
      some_archive = λ e. absurd (omega (arith, e));
    }

database-IsLongest : IsLongest database
unfolding new_whisper place_archives largest max_retention
database-IsLongest = (omega arith, (omega arith, tt))

database-IsIncreasing : IsIncreasing database.archives
unfolding new_whisper place_archives max_retention
database-IsIncreasing = ((omega arith, tt), (tt, tt))

open_wsp-filled_example :
    (g : FileData) × (open_wsp env database database (pos 9900) ≡ filled (with_file database g))
    × (length g ≡ length database.file)
    × ((o n : ℕ) → o + n ≤ database-IsDatabase.start → read_at g o n ≡ read_at database.file o n)
open_wsp-filled_example =
    open_wsp-filled env database database (pos 9900) database-IsDatabase database-IsDatabase
      database-IsLongest database-IsLongest database-IsIncreasing
