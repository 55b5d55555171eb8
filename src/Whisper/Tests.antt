-- ===== src/Whisper/Tests.antt =====
-- Runs of the package whisper at a small database, and its theorems applied there.
use buckytools.Prelude.{
  ℕ, ◌+◌, ◌-◌, ◌*◌, ◌/◌, ◌≤◌, ◌⊎◌, ◌<◌, ◌≡◌, refl, sym, ◌∙◌, ◌↔◌, none, some, List, [], ◌∷◌, ◌++◌,
  arith, ltb, if◌then◌else◌, length,
}
use buckytools.Prelude.Int.{pos, ◌+ℤ◌, ◌-ℤ◌}
use buckytools.Whisper.Mod.{floor_mod, floor_div, scale}
use buckytools.Whisper.File.{FileData, read_ok, read_at}
use buckytools.Whisper.Bytes.{pack_float32, unpack_int, word_from, splice, pack_int, put_word}
use buckytools.Whisper.Retention.{
  size, Retention, IsWellFormed, validate_retentions, validate_retentions_iff, validate_from,
  validate_pair, max_retention, less, insert, sort, sort_retentions,
}
use buckytools.Whisper.Archive.{
  ArchiveInfo, IsProper, point_offset, end_offset, align, point_offset-bounds,
}
use buckytools.Whisper.Point.{Fits}
use buckytools.Whisper.Header.{
  header, add_sizes, pack_archives, zero_fill, Whisper, new_whisper, open_file, largest,
  place_archives, total_size, header_size, create,
}
use buckytools.Whisper.Header.Layout.{new_whisper-Tiles}
use buckytools.Whisper.Header.RoundTrip.{FitsWords, open_file-new_whisper}
use buckytools.Whisper.Update.{
  get_base_interval, read_int, read_series, Floats, choose_archive, no_archive, update, stored,
}
use buckytools.Whisper.Update.Database.{IsDatabase}
use buckytools.Whisper.Update.Created.{IsSound, create-IsSound}
use buckytools.Whisper.Update.Place.{BaseAfter}
use buckytools.Whisper.Update.Lookup.{Found, update-Found}
use buckytools.Whisper.UpdateMany.{TimeSeriesPoint, update_many}
use buckytools.Whisper.UpdateMany.Total.{update_many-stored}
use buckytools.Whisper.Fetch.{fetch, series}
use buckytools.Whisper.Fetch.Stored.{chosen}
use buckytools.Whisper.Fetch.Updated.{fetch-update}
use buckytools.Whisper.Update.Database.{IsLongest}
use buckytools.Whisper.Fetch.Series.{slots, read_series-slots}

-- Five minutes by the minute, and twenty by five minutes.
abbrev minutes : Retention
minutes = record { seconds_per_point = 60; number_of_points = 5 }

abbrev five_minutes : Retention
five_minutes = record { seconds_per_point = 300; number_of_points = 4 }

abbrev retentions : List Retention
retentions = minutes ∷ (five_minutes ∷ [])

abbrev pub database : Whisper
database = new_whisper retentions 1 50

create_runs : create (five_minutes ∷ (minutes ∷ [])) 1 50 ≡ some database
unfolding create validate_retentions sort_retentions sort insert less validate_from validate_pair
    max_retention
create_runs = refl

validate_retentions_iff_example : (validate_retentions retentions ≡ none) ↔ IsWellFormed retentions
validate_retentions_iff_example = validate_retentions_iff retentions

retentions-IsWellFormed : IsWellFormed retentions
retentions-IsWellFormed = (
  record {
    precision = omega arith;
    divides = refl;
    longer = omega arith;
    consolidates = omega arith;
  },
  tt,
)

database-FitsWords : FitsWords database
unfolding new_whisper largest max_retention place_archives size
database-FitsWords = record {
  aggregation = omega arith;
  retention = omega arith;
  factor = omega arith;
  count = omega arith;
  infos_fit =
      ((omega arith, omega arith, omega arith), ((omega arith, omega arith, omega arith), tt));
}

open_file-new_whisper_example : open_file database.file ≡ database
open_file-new_whisper_example = open_file-new_whisper retentions 1 50 database-FitsWords

abbrev minute_archive : ArchiveInfo
minute_archive = record { retention = minutes; offset = 40 }

abbrev minute_archive-IsProper : IsProper minute_archive
minute_archive-IsProper = record { precise = omega arith; holds = omega arith }

point_offset-bounds_example :
    (i : ℕ) × (i < 5)
    × (point_offset minute_archive (pos 600) (pos 480) ≡ 40 + i * 12)
    × (point_offset minute_archive (pos 600) (pos 480) + 12 ≤ end_offset minute_archive)
point_offset-bounds_example =
    point_offset-bounds minute_archive (pos 600) (pos 480) minute_archive-IsProper

-- Whole numbers in place of floats, and a percentage in place of the quotient.
abbrev pub whole_numbers : Floats
whole_numbers = record {
  add = ◌+◌;
  div = ◌/◌;
  from_int = λ n. n;
  less = ltb;
  div32 = λ a b. a * 100 / b;
  from_int32 = λ n. n;
  less32 = ltb;
}

abbrev pub database-IsDatabase : IsDatabase database
unfolding new_whisper place_archives size largest max_retention
database-IsDatabase =
    let (len, tiles, same) = new_whisper-Tiles retentions 1 50 in
    record {
      method = record { positive = omega arith; small = omega arith };
      start = header_size database.archives;
      end = length database.file;
      tiles = tiles;
      end_le = omega arith;
      proper = (
        record { precise = omega arith; holds = omega arith },
        (record { precise = omega arith; holds = omega arith }, tt),
      );
      some_archive = λ e. absurd (omega (arith, e));
    }

database-Fits : Fits record {
  interval = align (choose_archive (pos 1000 -ℤ pos 950) no_archive database.archives).0 (pos 950);
  value = 7;
}
unfolding choose_archive align new_whisper place_archives size largest max_retention floor_mod
    floor_div scale ◌-ℤ◌
database-Fits = record {
  time = 900;
  interval_eq = refl;
  time_lt = omega arith;
  value_lt = omega arith;
}

update-Found_example :
    (g : FileData) × (update whole_numbers (pos 1000) database 7 (pos 950) ≡ stored g)
    × Found g (choose_archive (pos 1000 -ℤ pos 950) no_archive database.archives).0 record {
      interval =
          align (choose_archive (pos 1000 -ℤ pos 950) no_archive database.archives).0 (pos 950);
      value = 7;
    }
    × (length g ≡ length database.file)
    × BaseAfter database.file g
        (choose_archive (pos 1000 -ℤ pos 950) no_archive database.archives).0
        database-Fits.time
unfolding ◌-ℤ◌ new_whisper largest max_retention
update-Found_example =
    update-Found whole_numbers (pos 1000) database 7 (pos 950) database-IsDatabase refl refl
      database-Fits

read_series-slots_example : read_series database.file (40 + 3 * 12) (40 + 1 * 12) minute_archive ≡ (
    if ltb 3 1
    then slots database.file (40 + 3 * 12) (1 - 3)
    else slots database.file (40 + 3 * 12) (5 - 3) ++ slots database.file 40 1)
read_series-slots_example =
    read_series-slots database.file minute_archive 3 1 (omega arith) (omega arith)

abbrev chosen_archive : ArchiveInfo
chosen_archive = chosen (pos 1000) database (pos 950)

-- Nothing has been written to the archive yet.
chosen_archive-fresh : get_base_interval database.file chosen_archive ≡ some 0
unfolding get_base_interval read_int read_ok read_at unpack_int word_from new_whisper place_archives
    size largest max_retention choose_archive floor_mod floor_div scale ◌-ℤ◌ header header_size
    total_size add_sizes pack_archives pack_int pack_float32 splice put_word zero_fill
chosen_archive-fresh = refl

database-IsLongest : IsLongest database
unfolding new_whisper largest max_retention place_archives
database-IsLongest = (omega arith, (omega arith, tt))

-- The fetch is a hundred seconds later.
fetch-update_example :
    (g : FileData) × (update whole_numbers (pos 1000) database 7 (pos 950) ≡ stored g)
    × (fetch
          (pos 1100)
          (record database { file = g })
          (align chosen_archive (pos 950) -ℤ pos chosen_archive.seconds_per_point)
          (align chosen_archive (pos 950))
        ≡ series record {
          from_time = align chosen_archive (pos 950);
          until_time = align chosen_archive (pos 950) +ℤ pos chosen_archive.seconds_per_point;
          step = chosen_archive.seconds_per_point;
          values = 7 ∷ [];
        })
unfolding ◌-ℤ◌ new_whisper largest max_retention database-Fits choose_archive place_archives align
    floor_mod floor_div scale
fetch-update_example =
    fetch-update whole_numbers (pos 1000) (pos 1100) database 7 (pos 950) 15 database-IsDatabase
      database-IsLongest refl refl database-Fits refl (omega arith)
      (λ k e.
        let zero_first : k ≡ 0 = let both = sym e ∙ chosen_archive-fresh in cc in (0, zero_first))
      (omega arith) refl

-- Points of two archives, the older one first.
abbrev mixed_points : List TimeSeriesPoint
mixed_points = record { time = pos 300; value = 5 } ∷ (record { time = pos 950; value = 7 } ∷ [])

update_many-stored_example :
    (g : FileData) × (update_many (λ ps. ps) whole_numbers (pos 1000) database mixed_points
      ≡ stored g)
    × (length g ≡ length database.file)
    × ((o n : ℕ)
        → (o + n ≤ database-IsDatabase.start) ⊎ (database-IsDatabase.end ≤ o)
        → read_at g o n ≡ read_at database.file o n)
update_many-stored_example =
    update_many-stored (λ ps. ps) whole_numbers (pos 1000) database mixed_points database-IsDatabase

create-IsSound_example : IsSound database
create-IsSound_example =
    create-IsSound (five_minutes ∷ (minutes ∷ [])) 1 50 database
      record { positive = omega arith; small = omega arith }
      (
        record { precise = omega arith; holds = omega arith },
        (record { precise = omega arith; holds = omega arith }, tt),
      )
      create_runs
