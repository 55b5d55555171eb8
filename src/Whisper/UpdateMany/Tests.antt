-- ===== src/Whisper/UpdateMany/Tests.antt =====
-- Runs of UpdateMany's parts at an archive of two points, and its theorems applied there.
use buckytools.Prelude.{ℕ, ◌≡◌, refl, none, some, List, [], ◌∷◌, ◌++◌, ◌<◌, ◌^◌, arith, All, length}
use buckytools.Prelude.Int.{ℤ, pos, ◌+ℤ◌, ◌-ℤ◌}
use buckytools.Whisper.Mod.{quotient, floor_mod, floor_div, scale}
use buckytools.Whisper.Bytes.{unpack_int, word_from, splice, pack_int, pack_float64, put_word}
use buckytools.Whisper.File.{FileData, read_ok, read_at, write_at}
use buckytools.Whisper.Retention.{size}
use buckytools.Whisper.Archive.{ArchiveInfo, IsProper, point_offset, end_offset, align}
use buckytools.Whisper.Point.{DataPoint, bytes, packed, length-packed}
use buckytools.Whisper.Update.{get_base_interval, read_int}
use buckytools.Whisper.UpdateMany.{
  TimeSeriesPoint, align_points, align_from, place_point, position_of, data_point, pack_from,
  pack_sequences, write_block, write_blocks, base_or_first, write_from, write_points,
  lower_archives, archive_update_many,
}
use buckytools.Whisper.UpdateMany.Written.{IsStorable}
use buckytools.Whisper.UpdateMany.Stored.{archive_update_many-Found}
use buckytools.Whisper.Header.{Whisper}
use buckytools.Whisper.Update.Regions.{InFile, Behind}
use buckytools.Whisper.Update.Lookup.{Found}
use buckytools.Whisper.Tests.{whole_numbers}
use buckytools.Whisper.UpdateMany.Aligned.{IsDistinct, value_at, last_at, align_points-last_at}
use buckytools.Whisper.UpdateMany.Blocks.{write_each, first_base, align_points-each}

abbrev archive : ArchiveInfo
archive = record { retention = record { seconds_per_point = 60; number_of_points = 2 }; offset = 0 }

abbrev archive-IsProper : IsProper archive
archive-IsProper = record { precise = omega arith; holds = omega arith }

abbrev point : ℕ → ℕ → TimeSeriesPoint
point t v = record { time = pos t; value = v }

abbrev stored_points : List DataPoint
stored_points =
    record { interval = pos 600; value = 7 } ∷ (record { interval = pos 660; value = 8 } ∷ [])

-- Two points of one interval, behind one of the interval before.
abbrev later_points : List TimeSeriesPoint
later_points = point 730 2 ∷ (point 760 3 ∷ [])

align_points_runs :
    align_points archive (point 700 1 ∷ later_points)
    ≡ record { interval = pos 660; value = 1 } ∷ (record { interval = pos 720; value = 3 } ∷ [])
unfolding align_points align_from place_point position_of data_point align floor_mod floor_div scale
    ◌-ℤ◌
align_points_runs = refl

-- The block of the two points is written around the archive's end.
write_points_runs :
    write_points (packed stored_points) archive (align_points archive (point 700 1 ∷ later_points))
    ≡ some (
        packed (
          record { interval = pos 720; value = 3 }
          ∷ (record { interval = pos 660; value = 1 } ∷ [])))
unfolding align_points align_from place_point position_of data_point align floor_mod floor_div scale
    ◌-ℤ◌ ◌+ℤ◌ write_points write_from write_blocks write_block base_or_first pack_sequences
    pack_from get_base_interval read_int read_ok read_at write_at unpack_int word_from bytes splice
    pack_int pack_float64 put_word point_offset quotient size end_offset
write_points_runs = refl

align_points-last_at_example :
    IsDistinct (align_points archive (point 700 1 ∷ later_points))
    × ((k : ℤ)
        → value_at k (align_points archive (point 700 1 ∷ later_points))
          ≡ last_at archive k (point 700 1 ∷ later_points) none)
align_points-last_at_example = align_points-last_at archive (point 700 1 ∷ later_points)

base_is_ten : get_base_interval (packed stored_points) archive ≡ some 600
unfolding get_base_interval read_int read_ok read_at unpack_int word_from bytes splice pack_int
    pack_float64 put_word
base_is_ten = refl

align_points-each_example :
    write_points (packed stored_points) archive (align_points archive (point 700 1 ∷ later_points))
    ≡ some (
        write_each archive
          (first_base 600 (align archive (pos 700)))
          (packed stored_points)
          (align_points archive (point 700 1 ∷ later_points)))
align_points-each_example =
    align_points-each (packed stored_points) archive 600 (point 700 1) later_points archive-IsProper
      base_is_ten refl

-- A database of the archive and one of two points for 120 seconds behind it.
abbrev database : Whisper
database = record {
  file = packed (stored_points ++ stored_points);
  aggregation_method = 1;
  max_retention = 240;
  x_files_factor = 50;
  archives =
      archive
      ∷ (record {
        retention = record { seconds_per_point = 120; number_of_points = 2 };
        offset = 24;
      }
          ∷ []);
}

database-InFile : InFile database.file archive
unfolding end_offset size
database-InFile = record {
  proper = archive-IsProper;
  end_le = let len = length-packed (stored_points ++ stored_points) in omega (arith, len);
}

database-Behind :
    All (Behind database.file (end_offset archive)) (lower_archives archive database.archives)
unfolding end_offset size lower_archives
database-Behind = (
  record {
    in_file = record {
      proper = record { precise = omega arith; holds = omega arith };
      end_le = let len = length-packed (stored_points ++ stored_points) in omega (arith, len);
    };
    starts = omega arith;
  },
  tt,
)

base_is_ten_there : get_base_interval database.file archive ≡ some 600
unfolding get_base_interval read_int read_ok read_at unpack_int word_from bytes splice pack_int
    pack_float64 put_word
base_is_ten_there = refl

points-IsStorable :
    All
      (λ u. IsStorable archive (pos 11) record { interval = align archive u.time; value = u.value })
      (point 700 1 ∷ later_points)
unfolding align floor_mod floor_div scale ◌-ℤ◌ ◌+ℤ◌
points-IsStorable = (
  storable 660 1 0 refl refl (omega arith) (omega arith) (omega arith) (omega arith),
  (
    storable 720 2 1 refl refl (omega arith) (omega arith) (omega arith) (omega arith),
    (storable 720 3 1 refl refl (omega arith) (omega arith) (omega arith) (omega arith), tt),
  ),
)
  where
    storable :
        (t v i : ℕ)
        → (pos t ≡ pos t)
        → (pos t ≡ scale (pos 11 +ℤ pos i) 60)
        → t < 2 ^ 32
        → v < 2 ^ 64
        → i < 2
        → 0 < t
        → IsStorable archive (pos 11) record { interval = pos t; value = v }
    storable t v i e w ht hv hi h = record {
      fits = record { time = t; interval_eq = refl; time_lt = ht; value_lt = hv };
      positive = h;
      within = (i, hi, w);
    }

-- The interval of two points is found with the value of the later one.
archive_update_many-Found_example :
    (g : FileData) × (archive_update_many whole_numbers database database.file archive
        (point 700 1 ∷ later_points)
      ≡ some g)
    × (length g ≡ length database.file)
    × ((z : ℤ) (v : ℕ)
        → last_at archive z (point 700 1 ∷ later_points) none ≡ some v
        → Found g archive record { interval = z; value = v })
archive_update_many-Found_example =
    archive_update_many-Found whole_numbers database database.file archive (pos 11) 600
      (point 700 1) later_points record { positive = omega arith; small = omega arith }
      database-InFile database-Behind base_is_ten_there refl points-IsStorable
