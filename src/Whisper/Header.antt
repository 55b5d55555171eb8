-- ===== src/Whisper/Header.antt =====
-- The header of a file in whisper/whisper.go: Create, Open, writeHeader and the sizes.
pub mod Layout
pub mod RoundTrip
use buckytools.Prelude.{
  ℕ, zero, suc, ◌+◌, ◌-◌, ◌*◌, Option, none, some, List, [], ◌∷◌, ◌++◌, ltb, if◌then◌else◌, length,
  take, drop, replicate,
}
use buckytools.Prelude.Int.{pos}
use buckytools.Whisper.Bytes.{pack_int, pack_float32, unpack_int, unpack_float32, int_size}
use buckytools.Whisper.File.{FileData, read_at}
use buckytools.Whisper.Retention.{
  Retention, max_retention, size, sort_retentions, validate_retentions,
}
use buckytools.Whisper.Archive.{ArchiveInfo}

abbrev pub metadata_size : ℕ
metadata_size = 16

abbrev pub archive_info_size : ℕ
archive_info_size = 12

-- An open database: the file's bytes, and what the header says. The method of aggregation is its
-- number, the factor the bit pattern of a float32.
pub record Whisper : Type 0 where
  pub file : FileData
  pub aggregation_method : ℕ
  pub max_retention : ℕ
  pub x_files_factor : ℕ
  pub archives : List ArchiveInfo

-- `MetadataSize`.
unfoldable pub header_size : List ArchiveInfo → ℕ
header_size archives = metadata_size + archive_info_size * length archives

-- `Size`.
unfoldable pub add_sizes : ℕ → List ArchiveInfo → ℕ
add_sizes total [] = total
add_sizes total (a ∷ xs) = add_sizes (total + size a.retention) xs

unfoldable pub total_size : List ArchiveInfo → ℕ
unfolding add_sizes header_size
total_size archives = add_sizes (header_size archives) archives

-- The loop of `writeHeader` over the archives: the buffer, and the place in it.
unfoldable pub pack_archives : List ℕ → ℕ → List ArchiveInfo → List ℕ
pack_archives b i [] = b
pack_archives b i (a ∷ xs) =
    let b1 = pack_int b (pos a.offset) i in
    let b2 = pack_int b1 (pos a.seconds_per_point) (i + int_size) in
    let b3 = pack_int b2 (pos a.number_of_points) (i + int_size + int_size) in
    pack_archives b3 (i + int_size + int_size + int_size) xs

-- The buffer that `writeHeader` writes.
unfoldable pub header : ℕ → ℕ → ℕ → List ArchiveInfo → List ℕ
header aggregation_method retention x_files_factor archives =
    let b = replicate (header_size archives) 0 in
    let b1 = pack_int b (pos aggregation_method) 0 in
    let b2 = pack_int b1 (pos retention) 4 in
    let b3 = pack_float32 b2 x_files_factor 8 in
    let b4 = pack_int b3 (pos (length archives)) 12 in pack_archives b4 16 archives

-- The largest retention.
unfoldable pub largest : ℕ → List Retention → ℕ
largest m [] = m
largest m (r ∷ rs) = largest (if ltb m (max_retention r) then max_retention r else m) rs

-- The archives one after the other, from an offset on.
unfoldable pub place_archives : ℕ → List Retention → List ArchiveInfo
place_archives offset [] = []
place_archives offset (r ∷ rs) =
    record { retention = r; offset = offset } ∷ place_archives (offset + size r) rs

-- The zeros written in chunks of 16384 bytes, with fuel for the chunks.
unfoldable pub zero_fill : ℕ → ℕ → List ℕ
zero_fill zero remaining = replicate remaining 0
zero_fill (suc fuel) remaining =
    let rest = zero_fill fuel (remaining - 16384) in
    if ltb 16384 remaining then replicate 16384 0 ++ rest else replicate remaining 0

-- The database that `Create` makes of sorted retentions, and the bytes that it writes.
unfoldable pub new_whisper : List Retention → ℕ → ℕ → Whisper
new_whisper rs aggregation_method x_files_factor =
    let archives = place_archives (metadata_size + archive_info_size * length rs) rs in
    let retention = largest 0 rs in
    let remaining = total_size archives - header_size archives in
    record {
      file =
          header aggregation_method retention x_files_factor archives
          ++ zero_fill remaining remaining;
      aggregation_method = aggregation_method;
      max_retention = retention;
      x_files_factor = x_files_factor;
      archives = archives;
    }

-- `Create`, where the path is free and the file can be made and locked; `none` is an error of
-- `validateRetentions`.
unfoldable pub create : List Retention → ℕ → ℕ → Option Whisper
create retentions aggregation_method x_files_factor =
    let rs = sort_retentions retentions in
    elim (validate_retentions rs) [
      | some e ↦ none
      | none ↦ some (new_whisper rs aggregation_method x_files_factor)
    ]

unfoldable pub unpack_archive_info : List ℕ → ArchiveInfo
unpack_archive_info b = record {
  retention = record {
    seconds_per_point = unpack_int (take 4 (drop 4 b));
    number_of_points = unpack_int (take 4 (drop 8 b));
  };
  offset = unpack_int (take 4 b);
}

-- The loop of `Open` over the archives' bytes.
unfoldable pub unpack_archives : ℕ → ℕ → List ℕ → List ArchiveInfo
unpack_archives i zero b = []
unpack_archives i (suc left) b =
    unpack_archive_info (take archive_info_size (drop (i * archive_info_size) b))
    ∷ unpack_archives (i + 1) left b

-- `Open`, after the file is opened and locked.
unfoldable pub open_file : FileData → Whisper
open_file file =
    let b = read_at file 0 metadata_size in
    let archive_count = unpack_int (take 4 (drop 12 b)) in
    let infos = read_at file metadata_size (archive_info_size * archive_count) in
    record {
      file = file;
      aggregation_method = unpack_int (take 4 b);
      max_retention = unpack_int (take 4 (drop 4 b));
      x_files_factor = unpack_float32 (take 4 (drop 8 b));
      archives = unpack_archives 0 archive_count infos;
    }
