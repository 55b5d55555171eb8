-- ===== src/Bucky/Queues.antt =====
-- The work that bucky's commands make of the lists of all servers: the archive of cmd/bucky/tar.go, the
-- jobs of cmd/bucky/backfill.go, the queues of cmd/bucky/stat.go, delete.go and du.go, and their workers.
-- A Go map is gone through in the order of the dictionary.
pub mod Sound
mod Tests
use buckytools.Prelude.{
  ℕ, Bool, true, not, Option, none, some, List, [], ◌∷◌, ◌++◌, ◌==◌, if◌then◌else◌, length,
}
use buckytools.Prelude.Text.{Text}
use buckytools.Prelude.Dict.{Dict, lookup, insert}
use buckytools.Whisper.File.{FileData}
use buckytools.Metrics.{MetricData, metric_to_relative}
use buckytools.Bucky.{Net, World, get_metric_data, metric_decode, stat_remote_metric}
use buckytools.Bucky.Name.{clean_metric}
use buckytools.Bucky.Move.{MigrateWork}
use buckytools.Bucky.Workers.{DeleteWork}
use buckytools.Bucky.Inconsistent.{sort_strings}
use buckytools.Bucky.Listing.{all_metrics}

-- The map from the metrics to their servers: the last server that has a metric counts.
unfoldable pub add_metrics : Text → List Text → Dict Text → Dict Text
add_metrics server [] servers = servers
add_metrics server (m ∷ ms) servers = add_metrics server ms (insert m server servers)

unfoldable pub servers_of : Dict (List Text) → Dict Text → Dict Text
servers_of [] servers = servers
servers_of ((server, metrics) ∷ d) servers = servers_of d (add_metrics server metrics servers)

-- A Go map gives the empty string for a missing key.
unfoldable pub get_text : Text → Dict Text → Text
get_text k d = elim (lookup k d) [ none ↦ [] | some v ↦ v ]

-- The work of `multiplexTar`: a `MetricWork` has the fields of a `DeleteWork`.
unfoldable pub tar_work : Dict Text → List Text → List DeleteWork
tar_work servers [] = []
tar_work servers (m ∷ ms) = record { server = get_text m servers; name = m } ∷ tar_work servers ms

-- The work that `multiplexTar` feeds in: the names of all lists, sorted, each with its server.
unfoldable pub multiplex_tar : Dict (List Text) → List DeleteWork
multiplex_tar metric_map =
    tar_work (servers_of metric_map []) (sort_strings (all_metrics metric_map))

-- `getMetricWorker`: the metrics for the archive, with their bytes decoded, and `workerErrors`.
unfoldable pub get_metric_worker :
    Net
    → (FileData → Option FileData)
    → World
    → List DeleteWork
    → Bool
    → World × List (MetricData × FileData) × Bool
get_metric_worker net decompress world [] errors = (world, [], errors)
get_metric_worker net decompress world (w ∷ rest) errors =
    let (after, metric) = get_metric_data net world w.server w.name in
    let bytes : Option FileData = elim metric [
      | none ↦ none
      | some m ↦ metric_decode decompress m
    ] in
    let (last, found, bad) =
      get_metric_worker net decompress after rest (elim bytes [ none ↦ true | some b ↦ errors ]) in
    elim metric [
      | none ↦ (last, found, bad)
      | some m ↦ elim bytes [ none ↦ (last, found, bad) | some b ↦ (last, (m, b) ∷ found, bad) ]
    ]

-- A file of the archive.
pub record TarEntry : Type 0 where
  pub name : Text
  pub size : ℕ
  pub mode : ℕ
  pub mod_time : ℕ
  pub content : FileData

unfoldable pub tar_entry : MetricData → FileData → TarEntry
tar_entry m bytes = record {
  name = metric_to_relative m.name;
  size = m.size;
  mode = m.mode;
  mod_time = m.mod_time;
  content = bytes;
}

-- The files that `writeTar` writes of decoded metrics. `none` is the end of the program, since a file's
-- bytes have to be as many as its header says.
unfoldable pub write_tar : List (MetricData × FileData) → Option (List TarEntry)
write_tar [] = some []
write_tar ((m, bytes) ∷ rest) =
    let entries = write_tar rest in
    if not (length bytes == m.size)
    then none
    else elim entries [ none ↦ none | some l ↦ some (tar_entry m bytes ∷ l) ]

-- The jobs of `BackfillMetrics` for the metrics that were found at a server; `none` is the panic of a
-- ring without nodes.
unfoldable pub backfill_jobs :
    (Text → Option Text) → Dict Text → Dict Text → Option (List MigrateWork)
backfill_jobs place metric_map [] = some []
backfill_jobs place metric_map ((m, server) ∷ jobs) =
    let rest = backfill_jobs place metric_map jobs in
    let new_name = clean_metric (get_text m metric_map) in
    elim (place new_name) [
      | none ↦ none
      | some location ↦ elim rest [
        | none ↦ none
        | some works ↦ some (
            record {
              old_name = m;
              new_name = new_name;
              old_location = server;
              new_location = location;
            }
            ∷ works)
      ]
    ]

unfoldable pub backfill_metrics :
    (Text → Option Text) → Dict Text → Dict (List Text) → Option (List MigrateWork)
backfill_metrics place metric_map locations =
    backfill_jobs place metric_map (servers_of locations [])

unfoldable pub server_work : Text → List Text → List DeleteWork
server_work server [] = []
server_work server (m ∷ ms) = record { server = server; name = m } ∷ server_work server ms

-- The work that `statMetrics`, `deleteMetrics` and `duMetrics` feed in.
unfoldable pub queue : Dict (List Text) → List DeleteWork
queue [] = []
queue ((server, metrics) ∷ d) = server_work server metrics ++ queue d

-- `statWorker`: the answers, and `workerErrors`.
unfoldable pub stat_worker : Net → World → List DeleteWork → Bool → World × List MetricData × Bool
stat_worker net world [] errors = (world, [], errors)
stat_worker net world (work ∷ rest) errors =
    let (after, stat) = stat_remote_metric net world work.server work.name in
    let (last, stats, bad) =
      stat_worker net after rest (elim stat [ none ↦ true | some s ↦ errors ]) in
    elim stat [ none ↦ (last, stats, bad) | some s ↦ (last, s ∷ stats, bad) ]
