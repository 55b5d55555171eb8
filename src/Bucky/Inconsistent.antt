-- ===== src/Bucky/Inconsistent.antt =====
-- cmd/bucky/inconsistent.go and the jobs of cmd/bucky/rebalance.go: the metrics that are not where the
-- ring places them, and the moves that put this right. `place` is the server of the ring's node for a
-- metric, `Cluster.Hash.GetNode(m).Server`; `none` is a panic. The source goes through its maps in no
-- order; here they have one.
use buckytools.Prelude.{ℕ, ◌+◌, Option, none, some, List, [], ◌∷◌, ◌++◌, if◌then◌else◌, length}
use buckytools.Prelude.Text.{Text, codes, text_eq, text_lt}
use buckytools.Prelude.Strings.{has_prefix}
use buckytools.Prelude.Dict.{Dict}
use buckytools.Bucky.{Address, host_and_port, missing_port, malformed}
use buckytools.Bucky.Move.{MigrateWork}

-- `sort.Strings`.
unfoldable pub insert_sorted : Text → List Text → List Text
insert_sorted x [] = x ∷ []
insert_sorted x (y ∷ ys) =
    let later = insert_sorted x ys in if text_lt y x then y ∷ later else x ∷ (y ∷ ys)

unfoldable pub sort_strings : List Text → List Text
unfolding insert_sorted
sort_strings [] = []
sort_strings (x ∷ xs) = insert_sorted x (sort_strings xs)

abbrev pub agents : Text
agents = codes "carbon.agents."

-- The loop over the metrics of a server.
unfoldable pub misplaced : (Text → Option Text) → Text → List Text → Option (List Text)
unfolding has_prefix
misplaced place host [] = some []
misplaced place host (m ∷ ms) =
    let rest = misplaced place host ms in
    if has_prefix m agents then rest else elim (place m) [
      | none ↦ none
      | some server ↦ elim rest [
        | none ↦ none
        | some found ↦ some (if text_eq server host then found else m ∷ found)
      ]
    ]

-- What `InconsistentMetrics` comes to.
pub data Search : Type 0 where
  results : Dict (List Text) → Search
  malformed_host panics : Search

-- What is found on a server, before what is found on others: a server with nothing has no entry.
abbrev pub add_server : Text → Option (List Text) → Search → Search
add_server server none rest = panics
add_server server (some []) rest = rest
add_server server (some (m ∷ ms)) (results d) = results ((server, sort_strings (m ∷ ms)) ∷ d)
add_server server (some (m ∷ ms)) malformed_host = malformed_host
add_server server (some (m ∷ ms)) panics = panics

-- `InconsistentMetrics`, for the lists of all servers; `split` is net.SplitHostPort.
unfoldable pub inconsistent_metrics :
    (Text → Address) → (Text → Option Text) → Dict (List Text) → Search
unfolding misplaced sort_strings
inconsistent_metrics split place [] = results []
inconsistent_metrics split place ((server, metrics) ∷ list) =
    let rest = inconsistent_metrics split place list in
    elim (split server) [
      | host_and_port host port ↦ add_server server (misplaced place host metrics) rest
      | missing_port ↦ malformed_host
      | malformed ↦ malformed_host
    ]

-- `countMap`.
unfoldable pub count_map : Dict (List Text) → ℕ
count_map [] = 0
count_map ((server, metrics) ∷ d) = length metrics + count_map d

-- The jobs for the metrics of a server.
unfoldable pub server_jobs : (Text → Option Text) → Text → List Text → Option (List MigrateWork)
server_jobs place server [] = some []
server_jobs place server (m ∷ ms) =
    let rest = server_jobs place server ms in
    elim (place m) [
      | none ↦ none
      | some target ↦ elim rest [
        | none ↦ none
        | some jobs ↦ some (
            record { old_name = m; new_name = m; old_location = server; new_location = target }
            ∷ jobs)
      ]
    ]

-- The jobs of `RebalanceMetrics`.
unfoldable pub rebalance_jobs : (Text → Option Text) → Dict (List Text) → Option (List MigrateWork)
unfolding server_jobs
rebalance_jobs place [] = some []
rebalance_jobs place ((server, metrics) ∷ d) =
    let rest = rebalance_jobs place d in
    elim (server_jobs place server metrics) [
      | none ↦ none
      | some jobs ↦ elim rest [ none ↦ none | some more ↦ some (jobs ++ more) ]
    ]

-- `LocateSliceMetrics`, for a healthy cluster.
unfoldable pub locate_slice_metrics : (Text → Option Text) → List Text → Option (Dict Text)
locate_slice_metrics place [] = some []
locate_slice_metrics place (key ∷ keys) =
    let rest = locate_slice_metrics place keys in
    elim (place key) [
      | none ↦ none
      | some server ↦ elim rest [ none ↦ none | some located ↦ some ((key, server) ∷ located) ]
    ]
