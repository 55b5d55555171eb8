-- ===== src/Bucky/Commands.antt =====
-- The commands delete, du, stat, tar and backfill of bucky (cmd/bucky/delete.go, du.go, stat.go, tar.go,
-- backfill.go), from the lists that the daemons give to the code that is returned. Each has one worker
-- at a time; progress and reports are left out.
use buckytools.Prelude.{
  ℕ, suc, ◌≡◌, inl, inr, Bool, true, false, ◌&&◌, ◌||◌, not, Option, none, some, List, [], ◌∷◌,
  ◌++◌, arith, ◌==◌, if◌then◌else◌, Bool-cases, length, All, All-append,
}
use buckytools.Prelude.Text.{Text, codes, text_eq}
use buckytools.Prelude.Dict.{Dict}
use buckytools.Whisper.File.{FileData}
use buckytools.Metrics.{MetricData}
use buckytools.Bucky.{Net, World}
use buckytools.Bucky.Move.{MigrateWork, backfill_worker}
use buckytools.Bucky.Workers.{DeleteWork, delete_worker, du_worker}
use buckytools.Bucky.Listing.{MetricListRequest, choose_requests}
use buckytools.Bucky.Queues.Sound.{AllLists}
use buckytools.Bucky.Queues.{
  TarEntry, multiplex_tar, get_metric_worker, write_tar, queue, server_work, stat_worker,
  backfill_metrics,
}

-- `posString`; `none` is -1.
unfoldable pub pos_string : List Text → Text → Option ℕ
pos_string [] element = none
pos_string (elem ∷ slice) element =
    let rest = pos_string slice element in
    if text_eq elem element then some 0 else elim rest [ none ↦ none | some i ↦ some (suc i) ]

-- `containsString`.
unfoldable pub contains_string : List Text → Text → Bool
contains_string slice element = elim (pos_string slice element) [ none ↦ false | some i ↦ true ]

abbrev okay_responses : List Text
okay_responses = codes "y" ∷ (codes "Y" ∷ (codes "yes" ∷ (codes "Yes" ∷ (codes "YES" ∷ []))))

abbrev nokay_responses : List Text
nokay_responses = codes "n" ∷ (codes "N" ∷ (codes "no" ∷ (codes "No" ∷ (codes "NO" ∷ []))))

-- `askForConfirmation` of the lines typed, without the space around them. The end of the lines is an
-- error of the console, which counts as no.
unfoldable pub ask_for_confirmation : List Text → Bool
ask_for_confirmation [] = false
ask_for_confirmation (response ∷ rest) =
    let again = ask_for_confirmation rest in
    if contains_string okay_responses response
    then true
    else if contains_string nokay_responses response
    then false
    else again

-- The requests of a command that wants an argument; `none` is the end of the program or an error of the
-- JSON.
unfoldable pub selected_requests :
    (List Text → Text)
    → List Text
    → Bool
    → List Text
    → Option (List Text)
    → Bool
    → Option (List MetricListRequest)
selected_requests marshal servers regex_mode [] input force = none
selected_requests marshal servers regex_mode (arg ∷ args) input force =
    choose_requests marshal servers regex_mode (arg ∷ args) input force

-- The work of `deleteMetrics`: that of the servers for which it is forced or confirmed, by the lines
-- typed for a server.
unfoldable pub delete_queue : Bool → (Text → List Text) → Dict (List Text) → List DeleteWork
delete_queue force typed [] = []
delete_queue force typed ((server, metrics) ∷ d) =
    let rest = delete_queue force typed d in
    if length metrics == 0
    then rest
    else if not force && not (ask_for_confirmation (typed server))
    then rest
    else server_work server metrics ++ rest

-- `deleteMetrics` of the lists, or an error of the requests; the Boolean is whether an error is returned.
unfoldable pub delete_metrics :
    Net → Bool → (Text → List Text) → World → Dict (List Text) × Bool → World × Bool
delete_metrics net force typed world (lists, true) = (world, true)
delete_metrics net force typed world (lists, false) =
    delete_worker net world (delete_queue force typed lists) false

-- `duMetrics`: the bytes of all metrics.
unfoldable pub du_metrics : Net → World → Dict (List Text) × Bool → World × ℕ × Bool
du_metrics net world (lists, true) = (world, 0, true)
du_metrics net world (lists, false) = du_worker net world (queue lists) 0 false

-- `statMetrics`: what is known of all metrics.
unfoldable pub stat_metrics : Net → World → Dict (List Text) × Bool → World × List MetricData × Bool
stat_metrics net world (lists, true) = (world, [], true)
stat_metrics net world (lists, false) = stat_worker net world (queue lists) false

-- `multiplexTar`: the files of the archive, where the writer does not end the program.
unfoldable pub tar_metrics :
    Net
    → (FileData → Option FileData)
    → World
    → Dict (List Text) × Bool
    → World × Option (List TarEntry) × Bool
tar_metrics net decompress world (lists, true) = (world, none, true)
tar_metrics net decompress world (lists, false) =
    let (after, found, errors) =
      get_metric_worker net decompress world (multiplex_tar lists) false in
    (after, write_tar found, errors)

unfoldable pub run_jobs : Net → World → Option (List MigrateWork) → Option (World × Bool)
run_jobs net world none = none
run_jobs net world (some works) = some (backfill_worker net world works false)

-- `BackfillMetrics`; `none` is a panic. A cluster without members is not healthy.
unfoldable pub run_backfill :
    Net
    → (Text → Option Text)
    → Bool
    → Dict Text
    → World
    → Dict (List Text) × Bool
    → Option (World × Bool)
run_backfill net place healthy metric_map world (lists, errors) =
    if not healthy || errors
    then some (world, true)
    else run_jobs net world (backfill_metrics place metric_map lists)

-- The code that a command returns.
unfoldable pub exit_code : Bool → ℕ
exit_code errors = if errors then 1 else 0

-- A piece of work for a server at which the deletion is forced or confirmed.
abbrev IsConfirmed : Bool → (Text → List Text) → DeleteWork → Type 0
IsConfirmed force typed w = (force || ask_for_confirmation (typed w.server)) ≡ true

server_work-All :
    (P : Text → Text → Type 0) (force : Bool) (typed : Text → List Text) (server : Text)
    (ms : List Text)
    → (force || ask_for_confirmation (typed server)) ≡ true
    → All (P server) ms
    → All
        (λ (w : DeleteWork). P w.server w.name × IsConfirmed force typed w)
        (server_work server ms)
unfolding server_work
server_work-All P force typed server [] c h = tt
server_work-All P force typed server (m ∷ ms) c h =
    ((h.0, c), server_work-All P force typed server ms c h.1)

-- What holds of each server and each metric of its list holds of every piece of work of deleteMetrics,
-- and the deletion is forced or confirmed for the work's server.
delete_queue-IsConfirmed :
    (P : Text → Text → Type 0) (force : Bool) (typed : Text → List Text) (lists : Dict (List Text))
    → AllLists P lists
    → All
        (λ (w : DeleteWork). P w.server w.name × IsConfirmed force typed w)
        (delete_queue force typed lists)
unfolding delete_queue
delete_queue-IsConfirmed P force typed [] h = tt
delete_queue-IsConfirmed P force typed ((server, metrics) ∷ d) h =
    let rest = delete_queue-IsConfirmed P force typed d h.1 in
    elim (Bool-cases (length metrics == 0)) [
      | inl empty ↦ rw (empty, delete_queue) rest
      | inr some_metric ↦
          elim (Bool-cases (not force && not (ask_for_confirmation (typed server)))) [
            | inl refused ↦ rw (some_metric, refused, delete_queue) rest
            | inr confirmed ↦
                let sure : (force || ask_for_confirmation (typed server)) ≡ true =
                  ground (arith, confirmed) in
                rw (some_metric, confirmed, delete_queue)
                  (All-append _ (server_work server metrics) (delete_queue force typed d)
                    (server_work-All P force typed server metrics sure h.0) rest)
          ]
    ]
