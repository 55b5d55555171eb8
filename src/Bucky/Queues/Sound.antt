-- ===== src/Bucky/Queues/Sound.antt =====
-- The work that bucky's commands make is for metrics that the servers have listed.
use mathlib.Core.Path.{subst}
use buckytools.Prelude.{
  ◌≡◌, refl, sym, ◌∙◌, inl, inr, Option, some, List, [], ◌∷◌, arith, Bool-cases, Option-cases, All,
  All-append, All-map,
}
use buckytools.Prelude.Text.{Text, text_eq, eq_of_text_eq, text_eq_refl}
use buckytools.Prelude.Dict.{Dict, lookup, insert, lookup-insert}
use buckytools.Bucky.Move.{MigrateWork}
use buckytools.Bucky.Name.{clean_metric}
use buckytools.Bucky.Workers.{DeleteWork}
use buckytools.Bucky.Inconsistent.{sort_strings}
use buckytools.Bucky.Listing.{all_metrics}
use buckytools.Bucky.Sound.{sort_strings-All}
use buckytools.Bucky.Queues.{
  add_metrics, servers_of, get_text, tar_work, multiplex_tar, backfill_jobs, backfill_metrics,
}

-- Something holds of each server and each metric of its list.
abbrev pub AllLists : (Text → Text → Type 0) → Dict (List Text) → Type 0
AllLists P [] = Unit
AllLists P ((server, metrics) ∷ d) = All (P server) metrics × AllLists P d

module _ (P : Text → Text → Type 0) where
  Holds : Text × Text → Type 0
  Holds e = P e.1 e.0

  insert-All :
      (m server : Text) (d : Dict Text) → P server m → All Holds d → All Holds (insert m server d)
  unfolding insert Holds
  insert-All m server [] p h = (p, tt)
  insert-All m server ((j, w) ∷ d) p h = elim (Bool-cases (text_eq j m)) [
    | inl same ↦ rw same ((p, h.1))
    | inr other ↦ rw other ((h.0, insert-All m server d p h.1))
  ]

  add_metrics-All :
      (ms : List Text) (server : Text) (d : Dict Text)
      → All (P server) ms
      → All Holds d
      → All Holds (add_metrics server ms d)
  unfolding add_metrics
  add_metrics-All [] server d p h = h
  add_metrics-All (m ∷ ms) server d p h =
      add_metrics-All ms server (insert m server d) p.1 (insert-All m server d p.0 h)

  servers_of-All :
      (lists : Dict (List Text)) (d : Dict Text)
      → AllLists P lists
      → All Holds d
      → All Holds (servers_of lists d)
  unfolding servers_of
  servers_of-All [] d p h = h
  servers_of-All ((server, ms) ∷ lists) d p h =
      servers_of-All lists (add_metrics server ms d) p.1 (add_metrics-All ms server d p.0 h)

  lookup-All :
      (m server : Text) (d : Dict Text) → All Holds d → lookup m d ≡ some server → P server m
  unfolding lookup Holds
  lookup-All m server [] h e = absurd (ground arith)
  lookup-All m server ((j, w) ∷ d) h e = elim (Bool-cases (text_eq j m)) [
    | inl same ↦
        let found : w ≡ server = ground (arith, same) in
        subst (λ s. P s m) found (subst (P w) (eq_of_text_eq j m same) h.0)
    | inr other ↦ lookup-All m server d h.1 (ground (arith, other))
  ]

-- The metrics that have a server.
abbrev Has : Dict Text → Text → Type 0
Has d m = (server : Text) × (lookup m d ≡ some server)

insert-Has : (k server m : Text) (d : Dict Text) → Has d m → Has (insert k server d) m
insert-Has k server m d (s, e) = elim (Bool-cases (text_eq k m)) [
  | inl same ↦ (server, lookup-insert k m server d ∙ rw same refl)
  | inr other ↦ (s, lookup-insert k m server d ∙ rw other e)
]

add_metrics-Has :
    (ms : List Text) (server m : Text) (d : Dict Text) → Has d m → Has (add_metrics server ms d) m
unfolding add_metrics
add_metrics-Has [] server m d h = h
add_metrics-Has (k ∷ ms) server m d h =
    add_metrics-Has ms server m (insert k server d) (insert-Has k server m d h)

add_metrics_own :
    (ms : List Text) (server : Text) (d : Dict Text) → All (Has (add_metrics server ms d)) ms
unfolding add_metrics
add_metrics_own [] server d = tt
add_metrics_own (m ∷ ms) server d = (
  add_metrics-Has ms server m (insert m server d)
      (server, lookup-insert m m server d ∙ rw (text_eq_refl m) refl),
  add_metrics_own ms server (insert m server d),
)

servers_of-Has :
    (lists : Dict (List Text)) (m : Text) (d : Dict Text) → Has d m → Has (servers_of lists d) m
unfolding servers_of
servers_of-Has [] m d h = h
servers_of-Has ((server, ms) ∷ lists) m d h =
    servers_of-Has lists m (add_metrics server ms d) (add_metrics-Has ms server m d h)

servers_of-all_metrics :
    (lists : Dict (List Text)) (d : Dict Text) → All (Has (servers_of lists d)) (all_metrics lists)
unfolding servers_of all_metrics
servers_of-all_metrics [] d = tt
servers_of-all_metrics ((server, ms) ∷ lists) d =
    All-append _ ms (all_metrics lists)
      (All-map (Has (add_metrics server ms d)) _ ms
        (λ m h. servers_of-Has lists m (add_metrics server ms d) h) (add_metrics_own ms server d))
      (servers_of-all_metrics lists (add_metrics server ms d))

tar_work-All :
    (P : Text → Text → Type 0) (servers : Dict Text) (ms : List Text)
    → All (Holds P) servers
    → All (Has servers) ms
    → All (λ (w : DeleteWork). P w.server w.name) (tar_work servers ms)
unfolding tar_work get_text
tar_work-All P servers [] h has = tt
tar_work-All P servers (m ∷ ms) h ((s, e), has) =
    (rw (e, get_text) (lookup-All P m s servers h e), tar_work-All P servers ms h has)

-- What holds of each server and each metric of its list holds of every piece of work that multiplexTar
-- feeds in: a metric is asked of a server that has listed it.
multiplex_tar-AllLists :
    (P : Text → Text → Type 0) (lists : Dict (List Text))
    → AllLists P lists
    → All (λ (w : DeleteWork). P w.server w.name) (multiplex_tar lists)
unfolding multiplex_tar
multiplex_tar-AllLists P lists h =
    tar_work-All P (servers_of lists []) (sort_strings (all_metrics lists))
      (servers_of-All P lists [] h tt)
      (sort_strings-All _ (all_metrics lists) (servers_of-all_metrics lists []))

-- A job of a backfill: from a server that has the metric to the place of its clean new name.
abbrev pub IsBackfill :
    (Text → Text → Type 0) → (Text → Option Text) → Dict Text → MigrateWork → Type 0
IsBackfill P place metric_map w =
    P w.old_location w.old_name
    × (w.new_name ≡ clean_metric (get_text w.old_name metric_map))
    × (place w.new_name ≡ some w.new_location)

backfill_jobs-IsBackfill :
    (P : Text → Text → Type 0) (place : Text → Option Text) (metric_map jobs : Dict Text)
    (works : List MigrateWork)
    → All (Holds P) jobs
    → backfill_jobs place metric_map jobs ≡ some works
    → All (IsBackfill P place metric_map) works
unfolding backfill_jobs Holds
backfill_jobs-IsBackfill P place metric_map [] works h e =
    let none_left : works ≡ [] = ground arith in
    subst (All (IsBackfill P place metric_map)) (sym none_left) tt
backfill_jobs-IsBackfill P place metric_map ((m, server) ∷ jobs) works h e =
    let new_name = clean_metric (get_text m metric_map) in
    elim (Option-cases (place new_name)) [
      | inl nowhere ↦ absurd (ground arith)
      | inr (location, f) ↦ elim (Option-cases (backfill_jobs place metric_map jobs)) [
        | inl bad ↦ absurd (ground arith)
        | inr (more, g) ↦
            let work : MigrateWork = record {
              old_name = m;
              new_name = new_name;
              old_location = server;
              new_location = location;
            } in
            let shown : works ≡ work ∷ more = ground (arith, f, g) in
            subst (All (IsBackfill P place metric_map)) (sym shown)
              ((h.0, refl, f), backfill_jobs-IsBackfill P place metric_map jobs more h.1 g)
      ]
    ]

-- What holds of each server and each metric of its list holds of the old location and the old name of
-- every job that BackfillMetrics makes. The job's new name is the clean form of the name that the map
-- gives the old one, and its new location is the new name's place on the ring.
pub backfill_metrics-IsBackfill :
    (P : Text → Text → Type 0) (place : Text → Option Text) (metric_map : Dict Text)
    (lists : Dict (List Text)) (works : List MigrateWork)
    → AllLists P lists
    → backfill_metrics place metric_map lists ≡ some works
    → All (IsBackfill P place metric_map) works
unfolding backfill_metrics
backfill_metrics-IsBackfill P place metric_map lists works h e =
    backfill_jobs-IsBackfill P place metric_map (servers_of lists []) works
      (servers_of-All P lists [] h tt) e
