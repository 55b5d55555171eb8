-- ===== src/Bucky/Queues/Tests.antt =====
-- The work for two servers, of which both have the metric b, and the theorems applied there.
use buckytools.Prelude.{◌≡◌, refl, true, false, some, List, [], ◌∷◌, if◌then◌else◌, All}
use buckytools.Prelude.Text.{Text, codes, text_eq, text_lt}
use buckytools.Prelude.Strings.{contains, has_prefix, replace_byte}
use buckytools.Prelude.Dict.{Dict, lookup, insert}
use buckytools.Metrics.{listed}
use buckytools.Bucky.Name.{clean_metric, clean_loop, replace_pairs, is_pair}
use buckytools.Bucky.Move.{MigrateWork}
use buckytools.Bucky.Inconsistent.{sort_strings, insert_sorted}
use buckytools.Bucky.Listing.{all_metrics}
use buckytools.Bucky.Queues.{
  add_metrics, servers_of, get_text, tar_work, multiplex_tar, backfill_jobs, backfill_metrics,
  server_work,
}
use buckytools.Bucky.Commands.{pos_string, contains_string, ask_for_confirmation, delete_queue}
use buckytools.Bucky.Queues.Sound.{AllLists, IsBackfill, backfill_metrics-IsBackfill}

abbrev lists : Dict (List Text)
lists = (codes "h", codes "b" ∷ (codes "a" ∷ [])) ∷ ((codes "i", codes "b" ∷ []) ∷ [])

-- The metrics of each of the two servers.
abbrev HasMetric : Text → Text → Type 0
HasMetric server m =
    (if text_eq server (codes "h")
      then listed (codes "b" ∷ (codes "a" ∷ [])) m
      else listed (codes "b" ∷ []) m)
    ≡ true

lists-AllLists : AllLists HasMetric lists
unfolding listed text_eq
lists-AllLists = ((refl, (refl, tt)), ((refl, tt), tt))

-- The metric of both servers is asked of the second one twice.
multiplex_tar_runs :
    multiplex_tar lists
    ≡ record { server = codes "h"; name = codes "a" }
      ∷ (record { server = codes "i"; name = codes "b" }
          ∷ (record { server = codes "i"; name = codes "b" } ∷ []))
unfolding multiplex_tar tar_work servers_of add_metrics get_text sort_strings insert_sorted text_lt
    all_metrics lookup insert text_eq
multiplex_tar_runs = refl

abbrev new_names : Dict Text
new_names = (codes "a", codes "x..y") ∷ ((codes "b", codes "z") ∷ [])

abbrev works : List MigrateWork
works =
    record {
      old_name = codes "b";
      new_name = codes "z";
      old_location = codes "i";
      new_location = codes "k";
    }
    ∷ (record {
      old_name = codes "a";
      new_name = codes "x.y";
      old_location = codes "h";
      new_location = codes "k";
    }
        ∷ [])

backfill_runs : backfill_metrics (λ m. some (codes "k")) new_names lists ≡ some works
unfolding backfill_metrics backfill_jobs servers_of add_metrics get_text lookup insert text_eq
    clean_metric clean_loop replace_pairs is_pair contains has_prefix replace_byte
backfill_runs = refl

backfill_metrics-IsBackfill_example :
    All (IsBackfill HasMetric (λ m. some (codes "k")) new_names) works
backfill_metrics-IsBackfill_example =
    backfill_metrics-IsBackfill HasMetric (λ m. some (codes "k")) new_names lists works
      lists-AllLists backfill_runs

-- Only the first server is confirmed, at the second answer.
abbrev answers_for : Text → List Text
answers_for server =
    if text_eq server (codes "h") then codes "what" ∷ (codes "yes" ∷ []) else codes "n" ∷ []

delete_queue_runs :
    delete_queue false answers_for lists
    ≡ record { server = codes "h"; name = codes "b" }
      ∷ (record { server = codes "h"; name = codes "a" } ∷ [])
unfolding delete_queue server_work ask_for_confirmation contains_string pos_string text_eq
delete_queue_runs = refl
