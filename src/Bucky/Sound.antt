-- ===== src/Bucky/Sound.antt =====
-- The jobs that a rebalance makes are moves of misplaced metrics to their places.
use buckytools.Prelude.{
  ◌≡◌, refl, sym, ap, ◌∙◌, ◌≢◌, ◌⊎◌, inl, inr, true, false, Option, none, some, List, [], ◌∷◌, ◌++◌,
  arith, Bool-cases, Option-cases, All, All-append,
}
use mathlib.Core.Path.{subst}
use buckytools.Prelude.Text.{Text, text_eq, text_eq_refl, text_lt}
use buckytools.Prelude.Strings.{has_prefix}
use buckytools.Prelude.Dict.{Dict}
use buckytools.Bucky.{Address, host_and_port, missing_port, malformed}
use buckytools.Bucky.Move.{MigrateWork}
use buckytools.Bucky.Inconsistent.{
  insert_sorted, sort_strings, agents, misplaced, Search, results, malformed_host, panics,
  add_server, inconsistent_metrics, server_jobs, rebalance_jobs,
}

-- A metric whose place is another host, and which is not one of carbon's own.
abbrev pub IsMisplaced : (Text → Option Text) → Text → Text → Type 0
IsMisplaced place host m =
    (has_prefix m agents ≡ false) × ((s : Text) × (place m ≡ some s) × (s ≢ host))

insert_sorted-All :
    (P : Text → Type 0) (x : Text) (xs : List Text) → P x → All P xs → All P (insert_sorted x xs)
unfolding insert_sorted
insert_sorted-All P x [] p h = (p, tt)
insert_sorted-All P x (y ∷ ys) p h = elim (Bool-cases (text_lt y x)) [
  | inl e ↦ rw e (h.0, insert_sorted-All P x ys p h.1)
  | inr e ↦ rw e (p, h)
]

pub sort_strings-All : (P : Text → Type 0) (xs : List Text) → All P xs → All P (sort_strings xs)
unfolding sort_strings
sort_strings-All P [] h = tt
sort_strings-All P (x ∷ xs) h =
    insert_sorted-All P x (sort_strings xs) h.0 (sort_strings-All P xs h.1)

differs : (s t : Text) → text_eq s t ≡ false → s ≢ t
differs s t h e =
    let same : text_eq s t ≡ true = ap (text_eq s) (sym e) ∙ text_eq_refl s in ground arith

misplaced-IsMisplaced :
    (place : Text → Option Text) (host : Text) (ms found : List Text)
    → misplaced place host ms ≡ some found
    → All (IsMisplaced place host) found
unfolding misplaced
misplaced-IsMisplaced place host [] [] h = tt
misplaced-IsMisplaced place host [] (f ∷ found) h = absurd (ground arith)
misplaced-IsMisplaced place host (m ∷ ms) found h = elim (Bool-cases (has_prefix m agents)) [
  | inl own ↦ misplaced-IsMisplaced place host ms found (ground arith)
  | inr other ↦ elim (Option-cases (place m)) [
    | inl lost ↦ absurd (ground arith)
    | inr (s, e) ↦ elim (Option-cases (misplaced place host ms)) [
      | inl lost ↦ absurd (ground arith)
      | inr (rest, f) ↦ elim (Bool-cases (text_eq s host)) [
        | inl here ↦
            let shape : rest ≡ found = ground arith in
            subst (All (IsMisplaced place host)) shape (misplaced-IsMisplaced place host ms rest f)
        | inr away ↦
            let shape : m ∷ rest ≡ found = ground arith in
            let apart : s ≢ host = λ eq. differs s host away eq in
            subst (All (IsMisplaced place host)) shape
              ((other, (s, e, apart)), misplaced-IsMisplaced place host ms rest f)
      ]
    ]
  ]
]

-- An entry of the result: a server, and metrics that are misplaced on its host.
abbrev IsEntry : (Text → Address) → (Text → Option Text) → Text × List Text → Type 0
IsEntry split place (server, ms) =
    (host : Text) × (port : Text) × (split server ≡ host_and_port host port)
    × All (IsMisplaced place host) ms

add_server-IsEntry :
    (split : Text → Address) (place : Text → Option Text) (server : Text) (o : Option (List Text))
    (rest : Search) (d : Dict (List Text))
    → ((ms : List Text) → o ≡ some ms → IsEntry split place (server, ms))
    → ((c : Dict (List Text)) → rest ≡ results c → All (IsEntry split place) c)
    → add_server server o rest ≡ results d
    → All (IsEntry split place) d
add_server-IsEntry split place server none rest d h k e = absurd cc
add_server-IsEntry split place server (some []) rest d h k e = k d e
add_server-IsEntry split place server (some (m ∷ ms)) (results c) d h k e =
    let (host, port, at_host, found) = h (m ∷ ms) refl in
    let entry : IsEntry split place (server, sort_strings (m ∷ ms)) =
      (host, port, at_host, sort_strings-All (IsMisplaced place host) (m ∷ ms) found) in
    let shape : (server, sort_strings (m ∷ ms)) ∷ c ≡ d = cc in
    subst (All (IsEntry split place)) shape (entry, k c refl)
add_server-IsEntry split place server (some (m ∷ ms)) malformed_host d h k e = absurd cc
add_server-IsEntry split place server (some (m ∷ ms)) panics d h k e = absurd cc

Address-cases :
    (a : Address)
    → ((host : Text) × (port : Text) × (a ≡ host_and_port host port))
      ⊎ ((a ≡ missing_port) ⊎ (a ≡ malformed))
Address-cases (host_and_port host port) = inl (host, port, refl)
Address-cases missing_port = inr (inl refl)
Address-cases malformed = inr (inr refl)

inconsistent_metrics-IsEntry :
    (split : Text → Address) (place : Text → Option Text) (list d : Dict (List Text))
    → inconsistent_metrics split place list ≡ results d
    → All (IsEntry split place) d
unfolding inconsistent_metrics
inconsistent_metrics-IsEntry split place [] [] e = tt
inconsistent_metrics-IsEntry split place [] (x ∷ d) e = absurd (ground arith)
inconsistent_metrics-IsEntry split place ((server, ms) ∷ list) d e =
    elim (Address-cases (split server)) [
      | inl (host, port, at_host) ↦
          let shape : add_server server (misplaced place host ms)
                (inconsistent_metrics split place list)
              ≡ results d =
            sym (rw (at_host, inconsistent_metrics) refl) ∙ e in
          add_server-IsEntry split place server (misplaced place host ms)
            (inconsistent_metrics split place list) d
            (λ found f. (host, port, at_host, misplaced-IsMisplaced place host ms found f))
            (λ c f. inconsistent_metrics-IsEntry split place list c f) shape
      | inr (inl bad) ↦ absurd (ground arith)
      | inr (inr bad) ↦ absurd (ground arith)
    ]

-- A move of a misplaced metric, under its name, to its place.
abbrev pub IsMove : (Text → Address) → (Text → Option Text) → MigrateWork → Type 0
IsMove split place w =
    (host : Text) × (port : Text) × (split w.old_location ≡ host_and_port host port)
    × (w.new_name ≡ w.old_name)
    × (has_prefix w.old_name agents ≡ false)
    × (place w.old_name ≡ some w.new_location)
    × (w.new_location ≢ host)

server_jobs-IsMove :
    (split : Text → Address) (place : Text → Option Text) (server host port : Text) (ms : List Text)
    (jobs : List MigrateWork)
    → split server ≡ host_and_port host port
    → All (IsMisplaced place host) ms
    → server_jobs place server ms ≡ some jobs
    → All (IsMove split place) jobs
unfolding server_jobs
server_jobs-IsMove split place server host port [] [] a h e = tt
server_jobs-IsMove split place server host port [] (j ∷ jobs) a h e = absurd (ground arith)
server_jobs-IsMove split place server host port (m ∷ ms) jobs a h e =
    let (carbon, (s, at_place, apart)) = h.0 in
    elim (Option-cases (server_jobs place server ms)) [
      | inl lost ↦ absurd (ground arith)
      | inr (rest, f) ↦
          let job : MigrateWork = record {
            old_name = m;
            new_name = m;
            old_location = server;
            new_location = s;
          } in
          let shape : job ∷ rest ≡ jobs = ground arith in
          subst (All (IsMove split place)) shape (
            (host, port, a, refl, carbon, at_place, apart),
            server_jobs-IsMove split place server host port ms rest a h.1 f,
          )
    ]

rebalance_jobs-IsMove :
    (split : Text → Address) (place : Text → Option Text) (d : Dict (List Text))
    (jobs : List MigrateWork)
    → All (IsEntry split place) d
    → rebalance_jobs place d ≡ some jobs
    → All (IsMove split place) jobs
unfolding rebalance_jobs
rebalance_jobs-IsMove split place [] [] h e = tt
rebalance_jobs-IsMove split place [] (j ∷ jobs) h e = absurd (ground arith)
rebalance_jobs-IsMove split place ((server, ms) ∷ d) jobs h e =
    let (host, port, a, found) = h.0 in
    elim (Option-cases (server_jobs place server ms)) [
      | inl lost ↦ absurd (ground arith)
      | inr (first, f) ↦ elim (Option-cases (rebalance_jobs place d)) [
        | inl lost ↦ absurd (ground arith)
        | inr (more, g) ↦
            let shape : first ++ more ≡ jobs = ground arith in
            subst (All (IsMove split place)) shape (
              All-append (IsMove split place) first more
                (server_jobs-IsMove split place server host port ms first a found f)
                (rebalance_jobs-IsMove split place d more h.1 g))
      ]
    ]

-- The jobs that a rebalance makes of what InconsistentMetrics finds move metrics, under the same name,
-- to the servers where the ring places them, which are not the hosts that they are on; the metrics that
-- carbon keeps of itself are not moved.
pub rebalance_jobs-inconsistent_metrics :
    (split : Text → Address) (place : Text → Option Text) (list d : Dict (List Text))
    (jobs : List MigrateWork)
    → inconsistent_metrics split place list ≡ results d
    → rebalance_jobs place d ≡ some jobs
    → All (IsMove split place) jobs
rebalance_jobs-inconsistent_metrics split place list d jobs e f =
    rebalance_jobs-IsMove split place d jobs (inconsistent_metrics-IsEntry split place list d e) f
