-- ===== src/Bucky/Fetch.antt =====
-- cmd/bucky/list.go: the lists of metrics of all daemons, fetched with pauses while a daemon has none.
use buckytools.Prelude.{
  ℕ, zero, suc, ◌+◌, ◌-◌, ◌≡◌, refl, Bool, true, false, not, Option, none, some, List, [], ◌∷◌,
  arith, ◌==◌, if◌then◌else◌, length, get_elem?,
}
use buckytools.Prelude.Text.{Text}
use buckytools.Prelude.Dict.{Dict, insert}

-- What the daemon answers to an attempt: an error of the network, or a code and a list, where the JSON
-- could be read.
pub data Attempt : Type 0 where
  no_connection : Attempt
  response : ℕ → Option (List Text) → Attempt

-- The seconds between two attempts.
abbrev pub fib : List ℕ
fib = 0 ∷ (1 ∷ (1 ∷ (2 ∷ (3 ∷ (5 ∷ (8 ∷ (13 ∷ (21 ∷ (34 ∷ (55 ∷ []))))))))))

-- The pause at an index of the list, and the next index.
unfoldable pub pause : ℕ → ℕ × ℕ
pause i = elim (get_elem? fib i) [
  | some seconds ↦ (seconds, i + 1)
  | none ↦ elim (get_elem? fib (i - 1)) [ some seconds ↦ (seconds, i) | none ↦ (0, i) ]
]

-- `HTTPFetch` over the answers to its attempts: the answer that is none of 202, if there is no error,
-- and the pauses. `none` is that the answers come to an end before.
unfoldable pub http_fetch : ℕ → List Attempt → Option (Attempt × List ℕ)
unfolding pause
http_fetch i [] = none
http_fetch i (no_connection ∷ rest) = some (no_connection, [])
http_fetch i (response status body ∷ rest) =
    let (seconds, next) = pause i in
    let later = http_fetch next rest in
    if not (status == 202)
    then some (response status body, [])
    else elim later [ none ↦ none | some (a, pauses) ↦ some (a, seconds ∷ pauses) ]

-- `getMetricCache`: the list, or an error.
unfoldable pub get_metric_cache : Attempt → Option (List Text)
get_metric_cache no_connection = none
get_metric_cache (response status body) = if not (status == 200) then none else body

-- The merge of `multiplexListRequests`, with what has come so far and whether there was an error.
unfoldable pub merge_lists :
    Dict (List Text) → Bool → List (Text × Attempt) → Dict (List Text) × Bool
unfolding get_metric_cache
merge_lists results errors [] = (results, errors)
merge_lists results errors ((server, answer) ∷ answers) = elim (get_metric_cache answer) [
  | none ↦ merge_lists results true answers
  | some metrics ↦ merge_lists (insert server metrics results) errors answers
]

-- `multiplexListRequests`, of the answers in the order in which they come.
unfoldable pub multiplex_list_requests : List (Text × Attempt) → Dict (List Text) × Bool
unfolding merge_lists
multiplex_list_requests answers = merge_lists [] false answers

-- The answers to a daemon that is busy a number of times and then gives its list.
abbrev busy : ℕ → List Text → List Attempt
busy zero metrics = response 200 (some metrics) ∷ []
busy (suc n) metrics = response 202 none ∷ busy n metrics

-- A daemon that is busy any number of times is asked again until it answers.
http_fetch-busy :
    (n i : ℕ) (metrics : List Text)
    → (pauses : List ℕ) × (http_fetch i (busy n metrics)
        ≡ some (response 200 (some metrics), pauses))
      × (length pauses ≡ n)
unfolding http_fetch
http_fetch-busy zero i metrics = ([], refl, refl)
http_fetch-busy (suc n) i metrics =
    let (pauses, e, f) = http_fetch-busy n (pause i).1 metrics in
    ((pause i).0 ∷ pauses, rw e refl, omega (arith, f))
