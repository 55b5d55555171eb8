-- ===== src/Buckyd/Inventory.antt =====
-- listMetrics of cmd/buckyd/metrics.go: the list of the store's metrics, from the cache. Between the
-- start of a forced refresh and the look at the cache other goroutines may have changed it.
use buckytools.Prelude.{
  ℕ, ◌+◌, ◌*◌, ◌^◌, ◌≡◌, refl, Bool, true, false, ◌&&◌, ◌||◌, not, Option, none, some, List, [],
  ◌∷◌, leb, ◌==◌, if◌then◌else◌, length, filter,
}
use buckytools.Prelude.Text.{Text}
use buckytools.Metrics.{filter_list, filter_regex, listed}
use buckytools.Metrics.Cache.{MetricsCache, new_metrics_cache, is_available, get_metrics}
use buckytools.Buckyd.{Method, get, post, head, delete, put, other}

-- The clock, the flag CacheTimeOut, regexp.Compile and the JSON of a list.
pub record Inventory : Type 0 where
  pub now : ℕ
  pub timeout : ℕ
  pub compile : Text → Option (Text → Bool)
  pub parse_list : Text → Option (List Text)

-- A query, with the values of its form. A length that is not known is `none`.
pub record Query : Type 0 where
  pub method : Method
  pub content_length : Option ℕ
  pub force : Text
  pub regex : Text
  pub list : Text

-- What the handler answers: the code of an error, or a list.
pub data Listing : Type 0 where
  refused : ℕ → Listing
  listing : List Text → Listing

-- `unmarshalList`, and its use.
unfoldable pub by_list : Inventory → Query → List Text → Option (List Text)
by_list env q metrics =
    if length q.list == 0
    then some metrics
    else elim (env.parse_list q.list) [ none ↦ none | some keep ↦ some (filter_list keep metrics) ]

unfoldable pub by_regex : Inventory → Query → List Text → Option (List Text)
by_regex env q metrics =
    if length q.regex == 0 then some metrics else filter_regex env.compile q.regex metrics

unfoldable pub options : Inventory → Query → List Text → Listing
unfolding by_regex by_list
options env q metrics = elim (by_regex env q metrics) [
  | none ↦ refused 400
  | some matching ↦ elim (by_list env q matching) [ none ↦ refused 400 | some kept ↦ listing kept ]
]

abbrev lists : Method → Bool
lists get = true
lists post = true
lists head = false
lists delete = false
lists put = false
lists other = false

abbrev too_large : Option ℕ → Bool
too_large none = false
too_large (some n) = leb (10 * 2 ^ 24) n

-- `metricsCache`, made when it is nil.
abbrev pub cache_of : Option MetricsCache → MetricsCache
cache_of none = new_metrics_cache
cache_of (some m) = m

-- `listMetrics`: the answer, and how many refreshes are started. `meanwhile` is what becomes of the
-- cache between the test of `force` and GetMetrics.
unfoldable pub list_metrics :
    Inventory → Option MetricsCache → (MetricsCache → MetricsCache) → Query → Listing × ℕ
unfolding options
list_metrics env cache meanwhile q =
    if not (lists q.method)
    then (refused 400, 0)
    else if too_large q.content_length
    then (refused 400, 0)
    else (let forced =
          if not (length q.force == 0) && is_available (cache_of cache) then 1 else 0 in
        let (metrics, started) = get_metrics env.now env.timeout (meanwhile (cache_of cache)) in
        let refreshes = forced + (if started then 1 else 0) in
        elim metrics [ none ↦ (refused 202, refreshes) | some l ↦ (options env q l, refreshes) ])

-- Whether the query asks for a metric, by its expression and by its list.
unfoldable pub matches : Inventory → Query → Text → Bool
matches env q metric =
    length q.regex == 0
    || elim (env.compile q.regex) [ none ↦ false | some matched ↦ matched metric ]

unfoldable pub names : Inventory → Query → Text → Bool
unfolding listed
names env q metric =
    length q.list == 0
    || elim (env.parse_list q.list) [ none ↦ false | some keep ↦ listed keep metric ]

pub filter_same :
    (p q : Text → Bool) → ((m : Text) → p m ≡ q m) → (ms : List Text) → filter p ms ≡ filter q ms
filter_same p q h [] = refl
filter_same p q h (m ∷ ms) = rw (h m, filter_same p q h ms) refl
