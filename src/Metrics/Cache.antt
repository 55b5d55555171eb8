-- ===== src/Metrics/Cache.antt =====
-- MetricsCacheType of metrics/metrics.go: the list of the metrics on disk, which goroutines refresh
-- while others ask for it. The lock admits one refresh at a time; the readers do not take it. Here are
-- the refresh, as a whole and statement by statement, and GetMetrics with nothing between its reads of
-- the cache; Metrics/Cache/Reader has it read by read.
pub mod Reader
use buckytools.Prelude.{
  ℕ, ◌+◌, ◌≡◌, refl, sym, ap, ◌∙◌, ◌⊎◌, inl, inr, Bool, true, false, ◌&&◌, not, Option, none, some,
  List, [], ◌∷◌, ◌++◌, append-nil, append_assoc, arith, ltb, if◌then◌else◌,
}
use mathlib.Core.Path.{subst}
use buckytools.Prelude.Text.{Text}
use buckytools.Metrics.{FileInfo, take_file, pass_over, skip_dir, check_walk, path_to_metric}

pub record MetricsCache : Type 0 where
  pub metrics : Option (List Text)
  pub timestamp : ℕ
  pub updating : Bool

unfoldable pub new_metrics_cache : MetricsCache
new_metrics_cache = record { metrics = none; timestamp = 0; updating = false }

unfoldable pub is_available : MetricsCache → Bool
is_available m = elim (m.metrics) [ none ↦ false | some l ↦ not m.updating ]

-- `now` is the time of the clock, `timeout` the flag CacheTimeOut.
unfoldable pub timed_out : ℕ → ℕ → MetricsCache → Bool
timed_out now timeout m = ltb (m.timestamp + timeout) now

-- `GetMetrics` where no refresh makes a step between its reads: the list, if there is a fresh one, and
-- whether a refresh is started.
unfoldable pub get_metrics : ℕ → ℕ → MetricsCache → Option (List Text) × Bool
unfolding is_available timed_out
get_metrics now timeout m =
    if is_available m && not (timed_out now timeout m)
    then (m.metrics, false)
    else (none, not m.updating)

-- A file that the walk meets: its path and what is known of it.
abbrev pub Met : Type 0
Met = Text × Option FileInfo

-- `examine`, the function that the walk calls.
unfoldable pub examine : Text → List Text → Met → List Text
examine prefix metrics (path, info) = elim (check_walk path info) [
  | take_file ↦ metrics ++ (path_to_metric prefix path ∷ [])
  | pass_over ↦ metrics
  | skip_dir ↦ metrics
]

unfoldable pub walk : Text → List Text → List Met → List Text
unfolding examine
walk prefix metrics [] = metrics
walk prefix metrics (f ∷ fs) = walk prefix (examine prefix metrics f) fs

-- `RefreshCache` with no reader between its steps.
unfoldable pub refresh_cache : Text → List Met → ℕ → MetricsCache → MetricsCache
refresh_cache prefix files now m = record {
  metrics = some (walk prefix [] files);
  timestamp = now;
  updating = false;
}

-- Where the holder of the lock stands in `RefreshCache`.
pub data Phase : Type 0 where
  free locked marked cleared : Phase
  walking stamped : List Met → Phase

-- The cache, the phase, and the files of the last walk that was finished.
pub data System : Type 0 where
  system : MetricsCache → Phase → List Met → System

-- The statements of `RefreshCache`, one by one.
pub data Step (prefix : Text) : System → System → Type 0 where
  lock : (m : MetricsCache) (w : List Met) → Step prefix (system m free w) (system m locked w)
  mark :
      (m : MetricsCache) (w : List Met)
      → Step prefix (system m locked w) (system (record m { updating = true }) marked w)
  empty :
      (m : MetricsCache) (w : List Met)
      → Step prefix (system m marked w) (system (record m { metrics = some [] }) (walking []) w)
  visit :
      (m : MetricsCache) (w seen : List Met) (f : Met) (l : List Text)
      → m.metrics ≡ some l
      → Step prefix
          (system m (walking seen) w)
          (system (record m { metrics = some (examine prefix l f) }) (walking (seen ++ (f ∷ []))) w)
  stamp :
      (m : MetricsCache) (w seen : List Met) (now : ℕ)
      → Step prefix
          (system m (walking seen) w)
          (system (record m { timestamp = now }) (stamped seen) w)
  unmark :
      (m : MetricsCache) (w seen : List Met)
      → Step prefix
          (system m (stamped seen) w)
          (system (record m { updating = false }) cleared seen)
  unlock : (m : MetricsCache) (w : List Met) → Step prefix (system m cleared w) (system m free w)

-- The states that come after a state.
pub data Reach (prefix : Text) (s : System) : System → Type 0 where
  here : Reach prefix s s
  step : {t u : System} → Reach prefix s t → Step prefix t u → Reach prefix s u

abbrev pub fresh_system : System
fresh_system = system new_metrics_cache free []

walk-append_one :
    (prefix : Text) (l : List Text) (fs : List Met) (f : Met)
    → walk prefix l (fs ++ (f ∷ [])) ≡ examine prefix (walk prefix l fs) f
unfolding walk
walk-append_one prefix l [] f = refl
walk-append_one prefix l (g ∷ fs) f = walk-append_one prefix (examine prefix l g) fs f

-- Between walks the list is that of the last walk, or there is none; during one it is marked.
abbrev IsWhole : Text → MetricsCache → List Met → Type 0
IsWhole prefix m w = (m.metrics ≡ none) ⊎ (m.metrics ≡ some (walk prefix [] w))

abbrev HoldsAt : Text → MetricsCache → Phase → List Met → Type 0
HoldsAt prefix m free w = IsWhole prefix m w
HoldsAt prefix m locked w = IsWhole prefix m w
HoldsAt prefix m cleared w = IsWhole prefix m w
HoldsAt prefix m marked w = (m.updating ≡ true) × IsWhole prefix m w
HoldsAt prefix m (walking seen) w = (m.updating ≡ true) × (m.metrics ≡ some (walk prefix [] seen))
HoldsAt prefix m (stamped seen) w = (m.updating ≡ true) × (m.metrics ≡ some (walk prefix [] seen))

abbrev Holds : Text → System → Type 0
Holds prefix (system m p w) = HoldsAt prefix m p w

Step-Holds : (prefix : Text) {s t : System} → Step prefix s t → Holds prefix s → Holds prefix t
Step-Holds prefix (lock m w) h = h
Step-Holds prefix (mark m w) h = (refl, h)
Step-Holds prefix (empty m w) h = (h.0, unfold walk in refl)
Step-Holds prefix (visit m w seen f l e) h =
    let same : l ≡ walk prefix [] seen = let both = sym e ∙ h.1 in cc in
    (
      h.0,
      ap (λ k. some (examine prefix k f)) same ∙ ap some (sym (walk-append_one prefix [] seen f)),
    )
Step-Holds prefix (stamp m w seen now) h = h
Step-Holds prefix (unmark m w seen) h = inr h.1
Step-Holds prefix (unlock m w) h = h

Reach-Holds : (prefix : Text) {s t : System} → Holds prefix s → Reach prefix s t → Holds prefix t
Reach-Holds prefix h here = h
Reach-Holds prefix h (step r st) = Step-Holds prefix st (Reach-Holds prefix h r)

answer-IsWhole :
    (prefix : Text) (m : MetricsCache) (p : Phase) (w : List Met) (now timeout : ℕ) (l : List Text)
    → HoldsAt prefix m p w
    → (get_metrics now timeout m).0 ≡ some l
    → l ≡ walk prefix [] w
unfolding get_metrics
answer-IsWhole prefix m free w now timeout l h e = ground arith
answer-IsWhole prefix m locked w now timeout l h e = ground arith
answer-IsWhole prefix m cleared w now timeout l h e = ground arith
answer-IsWhole prefix m marked w now timeout l h e = ground arith
answer-IsWhole prefix m (walking seen) w now timeout l h e = ground arith
answer-IsWhole prefix m (stamped seen) w now timeout l h e = ground arith

-- A list that `GetMetrics` returns, where no refresh makes a step between its reads, is the whole list
-- of the last walk that was finished, whatever step a refresh has come to.
pub get_metrics-walk :
    (prefix : Text) (m : MetricsCache) (p : Phase) (w : List Met) (now timeout : ℕ) (l : List Text)
    → Reach prefix fresh_system (system m p w)
    → (get_metrics now timeout m).0 ≡ some l
    → l ≡ walk prefix [] w
unfolding new_metrics_cache
get_metrics-walk prefix m p w now timeout l r e =
    answer-IsWhole prefix m p w now timeout l (Reach-Holds prefix {s = fresh_system} (inl refl) r) e

Reach-walking :
    (prefix : Text) {s : System} (m : MetricsCache) (w seen fs : List Met) (l : List Text)
    → m.metrics ≡ some l
    → Reach prefix s (system m (walking seen) w)
    → Reach prefix s
        (system (record m { metrics = some (walk prefix l fs) }) (walking (seen ++ fs)) w)
unfolding walk
Reach-walking prefix {s} m w seen [] l e r =
    rw (append-nil seen)
      (subst (λ o. Reach prefix s (system (record m { metrics = o }) (walking seen) w)) e r)
Reach-walking prefix {s} m w seen (f ∷ fs) l e r =
    subst
      (λ k.
        Reach prefix s (
          system (record m { metrics = some (walk prefix (examine prefix l f) fs) }) (walking k) w))
      (append_assoc seen (f ∷ []) fs)
      (Reach-walking prefix (record m { metrics = some (examine prefix l f) }) w (seen ++ (f ∷ []))
        fs (examine prefix l f) refl (step r (visit m w seen f l e)))

-- The steps of a refresh, one after the other, come to what `refresh_cache` makes of the cache.
pub Reach-refresh_cache :
    (prefix : Text) (m : MetricsCache) (w files : List Met) (now : ℕ)
    → Reach prefix (system m free w) (system (refresh_cache prefix files now m) free files)
unfolding refresh_cache
Reach-refresh_cache prefix m w files now =
    let begun =
      step (step (step here (lock m w)) (mark m w)) (empty (record m { updating = true }) w) in
    let walked =
      Reach-walking prefix (record m { updating = true; metrics = some [] }) w [] files [] refl
        begun in
    let seen : MetricsCache = record m { updating = true; metrics = some (walk prefix [] files) } in
    step
      (step (step walked (stamp seen w files now))
        (unmark (record seen { timestamp = now }) w files))
      (unlock (record seen { timestamp = now; updating = false }) files)
