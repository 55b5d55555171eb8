-- ===== src/Metrics/Cache/Reader.antt =====
-- GetMetrics of metrics/metrics.go as a goroutine that takes no lock: it reads the cache four times, and
-- a refresh may make any steps between two reads. A read of the field `metrics` is taken to be whole.
use buckytools.Prelude.{
  ℕ, ◌≡◌, refl, sym, ap, ◌∙◌, ◌≢◌, ◌⊎◌, inl, inr, Bool, true, false, ◌||◌, not, Option, none, some,
  List, [], arith, if◌then◌else◌, Bool-cases, Option-cases,
}
use mathlib.Core.Path.{subst}
use buckytools.Prelude.Text.{Text}
use buckytools.Metrics.Cache.{
  MetricsCache, System, system, free, locked, marked, cleared, lock, mark, empty, visit, stamp,
  unmark, unlock, walking, stamped, Met, Step, Reach, fresh_system, Holds, Step-Holds, Reach-Holds,
  new_metrics_cache, walk, timed_out, is_available, get_metrics,
}

-- What the reader has found so far: nothing yet, that there is a list, that it is not marked, that it is
-- not too old; or that it cannot have one. The answer is the list and whether a refresh is started.
pub data Reader : Type 0 where
  asked seen_list seen_idle seen_fresh refused : Reader
  answered : Option (List Text) → Bool → Reader

-- The reader's next read of the cache: `metrics` and `updating` in `IsAvailable`, `timestamp` in
-- `TimedOut`, and then `metrics` again, or `updating` again.
unfoldable pub read_step : ℕ → ℕ → MetricsCache → Reader → Reader
unfolding timed_out
read_step now timeout m asked = elim (m.metrics) [ none ↦ refused | some l ↦ seen_list ]
read_step now timeout m seen_list = if m.updating then refused else seen_idle
read_step now timeout m seen_idle = if timed_out now timeout m then refused else seen_fresh
read_step now timeout m seen_fresh = answered m.metrics false
read_step now timeout m refused = answered none (not m.updating)
read_step now timeout m (answered l started) = answered l started

abbrev pub cache_in : System → MetricsCache
cache_in (system m p w) = m

-- The files that have been met by the walk that goes on, or else by the last one that was finished.
abbrev pub files_met : System → List Met
files_met (system m (walking seen) w) = seen
files_met (system m (stamped seen) w) = seen
files_met (system m free w) = w
files_met (system m locked w) = w
files_met (system m marked w) = w
files_met (system m cleared w) = w

-- The files that were met by the last walk that was finished.
abbrev pub files_finished : System → List Met
files_finished (system m p w) = w

-- Whether a step of a refresh empties the list, to begin a new walk.
abbrev pub empties : {prefix : Text} {s t : System} → Step prefix s t → Bool
empties (lock m w) = false
empties (mark m w) = false
empties (empty m w) = true
empties (visit m w seen f l e) = false
empties (stamp m w seen now) = false
empties (unmark m w seen) = false
empties (unlock m w) = false

-- A cache, a reader that has asked it, and whether a walk has begun since it asked: the reads come
-- between the steps of the refreshes in any order.
pub data Run (prefix : Text) : System → Reader → Bool → Type 0 where
  ask : {s : System} → Reach prefix fresh_system s → Run prefix s asked false
  refresh :
      {s t : System} {r : Reader} {begun : Bool}
      → Run prefix s r begun
      → (st : Step prefix s t) → Run prefix t r (begun || empties st)
  read :
      {s : System} {r : Reader} {begun : Bool} (now timeout : ℕ)
      → Run prefix s r begun
      → Run prefix s (read_step now timeout (cache_in s) r) begun

abbrev IsListed : System → Type 0
IsListed s = (l : List Text) × ((cache_in s).metrics ≡ some l)

-- No walk goes on.
abbrev IsQuiet : System → Type 0
IsQuiet (system m (walking seen) w) = ⊥
IsQuiet (system m (stamped seen) w) = ⊥
IsQuiet (system m free w) = Unit
IsQuiet (system m locked w) = Unit
IsQuiet (system m marked w) = Unit
IsQuiet (system m cleared w) = Unit

-- What a reader that has found a list relies on.
abbrev Knows : System → Reader → Bool → Type 0
Knows s asked begun = Unit
Knows s seen_list begun = IsListed s
Knows s seen_idle begun = IsListed s × (begun ≡ false → IsQuiet s)
Knows s seen_fresh begun = IsListed s × (begun ≡ false → IsQuiet s)
Knows s refused begun = Unit
Knows s (answered o started) begun = Unit

Step-IsListed : (prefix : Text) {s t : System} → Step prefix s t → IsListed s → IsListed t
Step-IsListed prefix (lock m w) h = h
Step-IsListed prefix (mark m w) h = h
Step-IsListed prefix (empty m w) h = ([], refl)
Step-IsListed prefix (visit m w seen f l e) h = (_, refl)
Step-IsListed prefix (stamp m w seen now) h = h
Step-IsListed prefix (unmark m w seen) h = h
Step-IsListed prefix (unlock m w) h = h

Step-IsQuiet :
    (prefix : Text) {s t : System}
    → (st : Step prefix s t) → empties st ≡ false
    → IsQuiet s
    → IsQuiet t
Step-IsQuiet prefix (lock m w) e h = tt
Step-IsQuiet prefix (mark m w) e h = tt
Step-IsQuiet prefix (empty m w) e h = absurd cc
Step-IsQuiet prefix (visit m w seen f l x) e h = h
Step-IsQuiet prefix (stamp m w seen now) e h = h
Step-IsQuiet prefix (unmark m w seen) e h = tt
Step-IsQuiet prefix (unlock m w) e h = tt

or-false : (a b : Bool) → (a || b) ≡ false → (a ≡ false) × (b ≡ false)
or-false false b h = (refl, h)
or-false true b h = absurd cc

Step-Knows :
    (prefix : Text) {s t : System} (r : Reader) (begun : Bool)
    → (st : Step prefix s t) → Knows s r begun
    → Knows t r (begun || empties st)
Step-Knows prefix asked begun st k = tt
Step-Knows prefix seen_list begun st k = Step-IsListed prefix st k
Step-Knows prefix seen_idle begun st (listed, quiet) = (
  Step-IsListed prefix st listed,
  λ e.
      let (before, now) = or-false begun (empties st) e in
      Step-IsQuiet prefix st now (quiet before),
)
Step-Knows prefix seen_fresh begun st (listed, quiet) = (
  Step-IsListed prefix st listed,
  λ e.
      let (before, now) = or-false begun (empties st) e in
      Step-IsQuiet prefix st now (quiet before),
)
Step-Knows prefix refused begun st k = tt
Step-Knows prefix (answered o started) begun st k = tt

-- A cache that is not marked is not walked through.
idle-IsQuiet :
    (prefix : Text) (s : System) → Holds prefix s → (cache_in s).updating ≡ false → IsQuiet s
idle-IsQuiet prefix (system m free w) h e = tt
idle-IsQuiet prefix (system m locked w) h e = tt
idle-IsQuiet prefix (system m marked w) h e = tt
idle-IsQuiet prefix (system m cleared w) h e = tt
idle-IsQuiet prefix (system m (walking seen) w) h e = let marked = h.0 in absurd (ground arith)
idle-IsQuiet prefix (system m (stamped seen) w) h e = let marked = h.0 in absurd (ground arith)

asked-cases :
    (now timeout : ℕ) (m : MetricsCache)
    → (read_step now timeout m asked ≡ refused)
      ⊎ ((read_step now timeout m asked ≡ seen_list) × ((l : List Text) × (m.metrics ≡ some l)))
unfolding read_step
asked-cases now timeout m = elim (Option-cases m.metrics) [
  | inl nothing ↦ inl (rw nothing refl)
  | inr (l, e) ↦ inr (rw e refl, (l, e))
]

seen_list-cases :
    (now timeout : ℕ) (m : MetricsCache)
    → (read_step now timeout m seen_list ≡ refused)
      ⊎ ((read_step now timeout m seen_list ≡ seen_idle) × (m.updating ≡ false))
unfolding read_step
seen_list-cases now timeout m = elim (Bool-cases m.updating) [
  | inl busy ↦ inl (rw busy refl)
  | inr idle ↦ inr (rw idle refl, idle)
]

seen_idle-cases :
    (now timeout : ℕ) (m : MetricsCache)
    → (read_step now timeout m seen_idle ≡ refused)
      ⊎ (read_step now timeout m seen_idle ≡ seen_fresh)
unfolding read_step
seen_idle-cases now timeout m = elim (Bool-cases (timed_out now timeout m)) [
  | inl old ↦ inl (rw old refl)
  | inr young ↦ inr (rw young refl)
]

read_step-Knows :
    (prefix : Text) (now timeout : ℕ) (s : System) (r : Reader) (begun : Bool)
    → Holds prefix s
    → Knows s r begun
    → Knows s (read_step now timeout (cache_in s) r) begun
read_step-Knows prefix now timeout s asked begun h k = elim (asked-cases now timeout (cache_in s)) [
  | inl e ↦ subst (λ q. Knows s q begun) (sym e) tt
  | inr (e, listed) ↦ subst (λ q. Knows s q begun) (sym e) listed
]
read_step-Knows prefix now timeout s seen_list begun h k =
    elim (seen_list-cases now timeout (cache_in s)) [
      | inl e ↦ subst (λ q. Knows s q begun) (sym e) tt
      | inr (e, idle) ↦
          subst (λ q. Knows s q begun) (sym e) (k, λ early. idle-IsQuiet prefix s h idle)
    ]
read_step-Knows prefix now timeout s seen_idle begun h k =
    elim (seen_idle-cases now timeout (cache_in s)) [
      | inl e ↦ subst (λ q. Knows s q begun) (sym e) tt
      | inr e ↦ subst (λ q. Knows s q begun) (sym e) k
    ]
read_step-Knows prefix now timeout s seen_fresh begun h k = unfold read_step in tt
read_step-Knows prefix now timeout s refused begun h k = unfold read_step in tt
read_step-Knows prefix now timeout s (answered o started) begun h k = unfold read_step in tt

Run-Holds :
    (prefix : Text) {s : System} {r : Reader} {begun : Bool}
    → Run prefix s r begun
    → Holds prefix s × Knows s r begun
unfolding new_metrics_cache
Run-Holds prefix (ask reach) = (Reach-Holds prefix {s = fresh_system} (inl refl) reach, tt)
Run-Holds prefix (refresh {r = r} {begun = begun} run st) =
    let (h, k) = Run-Holds prefix run in (Step-Holds prefix st h, Step-Knows prefix r begun st k)
Run-Holds prefix (read {s = s} {r = r} {begun = begun} now timeout run) =
    let (h, k) = Run-Holds prefix run in (h, read_step-Knows prefix now timeout s r begun h k)

-- A list that is there is that of the files met by the walk that goes on, or by the last one.
Listed-walk :
    (prefix : Text) (s : System)
    → Holds prefix s
    → IsListed s
    → (cache_in s).metrics ≡ some (walk prefix [] (files_met s))
Listed-walk prefix (system m free w) (inl e) (l, listed) = absurd cc
Listed-walk prefix (system m free w) (inr e) listed = e
Listed-walk prefix (system m locked w) (inl e) (l, listed) = absurd cc
Listed-walk prefix (system m locked w) (inr e) listed = e
Listed-walk prefix (system m marked w) (x, inl e) (l, listed) = absurd cc
Listed-walk prefix (system m marked w) (x, inr e) listed = e
Listed-walk prefix (system m cleared w) (inl e) (l, listed) = absurd cc
Listed-walk prefix (system m cleared w) (inr e) listed = e
Listed-walk prefix (system m (walking seen) w) h listed = h.1
Listed-walk prefix (system m (stamped seen) w) h listed = h.1

Quiet-files : (s : System) → IsQuiet s → files_met s ≡ files_finished s
Quiet-files (system m free w) q = refl
Quiet-files (system m locked w) q = refl
Quiet-files (system m marked w) q = refl
Quiet-files (system m cleared w) q = refl
Quiet-files (system m (walking seen) w) q = absurd q
Quiet-files (system m (stamped seen) w) q = absurd q

-- Whatever steps refreshes make between the reads of a call of `GetMetrics`: when a read gives its
-- answer, then either it is none, and an earlier read has refused it, or it is a list: that of the
-- files that the walk going on has met so far, or, if none goes on, of all those of the last walk that
-- was finished. If no walk has begun since the call, it is the whole list of the last finished walk.
pub read_step-walk :
    (prefix : Text) (s : System) (r : Reader) (begun : Bool) (now timeout : ℕ)
    (answer : Option (List Text)) (started : Bool)
    → Run prefix s r begun
    → r ≢ answered answer started
    → read_step now timeout (cache_in s) r ≡ answered answer started
    → ((r ≡ refused) × (answer ≡ none))
      ⊎ ((answer ≡ some (walk prefix [] (files_met s)))
          × (begun ≡ false → answer ≡ some (walk prefix [] (files_finished s))))
unfolding read_step
read_step-walk prefix s r begun now timeout answer started run fresh e =
    let (h, k) = Run-Holds prefix run in by_reader r k fresh e
  where
    by_reader :
        (q : Reader)
        → Knows s q begun
        → q ≢ answered answer started
        → read_step now timeout (cache_in s) q ≡ answered answer started
        → ((q ≡ refused) × (answer ≡ none))
          ⊎ ((answer ≡ some (walk prefix [] (files_met s)))
              × (begun ≡ false → answer ≡ some (walk prefix [] (files_finished s))))
    by_reader asked k fresh e = elim (asked-cases now timeout (cache_in s)) [
      | inl q ↦ absurd (let x : refused ≡ answered answer started = sym q ∙ e in cc)
      | inr (q, listed) ↦ absurd (let x : seen_list ≡ answered answer started = sym q ∙ e in cc)
    ]
    by_reader seen_list k fresh e = elim (seen_list-cases now timeout (cache_in s)) [
      | inl q ↦ absurd (let x : refused ≡ answered answer started = sym q ∙ e in cc)
      | inr (q, idle) ↦ absurd (let x : seen_idle ≡ answered answer started = sym q ∙ e in cc)
    ]
    by_reader seen_idle k fresh e = elim (seen_idle-cases now timeout (cache_in s)) [
      | inl q ↦ absurd (let x : refused ≡ answered answer started = sym q ∙ e in cc)
      | inr q ↦ absurd (let x : seen_fresh ≡ answered answer started = sym q ∙ e in cc)
    ]
    by_reader seen_fresh (listed, quiet) fresh e =
        let (h, known) = Run-Holds prefix run in
        let found : answer ≡ some (walk prefix [] (files_met s)) =
          let same : (cache_in s).metrics ≡ answer = cc in
          sym same ∙ Listed-walk prefix s h listed in
        inr
          (found, λ idle. found ∙ ap (λ fs. some (walk prefix [] fs)) (Quiet-files s (quiet idle)))
    by_reader refused k fresh e = inl (refl, cc)
    by_reader (answered o b) k fresh e = absurd (fresh e)

-- With nothing between its reads, the reader answers what `get_metrics` does.
read_step-get_metrics :
    (now timeout : ℕ) (m : MetricsCache)
    → let next = read_step now timeout m in
      next (next (next (next asked)))
      ≡ answered (get_metrics now timeout m).0 (get_metrics now timeout m).1
unfolding read_step get_metrics is_available
read_step-get_metrics now timeout m = elim (Option-cases m.metrics) [
  | inl nothing ↦ rw nothing refl
  | inr (l, e) ↦ elim (Bool-cases m.updating) [
    | inl busy ↦ rw (e, busy) refl
    | inr idle ↦ elim (Bool-cases (timed_out now timeout m)) [
      | inl old ↦ rw (e, idle, old) refl
      | inr young ↦ rw (e, idle, young) refl
    ]
  ]
]
