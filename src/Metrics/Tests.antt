-- ===== src/Metrics/Tests.antt =====
-- Runs of the functions on metrics, and their theorems applied to them.
use buckytools.Prelude.{◌≡◌, refl, ◌⊎◌, true, false, none, some, List, [], ◌∷◌, arith, All}
use buckytools.Prelude.Text.{Text, codes, text_eq}
use buckytools.Prelude.Strings.{join, replace_byte, remove_first, has_prefix, has_suffix}
use buckytools.Metrics.Clean.{clean, path_join}
use buckytools.Metrics.{
  metric_to_relative, relative_to_metric, metric_to_path, path_to_metric, filter_list, check_walk,
}
use buckytools.Metrics.RoundTrip.{IsElement, relative_to_metric-metric_to_relative}
use buckytools.Metrics.Cache.{
  MetricsCache, Met, free, system, fresh_system, Reach, walk, refresh_cache, new_metrics_cache,
  timed_out, Reach-refresh_cache,
}
use buckytools.Metrics.Cache.Reader.{
  seen_fresh, refused, answered, read_step, Run, ask, read, read_step-walk,
}

paths :
    (metric_to_relative (codes "a.b") ≡ codes "a/b.wsp")
    × (metric_to_path (codes "/opt/w/") (codes "a.b") ≡ codes "/opt/w/a/b.wsp")
    × (path_to_metric (codes "/opt/w") (codes "/opt/w/a/b.wsp") ≡ codes "a.b")
    × (filter_list (codes "a" ∷ (codes "b" ∷ [])) (codes "b" ∷ (codes "c" ∷ [])) ≡ codes "b" ∷ [])
unfolding metric_to_relative metric_to_path path_to_metric filter_list clean replace_byte path_join
    remove_first
paths = (refl, refl, refl, refl)

abbrev elements : List Text
elements = codes "ab" ∷ (codes "c" ∷ [])

elements-IsElement : All IsElement elements
elements-IsElement = (
  record {
    not_empty = λ e. cc;
    no_dot = ((λ e. absurd (omega arith)), ((λ e. absurd (omega arith)), tt));
    no_slash = ((λ e. absurd (omega arith)), ((λ e. absurd (omega arith)), tt));
  },
  (
    record {
      not_empty = λ e. cc;
      no_dot = ((λ e. absurd (omega arith)), tt);
      no_slash = ((λ e. absurd (omega arith)), tt);
    },
    tt,
  ),
)

relative_to_metric-metric_to_relative_example :
    relative_to_metric (metric_to_relative (join b'.' elements)) ≡ join b'.' elements
relative_to_metric-metric_to_relative_example =
    relative_to_metric-metric_to_relative (codes "ab") (codes "c" ∷ []) elements-IsElement

abbrev prefix : Text
prefix = codes "/w"

abbrev met : Met
met = (codes "/w/a.wsp", some (record { name = codes "a.wsp"; is_dir = false; is_regular = true }))

-- A walk that met one file.
abbrev listing : MetricsCache
listing = refresh_cache prefix (met ∷ []) 7 new_metrics_cache

listing-Reach : Reach prefix fresh_system (system listing free (met ∷ []))
listing-Reach = Reach-refresh_cache prefix new_metrics_cache [] (met ∷ []) 7

-- The reader's first three reads, of that cache.
reader_Run : Run prefix (system listing free (met ∷ [])) seen_fresh false
unfolding read_step timed_out refresh_cache
reader_Run = read 8 60 (read 8 60 (read 8 60 (ask listing-Reach)))

fourth_read : read_step 8 60 listing seen_fresh ≡ answered (some (codes "a" ∷ [])) false
unfolding read_step refresh_cache walk path_to_metric check_walk has_prefix has_suffix text_eq clean
    replace_byte path_join remove_first
fourth_read = refl

read_step-walk_example :
    ((seen_fresh ≡ refused) × (some (codes "a" ∷ []) ≡ none))
    ⊎ ((some (codes "a" ∷ []) ≡ some (walk prefix [] (met ∷ [])))
        × (false ≡ false → some (codes "a" ∷ []) ≡ some (walk prefix [] (met ∷ []))))
read_step-walk_example =
    read_step-walk prefix (system listing free (met ∷ [])) seen_fresh false 8 60
      (some (codes "a" ∷ [])) false reader_Run (λ e. absurd cc) fourth_read
