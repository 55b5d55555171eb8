-- ===== src/Metrics.antt =====
-- metrics/metrics.go: the names of metrics and their paths, the filters, and the walk's check.
pub mod Clean
pub mod RoundTrip
pub mod Cache
mod Tests
use buckytools.Prelude.{
  ℕ, Bool, false, ◌||◌, not, Option, none, some, List, [], ◌∷◌, ◌++◌, if◌then◌else◌, length, drop,
  filter,
}
use buckytools.Prelude.Text.{Text, codes, text_eq}
use buckytools.Prelude.Strings.{has_prefix, has_suffix, replace_byte, remove_first}
use Clean.{clean, path_join}

-- The codes of `Encoding`.
abbrev pub enc_identity : ℕ
enc_identity = 0

abbrev pub enc_snappy : ℕ
enc_snappy = 1

abbrev pub enc_max : ℕ
enc_max = 2

-- A metric and its bytes.
pub record MetricData : Type 0 where
  pub name : Text
  pub size : ℕ
  pub mode : ℕ
  pub mod_time : ℕ
  pub encoding : ℕ
  pub content : List ℕ

unfoldable pub metric_to_relative : Text → Text
metric_to_relative metric = clean (replace_byte b'.' b'/' metric ++ codes ".wsp")

unfoldable pub metric_to_path : Text → Text → Text
unfolding metric_to_relative
metric_to_path prefix metric = path_join prefix (metric_to_relative metric)

unfoldable pub metrics_to_paths : Text → List Text → List Text
unfolding metric_to_path
metrics_to_paths prefix [] = []
metrics_to_paths prefix (m ∷ ms) = metric_to_path prefix m ∷ metrics_to_paths prefix ms

unfoldable pub relative_to_metric : Text → Text
relative_to_metric p = replace_byte b'/' b'.' (remove_first (codes ".wsp") (clean p))

-- A text without a prefix that it has.
abbrev trim_prefix : Text → Text → Text
trim_prefix s p = if has_prefix s p then drop (length p) s else s

unfoldable pub path_to_metric : Text → Text → Text
unfolding has_prefix
path_to_metric prefix p =
    let below = trim_prefix (trim_prefix (clean p) prefix) (codes "/") in
    replace_byte b'/' b'.' (remove_first (codes ".wsp") below)

unfoldable pub paths_to_metrics : Text → List Text → List Text
unfolding path_to_metric
paths_to_metrics prefix [] = []
paths_to_metrics prefix (p ∷ ps) = path_to_metric prefix p ∷ paths_to_metrics prefix ps

-- `hash[v]`, where the map holds the texts of a list.
unfoldable pub listed : List Text → Text → Bool
listed [] v = false
listed (x ∷ xs) v = text_eq x v || listed xs v

unfoldable pub filter_list : List Text → List Text → List Text
unfolding listed
filter_list keep [] = []
filter_list keep (v ∷ vs) =
    let rest = filter_list keep vs in if listed keep v then v ∷ rest else rest

-- `FilterRegex`; `compile` is regexp.Compile, which gives the match of an expression that parses.
unfoldable pub filter_regex : (Text → Option (Text → Bool)) → Text → List Text → Option (List Text)
filter_regex compile regex metrics = elim (compile regex) [
  | none ↦ none
  | some match_string ↦ some (filter match_string metrics)
]

-- What the walk says of a file, besides its path: os.FileInfo.
pub record FileInfo : Type 0 where
  pub name : Text
  pub is_dir : Bool
  pub is_regular : Bool

-- The answer of `checkWalk`: take the file, pass over it, or over the whole directory.
pub data WalkAnswer : Type 0 where
  take_file pass_over skip_dir : WalkAnswer

-- `none` is an error of the walk on this file.
unfoldable pub check_walk : Text → Option FileInfo → WalkAnswer
check_walk path none = pass_over
check_walk path (some info) =
    if info.is_dir
    then (if has_prefix info.name (codes ".") then skip_dir else pass_over)
    else if not info.is_regular
    then pass_over
    else if not (has_suffix path (codes ".wsp"))
    then pass_over
    else take_file
