-- ===== src/Bucky/Listing.antt =====
-- cmd/bucky/list.go: the requests for lists of metrics and the command that prints them. A form is its
-- fields in the order of their names, as url.Values encodes them; JSON is a parameter.
mod Tests
use buckytools.Prelude.{ℕ, Bool, not, Option, none, some, List, [], ◌∷◌, ◌++◌, if◌then◌else◌}
use buckytools.Prelude.Text.{Text, codes, text_eq}
use buckytools.Prelude.Dict.{Dict}
use buckytools.Buckyd.{get, post}
use buckytools.Buckyd.Inventory.{Inventory, Query}
use buckytools.Bucky.Inconsistent.{sort_strings}

abbrev pub Form : Type 0
Form = List (Text × Text)

-- `metricListRequest`, of the path /metrics of a host.
pub record MetricListRequest : Type 0 where
  pub host : Text
  pub query : Form
  pub body : Option Form

unfoldable pub force_field : Bool → Form
force_field force = if force then (codes "force", codes "true") ∷ [] else []

-- `ListAllMetrics`.
unfoldable pub list_all_metrics : List Text → Bool → List MetricListRequest
list_all_metrics [] force = []
list_all_metrics (buckyd ∷ servers) force =
    record { host = buckyd; query = force_field force; body = none }
    ∷ list_all_metrics servers force

unfoldable pub regex_request : Text → Text → Bool → MetricListRequest
regex_request buckyd regex force = record {
  host = buckyd;
  query = force_field force ++ ((codes "regex", regex) ∷ []);
  body = none;
}

-- `ListRegexMetrics`.
unfoldable pub list_regex_metrics : List Text → Text → Bool → List MetricListRequest
list_regex_metrics [] regex force = []
list_regex_metrics (buckyd ∷ servers) regex force =
    regex_request buckyd regex force ∷ list_regex_metrics servers regex force

unfoldable pub slice_request : (List Text → Text) → Text → List Text → Bool → MetricListRequest
slice_request marshal buckyd metrics force = record {
  host = buckyd;
  query = [];
  body = some (force_field force ++ ((codes "list", marshal metrics) ∷ []));
}

-- `ListSliceMetrics`; the JSON of a slice of strings has no error.
unfoldable pub list_slice_metrics :
    (List Text → Text) → List Text → List Text → Bool → List MetricListRequest
list_slice_metrics marshal [] metrics force = []
list_slice_metrics marshal (buckyd ∷ servers) metrics force =
    slice_request marshal buckyd metrics force ∷ list_slice_metrics marshal servers metrics force

-- `ListJSONMetrics`; `none` is an error of the JSON.
unfoldable pub list_json_metrics :
    (List Text → Text) → List Text → Option (List Text) → Bool → Option (List MetricListRequest)
list_json_metrics marshal servers none force = none
list_json_metrics marshal servers (some metrics) force =
    some (list_slice_metrics marshal servers metrics force)

-- The requests of `listCommand`, by its arguments and the JSON of its input.
unfoldable pub choose_requests :
    (List Text → Text)
    → List Text
    → Bool
    → List Text
    → Option (List Text)
    → Bool
    → Option (List MetricListRequest)
choose_requests marshal servers regex_mode [] input force = some (list_all_metrics servers force)
choose_requests marshal servers regex_mode (arg ∷ args) input force =
    if regex_mode
    then some (list_regex_metrics servers arg force)
    else if not (text_eq arg (codes "-"))
    then some (list_slice_metrics marshal servers (arg ∷ args) force)
    else list_json_metrics marshal servers input force

-- The lists of all servers, one after the other.
unfoldable pub all_metrics : Dict (List Text) → List Text
all_metrics [] = []
all_metrics ((server, metrics) ∷ d) = metrics ++ all_metrics d

unfoldable pub sort_lists : Dict (List Text) → Dict (List Text)
sort_lists [] = []
sort_lists ((server, metrics) ∷ d) = (server, sort_strings metrics) ∷ sort_lists d

-- What `listCommand` prints: the metrics, or the metrics with their servers.
pub data Printed : Type 0 where
  by_name : List Text → Printed
  by_server : Dict (List Text) → Printed

-- The end of `listCommand`: what is printed, and the code that it returns. The error of the requests is
-- overwritten by that of the JSON, which has none.
unfoldable pub list_command : Bool → Bool → Dict (List Text) × Bool → Printed × ℕ
list_command location json (list, errors) = (
  (if location then by_server (sort_lists list) else by_name (sort_strings (all_metrics list))),
  (if json then 0 else if errors then 1 else 0),
)

-- What ParseForm makes of a request at the daemon: the fields, and those missing empty.
abbrev pub field : Text → Form → Text
field name [] = []
field name ((key, value) ∷ form) = if text_eq key name then value else field name form

abbrev pub fields : MetricListRequest → Form
fields r = elim r.body [ none ↦ r.query | some form ↦ form ]

abbrev pub query_of : MetricListRequest → Query
query_of r = record {
  method = elim r.body [ none ↦ get | some form ↦ post ];
  content_length = none;
  force = field (codes "force") (fields r);
  regex = field (codes "regex") (fields r);
  list = field (codes "list") (fields r);
}
