-- ===== src/Bucky.antt =====
-- cmd/bucky/common.go: the requests that the client bucky makes to the daemons of a cluster. A cluster
-- is the stores of its daemons; a request changes the store of the one it goes to. Log lines and the
-- texts of errors are left out.
pub mod Name
pub mod Move
pub mod Cluster
pub mod Inconsistent
pub mod Sound
pub mod Fetch
pub mod Listing
pub mod Queues
pub mod Commands
pub mod Workers
mod Tests
use buckytools.Prelude.{
  ℕ, Bool, true, false, not, Option, none, some, [], ◌++◌, leb, ◌==◌, if◌then◌else◌, length,
}
use buckytools.Prelude.Text.{Text, codes, text_eq}
use buckytools.Prelude.Dict.{Dict, lookup, insert}
use buckytools.Whisper.File.{FileData}
use buckytools.Metrics.{MetricData, enc_identity, enc_snappy, enc_max}
use buckytools.Buckyd.{
  Disk, Env, Method, get, head, post, delete, Request, Response, metrics_path, serve_metrics,
}

-- What becomes of a request: it is answered, it does not reach the daemon, or the answer is lost.
pub data Link : Type 0 where
  answered unreachable answer_lost : Link

-- What net.SplitHostPort says of an address.
pub data Address : Type 0 where
  host_and_port : Text → Text → Address
  missing_port malformed : Address

-- The daemons by their host:port, the network, net.SplitHostPort and net.JoinHostPort, the port of the
-- cluster and the flag NoEncoding.
pub record Net : Type 0 where
  pub env_of : Text → Env
  pub link : Text → Method → Link
  pub split_host_port : Text → Address
  pub join_host_port : Text → Text → Text
  pub port : Text
  pub no_encoding : Bool
  pub marshal : MetricData → Text
  pub unmarshal : Text → Option MetricData

-- The stores, by the host:port of their daemons.
abbrev pub World : Type 0
World = Dict Disk

unfoldable pub disk_at : World → Text → Disk
disk_at world host = elim (lookup host world) [ none ↦ [] | some disk ↦ disk ]

-- The stores and the answer, unless there is an error, by what becomes of a request that the daemon
-- would answer so.
unfoldable pub linked : World → Text → Disk × Response → Link → World × Option Response
linked world host (after, response) answered = (insert host after world, some response)
linked world host (after, response) unreachable = (world, none)
linked world host (after, response) answer_lost = (insert host after world, none)

-- `httpClient.Do`.
unfoldable pub exchange : Net → World → Text → Request → World × Option Response
unfolding linked
exchange net world host r =
    linked world host (serve_metrics (net.env_of host) (disk_at world host) r)
      (net.link host r.method)

unfoldable pub sanitize_host_port : Net → Text → Option Text
sanitize_host_port net hostport = elim (net.split_host_port hostport) [
  | host_and_port host port ↦ some (net.join_host_port host port)
  | missing_port ↦ some (net.join_host_port hostport net.port)
  | malformed ↦ none
]

-- A request without headers, for a metric.
abbrev pub plain_request : Method → Text → Request
plain_request method metric = record {
  method = method;
  url_path = metrics_path ++ metric;
  content_type = [];
  content_encoding = [];
  accept_encoding = [];
  metric_stat = [];
  body = [];
}

abbrev pub get_request : Net → Text → Request
get_request net metric = record (plain_request get metric) {
  accept_encoding = if net.no_encoding then [] else codes "snappy";
}

-- The metric of an answer to a GET.
unfoldable pub metric_of : Net → Response → Option MetricData
metric_of net r = if not (r.status == 200) then none else elim (net.unmarshal r.metric_stat) [
  | none ↦ none
  | some found ↦ some record found {
    content = r.body;
    encoding = if text_eq r.content_encoding (codes "snappy") then enc_snappy else enc_identity;
  }
]

-- `GetMetricData`; no metric is an error.
unfoldable pub get_metric_data : Net → World → Text → Text → World × Option MetricData
unfolding exchange sanitize_host_port metric_of
get_metric_data net world server name = elim (sanitize_host_port net server) [
  | none ↦ (world, none)
  | some host ↦
      let (after, response) = exchange net world host (get_request net name) in
      (after, elim response [ none ↦ none | some r ↦ metric_of net r ])
]

abbrev pub post_request : Net → MetricData → Request
post_request net metric = record (plain_request post metric.name) {
  content_type = codes "application/octet-stream";
  content_encoding = if metric.encoding == enc_snappy then codes "snappy" else [];
  metric_stat = net.marshal metric;
  body = metric.content;
}

-- `PostMetric`, and whether its error is nil. It is for a malformed server, too.
unfoldable pub post_metric : Net → World → Text → MetricData → World × Bool
unfolding exchange sanitize_host_port
post_metric net world server metric = elim (sanitize_host_port net server) [
  | none ↦ (world, true)
  | some host ↦
      let (after, response) = exchange net world host (post_request net metric) in
      (after, elim response [ none ↦ false | some r ↦ r.status == 200 ])
]

-- `DeleteMetric`, and whether its error is nil.
unfoldable pub delete_metric : Net → World → Text → Text → World × Bool
unfolding exchange sanitize_host_port
delete_metric net world server metric = elim (sanitize_host_port net server) [
  | none ↦ (world, false)
  | some host ↦
      let (after, response) = exchange net world host (plain_request delete metric) in
      (after, elim response [ none ↦ false | some r ↦ r.status == 200 ])
]

-- The metric of an answer to a HEAD.
unfoldable pub stat_of : Net → Response → Option MetricData
stat_of net r =
    if not (r.status == 200)
    then none
    else if length r.metric_stat == 0
    then none
    else net.unmarshal r.metric_stat

-- `StatRemoteMetric`; no metric is an error.
unfoldable pub stat_remote_metric : Net → World → Text → Text → World × Option MetricData
unfolding exchange sanitize_host_port stat_of
stat_remote_metric net world server metric = elim (sanitize_host_port net server) [
  | none ↦ (world, none)
  | some host ↦
      let (after, response) = exchange net world host (plain_request head metric) in
      (after, elim response [ none ↦ none | some r ↦ stat_of net r ])
]

-- `MetricDecode`: the bytes, or an error. An encoding that is not known has no bytes.
unfoldable pub metric_decode : (FileData → Option FileData) → MetricData → Option FileData
metric_decode decompress metric =
    if metric.encoding == enc_identity
    then some metric.content
    else (let bytes =
          if metric.encoding == enc_snappy then decompress metric.content else some [] in
        elim bytes [
          | none ↦ none
          | some b ↦ if not (length b == metric.size) then none else some b
        ])

-- `MetricEncode`: the metric, or an error.
unfoldable pub metric_encode : (FileData → FileData) → MetricData → ℕ → Option MetricData
metric_encode compress metric encoding =
    if not (metric.encoding == 0)
    then none
    else if encoding == 0
    then some metric
    else if leb enc_max encoding
    then none
    else some record metric { content = compress metric.content; encoding = enc_snappy }
