-- ===== src/Buckyd.antt =====
-- cmd/buckyd/metrics.go: the handlers of the daemon that serves the metrics of one store. A store is
-- a directory of files; a handler returns the store after it and its response. Log lines and the
-- texts of errors are left out.
pub mod Heal
pub mod Serve
pub mod Inventory
mod Tests
use buckytools.Prelude.{
  ℕ, Bool, true, false, not, Option, none, some, List, [], leb, ◌==◌, if◌then◌else◌, length, drop,
}
use buckytools.Prelude.Text.{Text, codes, text_eq}
use buckytools.Prelude.Dict.{Dict, lookup, insert, erase}
use buckytools.Whisper.File.{FileData}
use buckytools.Sparse.{Round, copy_sparse}
use buckytools.Metrics.{MetricData, metric_to_path, enc_snappy}

-- A file, with the mode and the time of its change.
pub record Stored : Type 0 where
  pub content : FileData
  pub mode : ℕ
  pub mod_time : ℕ

abbrev pub Disk : Type 0
Disk = Dict Stored

-- The calls of the operating system that may fail on their own.
pub data OsCall : Type 0 where
  stat mkdir temp_file io_copy create flock remove open_file : OsCall

-- What a handler meets: the prefix of the store, whether files are sparse, the clock, which calls
-- fail, the codecs (JSON of the header X-Metric-Stat, and snappy), how a request's body arrives, and
-- the fill of a file from another one, with whether it fails.
pub record Env : Type 0 where
  pub prefix : Text
  pub sparse_files : Bool
  pub now : ℕ
  pub fails : OsCall → Bool
  pub marshal : MetricData → Text
  pub unmarshal : Text → Option MetricData
  pub compress : FileData → FileData
  pub decompress : FileData → Option FileData
  pub arrive : FileData → List Round
  pub fill_all : FileData → FileData → FileData × Bool

pub data Method : Type 0 where
  head get delete put post other : Method

pub record Request : Type 0 where
  pub method : Method
  pub url_path : Text
  pub content_type : Text
  pub content_encoding : Text
  pub accept_encoding : Text
  pub metric_stat : Text
  pub body : FileData

pub record Response : Type 0 where
  pub status : ℕ
  pub metric_stat : Text
  pub content_encoding : Text
  pub body : FileData

-- A response without data, as `http.Error` gives it.
abbrev pub plain_response : ℕ → Response
plain_response code = record { status = code; metric_stat = []; content_encoding = []; body = [] }

-- `statMetric`: its error tells whether the file is missing.
pub data Stat : Type 0 where
  found : MetricData → Stat
  missing unreadable : Stat

unfoldable pub stat_metric : Env → Disk → Text → Text → Stat
stat_metric env disk metric path = if env.fails stat then unreadable else elim (lookup path disk) [
  | none ↦ missing
  | some f ↦ found record {
    name = metric;
    size = length f.content;
    mode = f.mode;
    mod_time = f.mod_time;
    encoding = 0;
    content = [];
  }
]

-- `deleteMetric`: the code of the error, if there is one.
unfoldable pub delete_metric : Env → Disk → Text → Bool → Disk × Option ℕ
delete_metric env disk path fatal = elim (lookup path disk) [
  | none ↦ (disk, if fatal then some 404 else none)
  | some f ↦ if env.fails remove then (disk, some 500) else (erase path disk, none)
]

-- The part of `healMetric` for a file that exists: the body goes to a temporary file, which then
-- fills the metric's file.
unfoldable pub heal_existing : Env → Disk → MetricData → Option FileData → Text → Stored → Disk × ℕ
heal_existing env disk header body path old =
    if env.fails temp_file then (disk, 500) else elim body [
      | none ↦ (disk, 500)
      | some bytes ↦
          if env.fails io_copy
          then (disk, 500)
          else if not (length bytes == header.size)
          then (disk, 400)
          else let (filled, failed) = env.fill_all bytes old.content in
            (
              insert path (record old { content = filled; mod_time = env.now }) disk,
              if failed then 500 else 200,
            )
    ]

-- The copy of the body to the new file: the bytes in the file, the count and whether it succeeded.
-- What a copy that failed has written is left out.
unfoldable pub copy_body : Env → Option FileData → FileData × ℕ × Bool
copy_body env none = ([], 0, false)
copy_body env (some bytes) =
    if env.fails io_copy
    then ([], 0, false)
    else if env.sparse_files
    then elim (copy_sparse (env.arrive bytes)) [
      | none ↦ ([], 0, false)
      | some (c, some e) ↦ (c.file, c.written, false)
      | some (c, none) ↦ (c.file, c.written, true)
    ]
    else (bytes, length bytes, true)

abbrev pub new_file : Env → FileData → Stored
new_file env bytes = record { content = bytes; mode = 0o644; mod_time = env.now }

-- The part for a file that does not exist yet.
unfoldable pub heal_missing : Env → Disk → MetricData → Option FileData → Text → Disk × ℕ
heal_missing env disk header body path =
    if env.fails create
    then (disk, 500)
    else if env.fails flock
    then (insert path (new_file env []) disk, 500)
    else (let (bytes, written, done) = copy_body env body in
        let copied = insert path (new_file env bytes) disk in
        let removed = if env.fails remove then copied else erase path copied in
        if not done
        then (removed, 500)
        else if not (written == header.size)
        then (removed, 400)
        else (copied, 200))

-- `healMetric`.
unfoldable pub heal_metric : Env → Disk → Request → Text → Disk × ℕ
heal_metric env disk r path =
    if not (text_eq r.content_type (codes "application/octet-stream"))
    then (disk, 400)
    else (let body =
          if text_eq r.content_encoding (codes "snappy")
          then env.decompress r.body
          else some r.body in
        elim (env.unmarshal r.metric_stat) [
          | none ↦ (disk, 400)
          | some header ↦
              if leb header.size 28
              then (disk, 400)
              else if env.fails stat
              then (disk, 500)
              else elim (lookup path disk) [
                | some old ↦ heal_existing env disk header body path old
                | none ↦
                    if env.fails mkdir then (disk, 500) else heal_missing env disk header body path
              ]
        ])

-- `serveMetric`. `http.ServeContent` sends the whole content, for a request without conditions.
unfoldable pub serve_metric : Env → Disk → Request → Text → Text → Response
serve_metric env disk r path metric = elim (stat_metric env disk metric path) [
  | missing ↦ plain_response 404
  | unreadable ↦ plain_response 500
  | found header ↦
      if env.fails open_file
      then plain_response 500
      else if env.fails flock
      then plain_response 500
      else elim (lookup path disk) [
        | none ↦ plain_response 500
        | some f ↦
            if text_eq r.accept_encoding (codes "snappy")
            then (let blob = env.compress f.content in
                if length blob == 0 then plain_response 500 else record {
                  status = 200;
                  metric_stat = env.marshal (record header { encoding = enc_snappy });
                  content_encoding = codes "snappy";
                  body = blob;
                })
            else record {
              status = 200;
              metric_stat = env.marshal header;
              content_encoding = [];
              body = f.content;
            }
      ]
]

-- The answer to HEAD: the header is that of no metric, `null`, when there is none.
unfoldable pub serve_head : Env → Disk → Text → Text → Response
serve_head env disk path metric = elim (stat_metric env disk metric path) [
  | found header ↦ record (plain_response 200) { metric_stat = env.marshal header }
  | missing ↦ record (plain_response 404) { metric_stat = codes "null" }
  | unreadable ↦ record (plain_response 404) { metric_stat = codes "null" }
]

-- The response to an error, or to none.
abbrev pub code_response : Option ℕ → Response
code_response none = plain_response 200
code_response (some code) = plain_response code

-- The switch of `serveMetrics` over the method.
unfoldable pub serve_method : Env → Disk → Request → Text → Text → Method → Disk × Response
unfolding serve_head serve_metric delete_metric heal_metric
serve_method env disk r path metric head = (disk, serve_head env disk path metric)
serve_method env disk r path metric get = (disk, serve_metric env disk r path metric)
serve_method env disk r path metric delete =
    let (after, code) = delete_metric env disk path true in (after, code_response code)
serve_method env disk r path metric put =
    let (after, code) = delete_metric env disk path false in
    elim code [
      | some c ↦ (after, plain_response c)
      | none ↦
          let (healed, status) = heal_metric env after r path in (healed, plain_response status)
    ]
serve_method env disk r path metric post =
    let (healed, status) = heal_metric env disk r path in (healed, plain_response status)
serve_method env disk r path metric other = (disk, plain_response 400)

abbrev pub metrics_path : Text
metrics_path = codes "/metrics/"

-- `serveMetrics`, for a path that begins with `/metrics/`.
unfoldable pub serve_metrics : Env → Disk → Request → Disk × Response
unfolding serve_method
serve_metrics env disk r =
    let metric = drop (length metrics_path) r.url_path in
    let path = metric_to_path env.prefix metric in
    if length metric == 0
    then (disk, plain_response 400)
    else serve_method env disk r path metric r.method
