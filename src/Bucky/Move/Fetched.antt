-- ===== src/Bucky/Move/Fetched.antt =====
-- What GetMetricData of cmd/bucky/common.go brings back of a metric's file.
use buckytools.Prelude.{
  ◌≡◌, refl, sym, ap, ◌∙◌, ◌⊎◌, inl, inr, Option, none, some, [], ◌++◌, arith, ◌==◌, if◌then◌else◌,
  Bool-cases, Option-cases, length, drop, drop-append,
}
use mathlib.Core.Path.{subst}
use buckytools.Prelude.Text.{Text, codes, text_eq}
use buckytools.Prelude.Dict.{lookup}
use buckytools.Metrics.{MetricData, metric_to_path, enc_identity, enc_snappy}
use buckytools.Buckyd.{
  Stored, Disk, Env, get, Request, Response, metrics_path, stat_metric, serve_metric, serve_method,
  serve_metrics,
}
use buckytools.Buckyd.Heal.{body_of}
use buckytools.Buckyd.Serve.{Asks, serve_metrics-Asks}
use buckytools.Bucky.{
  Net, World, disk_at, linked, exchange, sanitize_host_port, get_request, post_request, metric_of,
  get_metric_data,
}
use buckytools.Bucky.Move.Exchange.{linked_done}
use buckytools.Bucky.Move.Posted.{serve_metrics_nameless}

-- A response with the bytes of a file, compressed or plain.
abbrev Sent : Env → Stored → Response → Type 0
Sent env f r =
    ((r.content_encoding ≡ codes "snappy") × (r.body ≡ env.compress f.content))
    ⊎ ((r.content_encoding ≡ []) × (r.body ≡ f.content))

serve_metric-Sent :
    (env : Env) (disk : Disk) (r : Request) (path metric : Text) (f : Stored)
    → lookup path disk ≡ some f
    → (serve_metric env disk r path metric).status ≡ 200
    → Sent env f (serve_metric env disk r path metric)
unfolding serve_metric stat_metric
serve_metric-Sent env disk r path metric f e ok =
    elim (Bool-cases (text_eq r.accept_encoding (codes "snappy"))) [
      | inl snappy ↦ inl (ground (arith, e, snappy), ground (arith, e, snappy))
      | inr plain ↦ inr (ground (arith, e, plain), ground (arith, e, plain))
    ]

serve_metrics-Sent :
    (env : Env) (disk : Disk) (r : Request) (metric : Text) (f : Stored)
    → r.method ≡ get
    → r.url_path ≡ metrics_path ++ metric
    → lookup (metric_to_path env.prefix metric) disk ≡ some f
    → (serve_metrics env disk r).1.status ≡ 200
    → Sent env f (serve_metrics env disk r).1
unfolding serve_method
serve_metrics-Sent env disk r metric f e name there ok =
    let dropped : drop (length metrics_path) r.url_path ≡ metric =
      ap (drop (length metrics_path)) name
      ∙ drop-append (length metrics_path) metrics_path metric refl in
    elim (Bool-cases (length metric == 0)) [
      | inl nameless ↦
          let refused =
            serve_metrics_nameless env disk r
              (ap (λ (l : Text). length l == 0) dropped ∙ nameless) in
          absurd (omega (arith, refused, ok))
      | inr named ↦
          let asks : Asks r get metric = record {
            method_eq = e;
            url_path_eq = name;
            named = λ z. ground arith;
          } in
          let path = metric_to_path env.prefix metric in
          let answer =
            ap (λ (x : Disk × Response). x.1) (serve_metrics-Asks env disk r get metric asks) in
          subst (Sent env f) (sym answer) (
            serve_metric-Sent env disk r path metric f there
              (sym (ap (λ (x : Response). x.status) answer) ∙ ok))
    ]

-- A metric is made of an answer of 200 only, and it has the answer's bytes.
metric_of-some :
    (net : Net) (r : Response) (m : MetricData)
    → metric_of net r ≡ some m
    → (r.status ≡ 200)
      × (m.content ≡ r.body)
      × (m.encoding
          ≡ (if text_eq r.content_encoding (codes "snappy") then enc_snappy else enc_identity))
unfolding metric_of
metric_of-some net r m e = elim (Bool-cases (r.status == 200)) [
  | inr other ↦ absurd (ground (arith, e, other))
  | inl ok ↦ elim (Option-cases (net.unmarshal r.metric_stat)) [
    | inl bad ↦ absurd (ground (arith, e, ok, bad))
    | inr (found, good) ↦
        let same : some record found {
          content = r.body;
          encoding =
              if text_eq r.content_encoding (codes "snappy") then enc_snappy else enc_identity;
        }
            ≡ some m =
          sym (rw (ok, good, metric_of) refl) ∙ e in
        let made : record found {
          content = r.body;
          encoding =
              if text_eq r.content_encoding (codes "snappy") then enc_snappy else enc_identity;
        }
            ≡ m =
          cc in
        (
          ground arith,
          ap (λ (x : MetricData). x.content) (sym made),
          ap (λ (x : MetricData). x.encoding) (sym made),
        )
  ]
]

-- The POST of a metric that was sent brings the bytes of its file, if the one daemon decompresses what
-- the other compresses.
body_of-Sent :
    (net : Net) (from to : Env) (f : Stored) (r : Response) (m moved : MetricData)
    → to.decompress (from.compress f.content) ≡ some f.content
    → Sent from f r
    → metric_of net r ≡ some m
    → moved.content ≡ m.content
    → moved.encoding ≡ m.encoding
    → body_of to (post_request net moved) ≡ some f.content
unfolding text_eq
body_of-Sent net from to f r m moved codec (inl (snappy, body)) e same_content same_encoding =
    let (ok, content, encoding) = metric_of-some net r m e in
    let coded : moved.encoding ≡ enc_snappy = same_encoding ∙ (encoding ∙ rw snappy refl) in
    rw (coded, same_content, content, body) codec
body_of-Sent net from to f r m moved codec (inr (plain, body)) e same_content same_encoding =
    let (ok, content, encoding) = metric_of-some net r m e in
    let coded : moved.encoding ≡ enc_identity = same_encoding ∙ (encoding ∙ rw plain refl) in
    rw (coded, same_content, content, body) refl

received :
    (o : Option Response) (read : Response → Option MetricData) (m : MetricData)
    → (elim o [ none ↦ none | some r ↦ read r ]) ≡ some m
    → (r : Response) × (o ≡ some r) × (read r ≡ some m)
received none read m e = absurd cc
received (some r) read m e = (r, refl, e)

-- What `GetMetricData` brings back of a file is what a POST of it brings to another daemon, under any
-- name.
pub get_metric_data-body_of :
    (net : Net) (world : World) (server host name : Text) (to : Env) (f : Stored)
    (m moved : MetricData)
    → sanitize_host_port net server ≡ some host
    → to.decompress ((net.env_of host).compress f.content) ≡ some f.content
    → lookup (metric_to_path (net.env_of host).prefix name) (disk_at world host) ≡ some f
    → (get_metric_data net world server name).1 ≡ some m
    → moved.content ≡ m.content
    → moved.encoding ≡ m.encoding
    → body_of to (post_request net moved) ≡ some f.content
unfolding get_metric_data exchange
get_metric_data-body_of net world server host name to f m moved e codec there got same_content
      same_encoding =
    let env = net.env_of host in
    let q = get_request net name in
    let answer = serve_metrics env (disk_at world host) q in
    let sent = linked world host answer (net.link host get) in
    let shown : (get_metric_data net world server name).1
        ≡ (elim (sent.1) [ none ↦ none | some r ↦ metric_of net r ]) =
      rw (e, get_metric_data) refl in
    let (r, arrives, read) = received sent.1 (metric_of net) m (sym shown ∙ got) in
    let (stored, reply) = linked_done world host answer (net.link host get) r arrives in
    let (ok, content, encoding) = metric_of-some net r m read in
    let bytes =
      serve_metrics-Sent env (disk_at world host) q name f refl refl there
        (ap (λ (x : Response). x.status) reply ∙ ok) in
    body_of-Sent net env to f r m moved codec (subst (Sent env f) reply bytes) read same_content
      same_encoding
