-- ===== src/Bucky/Move/Posted.antt =====
-- What PostMetric of cmd/bucky/common.go leaves in the store of its daemon when it succeeds.
use buckytools.Prelude.{
  ◌≡◌, refl, sym, ap, ◌∙◌, inl, inr, Bool, true, false, Option, none, some, ◌++◌, arith, ◌==◌,
  Bool-cases, length, drop, drop-append,
}
use buckytools.Prelude.Text.{Text}
use buckytools.Prelude.Dict.{lookup}
use buckytools.Metrics.{MetricData, metric_to_path}
use buckytools.Buckyd.{
  Stored, Disk, Env, post, Request, Response, metrics_path, serve_method, serve_metrics,
}
use buckytools.Whisper.File.{FileData}
use buckytools.Sparse.Content.{Reads, IsTruncated}
use buckytools.Buckyd.Heal.{body_of, arrived, heal_metric_done}
use buckytools.Buckyd.Serve.{Asks, serve_metrics-Asks}
use buckytools.Bucky.{
  Net, World, disk_at, linked, exchange, sanitize_host_port, post_request, post_metric,
}
use buckytools.Bucky.Move.Exchange.{linked_done}

pub serve_metrics_nameless :
    (env : Env) (disk : Disk) (r : Request)
    → (length (drop (length metrics_path) r.url_path) == 0) ≡ true
    → (serve_metrics env disk r).1.status ≡ 400
unfolding serve_metrics
serve_metrics_nameless env disk r e = rw e refl

-- A POST that the daemon answers 200 leaves a file for the metric, made from what it brings.
serve_metrics_post :
    (env : Env) (disk : Disk) (r : Request) (metric : Text) (bytes : FileData)
    → body_of env r ≡ some bytes
    → Reads (env.arrive bytes) bytes
    → IsTruncated (env.arrive bytes)
    → r.method ≡ post
    → r.url_path ≡ metrics_path ++ metric
    → (serve_metrics env disk r).1.status ≡ 200
    → let path = metric_to_path env.prefix metric in
      (f : Stored) × (lookup path (serve_metrics env disk r).0 ≡ some f)
      × (f.content ≡ arrived env (lookup path disk) bytes)
unfolding serve_method
serve_metrics_post env disk r metric bytes brought given cut e name done =
    let dropped : drop (length metrics_path) r.url_path ≡ metric =
      ap (drop (length metrics_path)) name
      ∙ drop-append (length metrics_path) metrics_path metric refl in
    elim (Bool-cases (length metric == 0)) [
      | inl nameless ↦
          let refused =
            serve_metrics_nameless env disk r
              (ap (λ (l : Text). length l == 0) dropped ∙ nameless) in
          absurd (omega (arith, refused, done))
      | inr named ↦
          let asks : Asks r post metric = record {
            method_eq = e;
            url_path_eq = name;
            named = λ z. ground arith;
          } in
          let path = metric_to_path env.prefix metric in
          let answer = serve_metrics-Asks env disk r post metric asks in
          let (f, g, made) =
            heal_metric_done env disk r path bytes brought given cut
              (sym (ap (λ (x : Disk × Response). x.1.status) answer) ∙ done) in
          (f, ap (λ (x : Disk × Response). lookup path x.0) answer ∙ g, made)
    ]

answered_ok :
    (o : Option Response)
    → (elim o [ none ↦ false | some r ↦ r.status == 200 ]) ≡ true
    → (r : Response) × (o ≡ some r) × (r.status ≡ 200)
answered_ok none h = absurd (ground arith)
answered_ok (some r) h = (r, refl, ground arith)

-- What `PostMetric` without an error leaves at a server that is not malformed.
pub post_metric_done :
    (net : Net) (world : World) (server host : Text) (metric : MetricData) (bytes : FileData)
    → sanitize_host_port net server ≡ some host
    → body_of (net.env_of host) (post_request net metric) ≡ some bytes
    → Reads ((net.env_of host).arrive bytes) bytes
    → IsTruncated ((net.env_of host).arrive bytes)
    → (post_metric net world server metric).1 ≡ true
    → let path = metric_to_path (net.env_of host).prefix metric.name in
      (f : Stored) × (lookup path (disk_at (post_metric net world server metric).0 host) ≡ some f)
      × (f.content ≡ arrived (net.env_of host) (lookup path (disk_at world host)) bytes)
unfolding post_metric exchange
post_metric_done net world server host metric bytes e brought given cut done =
    let env = net.env_of host in
    let q = post_request net metric in
    let answer = serve_metrics env (disk_at world host) q in
    let sent = linked world host answer (net.link host post) in
    let same : post_metric net world server metric
        ≡ (sent.0, elim (sent.1) [ none ↦ false | some r ↦ r.status == 200 ]) =
      rw (e, post_metric) refl in
    let (r, received, ok) = answered_ok sent.1 (sym (ap (λ (x : World × Bool). x.1) same) ∙ done) in
    let (stored, reply) = linked_done world host answer (net.link host post) r received in
    let (f, there, made) =
      serve_metrics_post env (disk_at world host) q metric.name bytes brought given cut refl refl
        (ap (λ (x : Response). x.status) reply ∙ ok) in
    (
      f,
      ap (λ (x : World × Bool). lookup (metric_to_path env.prefix metric.name) (disk_at x.0 host))
            same
          ∙ ap (lookup (metric_to_path env.prefix metric.name)) stored
          ∙ there,
      made,
    )
