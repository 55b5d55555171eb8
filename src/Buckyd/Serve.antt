-- ===== src/Buckyd/Serve.antt =====
-- serveMetrics of cmd/buckyd/metrics.go: what a request finds of what the requests before it left.
use buckytools.Prelude.{
  ℕ, ◌≡◌, refl, sym, ap, ◌∙◌, ◌≢◌, inl, inr, Bool, true, false, none, some, ◌++◌, arith, ◌==◌,
  Option-cases, length, drop, drop-append,
}
use buckytools.Prelude.Text.{Text, codes, text_eq, text_eq_refl}
use buckytools.Prelude.Dict.{lookup, insert, lookup-insert, lookup-erase}
use buckytools.Whisper.File.{FileData}
use buckytools.Metrics.{MetricData, metric_to_path}
use buckytools.Buckyd.{
  Stored, Disk, stat, open_file, flock, Env, Method, get, delete, put, post, head, other, Request,
  Response, stat_metric, delete_metric, new_file, serve_metric, code_response, serve_method,
  serve_metrics, metrics_path,
}
use buckytools.Buckyd.Heal.{IsHealthy, Brings, heal_metric_missing, heal_metric_other}

-- A request by a method for a metric.
pub record Asks (r : Request) (method : Method) (metric : Text) : Type 0 where
  pub method_eq : r.method ≡ method
  pub url_path_eq : r.url_path ≡ metrics_path ++ metric
  pub named : length metric ≢ 0

pub serve_metrics-Asks :
    (env : Env) (disk : Disk) (r : Request) (method : Method) (metric : Text)
    → Asks r method metric
    → serve_metrics env disk r
      ≡ serve_method env disk r (metric_to_path env.prefix metric) metric method
unfolding serve_metrics
serve_metrics-Asks env disk r method metric a =
    let dropped : drop (length metrics_path) r.url_path ≡ metric =
      ap (drop (length metrics_path)) a.url_path_eq
      ∙ drop-append (length metrics_path) metrics_path metric refl in
    let named : (length metric == 0) ≡ false = let n = a.named in ground arith in
    rw (dropped, named, a.method_eq) refl

-- What a GET of a metric answers when no call fails: the file as it is.
serve_metric-IsHealthy :
    (env : Env) (disk : Disk) (r : Request) (path metric : Text) (f : Stored)
    → IsHealthy env
    → lookup path disk ≡ some f
    → text_eq r.accept_encoding (codes "snappy") ≡ false
    → ((serve_metric env disk r path metric).status ≡ 200)
      × ((serve_metric env disk r path metric).body ≡ f.content)
unfolding serve_metric stat_metric
serve_metric-IsHealthy env disk r path metric f h e plain =
    rw (h.calls stat, e, serve_metric)
      (rw (h.calls open_file, h.calls flock, e) (rw plain (refl, refl)))

-- A metric that was not in the store, once it has been brought by a POST, is what a GET of the same
-- metric answers, byte for byte, when no call of the operating system fails.
pub serve_metrics_post_get :
    (env : Env) (disk : Disk) (r q : Request) (metric : Text) (bytes : FileData)
    (header : MetricData)
    → IsHealthy env
    → Brings env r bytes header
    → Asks r post metric
    → Asks q get metric
    → text_eq q.accept_encoding (codes "snappy") ≡ false
    → lookup (metric_to_path env.prefix metric) disk ≡ none
    → let after = serve_metrics env disk r in
      let answer = (serve_metrics env after.0 q).1 in
      (after.1.status ≡ 200) × (answer.status ≡ 200) × (answer.body ≡ bytes)
unfolding serve_method
serve_metrics_post_get env disk r q metric bytes header h b asks_post asks_get plain e =
    let path = metric_to_path env.prefix metric in
    let stored = heal_metric_missing env disk r path bytes header h b e in
    let there : lookup path (insert path (new_file env bytes) disk) ≡ some (new_file env bytes) =
      lookup-insert path path (new_file env bytes) disk ∙ rw (text_eq_refl path) refl in
    let got =
      serve_metric-IsHealthy env (insert path (new_file env bytes) disk) q path metric
        (new_file env bytes) h there plain in
    rw (serve_metrics-Asks env disk r post metric asks_post, stored)
      (rw (serve_metrics-Asks env (insert path (new_file env bytes) disk) q get metric asks_get)
        (refl, got.0, got.1))

-- What a DELETE leaves, if there is no error: nothing at the path.
delete_metric-erase :
    (env : Env) (disk : Disk) (path : Text)
    → (delete_metric env disk path true).1 ≡ none
    → lookup path (delete_metric env disk path true).0 ≡ none
unfolding delete_metric
delete_metric-erase env disk path done =
    ground (arith, lookup-erase path path disk, text_eq_refl path)

delete_metric-code :
    (env : Env) (disk : Disk) (path : Text) (c : ℕ)
    → (delete_metric env disk path true).1 ≡ some c
    → c ≢ 200
unfolding delete_metric
delete_metric-code env disk path c e = ground arith

-- An answer of 200 is that of no error.
delete_metric-200 :
    (env : Env) (disk : Disk) (path : Text)
    → (code_response (delete_metric env disk path true).1).status ≡ 200
    → (delete_metric env disk path true).1 ≡ none
delete_metric-200 env disk path done = elim (Option-cases (delete_metric env disk path true).1) [
  | inl e ↦ e
  | inr (c, e) ↦
      absurd
        (delete_metric-code env disk path c e (sym (ap (λ o. (code_response o).status) e) ∙ done))
]

serve_metric_missing :
    (env : Env) (disk : Disk) (r : Request) (path metric : Text)
    → env.fails stat ≡ false
    → lookup path disk ≡ none
    → (serve_metric env disk r path metric).status ≡ 404
unfolding serve_metric stat_metric
serve_metric_missing env disk r path metric works e = rw (works, e, serve_metric) refl

-- After a DELETE that answers 200, a GET of the metric answers 404, where the call of stat does not
-- fail for another reason.
serve_metrics_delete_get :
    (env : Env) (disk : Disk) (r q : Request) (metric : Text)
    → env.fails stat ≡ false
    → Asks r delete metric
    → Asks q get metric
    → (serve_metrics env disk r).1.status ≡ 200
    → (serve_metrics env (serve_metrics env disk r).0 q).1.status ≡ 404
unfolding serve_method
serve_metrics_delete_get env disk r q metric works asks asks_get done =
    let path = metric_to_path env.prefix metric in
    let deleted = serve_metrics-Asks env disk r delete metric asks in
    let after = (serve_method env disk r path metric delete).0 in
    rw deleted (
      rw (serve_metrics-Asks env after q get metric asks_get) (
        serve_metric_missing env after q path metric works (
          delete_metric-erase env disk path (
            delete_metric-200 env disk path
              (sym (ap (λ (x : Disk × Response). x.1.status) deleted) ∙ done)))))

delete_metric_other :
    (env : Env) (disk : Disk) (path j : Text) (fatal : Bool)
    → text_eq path j ≡ false
    → lookup j (delete_metric env disk path fatal).0 ≡ lookup j disk
unfolding delete_metric
delete_metric_other env disk path j fatal differs = ground (arith, lookup-erase path j disk)

serve_method_other :
    (env : Env) (disk : Disk) (r : Request) (path metric j : Text) (method : Method)
    → text_eq path j ≡ false
    → lookup j (serve_method env disk r path metric method).0 ≡ lookup j disk
unfolding serve_method
serve_method_other env disk r path metric j head differs = refl
serve_method_other env disk r path metric j get differs = refl
serve_method_other env disk r path metric j delete differs =
    delete_metric_other env disk path j true differs
serve_method_other env disk r path metric j put differs =
    let after = (delete_metric env disk path false).0 in
    ground (
      arith,
      delete_metric_other env disk path j false differs,
      heal_metric_other env after r path j differs,
    )
serve_method_other env disk r path metric j post differs =
    heal_metric_other env disk r path j differs
serve_method_other env disk r path metric j other differs = refl

-- A request, whatever its method and however it ends, touches no file but that of the metric that its
-- path names.
pub serve_metrics_other :
    (env : Env) (disk : Disk) (r : Request) (j : Text)
    → text_eq (metric_to_path env.prefix (drop (length metrics_path) r.url_path)) j ≡ false
    → lookup j (serve_metrics env disk r).0 ≡ lookup j disk
unfolding serve_metrics
serve_metrics_other env disk r j differs =
    let metric = drop (length metrics_path) r.url_path in
    ground (
      arith,
      serve_method_other env disk r (metric_to_path env.prefix metric) metric j r.method differs,
    )
