-- ===== src/Buckyd/Tests.antt =====
-- Runs of the handlers, and their theorems applied to a small store.
use buckytools.Prelude.{
  ℕ, ◌≡◌, refl, inl, Bool, true, false, Option, none, some, List, [], ◌∷◌, ◌++◌, append-nil, arith,
  replicate,
}
use buckytools.Prelude.Text.{Text, codes, text_eq}
use buckytools.Prelude.Strings.{has_prefix, replace_byte}
use buckytools.Prelude.Dict.{lookup}
use buckytools.Whisper.File.{FileData, write_at}
use buckytools.Sparse.{
  eof, done, copy_sparse, copy_loop, store_block, end_round, all_zero, put, skip, truncate,
}
use buckytools.Metrics.{MetricData, metric_to_path, metric_to_relative}
use buckytools.Metrics.Clean.{clean, path_join}
use buckytools.Metrics.Cache.{MetricsCache, new_metrics_cache, refresh_cache, Met}
use buckytools.Buckyd.{
  Disk, OsCall, Env, get, post, delete, Method, Request, heal_metric, heal_missing, copy_body,
  new_file, serve_metrics, metrics_path,
}
use buckytools.Buckyd.Heal.{IsHealthy, Brings, heal_metric-kept}
use buckytools.Buckyd.Serve.{Asks, serve_metrics_post_get, serve_metrics_other}
use buckytools.Buckyd.Inventory.{Inventory, Query}

-- The header X-Metric-Stat of the tests is the size alone.
abbrev header_of : ℕ → MetricData
header_of n = record { name = []; size = n; mode = 0; mod_time = 0; encoding = 0; content = [] }

abbrev parse_header : Text → Option MetricData
parse_header [] = none
parse_header (n ∷ rest) = some (header_of n)

abbrev env_where : (OsCall → Bool) → Env
env_where fails = record {
  prefix = codes "/w";
  sparse_files = true;
  now = 5;
  fails = fails;
  marshal = λ header. header.size ∷ [];
  unmarshal = parse_header;
  compress = λ bytes. bytes;
  decompress = λ bytes. some bytes;
  arrive = λ bytes. record { read = bytes; read_end = eof; disk = done; truncated = true } ∷ [];
  fill_all = λ src dst. (dst, false);
}

abbrev env : Env
env = env_where (λ call. false)

env-IsHealthy : IsHealthy env
env-IsHealthy = record {
  calls = λ c. refl;
  arrives = λ bytes. ((refl, inl (refl, refl, refl)), append-nil bytes);
}

abbrev bytes : FileData
bytes = replicate 29 1

abbrev metric : Text
metric = codes "a.b"

abbrev asking : Method → Text → Request
asking method size = record {
  method = method;
  url_path = metrics_path ++ metric;
  content_type = codes "application/octet-stream";
  content_encoding = [];
  accept_encoding = [];
  metric_stat = size;
  body = bytes;
}

asking-Asks : (method : Method) (size : Text) → Asks (asking method size) method metric
asking-Asks method size = record {
  method_eq = refl;
  url_path_eq = refl;
  named = λ e. absurd (omega arith);
}

posting-Brings : Brings env (asking post (29 ∷ [])) bytes (header_of 29)
unfolding text_eq
posting-Brings = record {
  content_type_eq = refl;
  body_eq = refl;
  header_eq = refl;
  size_eq = refl;
  large = omega arith;
}

-- A body of 29 bytes that is announced as 30.
mismatch_status : (heal_metric env [] (asking post (30 ∷ [])) (codes "/w/a/b.wsp")).1 ≡ 400
unfolding heal_metric heal_missing copy_body copy_sparse copy_loop store_block end_round all_zero
    put skip truncate write_at lookup text_eq
mismatch_status = refl

heal_metric-kept_example :
    lookup (codes "/w/a/b.wsp") (heal_metric env [] (asking post (30 ∷ [])) (codes "/w/a/b.wsp")).0
    ≡ lookup (codes "/w/a/b.wsp") []
heal_metric-kept_example =
    heal_metric-kept env [] (asking post (30 ∷ [])) (codes "/w/a/b.wsp") (codes "/w/a/b.wsp") refl
      mismatch_status

serve_metrics_post_get_example :
    let after = serve_metrics env [] (asking post (29 ∷ [])) in
    let answer = (serve_metrics env after.0 (asking get [])).1 in
    (after.1.status ≡ 200) × (answer.status ≡ 200) × (answer.body ≡ bytes)
unfolding lookup text_eq
serve_metrics_post_get_example =
    serve_metrics_post_get env [] (asking post (29 ∷ [])) (asking get []) metric bytes
      (header_of 29) env-IsHealthy posting-Brings (asking-Asks post (29 ∷ [])) (asking-Asks get [])
      refl refl

-- The store with the metric of the tests.
abbrev stored : Disk
stored = (codes "/w/a/b.wsp", new_file env bytes) ∷ []

serve_metrics_other_example :
    lookup (codes "/w/c.wsp") (serve_metrics env stored (asking delete [])).0
    ≡ lookup (codes "/w/c.wsp") stored
unfolding metric_to_path metric_to_relative path_join clean replace_byte text_eq
serve_metrics_other_example =
    serve_metrics_other env stored (asking delete []) (codes "/w/c.wsp") refl

abbrev inventory : Inventory
inventory = record {
  now = 8;
  timeout = 60;
  compile = λ e. some (λ m. has_prefix m e);
  parse_list = λ t. some (t ∷ []);
}

abbrev files : List Met
files =
    (codes "/w/a/b.wsp", some (record { name = codes "b.wsp"; is_dir = false; is_regular = true }))
    ∷ ((codes "/w/c.wsp", some (record { name = codes "c.wsp"; is_dir = false; is_regular = true }))
        ∷ [])

-- The list of two metrics, and a query for those that begin with `a`.
abbrev cache : MetricsCache
cache = refresh_cache (codes "/w") files 7 new_metrics_cache

abbrev query : Query
query = record { method = get; content_length = some 0; force = []; regex = codes "a"; list = [] }
