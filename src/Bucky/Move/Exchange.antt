-- ===== src/Bucky/Move/Exchange.antt =====
-- Which stores the requests of cmd/bucky/common.go leave as they are.
use buckytools.Prelude.{
  ◌≡◌, refl, sym, ap, ◌∙◌, inl, inr, false, some, arith, if◌then◌else◌, Bool-cases, Option-cases,
}
use buckytools.Prelude.Text.{Text, text_eq, eq_of_text_eq, text_eq_refl}
use buckytools.Prelude.Dict.{lookup, insert, lookup-insert}
use buckytools.Metrics.{MetricData}
use buckytools.Buckyd.{Disk, Env, get, post, delete, Request, Response, serve_method, serve_metrics}
use buckytools.Bucky.{
  Net, World, Link, answered, unreachable, answer_lost, disk_at, linked, exchange,
  sanitize_host_port, get_request, post_request, plain_request, get_metric_data, post_metric,
  delete_metric,
}

disk_at-insert :
    (host j : Text) (disk : Disk) (world : World)
    → disk_at (insert host disk world) j ≡ (if text_eq host j then disk else disk_at world j)
unfolding disk_at
disk_at-insert host j disk world = elim (Bool-cases (text_eq host j)) [
  | inl e ↦
      let found : lookup j (insert host disk world) ≡ some disk =
        lookup-insert host j disk world ∙ rw e refl in
      rw (found, e, disk_at) refl
  | inr e ↦
      let same : lookup j (insert host disk world) ≡ lookup j world =
        lookup-insert host j disk world ∙ rw e refl in
      rw (same, e, disk_at) refl
]

linked_other :
    (world : World) (host j : Text) (answer : Disk × Response) (l : Link)
    → text_eq host j ≡ false
    → disk_at (linked world host answer l).0 j ≡ disk_at world j
unfolding linked
linked_other world host j (after, response) answered h =
    disk_at-insert host j after world ∙ rw h refl
linked_other world host j (after, response) unreachable h = refl
linked_other world host j (after, response) answer_lost h =
    disk_at-insert host j after world ∙ rw h refl

linked_here :
    (world : World) (host : Text) (answer : Disk × Response) (l : Link)
    → answer.0 ≡ disk_at world host
    → disk_at (linked world host answer l).0 host ≡ disk_at world host
unfolding linked
linked_here world host (after, response) answered same =
    disk_at-insert host host after world ∙ rw (text_eq_refl host) same
linked_here world host (after, response) unreachable same = refl
linked_here world host (after, response) answer_lost same =
    disk_at-insert host host after world ∙ rw (text_eq_refl host) same

-- A request that leaves its store as it is leaves all stores as they are.
linked_same :
    (world : World) (host j : Text) (answer : Disk × Response) (l : Link)
    → answer.0 ≡ disk_at world host
    → disk_at (linked world host answer l).0 j ≡ disk_at world j
linked_same world host j answer l same = elim (Bool-cases (text_eq host j)) [
  | inr differs ↦ linked_other world host j answer l differs
  | inl equal ↦
      let at_host : host ≡ j = eq_of_text_eq host j equal in
      ap (disk_at (linked world host answer l).0) (sym at_host)
      ∙ linked_here world host answer l same
      ∙ ap (disk_at world) at_host
]

-- The store of a request that succeeded is what the daemon made of it.
pub linked_done :
    (world : World) (host : Text) (answer : Disk × Response) (l : Link) (r : Response)
    → (linked world host answer l).1 ≡ some r
    → (disk_at (linked world host answer l).0 host ≡ answer.0) × (answer.1 ≡ r)
unfolding linked
linked_done world host (after, response) answered r e =
    (disk_at-insert host host after world ∙ rw (text_eq_refl host) refl, cc)
linked_done world host (after, response) unreachable r e = absurd cc
linked_done world host (after, response) answer_lost r e = absurd cc

-- What a GET does to the stores: nothing.
serve_metrics_get :
    (env : Env) (disk : Disk) (r : Request) → r.method ≡ get → (serve_metrics env disk r).0 ≡ disk
unfolding serve_metrics serve_method
serve_metrics_get env disk r e = rw e (ground arith)

pub get_metric_data_same :
    (net : Net) (world : World) (server name j : Text)
    → disk_at (get_metric_data net world server name).0 j ≡ disk_at world j
unfolding get_metric_data exchange
get_metric_data_same net world server name j = elim (Option-cases (sanitize_host_port net server)) [
  | inl e ↦ rw (e, get_metric_data) refl
  | inr (host, e) ↦
      let env = net.env_of host in
      let disk = disk_at world host in
      let r = get_request net name in
      rw (e, get_metric_data)
        (linked_same world host j (serve_metrics env disk r) (net.link host get)
          (serve_metrics_get env disk r refl))
]

pub post_metric_other :
    (net : Net) (world : World) (server host j : Text) (metric : MetricData)
    → sanitize_host_port net server ≡ some host
    → text_eq host j ≡ false
    → disk_at (post_metric net world server metric).0 j ≡ disk_at world j
unfolding post_metric exchange
post_metric_other net world server host j metric e differs =
    rw (e, post_metric)
      (linked_other world host j
        (serve_metrics (net.env_of host) (disk_at world host) (post_request net metric))
        (net.link host post) differs)

pub delete_metric_other :
    (net : Net) (world : World) (server host j metric : Text)
    → sanitize_host_port net server ≡ some host
    → text_eq host j ≡ false
    → disk_at (delete_metric net world server metric).0 j ≡ disk_at world j
unfolding delete_metric exchange
delete_metric_other net world server host j metric e differs =
    rw (e, delete_metric)
      (linked_other world host j
        (serve_metrics (net.env_of host) (disk_at world host) (plain_request delete metric))
        (net.link host delete) differs)
