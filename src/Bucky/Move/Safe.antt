-- ===== src/Bucky/Move/Safe.antt =====
-- The turns of rebalanceWorker of cmd/bucky/rebalance.go: where the file of a metric is after one.
use buckytools.Prelude.{
  ◌≡◌, refl, sym, ap, ◌∙◌, ◌≢◌, ◌⊎◌, inl, inr, Bool, true, false, not, some, arith, Bool-cases,
  Option-cases,
}
use buckytools.Prelude.Text.{Text, text_eq, eq_of_text_eq}
use buckytools.Prelude.Dict.{lookup}
use buckytools.Metrics.{metric_to_path}
use buckytools.Sparse.Content.{Reads, IsTruncated}
use buckytools.Buckyd.{Stored}
use buckytools.Buckyd.Heal.{arrived}
use buckytools.Bucky.{Net, World, disk_at, sanitize_host_port, get_metric_data, post_metric}
use buckytools.Bucky.Move.{MigrateWork, backfill, clean_up, relocate}
use buckytools.Bucky.Move.Exchange.{get_metric_data_same, post_metric_other, delete_metric_other}
use buckytools.Bucky.Move.Posted.{post_metric_done}
use buckytools.Bucky.Move.Fetched.{get_metric_data-body_of}

not-false : (b : Bool) → not b ≡ false → b ≡ true
not-false true h = refl
not-false false h = sym h

-- What a backfill leaves at the source: everything.
backfill_same :
    (net : Net) (world : World) (work : MigrateWork) (host j : Text)
    → sanitize_host_port net work.new_location ≡ some host
    → text_eq host j ≡ false
    → disk_at (backfill net world work).0 j ≡ disk_at world j
unfolding backfill
backfill_same net world work host j e differs =
    let fetched = get_metric_data net world work.old_location work.old_name in
    let same = get_metric_data_same net world work.old_location work.old_name j in
    elim (Option-cases (fetched.1)) [
      | inl nothing ↦ rw (nothing, backfill) same
      | inr (m, found) ↦
          rw (found, backfill)
            (post_metric_other net fetched.0 work.new_location host j
                (record m { name = work.new_name }) e differs
              ∙ same)
    ]

-- And at the target, if there is no error: a file with the bytes of the source's, or what the fill
-- made from them of the file that was there.
backfill_done :
    (net : Net) (world : World) (work : MigrateWork) (source target : Text) (f : Stored)
    → sanitize_host_port net work.old_location ≡ some source
    → sanitize_host_port net work.new_location ≡ some target
    → lookup (metric_to_path (net.env_of source).prefix work.old_name) (disk_at world source)
      ≡ some f
    → (net.env_of target).decompress ((net.env_of source).compress f.content) ≡ some f.content
    → Reads ((net.env_of target).arrive f.content) f.content
    → IsTruncated ((net.env_of target).arrive f.content)
    → (backfill net world work).1 ≡ false
    → let path = metric_to_path (net.env_of target).prefix work.new_name in
      (g : Stored) × (lookup path (disk_at (backfill net world work).0 target) ≡ some g)
      × (g.content ≡ arrived (net.env_of target) (lookup path (disk_at world target)) f.content)
unfolding backfill
backfill_done net world work source target f e_old e_new there codec given cut done =
    let env = net.env_of target in
    let path = metric_to_path env.prefix work.new_name in
    let fetched = get_metric_data net world work.old_location work.old_name in
    elim (Option-cases (fetched.1)) [
      | inl nothing ↦
          let bad : (backfill net world work).1 ≡ true = rw (nothing, backfill) refl in
          absurd (ground arith)
      | inr (m, found) ↦
          let moved = record m { name = work.new_name } in
          let brought =
            get_metric_data-body_of net world work.old_location source work.old_name env f m moved
              e_old codec there found refl refl in
          let posted = post_metric net fetched.0 work.new_location moved in
          let same : backfill net world work ≡ (posted.0, not posted.1) =
            rw (found, backfill) refl in
          let ok : posted.1 ≡ true =
            not-false posted.1 (sym (ap (λ (x : World × Bool). x.1) same) ∙ done) in
          let (g, stored, made) =
            post_metric_done net fetched.0 work.new_location target moved f.content e_new brought
              given cut ok in
          (
            g,
            ap (λ (x : World × Bool). lookup path (disk_at x.0 target)) same ∙ stored,
            made
                ∙ ap (λ d. arrived env (lookup path d) f.content)
                    (get_metric_data_same net world work.old_location work.old_name target),
          )
    ]

clean_up_error :
    (net : Net) (do_delete : Bool) (work : MigrateWork) (x : World × Bool)
    → x.1 ≡ true
    → (clean_up net do_delete work x).0 ≡ x.0
unfolding clean_up
clean_up_error net do_delete work (world, true) e = refl
clean_up_error net do_delete work (world, false) e = absurd cc

clean_up_other :
    (net : Net) (do_delete : Bool) (work : MigrateWork) (x : World × Bool) (host j : Text)
    → sanitize_host_port net work.old_location ≡ some host
    → text_eq host j ≡ false
    → disk_at (clean_up net do_delete work x).0 j ≡ disk_at x.0 j
unfolding clean_up
clean_up_other net do_delete work (world, true) host j e differs = refl
clean_up_other net true work (world, false) host j e differs =
    delete_metric_other net world work.old_location host j work.old_name e differs
clean_up_other net false work (world, false) host j e differs = refl

text_eq_differs : (s t : Text) → s ≢ t → text_eq s t ≡ false
text_eq_differs s t h = elim (Bool-cases (text_eq s t)) [
  | inl e ↦ absurd (h (eq_of_text_eq s t e))
  | inr e ↦ e
]

-- Whatever requests fail or lose their answer, and whether or not the source is to be deleted: after a
-- turn of `rebalanceWorker` between two daemons, whose addresses are not malformed, the metric's file
-- is still at the source as it was, or the target has a file for it, with the source's bytes if it had
-- none before, and else with what fill.All makes from them of the one that it had. The target
-- decompresses what the source compresses, and there the body's reader gives all bytes in order and
-- Truncate does not fail.
pub relocate_keeps :
    (net : Net) (do_delete : Bool) (world : World) (work : MigrateWork) (source target : Text)
    (f : Stored)
    → sanitize_host_port net work.old_location ≡ some source
    → sanitize_host_port net work.new_location ≡ some target
    → source ≢ target
    → lookup (metric_to_path (net.env_of source).prefix work.old_name) (disk_at world source)
      ≡ some f
    → (net.env_of target).decompress ((net.env_of source).compress f.content) ≡ some f.content
    → Reads ((net.env_of target).arrive f.content) f.content
    → IsTruncated ((net.env_of target).arrive f.content)
    → let after = (relocate net do_delete world work).0 in
      let path = metric_to_path (net.env_of target).prefix work.new_name in
      (lookup (metric_to_path (net.env_of source).prefix work.old_name) (disk_at after source)
        ≡ some f)
      ⊎ ((g : Stored) × (lookup path (disk_at after target) ≡ some g)
          × (g.content
              ≡ arrived (net.env_of target) (lookup path (disk_at world target)) f.content))
unfolding relocate
relocate_keeps net do_delete world work source target f e_old e_new differs there codec given cut =
    let x = backfill net world work in
    let apart = text_eq_differs source target differs in
    let back = text_eq_differs target source (λ e. differs (sym e)) in
    elim (Bool-cases x.1) [
      | inl failed ↦
          let same =
            ap (λ w. disk_at w source) (clean_up_error net do_delete work x failed)
            ∙ backfill_same net world work target source e_new back in
          inl (ap (lookup (metric_to_path (net.env_of source).prefix work.old_name)) same ∙ there)
      | inr done ↦
          let (g, stored, made) =
            backfill_done net world work source target f e_old e_new there codec given cut done in
          let same = clean_up_other net do_delete work x source target e_old apart in
          inr (
            g,
            ap (lookup (metric_to_path (net.env_of target).prefix work.new_name)) same ∙ stored,
            made,
          )
    ]
