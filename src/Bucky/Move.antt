-- ===== src/Bucky/Move.antt =====
-- The workers of cmd/bucky/rebalance.go and cmd/bucky/backfill.go: a metric is fetched from one server
-- and posted to another, and deleted where it was only after that.
pub mod Safe
pub mod Posted
pub mod Fetched
pub mod Exchange
use buckytools.Prelude.{Bool, true, false, ◌||◌, not, none, some, List, [], ◌∷◌, if◌then◌else◌}
use buckytools.Prelude.Text.{Text}
use buckytools.Bucky.{Net, World, get_metric_data, post_metric, delete_metric}

pub record MigrateWork : Type 0 where
  pub old_name : Text
  pub new_name : Text
  pub old_location : Text
  pub new_location : Text

-- One turn of the loop of `backfillWorker`, and whether it meets an error.
unfoldable pub backfill : Net → World → MigrateWork → World × Bool
backfill net world work =
    let (fetched, metric) = get_metric_data net world work.old_location work.old_name in
    elim metric [
      | none ↦ (fetched, true)
      | some m ↦
          let (posted, done) =
            post_metric net fetched work.new_location (record m { name = work.new_name }) in
          (posted, not done)
    ]

-- The end of a turn of `rebalanceWorker`.
unfoldable pub clean_up : Net → Bool → MigrateWork → World × Bool → World × Bool
clean_up net do_delete work (world, true) = (world, true)
clean_up net do_delete work (world, false) =
    if do_delete
    then (let (after, done) = delete_metric net world work.old_location work.old_name in
        (after, not done))
    else (world, false)

-- One turn of the loop of `rebalanceWorker`: up to the delete it is that of a backfill.
unfoldable pub relocate : Net → Bool → World → MigrateWork → World × Bool
unfolding backfill clean_up
relocate net do_delete world work = clean_up net do_delete work (backfill net world work)

-- The loop of `rebalanceWorker`, with `workerErrors`.
unfoldable pub rebalance_worker : Net → Bool → World → List MigrateWork → Bool → World × Bool
unfolding relocate
rebalance_worker net do_delete world [] errors = (world, errors)
rebalance_worker net do_delete world (work ∷ rest) errors =
    let (after, bad) = relocate net do_delete world work in
    rebalance_worker net do_delete after rest (errors || bad)

-- The loop of `backfillWorker`.
unfoldable pub backfill_worker : Net → World → List MigrateWork → Bool → World × Bool
unfolding backfill
backfill_worker net world [] errors = (world, errors)
backfill_worker net world (work ∷ rest) errors =
    let (after, bad) = backfill net world work in backfill_worker net after rest (errors || bad)
