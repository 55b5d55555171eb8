-- ===== src/Bucky/Workers.antt =====
-- The workers of bucky's commands delete, du and restore (cmd/bucky/delete.go, du.go, restore.go), one
-- of each kind alone, over the stores of the cluster.
use buckytools.Prelude.{
  ℕ, ◌+◌, Bool, true, false, ◌||◌, not, Option, none, some, List, [], ◌∷◌, if◌then◌else◌,
}
use buckytools.Prelude.Text.{Text, text_eq}
use buckytools.Whisper.File.{FileData}
use buckytools.Metrics.{MetricData, enc_snappy}
use buckytools.Bucky.{Net, World, delete_metric, stat_remote_metric, post_metric, metric_encode}

pub record DeleteWork : Type 0 where
  pub server : Text
  pub name : Text

-- `deleteWorker`, with `workerErrors`.
unfoldable pub delete_worker : Net → World → List DeleteWork → Bool → World × Bool
delete_worker net world [] errors = (world, errors)
delete_worker net world (work ∷ rest) errors =
    let (after, done) = delete_metric net world work.server work.name in
    delete_worker net after rest (errors || not done)

-- `duWorker` and `duResults`: the total of the sizes.
unfoldable pub du_worker : Net → World → List DeleteWork → ℕ → Bool → World × ℕ × Bool
du_worker net world [] total errors = (world, total, errors)
du_worker net world (work ∷ rest) total errors =
    let (after, stat) = stat_remote_metric net world work.server work.name in
    elim stat [
      | none ↦ du_worker net after rest total true
      | some s ↦ du_worker net after rest (total + s.size) errors
    ]

-- One turn of the loop of `restoreTarWorker`: a metric goes to its place on the ring, but for a single
-- host only if that is the place. `none` is a panic.
unfoldable pub restore :
    Net
    → (FileData → FileData)
    → (Text → Option Text)
    → Option Text
    → World
    → MetricData
    → Option (World × Bool)
restore net compress place single world work = elim (place work.name) [
  | none ↦ none
  | some server ↦
      if elim single [ none ↦ false | some host ↦ not (text_eq server host) ]
      then some (world, false)
      else elim (metric_encode compress work enc_snappy) [
        | none ↦ some (world, true)
        | some m ↦ let (after, done) = post_metric net world server m in some (after, not done)
      ]
]

-- The loop of `restoreTarWorker`.
unfoldable pub restore_tar_worker :
    Net
    → (FileData → FileData)
    → (Text → Option Text)
    → Option Text
    → World
    → List MetricData
    → Bool
    → Option (World × Bool)
unfolding restore
restore_tar_worker net compress place single world [] errors = some (world, errors)
restore_tar_worker net compress place single world (work ∷ rest) errors =
    elim (restore net compress place single world work) [
      | none ↦ none
      | some (after, bad) ↦ restore_tar_worker net compress place single after rest (errors || bad)
    ]
