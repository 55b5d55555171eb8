-- ===== src/Relay.antt =====
-- cmd/bucky-pickle-relay/main.go: a relay that takes pickled metrics on TCP connections and sends them
-- on as lines of text. This file has its counters and the metrics it reports of itself.
pub mod Frames
pub mod Stream
pub mod Pieces
pub mod Pickle
pub mod Lines
pub mod Batch
pub mod Out
pub mod Delivery
pub mod Progress
mod Tests
use buckytools.Prelude.{ℕ, List, [], ◌∷◌, ◌++◌}
use buckytools.Prelude.Text.{Text, codes, show_nat}

-- The counters of the process.
pub record Counters : Type 0 where
  pub seen_pickles : ℕ
  pub seen_metrics : ℕ
  pub sent_metrics : ℕ

-- One line of `reportMetrics`.
abbrev report_line : Text → Text → ℕ → ℕ → Text
report_line prefix name value timestamp =
    prefix ++ (name ++ (codes " " ++ (show_nat value ++ (codes " " ++ show_nat timestamp))))

-- `reportMetrics`, with the length of the queue, the memory of the process and the clock.
unfoldable pub report_metrics : Text → Counters → ℕ → ℕ → ℕ → List Text
report_metrics prefix c queued memory timestamp =
    report_line prefix (codes ".seenPickles") c.seen_pickles timestamp
    ∷ (report_line prefix (codes ".seenMetrics") c.seen_metrics timestamp
        ∷ (report_line prefix (codes ".sentMetrics") c.sent_metrics timestamp
            ∷ (report_line prefix (codes ".queueLength") queued timestamp
                ∷ (report_line prefix (codes ".systemMemory") memory timestamp ∷ []))))
