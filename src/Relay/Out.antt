-- ===== src/Relay/Out.antt =====
-- plainTextOut and getRelayConnection of cmd/bucky-pickle-relay/main.go: the batches go out on a
-- connection, which is made again after an error. What the network answers is an input.
use buckytools.Prelude.{ℕ, suc, ◌+◌, List, [], ◌∷◌, ◌++◌, ◌==◌, if◌then◌else◌}
use buckytools.Prelude.Text.{Text}
use buckytools.Relay.Batch.{plain_text_batch}

-- The answer to an attempt to connect, or a signal that comes first.
pub data Dial : Type 0 where
  connected refused signalled : Dial

-- What `getRelayConnection` comes to: a connection, nil, or no end yet.
pub data Dialled : Type 0 where
  connection : List Dial → Dialled
  interrupted waiting : Dialled

unfoldable pub get_relay_connection : List Dial → Dialled
get_relay_connection [] = waiting
get_relay_connection (connected ∷ ds) = connection ds
get_relay_connection (refused ∷ ds) = get_relay_connection ds
get_relay_connection (signalled ∷ ds) = interrupted

-- The answer to a write.
pub data Write : Type 0 where
  written failed : Write

-- Where the sender stands. A write to a nil connection panics; `blocked` is that the network has not
-- answered yet.
pub data Status : Type 0 where
  running blocked panicked : Status

-- The answers that are to come, and the batches whose write succeeded, in order.
pub record Sender : Type 0 where
  pub status : Status
  pub writes : List Write
  pub dials : List Dial
  pub sent_metrics : ℕ
  pub delivered : List Text

-- `strings.Count(s, "\n")`.
unfoldable pub count_lines : Text → ℕ
count_lines [] = 0
count_lines (c ∷ s) = let rest = count_lines s in if c == b'\n' then suc rest else rest

-- A batch that was written.
abbrev pub deliver : Sender → Text → Sender
deliver s b = record s {
  sent_metrics = s.sent_metrics + count_lines b + 1;
  delivered = s.delivered ++ (b ∷ []);
}

-- The loop over the batches, with the answers that are left.
unfoldable pub send_batches : List Write → List Dial → List Text → Sender → Sender
unfolding count_lines get_relay_connection
send_batches writes dials [] s = record s { writes = writes; dials = dials }
send_batches [] dials (b ∷ bs) s = record s { status = blocked; writes = []; dials = dials }
send_batches (written ∷ ws) dials (b ∷ bs) s = send_batches ws dials bs (deliver s b)
send_batches (failed ∷ ws) dials (b ∷ bs) s = elim (get_relay_connection dials) [
  | connection ds ↦ send_batches ws ds (b ∷ bs) s
  | interrupted ↦ record s { status = panicked; writes = ws; dials = [] }
  | waiting ↦ record s { status = blocked; writes = ws; dials = [] }
]

-- The loop over what comes on the channel, until it is closed.
unfoldable pub send_slices : List (List Text) → Sender → Sender
unfolding send_batches
send_slices [] s = s
send_slices (slice ∷ slices) s = elim (s.status) [
  | running ↦ send_slices slices (send_batches s.writes s.dials (plain_text_batch slice 100) s)
  | blocked ↦ s
  | panicked ↦ s
]

abbrev pub sender_at : Status → List Write → List Dial → Sender
sender_at status writes dials = record {
  status = status;
  writes = writes;
  dials = dials;
  sent_metrics = 0;
  delivered = [];
}

-- `plainTextOut`. Without a connection the first slice panics.
unfoldable pub plain_text_out : List (List Text) → List Write → List Dial → Sender
unfolding send_slices
plain_text_out slices writes dials = elim (get_relay_connection dials) [
  | connection ds ↦ send_slices slices (sender_at running writes ds)
  | waiting ↦ sender_at blocked writes []
  | interrupted ↦ elim slices [
    | [] ↦ sender_at running writes []
    | ◌∷◌ slice rest ↦ sender_at panicked writes []
  ]
]
