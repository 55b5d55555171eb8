-- ===== src/Relay/Progress.antt =====
-- plainTextOut comes to the end of its channel, if the network allows it.
use buckytools.Prelude.{
  ℕ, suc, ◌+◌, ◌≤◌, ◌<◌, ◌≡◌, refl, sym, ap, ◌∙◌, ◌≢◌, List, [], ◌∷◌, arith, length, All,
  length-append,
}
use mathlib.Core.Path.{subst}
use buckytools.Prelude.Text.{Text}
use buckytools.Relay.Batch.{plain_text_batch}
use buckytools.Relay.Out.{
  Dial, connected, refused, signalled, connection, get_relay_connection, Write, written, failed,
  running, Sender, deliver, send_batches, send_slices, sender_at, plain_text_out,
}
use buckytools.Relay.Delivery.{batches, send_batches_again, send_slices_next}

abbrev pub successes : List Write → ℕ
successes [] = 0
successes (written ∷ ws) = suc (successes ws)
successes (failed ∷ ws) = successes ws

abbrev pub failures : List Write → ℕ
failures [] = 0
failures (written ∷ ws) = failures ws
failures (failed ∷ ws) = suc (failures ws)

abbrev pub connections : List Dial → ℕ
connections [] = 0
connections (connected ∷ ds) = suc (connections ds)
connections (refused ∷ ds) = connections ds
connections (signalled ∷ ds) = connections ds

-- No signal comes.
abbrev pub IsQuiet : List Dial → Type 0
IsQuiet ds = All (λ d. d ≢ signalled) ds

get_relay_connection-IsQuiet :
    (ds : List Dial)
    → IsQuiet ds
    → 0 < connections ds
    → (left : List Dial) × (get_relay_connection ds ≡ connection left)
      × IsQuiet left
      × (connections ds ≡ suc (connections left))
unfolding get_relay_connection
get_relay_connection-IsQuiet [] q h = absurd (omega arith)
get_relay_connection-IsQuiet (connected ∷ ds) q h = (ds, refl, q.1, refl)
get_relay_connection-IsQuiet (refused ∷ ds) q h = get_relay_connection-IsQuiet ds q.1 h
get_relay_connection-IsQuiet (signalled ∷ ds) q h = absurd (q.0 refl)

-- A sender that goes on, and what the network still grants it after a number of batches.
abbrev GoesOn : List Write → ℕ → Sender → Type 0
GoesOn ws n t =
    (t.status ≡ running)
    × (successes ws ≡ successes t.writes + n)
    × (failures t.writes ≤ connections t.dials)
    × IsQuiet t.dials

send_batches-GoesOn :
    (ws : List Write) (ds : List Dial) (bs : List Text) (s : Sender)
    → s.status ≡ running
    → length bs ≤ successes ws
    → failures ws ≤ connections ds
    → IsQuiet ds
    → GoesOn ws (length bs) (send_batches ws ds bs s)
unfolding send_batches
send_batches-GoesOn [] ds [] s r h k q = (r, omega arith, k, q)
send_batches-GoesOn (w ∷ ws) ds [] s r h k q = (r, omega arith, k, q)
send_batches-GoesOn [] ds (b ∷ bs) s r h k q = absurd (omega arith)
send_batches-GoesOn (written ∷ ws) ds (b ∷ bs) s r h k q =
    let (a, c, d, e) = send_batches-GoesOn ws ds bs (deliver s b) r (omega arith) k q in
    (a, omega (arith, c), d, e)
send_batches-GoesOn (failed ∷ ws) ds (b ∷ bs) s r h k q =
    let (left, e, quiet, fewer) = get_relay_connection-IsQuiet ds q (omega arith) in
    subst (GoesOn ws (length (b ∷ bs))) (sym (send_batches_again ws ds left b bs s e))
      (send_batches-GoesOn ws left (b ∷ bs) s r h (omega (arith, fewer)) quiet)

send_slices-GoesOn :
    (slices : List (List Text)) (s : Sender)
    → s.status ≡ running
    → length (batches slices) ≤ successes s.writes
    → failures s.writes ≤ connections s.dials
    → IsQuiet s.dials
    → (send_slices slices s).status ≡ running
unfolding send_slices
send_slices-GoesOn [] s r h k q = r
send_slices-GoesOn (slice ∷ slices) s r h k q =
    let bs = plain_text_batch slice 100 in
    let all = length-append bs (batches slices) in
    let (a, c, d, e) = send_batches-GoesOn s.writes s.dials bs s r (omega (arith, all)) k q in
    ap (λ (t : Sender). t.status) (send_slices_next slice slices s r)
    ∙ send_slices-GoesOn slices (send_batches s.writes s.dials bs s) a (omega (arith, all, c)) d e

-- If no signal comes while the relay connects, there are at least as many writes that succeed as there
-- are batches, and more connections than writes that fail, then `plainTextOut` comes to the end of
-- its channel.
pub plain_text_out-running :
    (slices : List (List Text)) (writes : List Write) (dials : List Dial)
    → length (batches slices) ≤ successes writes
    → failures writes < connections dials
    → IsQuiet dials
    → (plain_text_out slices writes dials).status ≡ running
unfolding plain_text_out
plain_text_out-running slices writes dials h k q =
    let (left, e, quiet, fewer) = get_relay_connection-IsQuiet dials q (omega arith) in
    rw (e, plain_text_out)
      (send_slices-GoesOn slices (sender_at running writes left) refl h (omega (arith, fewer))
        quiet)
