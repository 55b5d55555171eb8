-- ===== src/Relay/Delivery.antt =====
-- What plainTextOut has delivered when it comes to the end of its channel, and when it does.
use buckytools.Prelude.{
  ℕ, suc, ◌+◌, ◌<◌, ◌≡◌, refl, sym, ap, ◌∙◌, ◌≢◌, ◌⊎◌, inl, inr, List, [], ◌∷◌, ◌++◌, map,
  append-nil, append_assoc, arith, length, All, length-append,
}
use mathlib.Core.Path.{subst}
use buckytools.Prelude.Text.{Text}
use buckytools.Prelude.Strings.{join, Lacks}
use buckytools.Relay.Batch.{plain_text_batch, concat, Fits, plain_text_batch-groups}
use buckytools.Relay.Out.{
  Dial, Dialled, connection, interrupted, waiting, get_relay_connection, Write, written, failed,
  Status, running, blocked, panicked, Sender, count_lines, deliver, send_batches, send_slices,
  sender_at, plain_text_out,
}

Dialled-cases :
    (d : Dialled)
    → ((left : List Dial) × (d ≡ connection left)) ⊎ ((d ≡ interrupted) ⊎ (d ≡ waiting))
Dialled-cases (connection left) = inl (left, refl)
Dialled-cases interrupted = inr (inl refl)
Dialled-cases waiting = inr (inr refl)

-- The metrics that are counted for some batches.
abbrev counted : List Text → ℕ
counted [] = 0
counted (b ∷ bs) = (count_lines b + 1) + counted bs

-- What a sender has done, beyond what it had: these batches, all of them counted.
abbrev HasSent : Sender → List Text → Sender → Type 0
HasSent s bs t = (t.delivered ≡ s.delivered ++ bs) × (t.sent_metrics ≡ s.sent_metrics + counted bs)

-- After an error the same batches go to the next connection, if there is one.
pub send_batches_again :
    (ws : List Write) (ds left : List Dial) (b : Text) (bs : List Text) (s : Sender)
    → get_relay_connection ds ≡ connection left
    → send_batches (failed ∷ ws) ds (b ∷ bs) s ≡ send_batches ws left (b ∷ bs) s
unfolding send_batches
send_batches_again ws ds left b bs s e = rw (e, send_batches) refl

send_batches_stopped :
    (ws : List Write) (ds : List Dial) (b : Text) (bs : List Text) (s : Sender)
    → (get_relay_connection ds ≡ interrupted) ⊎ (get_relay_connection ds ≡ waiting)
    → (send_batches (failed ∷ ws) ds (b ∷ bs) s).status ≢ running
unfolding send_batches
send_batches_stopped ws ds b bs s (inl e) = ground arith
send_batches_stopped ws ds b bs s (inr e) = ground arith

send_batches-HasSent :
    (ws : List Write) (ds : List Dial) (bs : List Text) (s : Sender)
    → (send_batches ws ds bs s).status ≡ running
    → HasSent s bs (send_batches ws ds bs s)
unfolding send_batches
send_batches-HasSent [] ds [] s h = (sym (append-nil s.delivered), omega arith)
send_batches-HasSent (w ∷ ws) ds [] s h = (sym (append-nil s.delivered), omega arith)
send_batches-HasSent [] ds (b ∷ bs) s h = absurd (ground arith)
send_batches-HasSent (written ∷ ws) ds (b ∷ bs) s h =
    let (e, f) = send_batches-HasSent ws ds bs (deliver s b) h in
    (e ∙ append_assoc s.delivered (b ∷ []) bs, omega (arith, f))
send_batches-HasSent (failed ∷ ws) ds (b ∷ bs) s h =
    elim (Dialled-cases (get_relay_connection ds)) [
      | inl (left, e) ↦
          let again = send_batches_again ws ds left b bs s e in
          subst (HasSent s (b ∷ bs)) (sym again) (
            send_batches-HasSent ws left (b ∷ bs) s (sym (ap (λ (t : Sender). t.status) again) ∙ h))
      | inr stopped ↦ absurd (send_batches_stopped ws ds b bs s stopped h)
    ]

-- All the batches of what comes on the channel.
abbrev pub batches : List (List Text) → List Text
batches [] = []
batches (slice ∷ slices) = plain_text_batch slice 100 ++ batches slices

counted-append : (bs cs : List Text) → counted (bs ++ cs) ≡ counted bs + counted cs
counted-append [] cs = omega arith
counted-append (b ∷ bs) cs = omega (arith, counted-append bs cs)

Status-cases : (t : Status) → (t ≡ running) ⊎ ((t ≡ blocked) ⊎ (t ≡ panicked))
Status-cases running = inl refl
Status-cases blocked = inr (inl refl)
Status-cases panicked = inr (inr refl)

send_slices_running :
    (slices : List (List Text)) (s : Sender)
    → (send_slices slices s).status ≡ running
    → s.status ≡ running
unfolding send_slices
send_slices_running [] s h = h
send_slices_running (slice ∷ slices) s h = elim (Status-cases s.status) [
  | inl e ↦ e
  | inr (inl e) ↦ ground arith
  | inr (inr e) ↦ ground arith
]

pub send_slices_next :
    (slice : List Text) (slices : List (List Text)) (s : Sender)
    → s.status ≡ running
    → send_slices (slice ∷ slices) s
      ≡ send_slices slices (send_batches s.writes s.dials (plain_text_batch slice 100) s)
unfolding send_slices
send_slices_next slice slices s e = simp (e, send_slices) refl

send_slices-HasSent :
    (slices : List (List Text)) (s : Sender)
    → (send_slices slices s).status ≡ running
    → HasSent s (batches slices) (send_slices slices s)
unfolding send_slices
send_slices-HasSent [] s h = (sym (append-nil s.delivered), omega arith)
send_slices-HasSent (slice ∷ slices) s h =
    let bs = plain_text_batch slice 100 in
    let s1 = send_batches s.writes s.dials bs s in
    let next = send_slices_next slice slices s (send_slices_running (slice ∷ slices) s h) in
    let h1 : (send_slices slices s1).status ≡ running =
      sym (ap (λ (t : Sender). t.status) next) ∙ h in
    let (e1, f1) = send_batches-HasSent s.writes s.dials bs s (send_slices_running slices s1 h1) in
    let (e2, f2) = send_slices-HasSent slices s1 h1 in
    subst (HasSent s (bs ++ batches slices)) (sym next) (
      e2 ∙ ap (λ l. l ++ batches slices) e1 ∙ append_assoc s.delivered bs (batches slices),
      omega (arith, f1, f2, counted-append bs (batches slices)),
    )

-- A slice of lines, of which there are some, each without a line break.
abbrev pub IsLines : List Text → Type 0
IsLines slice = (0 < length slice) × All (Lacks b'\n') slice

count_lines-append : (s t : Text) → count_lines (s ++ t) ≡ count_lines s + count_lines t
unfolding count_lines
count_lines-append [] t = omega arith
count_lines-append (c ∷ s) t = let rest = count_lines-append s t in ground arith

count_lines-Lacks : (s : Text) → Lacks b'\n' s → count_lines s ≡ 0
unfolding count_lines
count_lines-Lacks [] h = refl
count_lines-Lacks (c ∷ s) h = let other = h.0 in let rest = count_lines-Lacks s h.1 in ground arith

-- A batch of a group counts as many metrics as the group has lines.
count_lines-join : (g : List Text) → IsLines g → count_lines (join b'\n' g) + 1 ≡ length g
unfolding join
count_lines-join [] h = absurd (omega (arith, h.0))
count_lines-join (l ∷ []) h = omega (arith, count_lines-Lacks l h.1.0)
count_lines-join (l ∷ (m ∷ g)) h =
    let rest = count_lines-join (m ∷ g) (omega arith, h.1.1) in
    let break : count_lines (b'\n' ∷ join b'\n' (m ∷ g)) ≡ suc (count_lines (join b'\n' (m ∷ g))) =
      (unfold count_lines in refl) in
    omega (
      arith,
      rest,
      break,
      count_lines-append l (b'\n' ∷ join b'\n' (m ∷ g)),
      count_lines-Lacks l h.1.0,
    )

All-split : (P : Text → Type 0) (xs ys : List Text) → All P (xs ++ ys) → All P xs × All P ys
All-split P [] ys h = (tt, h)
All-split P (x ∷ xs) ys h = let (a, b) = All-split P xs ys h.1 in ((h.0, a), b)

counted-groups :
    (groups : List (List Text))
    → All (Fits 100) groups
    → All (Lacks b'\n') (concat groups)
    → counted (map (join b'\n') groups) ≡ length (concat groups)
counted-groups [] short h = refl
counted-groups (g ∷ gs) short h =
    let (here, later) = All-split (Lacks b'\n') g (concat gs) h in
    omega (
      arith,
      count_lines-join g (short.0.0, here),
      counted-groups gs short.1 later,
      length-append g (concat gs),
    )

counted-plain_text_batch :
    (slice : List Text) → IsLines slice → counted (plain_text_batch slice 100) ≡ length slice
counted-plain_text_batch slice h =
    let (groups, e, f, short) = plain_text_batch-groups slice 100 (omega arith) h.0 in
    ap counted e
    ∙ counted-groups groups short (subst (All (Lacks b'\n')) (sym f) h.1)
    ∙ ap (λ (l : List Text). length l) f

counted-batches :
    (slices : List (List Text))
    → All IsLines slices
    → counted (batches slices) ≡ length (concat slices)
counted-batches [] h = refl
counted-batches (slice ∷ slices) h = omega (
  arith,
  counted-append (plain_text_batch slice 100) (batches slices),
  counted-plain_text_batch slice h.0,
  counted-batches slices h.1,
  length-append slice (concat slices),
)

plain_text_out_interrupted :
    (slices : List (List Text)) (writes : List Write) (dials : List Dial)
    → get_relay_connection dials ≡ interrupted
    → (plain_text_out slices writes dials).status ≡ running
    → let end = plain_text_out slices writes dials in
      (end.delivered ≡ batches slices) × (end.sent_metrics ≡ length (concat slices))
unfolding plain_text_out
plain_text_out_interrupted [] writes dials e h = rw (e, plain_text_out) (refl, refl)
plain_text_out_interrupted (slice ∷ slices) writes dials e h = absurd (ground arith)

-- When `plainTextOut` comes to the end of its channel without a panic, whatever errors it met, the
-- batches of all slices have been written, each once without an error and in order, and the count of
-- sent metrics is that of the lines, which have no line breaks and of which each slice has some.
pub plain_text_out-batches :
    (slices : List (List Text)) (writes : List Write) (dials : List Dial)
    → All IsLines slices
    → (plain_text_out slices writes dials).status ≡ running
    → let end = plain_text_out slices writes dials in
      (end.delivered ≡ batches slices) × (end.sent_metrics ≡ length (concat slices))
unfolding plain_text_out
plain_text_out-batches slices writes dials lines h =
    elim (Dialled-cases (get_relay_connection dials)) [
      | inl (left, e) ↦
          let begun : plain_text_out slices writes dials
              ≡ send_slices slices (sender_at running writes left) =
            rw (e, plain_text_out) refl in
          let (delivered, sent) =
            send_slices-HasSent slices (sender_at running writes left)
              (sym (ap (λ (t : Sender). t.status) begun) ∙ h) in
          (
            ap (λ (t : Sender). t.delivered) begun ∙ delivered,
            ap (λ (t : Sender). t.sent_metrics) begun
                ∙ omega (arith, sent, counted-batches slices lines),
          )
      | inr (inl e) ↦ plain_text_out_interrupted slices writes dials e h
      | inr (inr e) ↦ absurd (ground arith)
    ]
