-- ===== src/Relay/Stream.antt =====
-- The pickles that handleConn finds do not depend on how the bytes arrive.
use buckytools.Prelude.{
  ℕ, suc, ◌+◌, ◌^◌, ◌≤◌, ◌<◌, ◌≡◌, refl, sym, ap, ◌∙◌, Bool, true, false, Option, none, some, List,
  [], ◌∷◌, ◌++◌, map, append-nil, append_assoc, arith, ltb, if◌then◌else◌, length, take, drop,
  filter, All, length-append, take-append, drop-append,
}
use buckytools.Prelude.Text.{Text}
use buckytools.Whisper.Bytes.{put_word, length-put_word, word_from-put_word}
use buckytools.Relay.Frames.{
  NetError, Conn, ReadResult, read_slice, ConnEnd, ended, oversized, Handled, after_pickle, left_at,
  handle_conn, with_size, with_pickle,
}
use buckytools.Relay.Pieces.{bytes_of, read_pieces-bytes_of, read_pieces_nothing}

-- A stream of pickles: each has its size in front.
abbrev pub framed : List (List ℕ) → List ℕ
framed [] = []
framed (d ∷ ds) = put_word 4 (length d) ++ (d ++ framed ds)

-- A pickle that is not too large and decodes to its metrics.
abbrev pub IsGood : (List ℕ → Option (List Text)) → ℕ → (List ℕ → List Text) → List ℕ → Type 0
IsGood decode max_size metrics d = (length d ≤ max_size) × (decode d ≡ some (metrics d))

abbrev pub nonempty : List Text → Bool
nonempty [] = false
nonempty (m ∷ ms) = true

-- What is handled of good pickles and of what comes after them.
abbrev pub after_pickles : (List ℕ → List Text) → List (List ℕ) → Handled → Handled
after_pickles metrics [] h = h
after_pickles metrics (d ∷ ds) h = after_pickle (metrics d) (after_pickles metrics ds h)

-- A read of the next bytes of a connection, however they arrive.
read_slice-bytes_of :
    (ending : NetError) (ps : List (List ℕ)) (bs tail : List ℕ)
    → bytes_of ps ≡ bs ++ tail
    → (left : List (List ℕ)) × (read_slice (record { pieces = ps; ending = ending }) (length bs)
        ≡ (bs, record { pieces = left; ending = ending }, none))
      × (bytes_of left ≡ tail)
unfolding read_slice
read_slice-bytes_of ending ps bs tail e =
    let enough : length bs ≤ length (bytes_of ps) =
      omega (arith, length-append bs tail, ap (λ (l : List ℕ). length l) e) in
    let (left, r, f) = read_pieces-bytes_of ending (length bs) ps enough in
    let first : take (length bs) (bytes_of ps) ≡ bs =
      ap (take (length bs)) e ∙ take-append (length bs) bs tail refl in
    (
      left,
      r ∙ ap (λ l. (l, record { pieces = left; ending = ending }, none)) first,
      f ∙ ap (drop (length bs)) e ∙ drop-append (length bs) bs tail refl,
    )

handle_conn-pickle :
    (decode : List ℕ → Option (List Text)) (max_size fuel : ℕ) (metrics : List ℕ → List Text)
    (ending : NetError) (ps : List (List ℕ)) (d tail : List ℕ)
    → max_size < 256 ^ 4
    → IsGood decode max_size metrics d
    → bytes_of ps ≡ put_word 4 (length d) ++ (d ++ tail)
    → (left : List (List ℕ)) × (handle_conn decode max_size
          (suc fuel)
          (record { pieces = ps; ending = ending })
        ≡ after_pickle
            (metrics d)
            (handle_conn decode max_size fuel (record { pieces = left; ending = ending })))
      × (bytes_of left ≡ tail)
unfolding handle_conn with_size with_pickle
handle_conn-pickle decode max_size fuel metrics ending ps d tail small good e =
    let (l1, r1, f1) = read_slice-bytes_of ending ps (put_word 4 (length d)) (d ++ tail) e in
    let (l2, r2, f2) = read_slice-bytes_of ending l1 d tail f1 in
    let header : read_slice (record { pieces = ps; ending = ending }) 4
        ≡ (put_word 4 (length d), record { pieces = l1; ending = ending }, none) =
      ap (read_slice (record { pieces = ps; ending = ending })) (sym (length-put_word 4 (length d)))
      ∙ r1 in
    let size = word_from-put_word 4 (length d) (omega (arith, good.0)) in
    let fits : ltb max_size (length d) ≡ false = let g = good.0 in ground arith in
    let next = handle_conn decode max_size fuel in
    let after : with_pickle decode next (d, record { pieces = l2; ending = ending }, none)
        ≡ after_pickle (metrics d) (next (record { pieces = l2; ending = ending })) =
      rw (good.1, with_pickle) refl in
    (
      l2,
      ap (with_size decode max_size next) header
          ∙ (rw (size, fits) (ap (with_pickle decode next) r2 ∙ after)),
      f2,
    )

-- The pickles in front of a stream are handled one by one, however the bytes arrive.
handle_conn_through :
    (decode : List ℕ → Option (List Text)) (max_size fuel : ℕ) (metrics : List ℕ → List Text)
    (ending : NetError) (ps ds : List (List ℕ)) (tail : List ℕ)
    → max_size < 256 ^ 4
    → All (IsGood decode max_size metrics) ds
    → bytes_of ps ≡ framed ds ++ tail
    → (left : List (List ℕ)) × (handle_conn decode max_size
          (length ds + fuel)
          (record { pieces = ps; ending = ending })
        ≡ after_pickles metrics ds
            (handle_conn decode max_size fuel (record { pieces = left; ending = ending })))
      × (bytes_of left ≡ tail)
handle_conn_through decode max_size fuel metrics ending ps [] tail small good e = (
  ps,
  ap (λ k. handle_conn decode max_size k (record { pieces = ps; ending = ending })) {x = 0 + fuel}
      {y = fuel} (omega arith),
  e,
)
handle_conn_through decode max_size fuel metrics ending ps (d ∷ ds) tail small good e =
    let apart =
      e
      ∙ append_assoc (put_word 4 (length d)) (d ++ framed ds) tail
      ∙ ap (λ l. put_word 4 (length d) ++ l) (append_assoc d (framed ds) tail) in
    let (l1, r1, f1) =
      handle_conn-pickle decode max_size (length ds + fuel) metrics ending ps d (framed ds ++ tail)
        small good.0 apart in
    let (l2, r2, f2) =
      handle_conn_through decode max_size fuel metrics ending l1 ds tail small good.1 f1 in
    (
      l2,
      ap (λ k. handle_conn decode max_size k (record { pieces = ps; ending = ending }))
            {x = suc (length ds) + fuel} {y = suc (length ds + fuel)} (omega arith)
          ∙ r1
          ∙ ap (after_pickle (metrics d)) r2,
      f2,
    )

after_pickle_one :
    (ms : List Text) (sent : List (List Text)) (k : ℕ) (e : ConnEnd)
    → after_pickle ms (record { sent = sent; seen = k; end_ = e })
      ≡ record { sent = if nonempty ms then ms ∷ sent else sent; seen = suc k; end_ = e }
after_pickle_one [] sent k e = refl
after_pickle_one (m ∷ ms) sent k e = refl

after_pickles-left_at :
    (metrics : List ℕ → List Text) (ds : List (List ℕ)) (e : ConnEnd)
    → after_pickles metrics ds (left_at e)
      ≡ record { sent = filter nonempty (map metrics ds); seen = length ds; end_ = e }
after_pickles-left_at metrics [] e = refl
after_pickles-left_at metrics (d ∷ ds) e =
    ap (after_pickle (metrics d)) (after_pickles-left_at metrics ds e)
    ∙ after_pickle_one (metrics d) (filter nonempty (map metrics ds)) (length ds) e

with_size_error :
    (decode : List ℕ → Option (List Text)) (max_size : ℕ) (next : Conn → Handled) (r : ReadResult)
    (e : NetError)
    → r.2 ≡ some e
    → with_size decode max_size next r ≡ left_at (ended e)
unfolding with_size
with_size_error decode max_size next (buf, conn, none) e h = absurd (ground arith)
with_size_error decode max_size next (buf, conn, some f) e h =
    let same : f ≡ e = ground arith in ap (λ x. left_at (ended x)) same

-- However the bytes of good pickles arrive, cut into whatever pieces, the metrics of each pickle that
-- has any go to the channel, in order, all pickles are counted, and the connection is left at its end,
-- with one turn of the loop more than there are pickles.
pub handle_conn-framed :
    (decode : List ℕ → Option (List Text)) (max_size fuel : ℕ) (metrics : List ℕ → List Text)
    (ending : NetError) (ps ds : List (List ℕ))
    → max_size < 256 ^ 4
    → All (IsGood decode max_size metrics) ds
    → bytes_of ps ≡ framed ds
    → handle_conn decode max_size (length ds + suc fuel) (record { pieces = ps; ending = ending })
      ≡ record { sent = filter nonempty (map metrics ds); seen = length ds; end_ = ended ending }
unfolding handle_conn
handle_conn-framed decode max_size fuel metrics ending ps ds small good e =
    let (left, r, f) =
      handle_conn_through decode max_size (suc fuel) metrics ending ps ds [] small good
        (e ∙ sym (append-nil (framed ds))) in
    let nothing : (read_slice (record { pieces = left; ending = ending }) 4).2 ≡ some ending =
      unfold read_slice in read_pieces_nothing ending 3 left f in
    let stops =
      with_size_error decode max_size (handle_conn decode max_size fuel)
        (read_slice (record { pieces = left; ending = ending }) 4) ending nothing in
    r ∙ ap (after_pickles metrics ds) stops ∙ after_pickles-left_at metrics ds (ended ending)

-- After good pickles, one that announces more than the limit ends the connection: what came before it
-- has been sent, and nothing of what follows is.
handle_conn_oversized :
    (decode : List ℕ → Option (List Text)) (max_size fuel size : ℕ) (metrics : List ℕ → List Text)
    (ending : NetError) (ps ds : List (List ℕ)) (rest : List ℕ)
    → max_size < size
    → size < 256 ^ 4
    → All (IsGood decode max_size metrics) ds
    → bytes_of ps ≡ framed ds ++ (put_word 4 size ++ rest)
    → handle_conn decode max_size (length ds + suc fuel) (record { pieces = ps; ending = ending })
      ≡ record { sent = filter nonempty (map metrics ds); seen = length ds; end_ = oversized size }
unfolding handle_conn with_size
handle_conn_oversized decode max_size fuel size metrics ending ps ds rest large word good e =
    let small : max_size < 256 ^ 4 = omega arith in
    let (left, r, f) =
      handle_conn_through decode max_size (suc fuel) metrics ending ps ds (put_word 4 size ++ rest)
        small good e in
    let (l2, r2, f2) = read_slice-bytes_of ending left (put_word 4 size) rest f in
    let header : read_slice (record { pieces = left; ending = ending }) 4
        ≡ (put_word 4 size, record { pieces = l2; ending = ending }, none) =
      ap (read_slice (record { pieces = left; ending = ending })) (sym (length-put_word 4 size))
      ∙ r2 in
    let over : ltb max_size size ≡ true = ground arith in
    let stops =
      ap (with_size decode max_size (handle_conn decode max_size fuel)) header
      ∙ rw (word_from-put_word 4 size word, over) refl in
    r ∙ ap (after_pickles metrics ds) stops ∙ after_pickles-left_at metrics ds (oversized size)
