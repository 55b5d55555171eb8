-- ===== src/Relay/Frames.antt =====
-- readSlice and handleConn of cmd/bucky-pickle-relay/main.go: a pickle on a connection is preceded by
-- its size, four bytes.
use buckytools.Prelude.{
  ℕ, zero, suc, ◌-◌, Option, none, some, List, [], ◌∷◌, ◌++◌, ltb, ◌==◌, if◌then◌else◌, length,
  take, drop,
}
use buckytools.Prelude.Text.{Text}
use buckytools.Whisper.Bytes.{word_from}

-- How the bytes of a connection end.
pub data NetError : Type 0 where
  end_of_file reset timeout broken : NetError

-- The bytes that a connection is to deliver, in the pieces in which they arrive, and their end. A read
-- takes what fits of the first piece, and leaves the rest of it.
pub record Conn : Type 0 where
  pub pieces : List (List ℕ)
  pub ending : NetError

-- The bytes of a buffer that were read, what the connection has left, and the error.
abbrev pub ReadResult : Type 0
ReadResult = List ℕ × Conn × Option NetError

-- The read of a first piece, and the loop's further reads.
abbrev pub read_piece : NetError → ℕ → List ℕ → List (List ℕ) → ReadResult → ReadResult
read_piece ending room piece pieces (more, left, error) =
    if ltb room (length piece)
    then (take room piece, record { pieces = drop room piece ∷ pieces; ending = ending }, none)
    else (piece ++ more, left, error)

-- The loop of `readSlice`, for a buffer with some room left.
unfoldable pub read_pieces : NetError → ℕ → List (List ℕ) → ReadResult
read_pieces ending room [] =
    if room == 0
    then ([], record { pieces = []; ending = ending }, none)
    else ([], record { pieces = []; ending = ending }, some ending)
read_pieces ending room (piece ∷ pieces) =
    let rest = read_pieces ending (room - length piece) pieces in
    if room == 0
    then ([], record { pieces = piece ∷ pieces; ending = ending }, none)
    else read_piece ending room piece pieces rest

-- `readSlice` into a buffer of a size.
unfoldable pub read_slice : Conn → ℕ → ReadResult
unfolding read_pieces
read_slice conn size = read_pieces conn.ending size conn.pieces

-- Why a connection was left: its end between two pickles, a pickle that is too large, an error in a
-- pickle, a panic of the decoder's caller, or the end of the fuel.
pub data ConnEnd : Type 0 where
  ended : NetError → ConnEnd
  oversized : ℕ → ConnEnd
  cut_off : NetError → ConnEnd
  panicked : ConnEnd
  out_of_fuel : ConnEnd

-- What went to the channel, how many pickles were seen, and the end.
pub record Handled : Type 0 where
  pub sent : List (List Text)
  pub seen : ℕ
  pub end_ : ConnEnd

-- One more pickle, with its metrics: none are not sent.
abbrev pub after_pickle : List Text → Handled → Handled
after_pickle [] h = record h { seen = suc h.seen }
after_pickle (m ∷ ms) h = record h { sent = (m ∷ ms) ∷ h.sent; seen = suc h.seen }

abbrev pub left_at : ConnEnd → Handled
left_at e = record { sent = []; seen = 0; end_ = e }

-- What the loop does with the bytes of a pickle; `next` is its next turn. `decode` is `decodePickle`:
-- it panics, or gives the metrics, where the empty list also stands for nil.
unfoldable pub with_pickle : (List ℕ → Option (List Text)) → (Conn → Handled) → ReadResult → Handled
with_pickle decode next (data_buf, conn, some e) = left_at (cut_off e)
with_pickle decode next (data_buf, conn, none) = elim (decode data_buf) [
  | none ↦ record { sent = []; seen = 1; end_ = panicked }
  | some metrics ↦ after_pickle metrics (next conn)
]

-- What the loop does with the size in front of a pickle.
unfoldable pub with_size :
    (List ℕ → Option (List Text)) → ℕ → (Conn → Handled) → ReadResult → Handled
unfolding read_slice with_pickle
with_size decode max_size next (size_buf, conn, some e) = left_at (ended e)
with_size decode max_size next (size_buf, conn, none) =
    let size = word_from 0 size_buf in
    if ltb max_size size
    then left_at (oversized size)
    else with_pickle decode next (read_slice conn size)

-- `handleConn`. Each turn of the loop takes fuel.
unfoldable pub handle_conn : (List ℕ → Option (List Text)) → ℕ → ℕ → Conn → Handled
unfolding with_size
handle_conn decode max_size zero conn = left_at out_of_fuel
handle_conn decode max_size (suc fuel) conn =
    with_size decode max_size (handle_conn decode max_size fuel) (read_slice conn 4)
