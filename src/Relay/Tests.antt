-- ===== src/Relay/Tests.antt =====
-- Runs of the relay, and its theorems applied to a small stream.
use buckytools.Prelude.{
  ℕ, suc, ◌+◌, ◌≡◌, refl, sym, ap, ◌∙◌, ◌≢◌, true, Option, some, List, [], ◌∷◌, map, arith, length,
  filter, All,
}
use buckytools.Prelude.Int.{pos}
use buckytools.Prelude.Text.{Text, codes, show_nat, show_fuel}
use buckytools.Prelude.Strings.{join, Lacks}
use buckytools.Whisper.Bytes.{put_word}
use buckytools.Relay.{report_metrics}
use buckytools.Relay.Frames.{end_of_file, ended, handle_conn}
use buckytools.Relay.Stream.{framed, nonempty, IsGood, handle_conn-framed}
use buckytools.Relay.Pieces.{bytes_of}
use buckytools.Relay.Pickle.{
  Object, Objects, slice, tuple, string, int64, other_object, elements, decode_pickle, entries,
  entry_of, add_entry, metric_entry, point_entry, number_text, trim_space, trim_right,
}
use buckytools.Relay.Lines.{objects, all_long}
use buckytools.Relay.Batch.{plain_text_batch, batch_from, concat}
use buckytools.Relay.Out.{connected, refused, written, failed, Write, Dial, running, plain_text_out}
use buckytools.Relay.Delivery.{batches, IsLines, plain_text_out-batches}
use buckytools.Relay.Progress.{IsQuiet, plain_text_out-running}

report_run :
    report_metrics
      (codes "p")
      (record { seen_pickles = 1; seen_metrics = 12; sent_metrics = 0 })
      3
      4
      5
    ≡ codes "p.seenPickles 1 5"
      ∷ (codes "p.seenMetrics 12 5"
          ∷ (codes "p.sentMetrics 0 5"
              ∷ (codes "p.queueLength 3 5" ∷ (codes "p.systemMemory 4 5" ∷ []))))
unfolding report_metrics show_nat show_fuel
report_run = refl

-- A decoder of the tests: each byte is a line.
abbrev bytes_as_lines : List ℕ → List Text
bytes_as_lines bs = map (λ b. b ∷ []) bs

abbrev decode_bytes : List ℕ → Option (List Text)
decode_bytes bs = some (bytes_as_lines bs)

-- Two pickles, of which the second is empty, in pieces of one to five bytes.
abbrev pickles : List (List ℕ)
pickles = (65 ∷ (66 ∷ [])) ∷ ([] ∷ [])

abbrev pieces : List (List ℕ)
pieces =
    (0 ∷ [])
    ∷ ((0 ∷ (0 ∷ (2 ∷ (65 ∷ [])))) ∷ ((66 ∷ (0 ∷ [])) ∷ ([] ∷ ((0 ∷ (0 ∷ (0 ∷ []))) ∷ []))))

pieces-framed : bytes_of pieces ≡ framed pickles
unfolding put_word
pieces-framed = refl

pickles-IsGood : All (IsGood decode_bytes 100 bytes_as_lines) pickles
pickles-IsGood = ((omega arith, refl), ((omega arith, refl), tt))

handle_conn-framed_example :
    handle_conn decode_bytes 100 (2 + suc 0) (record { pieces = pieces; ending = end_of_file })
    ≡ record {
      sent = filter nonempty (map bytes_as_lines pickles);
      seen = 2;
      end_ = ended end_of_file;
    }
handle_conn-framed_example =
    handle_conn-framed decode_bytes 100 0 bytes_as_lines end_of_file pieces pickles (omega arith)
      pickles-IsGood pieces-framed

-- A metric, and an object that is none.
abbrev sample : Objects
sample = objects (
    tuple (
      objects (
        string (codes "a.b")
        ∷ (tuple (objects (int64 (pos 7) ∷ (string (codes " 1 ") ∷ []))) ∷ [])))
    ∷ (other_object ∷ []))

abbrev decode_sample : List ℕ → Option Object
decode_sample bs = some (slice sample)

sample_run : decode_pickle decode_sample (λ x. []) [] ≡ some (codes "a.b 1 7" ∷ [])
unfolding decode_pickle entries entry_of add_entry metric_entry point_entry number_text trim_space
    trim_right show_nat show_fuel
sample_run = refl

sample_long :
    (object : Object) (os : Objects)
    → decode_sample [] ≡ some object
    → elements object ≡ some os
    → all_long os ≡ true
sample_long object os e f =
    let same : slice sample ≡ object = cc in
    let shown : some sample ≡ some os = ap elements same ∙ f in
    let os_eq : sample ≡ os = cc in ap all_long (sym os_eq)

-- Two slices, a write that fails, and a connection that is refused.
abbrev slices : List (List Text)
slices = (codes "a" ∷ (codes "b" ∷ [])) ∷ ((codes "c" ∷ []) ∷ [])

abbrev writes : List Write
writes = written ∷ (failed ∷ (written ∷ []))

abbrev dials : List Dial
dials = connected ∷ (refused ∷ (connected ∷ []))

dials-IsQuiet : IsQuiet dials
dials-IsQuiet =
    (λ e. absurd (ground arith), (λ e. absurd (ground arith), (λ e. absurd (ground arith), tt)))

batches_run : batches slices ≡ codes "a\nb" ∷ (codes "c" ∷ [])
unfolding plain_text_batch batch_from join
batches_run = refl

runs_on : (plain_text_out slices writes dials).status ≡ running
runs_on =
    plain_text_out-running slices writes dials
      (omega (arith, ap (λ (l : List Text). length l) batches_run)) (omega arith) dials-IsQuiet

slices-IsLines : All IsLines slices
slices-IsLines =
    let differs : (c : ℕ) → c ≢ b'\n' → Lacks b'\n' (c ∷ []) = λ c h. (h, tt) in
    (
      (
        omega arith,
        (differs 97 (λ e. absurd (omega arith)), (differs 98 (λ e. absurd (omega arith)), tt)),
      ),
      ((omega arith, (differs 99 (λ e. absurd (omega arith)), tt)), tt),
    )

plain_text_out-batches_example :
    let end = plain_text_out slices writes dials in
    (end.delivered ≡ batches slices) × (end.sent_metrics ≡ length (concat slices))
plain_text_out-batches_example = plain_text_out-batches slices writes dials slices-IsLines runs_on
