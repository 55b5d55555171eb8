-- ===== src/Whisper/Point.antt =====
-- dataPoint of whisper/whisper.go: twelve bytes each in the file.
use native.Mathlib.Nat.{mod-eq_of_lt}
use buckytools.Prelude.{
  ℕ, zero, suc, ◌+◌, ◌-◌, ◌*◌, ◌/◌, ◌^◌, ◌<◌, ◌≡◌, refl, sym, ap, ap₂, ◌∙◌, List, [], ◌∷◌, ◌++◌,
  append-nil, arith, length, take, drop, replicate, All, length-append, take-append, drop-append,
  take_all,
}
use buckytools.Prelude.Int.{ℤ, pos}
use buckytools.Whisper.Bytes.{
  put_word, to_u32, pack_int, pack_float64, unpack_int, unpack_float64, splice, splice_prefix,
  length-put_word, word_from-put_word, int_size,
}
use buckytools.Whisper.Retention.{point_size}

-- The value is the bit pattern of a float64.
pub record DataPoint : Type 0 where
  pub interval : ℤ
  pub value : ℕ

-- `Bytes`.
unfoldable pub bytes : DataPoint → List ℕ
bytes point =
    let b = replicate point_size 0 in
    pack_float64 (pack_int b point.interval 0) point.value int_size

unfoldable pub unpack_data_point : List ℕ → DataPoint
unpack_data_point b = record {
  interval = pos (unpack_int (take int_size b));
  value = unpack_float64 (take (point_size - int_size) (drop int_size b));
}

-- The loop of `unpackDataPoints`, a round for each point that begins in the buffer. The buffers of
-- its callers hold whole points.
unfoldable pub unpack_from : ℕ → List ℕ → List DataPoint
unpack_from zero b = []
unpack_from (suc rounds) b =
    unpack_data_point (take point_size b) ∷ unpack_from rounds (drop point_size b)

unfoldable pub unpack_data_points : List ℕ → List DataPoint
unfolding unpack_from
unpack_data_points b = unpack_from ((length b + point_size - 1) / point_size) b

-- The bytes of a point: its interval as four bytes, its value as eight.
pub bytes_lem : (p : DataPoint) → bytes p ≡ put_word 4 (to_u32 p.interval) ++ put_word 8 p.value
unfolding bytes pack_int pack_float64
bytes_lem p =
    let w = put_word 4 (to_u32 p.interval) in
    let d = put_word 8 p.value in
    let four = length-put_word 4 (to_u32 p.interval) in
    ap (λ b. splice b 4 d) (splice_prefix [] w (replicate 4 0) (replicate 8 0) four)
    ∙ (ap (λ k. splice (w ++ replicate 8 0) k d) (sym four)
        ∙ (splice_prefix w d (replicate 8 0) [] (length-put_word 8 p.value)
            ∙ ap (λ l. w ++ l) (append-nil d)))

pub length-bytes : (p : DataPoint) → length (bytes p) ≡ 12
length-bytes p =
    ap length (bytes_lem p)
    ∙ (length-append (put_word 4 (to_u32 p.interval)) (put_word 8 p.value)
        ∙ omega (arith, length-put_word 4 (to_u32 p.interval), length-put_word 8 p.value))

-- A point that fits its words: a time before 2 ^ 32, and 64 bits.
pub record Fits (p : DataPoint) : Type 0 where
  pub time : ℕ
  pub interval_eq : p.interval ≡ pos time
  pub time_lt : time < 2 ^ 32
  pub value_lt : p.value < 2 ^ 64

unpack-words :
    (v d : ℕ)
    → v < 2 ^ 32
    → d < 2 ^ 64
    → unpack_data_point (put_word 4 v ++ put_word 8 d) ≡ record { interval = pos v; value = d }
unfolding unpack_data_point unpack_int unpack_float64
unpack-words v d hv hd =
    let first = take-append 4 (put_word 4 v) (put_word 8 d) (sym (length-put_word 4 v)) in
    let rest = drop-append 4 (put_word 4 v) (put_word 8 d) (sym (length-put_word 4 v)) in
    let all = take_all 8 (put_word 8 d) (omega (arith, length-put_word 8 d)) in
    rw (first, rest, all, word_from-put_word 4 v hv, word_from-put_word 8 d hd)

-- Unpacking the twelve bytes of a point gives the point back, for a time and a value that fit their
-- words.
pub unpack-bytes : (p : DataPoint) → Fits p → unpack_data_point (bytes p) ≡ p
unpack-bytes p h =
    let word : to_u32 p.interval ≡ h.time = ap to_u32 h.interval_eq ∙ mod-eq_of_lt h.time_lt in
    ap unpack_data_point (bytes_lem p)
    ∙ (ap (λ w. unpack_data_point (put_word 4 w ++ put_word 8 p.value)) word
        ∙ (unpack-words h.time p.value h.time_lt h.value_lt ∙ λ i. record {
          interval = sym h.interval_eq i;
          value = p.value;
        }))

-- The bytes of several points, one after the other.
abbrev pub packed : List DataPoint → List ℕ
packed [] = []
packed (p ∷ ps) = bytes p ++ packed ps

pub length-packed : (ps : List DataPoint) → length (packed ps) ≡ length ps * 12
length-packed [] = refl
length-packed (p ∷ ps) =
    length-append (bytes p) (packed ps) ∙ omega (arith, length-bytes p, length-packed ps)

unpack_from-packed : (ps : List DataPoint) → All Fits ps → unpack_from (length ps) (packed ps) ≡ ps
unfolding unpack_from
unpack_from-packed [] h = refl
unpack_from-packed (p ∷ ps) h =
    let twelve = sym (length-bytes p) in
    ap₂ ◌∷◌
      (ap unpack_data_point (take-append 12 (bytes p) (packed ps) twelve) ∙ unpack-bytes p h.0)
      (ap (unpack_from (length ps)) (drop-append 12 (bytes p) (packed ps) twelve)
        ∙ unpack_from-packed ps h.1)

-- `unpackDataPoints` reads back every series of points that was written as bytes.
unpack_data_points-packed :
    (ps : List DataPoint) → All Fits ps → unpack_data_points (packed ps) ≡ ps
unfolding unpack_data_points
unpack_data_points-packed ps h =
    let count : (length (packed ps) + 12 - 1) / 12 ≡ length ps = omega (arith, length-packed ps) in
    ap (λ n. unpack_from n (packed ps)) count ∙ unpack_from-packed ps h
