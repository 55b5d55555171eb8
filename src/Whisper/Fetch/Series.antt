-- ===== src/Whisper/Fetch/Series.antt =====
-- What readSeries and Fetch of whisper/whisper.go read: an archive is a ring of points.
use Prim.Native.Nat.add
use buckytools.Prelude.{
  ℕ, zero, suc, ◌+◌, ◌-◌, ◌*◌, ◌/◌, ◌≤◌, ◌<◌, ◌≡◌, refl, sym, ap, ap₂, ◌∙◌, ◌⊎◌, inl, inr, false,
  List, [], ◌∷◌, ◌++◌, append-nil, append_assoc, arith, ltb, ◌==◌, if◌then◌else◌, ltb→lt, lt→ltb,
  Bool-cases, length, take, drop, replicate, length-append, take-append, drop-append,
}
use buckytools.Prelude.Int.{ℤ, pos, pos_part, ◌+ℤ◌, ◌-ℤ◌, ltb_ℤ}
use buckytools.Whisper.Mod.{quotient}
use buckytools.Whisper.Bytes.{unpack_int}
use buckytools.Whisper.File.{FileData, byte_at, read_at, length-read_at}
use buckytools.Whisper.Retention.{size}
use buckytools.Whisper.Archive.{ArchiveInfo, end_offset, interval_after, point_offset-bounds}
use buckytools.Whisper.Point.{DataPoint, unpack_data_point, unpack_data_points, unpack_from}
use buckytools.Whisper.Header.{Whisper}
use buckytools.Whisper.Update.{read_series, choose_archive, no_archive}
use buckytools.Whisper.Update.Regions.{InFile, get_base_interval-InFile}
use buckytools.Whisper.Update.Database.{IsDatabase, choose_archive-Behind}
use buckytools.Whisper.Fetch.{
  nan, TimeSeries, series, start_time, fill_values, fetch_archive, fetch,
}

-- The points at `count` places that follow one another.
abbrev pub slots : FileData → ℕ → ℕ → List DataPoint
slots f offset zero = []
slots f offset (suc count) = unpack_data_point (read_at f offset 12) ∷ slots f (offset + 12) count

length-slots : (f : FileData) (offset count : ℕ) → length (slots f offset count) ≡ count
length-slots f offset zero = refl
length-slots f offset (suc count) = ap suc (length-slots f (offset + 12) count)

read_at-add :
    (f : FileData) (offset m n : ℕ)
    → read_at f offset (m + n) ≡ read_at f offset m ++ read_at f (offset + m) n
unfolding read_at
read_at-add f offset zero n = ap₂ (λ o k. read_at f o k) (omega arith) (omega arith)
read_at-add f offset (suc m) n =
    let shift : offset + 1 + m ≡ offset + suc m = omega arith in
    rw add.suc (
      ap (λ l. byte_at f offset ∷ l)
        (read_at-add f (offset + 1) m n
          ∙ ap (λ o. read_at f (offset + 1) m ++ read_at f o n) shift))

-- Points are unpacked one by one, and then those of the bytes that follow.
unpack_from-slots :
    (f : FileData) (offset count n : ℕ) (more : List ℕ)
    → unpack_from (count + n) (read_at f offset (count * 12) ++ more)
      ≡ slots f offset count ++ unpack_from n more
unfolding unpack_from read_at
unpack_from-slots f offset zero n more =
    ap (λ k. unpack_from k more) {x = 0 + n} {y = n} (omega arith)
unpack_from-slots f offset (suc count) n more =
    let rest = read_at f (offset + 12) (count * 12) in
    let twelve = length-read_at f offset 12 in
    let split : read_at f offset (suc count * 12) ++ more ≡ read_at f offset 12 ++ (rest ++ more) =
      ap (λ n. read_at f offset n ++ more) {x = suc count * 12} {y = 12 + count * 12} (omega arith)
      ∙ (ap (λ l. l ++ more) (read_at-add f offset 12 (count * 12))
          ∙ append_assoc (read_at f offset 12) rest more) in
    rw add.suc (
      ap₂ ◌∷◌
        (ap (λ l. unpack_data_point (take 12 l)) split
          ∙ ap unpack_data_point (take-append 12 (read_at f offset 12) (rest ++ more) (sym twelve)))
        (ap (λ l. unpack_from (count + n) (drop 12 l)) split
          ∙ (ap (unpack_from (count + n))
                (drop-append 12 (read_at f offset 12) (rest ++ more) (sym twelve))
              ∙ unpack_from-slots f (offset + 12) count n more)))

-- Two reads, each of whole points.
unpack_data_points-slots :
    (f : FileData) (o1 m o2 n : ℕ)
    → unpack_data_points (read_at f o1 (m * 12) ++ read_at f o2 (n * 12))
      ≡ slots f o1 m ++ slots f o2 n
unfolding unpack_data_points unpack_from
unpack_data_points-slots f o1 m o2 n =
    let one = length-read_at f o1 (m * 12) in
    let two = length-read_at f o2 (n * 12) in
    let both = length-append (read_at f o1 (m * 12)) (read_at f o2 (n * 12)) in
    let count : (length (read_at f o1 (m * 12) ++ read_at f o2 (n * 12)) + 12 - 1) / 12 ≡ m + n =
      omega (arith, one, two, both) in
    let zero_off : n + 0 ≡ n = omega arith in
    let last : unpack_from n (read_at f o2 (n * 12)) ≡ slots f o2 n =
      ap₂ unpack_from (sym zero_off) (sym (append-nil (read_at f o2 (n * 12))))
      ∙ (unpack_from-slots f o2 n 0 [] ∙ append-nil (slots f o2 n)) in
    ap (λ k. unpack_from k (read_at f o1 (m * 12) ++ read_at f o2 (n * 12))) count
    ∙ (unpack_from-slots f o1 m n (read_at f o2 (n * 12)) ∙ ap (λ l. slots f o1 m ++ l) last)

-- From one point of an archive to another, `readSeries` gives the points between, the second one left
-- out; it wraps around at the archive's end, and so reads all points where the two are the same.
pub read_series-slots :
    (f : FileData) (a : ArchiveInfo) (i j : ℕ)
    → i < a.number_of_points
    → j < a.number_of_points
    → read_series f (a.offset + i * 12) (a.offset + j * 12) a ≡ (
        if ltb i j
        then slots f (a.offset + i * 12) (j - i)
        else slots f (a.offset + i * 12) (a.number_of_points - i) ++ slots f a.offset j)
unfolding read_series end_offset size read_at
read_series-slots f a i j hi hj = elim (Bool-cases (ltb i j)) [
  | inl before ↦
      let lt = ltb→lt i j before in
      let up = lt→ltb (a.offset + i * 12) (a.offset + j * 12) (omega arith) in
      let bytes : a.offset + j * 12 - (a.offset + i * 12) ≡ (j - i) * 12 = omega arith in
      rw (before, up, bytes)
        (ap unpack_data_points (sym (append-nil (read_at f (a.offset + i * 12) ((j - i) * 12))))
          ∙ (unpack_data_points-slots f (a.offset + i * 12) (j - i) 0 0
              ∙ append-nil (slots f (a.offset + i * 12) (j - i))))
  | inr behind ↦
      let ge : j ≤ i = ground arith in
      let down : ltb (a.offset + i * 12) (a.offset + j * 12) ≡ false = ground arith in
      let first : a.offset + a.number_of_points * 12 - (a.offset + i * 12)
          ≡ (a.number_of_points - i) * 12 =
        omega arith in
      let second : a.offset + j * 12 - a.offset ≡ j * 12 = omega arith in
      rw (behind, down, first, second)
        (unpack_data_points-slots f (a.offset + i * 12) (a.number_of_points - i) a.offset j)
]

length-fill_values :
    (current : ℤ) (step : ℕ) (ps : List DataPoint)
    → length (fill_values current step ps) ≡ length ps
unfolding fill_values
length-fill_values current step [] = refl
length-fill_values current step (p ∷ ps) = ap suc (length-fill_values (current +ℤ pos step) step ps)

-- At least one point is read, and no more than the archive has.
length-read_series :
    (f : FileData) (a : ArchiveInfo) (i j : ℕ)
    → i < a.number_of_points
    → j < a.number_of_points
    → (0 < length (read_series f (a.offset + i * 12) (a.offset + j * 12) a))
      × (length (read_series f (a.offset + i * 12) (a.offset + j * 12) a) ≤ a.number_of_points)
length-read_series f a i j hi hj = elim (Bool-cases (ltb i j)) [
  | inl before ↦
      let lt = ltb→lt i j before in
      let len = length-slots f (a.offset + i * 12) (j - i) in
      rw (read_series-slots f a i j hi hj, before) (omega (arith, len), omega (arith, len))
  | inr behind ↦
      let ge : j ≤ i = ground arith in
      let len1 = length-slots f (a.offset + i * 12) (a.number_of_points - i) in
      let len2 = length-slots f a.offset j in
      let both =
        length-append (slots f (a.offset + i * 12) (a.number_of_points - i)) (slots f a.offset j) in
      rw (read_series-slots f a i j hi hj, behind)
        (omega (arith, len1, len2, both), omega (arith, len1, len2, both))
]

-- A series for a span of time in an archive: the two times, the archive's step, and as many missing
-- values as the span has steps, or at least one value and no more than the archive has points.
pub record Covers (a : ArchiveInfo) (from until : ℤ) (ts : TimeSeries) : Type 0 where
  pub from_eq : ts.from_time ≡ from
  pub until_eq : ts.until_time ≡ until
  pub step_eq : ts.step ≡ a.seconds_per_point
  pub count :
      (ts.values ≡ replicate (pos_part (quotient (until -ℤ from) a.seconds_per_point)) nan)
      ⊎ ((0 < length ts.values) × (length ts.values ≤ a.number_of_points))

fetch_archive-Covers :
    (f : FileData) (a : ArchiveInfo) (from until : ℤ)
    → InFile f a
    → (ts : TimeSeries) × (fetch_archive f a from until ≡ series ts) × Covers a from until ts
unfolding fetch_archive
fetch_archive-Covers f a from until h =
    let base = unpack_int (read_at f a.offset 4) in
    rw (get_base_interval-InFile f a h, fetch_archive)
      (elim (Bool-cases (base == 0)) [
        | inl fresh ↦
            rw fresh (
              _,
              refl,
              record { from_eq = refl; until_eq = refl; step_eq = refl; count = inl refl },
            )
        | inr old ↦
            let (i, hi, ei, bi) = point_offset-bounds a (pos base) from h.proper in
            let (j, hj, ej, bj) = point_offset-bounds a (pos base) until h.proper in
            let (some_value, room) = length-read_series f a i j hi hj in
            rw (old, ei, ej)
              (
                _,
                refl,
                record {
                  from_eq = refl;
                  until_eq = refl;
                  step_eq = refl;
                  count = inr (
                    omega (
                      arith,
                      some_value,
                      length-fill_values from a.seconds_per_point
                          (read_series f (a.offset + i * 12) (a.offset + j * 12) a),
                    ),
                    omega (
                      arith,
                      room,
                      length-fill_values from a.seconds_per_point
                          (read_series f (a.offset + i * 12) (a.offset + j * 12) a),
                    ),
                  );
                },
              )
      ])

-- The span that `Fetch` looks at, and its archive.
abbrev pub window_start : ℤ → Whisper → ℤ → ℤ
window_start now w from = if ltb_ℤ from (start_time now w) then start_time now w else from

abbrev pub window_end : ℤ → ℤ → ℤ
window_end now until = if ltb_ℤ now until then now else until

abbrev pub covering : ℤ → Whisper → ℤ → ArchiveInfo
covering now w from = (choose_archive (now -ℤ window_start now w from) no_archive w.archives).0

-- A `Fetch` whose span is not empty, begins in the past and reaches into the retention gives a series
-- for the span, cut at the retention's start and at the present, from the archive that covers it.
pub fetch-Covers :
    (now : ℤ) (w : Whisper) (from until : ℤ)
    → IsDatabase w
    → ltb_ℤ until from ≡ false
    → ltb_ℤ now from ≡ false
    → ltb_ℤ until (start_time now w) ≡ false
    → (ts : TimeSeries) × (fetch now w from until ≡ series ts)
      × Covers
          (covering now w from)
          (interval_after (covering now w from) (window_start now w from))
          (interval_after (covering now w from) (window_end now until))
          ts
unfolding fetch
fetch-Covers now w from until db ordered past reached =
    let diff = now -ℤ window_start now w from in
    let (here, behind) =
      choose_archive-Behind w.file diff no_archive db.start w.archives db.end db.tiles db.end_le
        db.proper (inr db.some_archive) in
    rw (ordered, past, reached, fetch)
      (fetch_archive-Covers w.file (covering now w from)
        (interval_after (covering now w from) (window_start now w from))
        (interval_after (covering now w from) (window_end now until)) here)
