-- ===== src/Whisper/Header/RoundTrip.antt =====
-- What Create of whisper/whisper.go writes, Open reads.
use buckytools.Prelude.{
  ℕ, ◌+◌, ◌*◌, ◌%◌, ◌^◌, ◌<◌, ◌≡◌, refl, sym, ap, ap₂, ◌∙◌, List, [], ◌∷◌, ◌++◌, append-nil,
  append_assoc, arith, length, take, drop, All, length-append, take-append, drop-append,
}
use buckytools.Prelude.Int.{pos}
use buckytools.Prelude.Index.{get_or-append_lt, get_or-append_add}
use buckytools.Whisper.Bytes.{
  unpack_int, unpack_float32, put_word, length-put_word, word_from-put_word, to_u32,
}
use buckytools.Whisper.File.{read_at, read_at_of_bytes}
use buckytools.Whisper.Retention.{Retention}
use buckytools.Whisper.Archive.{ArchiveInfo}
use buckytools.Whisper.Header.{
  Whisper, new_whisper, open_file, unpack_archives, unpack_archive_info, header,
}
use buckytools.Whisper.Header.Layout.{
  word, infos, header-eq-words, length-infos, length-word_append,
}

-- Numbers that a 32-bit word holds.
abbrev pub FitsInfo : ArchiveInfo → Type 0
FitsInfo a = (a.offset < 256 ^ 4) × (a.seconds_per_point < 256 ^ 4) × (a.number_of_points < 256 ^ 4)

pub record FitsWords (w : Whisper) : Type 0 where
  pub aggregation : w.aggregation_method < 256 ^ 4
  pub retention : w.max_retention < 256 ^ 4
  pub factor : w.x_files_factor < 256 ^ 4
  pub count : length w.archives < 256 ^ 4
  pub infos_fit : All FitsInfo w.archives

read_at-middle : (a b c : List ℕ) → read_at (a ++ (b ++ c)) (length a) (length b) ≡ b
read_at-middle a b c =
    read_at_of_bytes (a ++ (b ++ c)) b (length a)
      (λ j lt. get_or-append_add a (b ++ c) j 0 ∙ get_or-append_lt b c j 0 lt)

unpack_int-word : (v : ℕ) → v < 256 ^ 4 → unpack_int (word v) ≡ v
unfolding unpack_int
unpack_int-word v h = let same : v % 2 ^ 32 ≡ v = omega arith in rw same (word_from-put_word 4 v h)

length-word : (v : ℕ) → length (word v) ≡ 4
length-word v = length-put_word 4 (to_u32 (pos v))

-- A word that stands behind `pre`.
word_behind :
    (pre : List ℕ) (v i : ℕ) (rest : List ℕ)
    → i ≡ length pre
    → take 4 (drop i (pre ++ (word v ++ rest))) ≡ word v
word_behind pre v i rest h =
    rw (drop-append i pre (word v ++ rest) h) (take-append 4 (word v) rest (sym (length-word v)))

-- The same behind two words.
third_word :
    (a b : List ℕ) (v i : ℕ) (rest : List ℕ)
    → i ≡ length a + length b
    → take 4 (drop i (a ++ (b ++ (word v ++ rest)))) ≡ word v
third_word a b v i rest h =
    ap (λ l. take 4 (drop i l)) (sym (append_assoc a b (word v ++ rest)))
    ∙ word_behind (a ++ b) v i rest (h ∙ sym (length-append a b))

unpack_archive_info-words :
    (a : ArchiveInfo)
    → FitsInfo a
    → unpack_archive_info
        (word a.offset ++ (word a.seconds_per_point ++ (word a.number_of_points ++ [])))
      ≡ a
unfolding unpack_archive_info
unpack_archive_info-words a (o, s, n) =
    let w1 = word a.offset in
    let w2 = word a.seconds_per_point in
    let e1 = word_behind [] a.offset 0 (w2 ++ (word a.number_of_points ++ [])) refl in
    let e2 =
      word_behind w1 a.seconds_per_point 4 (word a.number_of_points ++ [])
        (sym (length-word a.offset)) in
    let e3 =
      third_word w1 w2 a.number_of_points 8 []
        (omega (arith, length-word a.offset, length-word a.seconds_per_point)) in
    let v1 = unpack_int-word a.offset o in
    let v2 = unpack_int-word a.seconds_per_point s in
    let v3 = unpack_int-word a.number_of_points n in rw (e1, e2, e3, v1, v2, v3) refl

take-infos :
    (a : ArchiveInfo) (xs : List ArchiveInfo)
    → take 12 (infos (a ∷ xs))
      ≡ word a.offset ++ (word a.seconds_per_point ++ (word a.number_of_points ++ []))
take-infos a xs =
    let w1 = word a.offset in
    let w2 = word a.seconds_per_point in
    let w3 = word a.number_of_points in
    let size : 12 ≡ length (w1 ++ (w2 ++ (w3 ++ []))) = omega (
      arith,
      length-word_append a.offset (w2 ++ (w3 ++ [])),
      length-word_append a.seconds_per_point (w3 ++ []),
      length-word_append a.number_of_points [],
    ) in
    ap (take 12) (regroup w1 w2 w3 (infos xs))
    ∙ take-append 12 (w1 ++ (w2 ++ (w3 ++ []))) (infos xs) size
  where
    regroup : (p q r t : List ℕ) → p ++ (q ++ (r ++ t)) ≡ (p ++ (q ++ (r ++ []))) ++ t
    regroup p q r t = simp (append_assoc, append-nil)

unpack_archives-infos :
    (xs : List ArchiveInfo) (pre : List ℕ) (i : ℕ)
    → i * 12 ≡ length pre
    → All FitsInfo xs
    → unpack_archives i (length xs) (pre ++ infos xs) ≡ xs
unfolding unpack_archives
unpack_archives-infos [] pre i h p = refl
unpack_archives-infos (a ∷ xs) pre i h p =
    let here = ap (take 12) (drop-append (i * 12) pre (infos (a ∷ xs)) h) ∙ take-infos a xs in
    let one = unpack_archive_info-words a p.0 in
    let front = word a.offset ++ (word a.seconds_per_point ++ (word a.number_of_points ++ [])) in
    let size : (i + 1) * 12 ≡ length (pre ++ front) = omega (
      arith,
      h,
      length-append pre front,
      length-word_append a.offset (word a.seconds_per_point ++ (word a.number_of_points ++ [])),
      length-word_append a.seconds_per_point (word a.number_of_points ++ []),
      length-word_append a.number_of_points [],
    ) in
    let rest = unpack_archives-infos xs (pre ++ front) (i + 1) size p.1 in
    let same =
      regroup pre (word a.offset) (word a.seconds_per_point) (word a.number_of_points) (infos xs) in
    ap₂ ◌∷◌ (ap unpack_archive_info here ∙ one)
      (ap (unpack_archives (i + 1) (length xs)) same ∙ rest)
  where
    regroup :
        (o p q r t : List ℕ) → o ++ (p ++ (q ++ (r ++ t))) ≡ (o ++ (p ++ (q ++ (r ++ [])))) ++ t
    regroup o p q r t = simp (append_assoc, append-nil)

-- The words of the header before the archives.
abbrev metadata : ℕ → ℕ → ℕ → ℕ → List ℕ
metadata m retention x count = word m ++ (word retention ++ (put_word 4 x ++ (word count ++ [])))

length-metadata : (m retention x count : ℕ) → length (metadata m retention x count) ≡ 16
length-metadata m retention x count = omega (
  arith,
  length-word_append m (word retention ++ (put_word 4 x ++ (word count ++ []))),
  length-word_append retention (put_word 4 x ++ (word count ++ [])),
  length-append (put_word 4 x) (word count ++ []),
  length-put_word 4 x,
  length-word_append count [],
)

third_factor :
    (a b : List ℕ) (v : ℕ) (t : List ℕ)
    → length a ≡ 4
    → length b ≡ 4
    → take 4 (drop 8 (a ++ (b ++ (put_word 4 v ++ t)))) ≡ put_word 4 v
third_factor a b v t ha hb =
    ap (λ l. take 4 (drop 8 l)) (sym (append_assoc a b (put_word 4 v ++ t)))
    ∙ (ap (take 4) (drop-append 8 (a ++ b) (put_word 4 v ++ t) (omega (arith, length-append a b)))
        ∙ take-append 4 (put_word 4 v) t (sym (length-put_word 4 v)))

fourth :
    (a b c : List ℕ) (v : ℕ)
    → length a ≡ 4
    → length b ≡ 4
    → length c ≡ 4
    → take 4 (drop 12 (a ++ (b ++ (c ++ (word v ++ []))))) ≡ word v
fourth a b c v ha hb hc =
    ap (λ l. take 4 (drop 12 l)) (sym (append_assoc a b (c ++ (word v ++ []))))
    ∙ third_word (a ++ b) c v 12 [] (omega (arith, length-append a b))

-- A database whose file starts with its own header, with numbers that fit their words.
open_file-header :
    (w : Whisper) (rest : List ℕ)
    → FitsWords w
    → w.file ≡ header w.aggregation_method w.max_retention w.x_files_factor w.archives ++ rest
    → open_file w.file ≡ w
unfolding open_file unpack_float32
open_file-header w rest fits e =
    let w1 = word w.aggregation_method in
    let w2 = word w.max_retention in
    let w3 = put_word 4 w.x_files_factor in
    let w4 = word (length w.archives) in
    let meta = metadata w.aggregation_method w.max_retention w.x_files_factor (length w.archives) in
    let behind = infos w.archives in
    let size =
      length-metadata w.aggregation_method w.max_retention w.x_files_factor (length w.archives) in
    let split : w.file ≡ meta ++ (behind ++ rest) =
      e
      ∙ (ap (λ l. l ++ rest)
            (header-eq-words w.aggregation_method w.max_retention w.x_files_factor w.archives)
          ∙ regroup w1 w2 w3 w4 behind rest) in
    let first : read_at w.file 0 16 ≡ meta =
      ap₂ (λ f n. read_at f 0 n) split (sym size) ∙ read_at-middle [] meta (behind ++ rest) in
    let second : read_at w.file 16 (12 * length w.archives) ≡ behind =
      ap₂ (λ f n. read_at f n (12 * length w.archives)) split (sym size)
      ∙ (ap (read_at (meta ++ (behind ++ rest)) (length meta)) (sym (length-infos w.archives))
          ∙ read_at-middle meta behind rest) in
    let e1 = word_behind [] w.aggregation_method 0 (w2 ++ (w3 ++ (w4 ++ []))) refl in
    let e2 =
      word_behind w1 w.max_retention 4 (w3 ++ (w4 ++ []))
        (sym (length-word w.aggregation_method)) in
    let e3 =
      third_factor w1 w2 w.x_files_factor (w4 ++ []) (length-word w.aggregation_method)
        (length-word w.max_retention) in
    let e4 =
      fourth w1 w2 w3 (length w.archives) (length-word w.aggregation_method)
        (length-word w.max_retention) (length-put_word 4 w.x_files_factor) in
    let v1 = unpack_int-word w.aggregation_method fits.aggregation in
    let v2 = unpack_int-word w.max_retention fits.retention in
    let v3 : unpack_float32 w3 ≡ w.x_files_factor = word_float w.x_files_factor fits.factor in
    let v4 = unpack_int-word (length w.archives) fits.count in
    let v5 = unpack_archives-infos w.archives [] 0 refl fits.infos_fit in
    rw (first, e1, e2, e3, e4, v1, v2, v3, v4, second, v5) refl
  where
    regroup :
        (a b c d f g : List ℕ)
        → (a ++ (b ++ (c ++ (d ++ f)))) ++ g ≡ (a ++ (b ++ (c ++ (d ++ [])))) ++ (f ++ g)
    regroup a b c d f g = simp (append_assoc, append-nil)

    word_float : (v : ℕ) → v < 256 ^ 4 → unpack_float32 (put_word 4 v) ≡ v
    word_float v h = word_from-put_word 4 v h

-- A database made by `Create`, all of whose numbers fit their 32-bit words, is read back by `Open` as
-- it was made: the method, the retention, the factor and the archives.
pub open_file-new_whisper :
    (rs : List Retention) (m x : ℕ)
    → FitsWords (new_whisper rs m x)
    → open_file (new_whisper rs m x).file ≡ new_whisper rs m x
unfolding new_whisper
open_file-new_whisper rs m x fits = open_file-header (new_whisper rs m x) _ fits refl
