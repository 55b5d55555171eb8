-- ===== src/Whisper/Header/Layout.antt =====
-- What Create of whisper/whisper.go lays out: archives side by side, and a file of the right size.
use buckytools.Prelude.{
  ℕ, zero, suc, ◌+◌, ◌-◌, ◌*◌, ◌≤◌, ◌≡◌, refl, sym, ap, ◌∙◌, inl, inr, List, [], ◌∷◌, ◌++◌, map,
  append_assoc, arith, ltb, ltb→lt, Bool-cases, length, replicate, length-append, length-replicate,
  replicate-append,
}
use buckytools.Prelude.Int.{pos}
use buckytools.Whisper.Bytes.{
  splice, pack_int, pack_float32, put_word, length-put_word, splice_prefix, to_u32,
}
use buckytools.Whisper.Retention.{Retention, size}
use buckytools.Whisper.Archive.{ArchiveInfo, end_offset}
use buckytools.Whisper.Header.{
  header_size, add_sizes, total_size, place_archives, zero_fill, largest, header, pack_archives,
  new_whisper,
}

-- The archives follow one another without a gap, from `offset` to `end`.
abbrev pub Tiles : ℕ → List ArchiveInfo → ℕ → Type 0
Tiles offset [] end = offset ≡ end
Tiles offset (a ∷ xs) end = (a.offset ≡ offset) × Tiles (end_offset a) xs end

place_archives-Tiles :
    (offset : ℕ) (rs : List Retention)
    → Tiles offset (place_archives offset rs) (add_sizes offset (place_archives offset rs))
unfolding place_archives add_sizes end_offset
place_archives-Tiles offset [] = refl
place_archives-Tiles offset (r ∷ rs) = (refl, place_archives-Tiles (offset + size r) rs)

pub length-place_archives :
    (offset : ℕ) (rs : List Retention) → length (place_archives offset rs) ≡ length rs
unfolding place_archives
length-place_archives offset [] = refl
length-place_archives offset (r ∷ rs) = ap suc (length-place_archives (offset + size r) rs)

-- The chunks of zeros make up what remains.
zero_fill-eq-replicate : (fuel n : ℕ) → zero_fill fuel n ≡ replicate n 0
unfolding zero_fill
zero_fill-eq-replicate zero n = refl
zero_fill-eq-replicate (suc fuel) n = elim (Bool-cases (ltb 16384 n)) [
  | inr last ↦ rw last
  | inl more ↦
      let enough = ltb→lt 16384 n more in
      let whole : 16384 + (n - 16384) ≡ n = omega arith in
      rw (
        more,
        zero_fill-eq-replicate fuel (n - 16384),
        replicate-append {A = ℕ} 16384 (n - 16384) 0,
        whole,
      )
]

add_sizes-le : (total : ℕ) (xs : List ArchiveInfo) → total ≤ add_sizes total xs
unfolding add_sizes
add_sizes-le total [] = omega arith
add_sizes-le total (a ∷ xs) = omega (arith, add_sizes-le (total + size a.retention) xs)

place_archives-retention :
    (offset : ℕ) (rs : List Retention)
    → map (λ (a : ArchiveInfo). a.retention) (place_archives offset rs) ≡ rs
unfolding place_archives
place_archives-retention offset [] = refl
place_archives-retention offset (r ∷ rs) =
    ap (λ l. r ∷ l) (place_archives-retention (offset + size r) rs)

abbrev pub word : ℕ → List ℕ
word v = put_word 4 (to_u32 (pos v))

-- An archive's three words in the header.
abbrev pub infos : List ArchiveInfo → List ℕ
infos [] = []
infos (a ∷ xs) =
    word a.offset ++ (word a.seconds_per_point ++ (word a.number_of_points ++ infos xs))

-- The header as a sequence of words.
abbrev pub header_words : ℕ → ℕ → ℕ → List ArchiveInfo → List ℕ
header_words m retention x archives =
    word m ++ (word retention ++ (put_word 4 x ++ (word (length archives) ++ infos archives)))

abbrev zeros : ℕ → List ℕ
zeros n = replicate n 0

-- A word written where zeros begin.
splice-zeros :
    (pre w : List ℕ) (i n : ℕ)
    → i ≡ length pre
    → length w ≡ 4
    → 4 ≤ n
    → splice (pre ++ zeros n) i w ≡ (pre ++ w) ++ zeros (n - 4)
splice-zeros pre w i n hi hw hn =
    let whole : 4 + (n - 4) ≡ n = omega arith in
    ap (λ k. splice (pre ++ zeros k) i w) (sym whole)
    ∙ (ap (λ l. splice (pre ++ l) i w) (sym (replicate-append {A = ℕ} 4 (n - 4) 0))
        ∙ (ap (λ k. splice (pre ++ (zeros 4 ++ zeros (n - 4))) k w) hi
            ∙ (splice_prefix pre w (zeros 4) (zeros (n - 4)) hw
                ∙ sym (append_assoc pre w (zeros (n - 4))))))

length-word : (pre : List ℕ) (v i : ℕ) → i ≡ length pre → i + 4 ≡ length (pre ++ put_word 4 v)
length-word pre v i h = omega (arith, length-append pre (put_word 4 v), length-put_word 4 v)

pack_archives-infos :
    (xs : List ArchiveInfo) (pre : List ℕ) (i n : ℕ)
    → i ≡ length pre
    → n ≡ 12 * length xs
    → pack_archives (pre ++ zeros n) i xs ≡ pre ++ infos xs
unfolding pack_archives pack_int
pack_archives-infos [] pre i n hi hn = let nothing : n ≡ 0 = omega arith in rw nothing
pack_archives-infos (a ∷ xs) pre i n hi hn =
    let w1 = word a.offset in
    let w2 = word a.seconds_per_point in
    let w3 = word a.number_of_points in
    let h1 = length-word pre (to_u32 (pos a.offset)) i hi in
    let h2 = length-word (pre ++ w1) (to_u32 (pos a.seconds_per_point)) (i + 4) h1 in
    let h3 = length-word ((pre ++ w1) ++ w2) (to_u32 (pos a.number_of_points)) (i + 4 + 4) h2 in
    let s1 = splice-zeros pre w1 i n hi (length-put_word 4 _) (omega arith) in
    let s2 = splice-zeros (pre ++ w1) w2 (i + 4) (n - 4) h1 (length-put_word 4 _) (omega arith) in
    let s3 =
      splice-zeros ((pre ++ w1) ++ w2) w3 (i + 4 + 4) (n - 4 - 4) h2 (length-put_word 4 _)
        (omega arith) in
    let rest =
      pack_archives-infos xs (((pre ++ w1) ++ w2) ++ w3) (i + 4 + 4 + 4) (n - 4 - 4 - 4) h3
        (omega arith) in
    rw (s1, s2, s3) (rest ∙ regroup pre w1 w2 w3 (infos xs))
  where
    regroup : (p a b c d : List ℕ) → (((p ++ a) ++ b) ++ c) ++ d ≡ p ++ (a ++ (b ++ (c ++ d)))
    regroup p a b c d = simp append_assoc

-- `writeHeader` fills its buffer with the words of the header, one after the other.
pub header-eq-words :
    (m retention x : ℕ) (archives : List ArchiveInfo)
    → header m retention x archives ≡ header_words m retention x archives
unfolding header pack_int pack_float32 header_size
header-eq-words m retention x archives =
    let n = 16 + 12 * length archives in
    let w1 = word m in
    let w2 = word retention in
    let w3 = put_word 4 x in
    let w4 = word (length archives) in
    let h1 = length-word [] (to_u32 (pos m)) 0 refl in
    let h2 = length-word w1 (to_u32 (pos retention)) 4 h1 in
    let h3 = length-word (w1 ++ w2) x 8 h2 in
    let h4 = length-word ((w1 ++ w2) ++ w3) (to_u32 (pos (length archives))) 12 h3 in
    let s1 = splice-zeros [] w1 0 n refl (length-put_word 4 _) (omega arith) in
    let s2 = splice-zeros w1 w2 4 (n - 4) h1 (length-put_word 4 _) (omega arith) in
    let s3 = splice-zeros (w1 ++ w2) w3 8 (n - 4 - 4) h2 (length-put_word 4 _) (omega arith) in
    let s4 =
      splice-zeros ((w1 ++ w2) ++ w3) w4 12 (n - 4 - 4 - 4) h3 (length-put_word 4 _)
        (omega arith) in
    let rest =
      pack_archives-infos archives (((w1 ++ w2) ++ w3) ++ w4) 16 (n - 4 - 4 - 4 - 4) h4
        (omega arith) in
    rw (s1, s2, s3, s4) (rest ∙ regroup w1 w2 w3 w4 (infos archives))
  where
    regroup : (a b c d e : List ℕ) → (((a ++ b) ++ c) ++ d) ++ e ≡ a ++ (b ++ (c ++ (d ++ e)))
    regroup a b c d e = simp append_assoc

pub length-word_append : (v : ℕ) (rest : List ℕ) → length (word v ++ rest) ≡ 4 + length rest
length-word_append v rest =
    length-append (word v) rest ∙ omega (arith, length-put_word 4 (to_u32 (pos v)))

pub length-infos : (xs : List ArchiveInfo) → length (infos xs) ≡ 12 * length xs
length-infos [] = refl
length-infos (a ∷ xs) = omega (
  arith,
  length-word_append a.offset (word a.seconds_per_point ++ (word a.number_of_points ++ infos xs)),
  length-word_append a.seconds_per_point (word a.number_of_points ++ infos xs),
  length-word_append a.number_of_points (infos xs),
  length-infos xs,
)

-- The buffer of `writeHeader` has the size that `MetadataSize` says.
length-header :
    (m retention x : ℕ) (archives : List ArchiveInfo)
    → length (header m retention x archives) ≡ header_size archives
unfolding header_size
length-header m retention x archives =
    let tail = put_word 4 x ++ (word (length archives) ++ infos archives) in
    rw (header-eq-words m retention x archives) (
      omega (
        arith,
        length-word_append m (word retention ++ tail),
        length-word_append retention tail,
        length-append (put_word 4 x) (word (length archives) ++ infos archives),
        length-put_word 4 x,
        length-word_append (length archives) (infos archives),
        length-infos archives,
      ))

-- A file that `Create` makes has the size that `Size` says, and its archives lie one behind the other
-- from the end of the header to the end of the file, one for each retention.
pub new_whisper-Tiles :
    (rs : List Retention) (m x : ℕ)
    → (length (new_whisper rs m x).file ≡ total_size (new_whisper rs m x).archives)
      × (Tiles
          (header_size (new_whisper rs m x).archives)
          (new_whisper rs m x).archives
          (length (new_whisper rs m x).file))
      × (map (λ (a : ArchiveInfo). a.retention) (new_whisper rs m x).archives ≡ rs)
unfolding new_whisper total_size header_size
new_whisper-Tiles rs m x =
    let archives = place_archives (16 + 12 * length rs) rs in
    let count = length-place_archives (16 + 12 * length rs) rs in
    let start : header_size archives ≡ 16 + 12 * length rs = ap (λ n. 16 + 12 * n) count in
    let remaining = total_size archives - header_size archives in
    let head = length-header m (largest 0 rs) x archives in
    let zeros = ap (λ (l : List ℕ). length l) (zero_fill-eq-replicate remaining remaining) in
    let bound = add_sizes-le (header_size archives) archives in
    let whole : length (new_whisper rs m x).file ≡ total_size archives =
      length-append (header m (largest 0 rs) x archives) (zero_fill remaining remaining)
      ∙ omega (arith, head, zeros, bound, length-replicate {A = ℕ} remaining 0) in
    let tiled = place_archives-Tiles (16 + 12 * length rs) rs in
    (whole, rw (whole, start) tiled, place_archives-retention (16 + 12 * length rs) rs)
