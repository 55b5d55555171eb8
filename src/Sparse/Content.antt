-- ===== src/Sparse/Content.antt =====
-- A sparse copy has the bytes of its source.
use mathlib.Core.Path.{subst}
use buckytools.Prelude.{
  ℕ, ◌+◌, ◌-◌, ◌≤◌, ◌≡◌, refl, sym, ap, ap₂, ◌∙◌, ◌⊎◌, inl, inr, Bool, true, false, none, some,
  List, All, Option, [], ◌∷◌, ◌++◌, append-nil, append_assoc, arith, ◌==◌, ==_iff, Bool-cases,
  length, replicate, length-append, take_all, drop_all, replicate-append,
}
use buckytools.Whisper.File.{write_at}
use buckytools.Sparse.{
  Copy, Round, done, ReadEnd, more, eof, read_failed, DiskResult, failed, short, CopyError,
  all_zero, truncate, put, skip, store_block, end_round, copy_loop, copy_sparse,
}

-- The destination stands for some bytes: those in the file, and zeros up to the position.
pub record Holds (c : Copy) (bytes : List ℕ) : Type 0 where
  pub content : c.file ++ replicate (c.position - length c.file) 0 ≡ bytes
  pub room : length c.file ≤ c.position
  pub position_eq : c.position ≡ length bytes
  pub written_eq : c.written ≡ length bytes

all_zero-replicate : (bs : List ℕ) → all_zero bs ≡ true → bs ≡ replicate (length bs) 0
unfolding all_zero
all_zero-replicate [] h = refl
all_zero-replicate (b ∷ bs) h = elim (Bool-cases (b == 0)) [
  | inl e ↦ ap₂ ◌∷◌ ((==_iff b 0).0 e) (all_zero-replicate bs (sym (rw (e, all_zero) refl) ∙ h))
  | inr e ↦ absurd (wrong (sym (rw (e, all_zero) refl) ∙ h))
]
  where
    wrong : false ≡ true → ⊥
    wrong e = cc

Holds-skip :
    (c : Copy) (bytes bs : List ℕ)
    → Holds c bytes
    → all_zero bs ≡ true
    → Holds (skip c (length bs)) (bytes ++ bs)
unfolding skip
Holds-skip c bytes bs h z =
    let room = h.room in
    let more_room : c.position - length c.file + length bs
        ≡ c.position + length bs - length c.file =
      omega arith in
    record {
      content =
          ap (λ n. c.file ++ replicate n 0) (sym more_room)
          ∙ (ap (λ l. c.file ++ l)
                (sym (replicate-append {A = ℕ} (c.position - length c.file) (length bs) 0))
              ∙ (sym (
                    append_assoc c.file (replicate (c.position - length c.file) 0)
                      (replicate (length bs) 0))
                  ∙ ap₂ ◌++◌ h.content (sym (all_zero-replicate bs z))));
      room = omega arith;
      position_eq = let e = h.position_eq in omega (arith, e, length-append bytes bs);
      written_eq = let e = h.written_eq in omega (arith, e, length-append bytes bs);
    }

Holds-put : (c : Copy) (bytes bs : List ℕ) → Holds c bytes → Holds (put c bs) (bytes ++ bs)
unfolding put write_at
Holds-put c bytes bs h =
    let room = h.room in
    let front = take_all c.position c.file room in
    let behind = drop_all (c.position + length bs) c.file (omega arith) in
    let file : write_at c.file bs c.position ≡ bytes ++ bs =
      rw (front, behind)
        (ap (λ l. c.file ++ (replicate (c.position - length c.file) 0 ++ l)) (append-nil bs)
          ∙ (sym (append_assoc c.file (replicate (c.position - length c.file) 0) bs)
              ∙ ap (λ l. l ++ bs) h.content)) in
    let e = h.position_eq in
    let len : length (write_at c.file bs c.position) ≡ c.position + length bs =
      ap (λ (l : List ℕ). length l) file ∙ omega (arith, e, length-append bytes bs) in
    let full : c.position + length bs - length (write_at c.file bs c.position) ≡ 0 =
      omega (arith, len) in
    record {
      content =
          ap (λ n. write_at c.file bs c.position ++ replicate n 0) full
          ∙ (append-nil (write_at c.file bs c.position) ∙ file);
      room = omega (arith, len);
      position_eq = omega (arith, e, length-append bytes bs);
      written_eq = let w = h.written_eq in omega (arith, w, length-append bytes bs);
    }

truncate-Holds :
    (c : Copy) (bytes : List ℕ) → Holds c bytes → truncate c.file (length bytes) ≡ bytes
unfolding truncate
truncate-Holds c bytes h =
    let place = h.position_eq in
    let room = h.room in
    let whole = take_all (length bytes) c.file (omega arith) in
    rw whole (ap (λ n. c.file ++ replicate (n - length c.file) 0) (sym place) ∙ h.content)

-- The bytes that a reader gives.
abbrev pub source : List Round → List ℕ
source [] = []
source (r ∷ rest) = r.read ++ source rest

-- The disk does all it is asked, and the reader comes to its end in the last round.
abbrev pub IsWhole : List Round → Type 0
IsWhole [] = ⊥
IsWhole (r ∷ rest) =
    (r.disk ≡ done)
    × (((r.read_end ≡ eof) × (r.truncated ≡ true) × (rest ≡ []))
        ⊎ ((r.read_end ≡ more) × IsWhole rest))

store_block-Holds :
    (c : Copy) (bytes bs : List ℕ)
    → Holds c bytes
    → (after : Copy) × (store_block c bs done ≡ (after, none))
      × Holds after (bytes ++ bs)
      × (after.size ≡ c.size)
unfolding store_block
store_block-Holds c bytes bs h = elim (Bool-cases (all_zero bs)) [
  | inl zero_block ↦
      rw (zero_block, store_block)
        (skip c (length bs), refl, Holds-skip c bytes bs h zero_block, unfold skip in refl)
  | inr other ↦ rw (other, store_block) (put c bs, refl, Holds-put c bytes bs h, unfold put in refl)
]

-- A round in which all goes well.
copy_loop-round :
    (r : Round) (rest : List Round) (c after : Copy)
    → r.disk ≡ done
    → store_block record c { size = c.size + length r.read } r.read done ≡ (after, none)
    → copy_loop (r ∷ rest) c ≡ end_round (after, none) r.read_end r.truncated (copy_loop rest after)
unfolding copy_loop
copy_loop-round r rest c after ready e =
    ap (λ o. end_round o r.read_end r.truncated (copy_loop rest o.0))
      (ap (store_block record c { size = c.size + length r.read } r.read) ready ∙ e)

copy_loop-Holds :
    (rounds : List Round) (c : Copy) (bytes : List ℕ)
    → IsWhole rounds
    → Holds c bytes
    → c.size ≡ length bytes
    → (final : Copy) × (copy_loop rounds c ≡ some (final, none))
      × (final.file ≡ bytes ++ source rounds)
      × (final.written ≡ length (bytes ++ source rounds))
unfolding end_round
copy_loop-Holds [] c bytes w h s = absurd w
copy_loop-Holds (r ∷ rest) c bytes (ready, ends) h s =
    let counted : Copy = record c { size = c.size + length r.read } in
    let same : Holds counted bytes = record {
      content = h.content;
      room = h.room;
      position_eq = h.position_eq;
      written_eq = h.written_eq;
    } in
    let (after, e, held, kept) = store_block-Holds counted bytes r.read same in
    let size : after.size ≡ length (bytes ++ r.read) =
      omega (arith, kept, s, length-append bytes r.read) in
    elim ends [
      | inl (last, cut, nothing) ↦
          let all : bytes ++ r.read ≡ bytes ++ (r.read ++ source rest) =
            ap (λ l. bytes ++ l) (sym (append-nil r.read))
            ∙ ap (λ l. bytes ++ (r.read ++ source l)) (sym nothing) in
          let ended = ap₂ (λ o t. end_round (after, none) o t (copy_loop rest after)) last cut in
          (
            record after { file = truncate after.file after.size },
            copy_loop-round r rest c after ready e ∙ ended,
            ap (truncate after.file) size ∙ (truncate-Holds after (bytes ++ r.read) held ∙ all),
            held.written_eq ∙ ap (λ (l : List ℕ). length l) all,
          )
      | inr (goes_on, whole) ↦
          let (final, e2, file, written) =
            copy_loop-Holds rest after (bytes ++ r.read) whole held size in
          let all = append_assoc bytes r.read (source rest) in
          let ended =
            ap (λ o. end_round (after, none) o r.truncated (copy_loop rest after)) goes_on in
          (
            final,
            copy_loop-round r rest c after ready e ∙ (ended ∙ e2),
            file ∙ all,
            written ∙ ap (λ (l : List ℕ). length l) all,
          )
    ]

-- When the disk does all that it is asked, and the reader comes to its end, `copySparse` succeeds: the
-- new file has the bytes that were read, holes included, and the count is theirs.
pub copy_sparse-eq-source :
    (rounds : List Round)
    → IsWhole rounds
    → (final : Copy) × (copy_sparse rounds ≡ some (final, none))
      × (final.file ≡ source rounds)
      × (final.written ≡ length (source rounds))
unfolding copy_sparse
copy_sparse-eq-source rounds w =
    copy_loop-Holds rounds record { file = []; position = 0; size = 0; written = 0 } [] w
      record { content = refl; room = omega arith; position_eq = refl; written_eq = refl } refl

-- A reader of some bytes gives them in order, and all of them when it comes to its end.
abbrev pub Reads : List Round → List ℕ → Type 0
Reads [] bytes = Unit
Reads (r ∷ rest) bytes =
    (tail : List ℕ) × (bytes ≡ r.read ++ tail)
    × (r.read_end ≡ eof → tail ≡ [])
    × (r.read_end ≡ more → Reads rest tail)

-- No Truncate fails.
abbrev pub IsTruncated : List Round → Type 0
IsTruncated = All (λ r. r.truncated ≡ true)

-- A round without an error has seeked over zeros or written the block, whatever the disk answers.
store_block-none :
    (c after : Copy) (bs : List ℕ) (disk : DiskResult)
    → store_block c bs disk ≡ (after, none)
    → ((all_zero bs ≡ true) × (skip c (length bs) ≡ after)) ⊎ (put c bs ≡ after)
unfolding store_block
store_block-none c after bs done e = ground arith
store_block-none c after bs (failed n) e = ground arith
store_block-none c after bs (short n) e = ground arith

store_block-kept :
    (c after : Copy) (bytes bs : List ℕ) (disk : DiskResult)
    → Holds c bytes
    → store_block c bs disk ≡ (after, none)
    → Holds after (bytes ++ bs) × (after.size ≡ c.size)
store_block-kept c after bytes bs disk h e = elim (store_block-none c after bs disk e) [
  | inl (zeros, same) ↦ (
    subst (λ d. Holds d (bytes ++ bs)) same (Holds-skip c bytes bs h zeros),
    ap (λ (d : Copy). d.size) (sym same) ∙ unfold skip in refl,
  )
  | inr same ↦ (
    subst (λ d. Holds d (bytes ++ bs)) same (Holds-put c bytes bs h),
    ap (λ (d : Copy). d.size) (sym same) ∙ unfold put in refl,
  )
]

end_round-Holds :
    (after : Copy) (err : Option CopyError) (ends : ReadEnd) (truncated : Bool)
    (rest : Option (Copy × Option CopyError)) (final : Copy) (bytes tail : List ℕ)
    → end_round (after, err) ends truncated rest ≡ some (final, none)
    → truncated ≡ true
    → (ends ≡ eof → tail ≡ [])
    → (err ≡ none → Holds after bytes × (after.size ≡ length bytes))
    → (err ≡ none → ends ≡ more → rest ≡ some (final, none) → final.file ≡ bytes ++ tail)
    → final.file ≡ bytes ++ tail
unfolding end_round
end_round-Holds after (some x) ends truncated rest final bytes tail e t last h next = absurd cc
end_round-Holds after none more truncated rest final bytes tail e t last h next = next refl refl e
end_round-Holds after none eof true rest final bytes tail e t last h next =
    let (held, size) = h refl in
    let same : record after { file = truncate after.file after.size } ≡ final = cc in
    ap (λ (c : Copy). c.file) (sym same)
    ∙ (ap (truncate after.file) size
        ∙ (truncate-Holds after bytes held
            ∙ (sym (append-nil bytes) ∙ ap (λ l. bytes ++ l) (sym (last refl)))))
end_round-Holds after none eof false rest final bytes tail e t last h next = absurd cc
end_round-Holds after none read_failed truncated rest final bytes tail e t last h next = absurd cc

copy_loop-Reads :
    (rounds : List Round) (c final : Copy) (bytes unread : List ℕ)
    → Reads rounds unread
    → IsTruncated rounds
    → Holds c bytes
    → c.size ≡ length bytes
    → copy_loop rounds c ≡ some (final, none)
    → final.file ≡ bytes ++ unread
unfolding copy_loop
copy_loop-Reads [] c final bytes unread given t h s e = absurd cc
copy_loop-Reads (r ∷ rest) c final bytes unread (tail, split, last, further) t h s e =
    let counted : Copy = record c { size = c.size + length r.read } in
    let stored = store_block counted r.read r.disk in
    let same : Holds counted bytes = record {
      content = h.content;
      room = h.room;
      position_eq = h.position_eq;
      written_eq = h.written_eq;
    } in
    let held : stored.1 ≡ none
        → Holds stored.0 (bytes ++ r.read) × (stored.0.size ≡ length (bytes ++ r.read)) =
      λ ok.
        let (kept, size) =
          store_block-kept counted stored.0 bytes r.read r.disk same (ap (λ o. (stored.0, o)) ok) in
        (kept, omega (arith, size, s, length-append bytes r.read)) in
    end_round-Holds stored.0 stored.1 r.read_end r.truncated (copy_loop rest stored.0) final
      (bytes ++ r.read) tail e t.0 last held
      (λ ok goes_on e2.
        copy_loop-Reads rest stored.0 final (bytes ++ r.read) tail (further goes_on) t.1 (held ok).0
          (held ok).1 e2)
    ∙ (append_assoc bytes r.read tail ∙ ap (λ l. bytes ++ l) (sym split))

-- A copy that returns no error has the bytes of what is read, whatever Seek and Write answer, if Truncate
-- does not fail.
pub copy_sparse-Reads :
    (rounds : List Round) (final : Copy) (bytes : List ℕ)
    → Reads rounds bytes
    → IsTruncated rounds
    → copy_sparse rounds ≡ some (final, none)
    → final.file ≡ bytes
unfolding copy_sparse
copy_sparse-Reads rounds final bytes given t =
    copy_loop-Reads rounds record { file = []; position = 0; size = 0; written = 0 } final [] bytes
      given t record { content = refl; room = omega arith; position_eq = refl; written_eq = refl }
      refl
