-- ===== src/Sparse/Tests.antt =====
-- Runs of the sparse copy, and its theorem applied to one.
use buckytools.Prelude.{◌≡◌, refl, inl, inr, true, none, some, List, [], ◌∷◌, length}
use buckytools.Prelude.Text.{codes, text_eq}
use buckytools.Prelude.Dict.{Dict, lookup, insert, erase}
use buckytools.Sparse.{
  Copy, Round, more, eof, done, short, short_write, copy_sparse, copy_loop, store_block, end_round,
  all_zero, put, skip, truncate,
}
use buckytools.Sparse.Content.{Reads, source, IsWhole, copy_sparse-eq-source}
use buckytools.Sparse.Rewrite.{Answers, rewrite, copied, after_copy, rename, rewrite-lookup}
use buckytools.Whisper.File.{FileData, write_at}

-- A block, a block of zeros, and the end.
abbrev rounds : List Round
rounds =
    record { read = 1 ∷ (2 ∷ []); read_end = more; disk = done; truncated = true }
    ∷ (record { read = 0 ∷ (0 ∷ []); read_end = more; disk = done; truncated = true }
        ∷ (record { read = []; read_end = eof; disk = done; truncated = true } ∷ []))

rounds-IsWhole : IsWhole rounds
rounds-IsWhole = (refl, inr (refl, (refl, inr (refl, (refl, inl (refl, refl, refl))))))

copy_sparse-eq-source_example :
    (final : Copy) × (copy_sparse rounds ≡ some (final, none))
    × (final.file ≡ source rounds)
    × (final.written ≡ length (source rounds))
copy_sparse-eq-source_example = copy_sparse-eq-source rounds rounds-IsWhole

-- A write that is short ends the copy with an error.
short_write_run :
    copy_sparse
      (record { read = 1 ∷ (2 ∷ []); read_end = more; disk = short 1; truncated = true } ∷ [])
    ≡ some (record { file = 1 ∷ []; position = 1; size = 2; written = 1 }, some short_write)
unfolding copy_sparse copy_loop store_block end_round all_zero put write_at
short_write_run = refl

-- A directory with one database, which is what the rounds read.
abbrev dir : Dict FileData
dir = (codes "a.wsp", 1 ∷ (2 ∷ (0 ∷ (0 ∷ [])))) ∷ []

abbrev answers : Answers
answers = record { opened = true; locked = true; created = true; rounds = rounds; renamed = true }

rewrite_runs : rewrite answers dir (codes "a.wsp") ≡ some (dir, none)
unfolding rewrite copied after_copy rename copy_sparse copy_loop store_block end_round all_zero put
    skip truncate write_at insert erase text_eq
rewrite_runs = refl

rounds-Reads : Reads rounds (1 ∷ (2 ∷ (0 ∷ (0 ∷ []))))
rounds-Reads = (
  0 ∷ (0 ∷ []),
  refl,
  (λ e. absurd cc),
  (λ e. ([], refl, (λ e. refl), (λ e. ([], refl, (λ e. refl), (λ e. absurd cc))))),
)

rewrite-lookup_example : lookup (codes "a.wsp") dir ≡ lookup (codes "a.wsp") dir
unfolding text_eq lookup
rewrite-lookup_example =
    rewrite-lookup answers dir (codes "a.wsp") (codes "a.wsp") (1 ∷ (2 ∷ (0 ∷ (0 ∷ [])))) dir none
      refl refl rounds-Reads (refl, (refl, (refl, tt))) rewrite_runs
