-- ===== src/Sparse.antt =====
-- copySparse of cmd/buckyd/util.go, which cmd/bucky-sparsify/main.go has too: a copy that leaves holes
-- for blocks of zeros. What the reader and the disk answer in each round of the loop is an input.
pub mod Content
pub mod Rewrite
mod Tests
use buckytools.Prelude.{
  ℕ, ◌+◌, ◌-◌, Bool, true, false, Option, none, some, List, [], ◌∷◌, ◌++◌, ◌==◌, if◌then◌else◌,
  length, take, replicate,
}
use buckytools.Whisper.File.{FileData, write_at}

-- The error that comes with a read.
pub data ReadEnd : Type 0 where
  more eof read_failed : ReadEnd

-- The answer of the disk to Seek or Write: all is done, it fails after some bytes, or it writes only
-- some and says nothing.
pub data DiskResult : Type 0 where
  done : DiskResult
  failed short : ℕ → DiskResult

-- What a round meets: the bytes and the error of Read, the answer to Seek or Write, and whether Truncate,
-- which is called in the last round, succeeds.
pub record Round : Type 0 where
  pub read : List ℕ
  pub read_end : ReadEnd
  pub disk : DiskResult
  pub truncated : Bool

pub data CopyError : Type 0 where
  seek_error write_error short_write read_error : CopyError

-- The destination and its position, and the two counts of the loop.
pub record Copy : Type 0 where
  pub file : FileData
  pub position : ℕ
  pub size : ℕ
  pub written : ℕ

-- `bytes.Equal(zeros[:nr], buf[:nr])`.
unfoldable pub all_zero : List ℕ → Bool
all_zero [] = true
all_zero (b ∷ bs) = if b == 0 then all_zero bs else false

-- `File.Truncate`.
unfoldable pub truncate : FileData → ℕ → FileData
truncate f n = take n f ++ replicate (n - length f) 0

-- The bytes written to the file, and the position after them.
unfoldable pub put : Copy → List ℕ → Copy
put c bs = record c {
  file = write_at c.file bs c.position;
  position = c.position + length bs;
  written = c.written + length bs;
}

unfoldable pub skip : Copy → ℕ → Copy
skip c n = record c { position = c.position + n; written = c.written + n }

-- The part of a round that seeks or writes, and its error.
unfoldable pub store_block : Copy → List ℕ → DiskResult → Copy × Option CopyError
store_block c bs disk =
    if all_zero bs
    then elim disk [
      | done ↦ (skip c (length bs), none)
      | short n ↦ (skip c (length bs), none)
      | failed n ↦ (c, some seek_error)
    ]
    else elim disk [
      | done ↦ (put c bs, none)
      | failed n ↦ (put c (take n bs), some write_error)
      | short n ↦ if n == length bs then (put c bs, none) else (put c (take n bs), some short_write)
    ]

-- The end of a round, where `rest` is what the next ones give. Whether Truncate fails is not looked at.
unfoldable pub end_round :
    Copy × Option CopyError
    → ReadEnd
    → Bool
    → Option (Copy × Option CopyError)
    → Option (Copy × Option CopyError)
end_round (after, some e) ends truncated rest = some (after, some e)
end_round (after, none) more truncated rest = rest
end_round (after, none) eof true rest =
    some (record after { file = truncate after.file after.size }, none)
end_round (after, none) eof false rest = some (after, none)
end_round (after, none) read_failed truncated rest = some (after, some read_error)

-- The loop: the destination, the count written and the error. `none` stands for a reader that has not
-- come to its end.
unfoldable pub copy_loop : List Round → Copy → Option (Copy × Option CopyError)
copy_loop [] c = none
copy_loop (r ∷ rest) c =
    let stored = store_block record c { size = c.size + length r.read } r.read r.disk in
    end_round stored r.read_end r.truncated (copy_loop rest stored.0)

-- `copySparse` to a new file.
unfoldable pub copy_sparse : List Round → Option (Copy × Option CopyError)
copy_sparse rounds = copy_loop rounds record { file = []; position = 0; size = 0; written = 0 }
