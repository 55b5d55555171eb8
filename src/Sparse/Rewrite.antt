-- ===== src/Sparse/Rewrite.antt =====
-- examine and rewrite of cmd/bucky-sparsify/main.go: a database is copied to a sparse file beside it,
-- which then takes its name. The directory is a dictionary of files; what the operating system answers
-- is an input. The lock is held by the open file and closes with it.
use buckytools.Prelude.{
  ◌≡◌, refl, sym, ap, ◌∙◌, inl, inr, Bool, false, ◌&&◌, not, Option, none, some, List, [], ◌++◌,
  arith, if◌then◌else◌, Bool-cases, length, length-append,
}
use buckytools.Prelude.Text.{Text, codes, text_eq, eq_of_text_eq}
use buckytools.Prelude.Strings.{has_prefix, has_suffix}
use buckytools.Prelude.Dict.{Dict, lookup, insert, erase, lookup-insert, lookup-erase}
use buckytools.Whisper.File.{FileData}
use buckytools.Sparse.Content.{Reads, IsTruncated, copy_sparse-Reads}
use buckytools.Sparse.{Round, Copy, CopyError, copy_sparse}

-- Whether a call succeeds, and the rounds of the copy.
pub record Answers : Type 0 where
  pub opened : Bool
  pub locked : Bool
  pub created : Bool
  pub rounds : List Round
  pub renamed : Bool

pub data RewriteError : Type 0 where
  not_opened not_locked not_created not_renamed : RewriteError
  not_copied : CopyError → RewriteError

abbrev pub tmp_path : Text → Text
tmp_path path = path ++ codes ".sparse"

-- `os.Rename` to a path.
unfoldable pub rename : Text → Text → FileData → Dict FileData → Dict FileData
rename old new file dir = insert new file (erase old dir)

-- What is left of `rewrite` once the copy has come to its end.
unfoldable pub after_copy :
    Answers → Text → Dict FileData → Copy × Option CopyError → Dict FileData × Option RewriteError
after_copy answers path dir (copy, some e) =
    (insert (tmp_path path) copy.file dir, some (not_copied e))
after_copy answers path dir (copy, none) =
    if answers.renamed
    then (rename (tmp_path path) path copy.file (insert (tmp_path path) copy.file dir), none)
    else (insert (tmp_path path) copy.file dir, some not_renamed)

unfoldable pub copied :
    Answers
    → Text
    → Dict FileData
    → Option (Copy × Option CopyError)
    → Option (Dict FileData × Option RewriteError)
copied answers path dir none = none
copied answers path dir (some result) = some (after_copy answers path dir result)

-- `rewrite`: the directory afterwards, and the error. `none` stands for a reader that has not come to
-- its end.
unfoldable pub rewrite :
    Answers → Dict FileData → Text → Option (Dict FileData × Option RewriteError)
rewrite answers dir path =
    if not answers.opened
    then some (dir, some not_opened)
    else if not answers.locked
    then some (dir, some not_locked)
    else if not answers.created
    then some (dir, some not_created)
    else copied answers path (insert (tmp_path path) [] dir) (copy_sparse answers.rounds)

-- What Walk tells of a path.
pub record Entry : Type 0 where
  pub path : Text
  pub walk_failed : Bool
  pub is_dir : Bool
  pub is_regular : Bool

pub data Examined : Type 0 where
  passed skip_dir : Examined
  rewritten : Option (Dict FileData × Option RewriteError) → Examined

-- `examine`.
unfoldable pub examine : Answers → Dict FileData → Entry → Examined
examine answers dir entry =
    if entry.walk_failed
    then passed
    else if entry.is_dir
    then (if has_prefix entry.path (codes ".") then skip_dir else passed)
    else if not entry.is_regular
    then passed
    else if not (has_suffix entry.path (codes ".wsp"))
    then passed
    else rewritten (rewrite answers dir entry.path)

other_path :
    (tmp q : Text) (file : FileData) (dir : Dict FileData)
    → text_eq tmp q ≡ false
    → lookup q (insert tmp file dir) ≡ lookup q dir
other_path tmp q file dir h = lookup-insert tmp q file dir ∙ rw h refl

renamed_path :
    (tmp path q : Text) (file old : FileData) (dir : Dict FileData)
    → text_eq tmp q ≡ false
    → lookup path dir ≡ some old
    → file ≡ old
    → lookup q (rename tmp path file (insert tmp file dir)) ≡ lookup q dir
unfolding rename
renamed_path tmp path q file old dir h e f =
    let rest : lookup q (erase tmp (insert tmp file dir)) ≡ lookup q dir =
      lookup-erase tmp q (insert tmp file dir) ∙ rw h (other_path tmp q file dir h) in
    lookup-insert path q file (erase tmp (insert tmp file dir))
    ∙ elim (Bool-cases (text_eq path q)) [
      | inr other ↦ rw other rest
      | inl same ↦
          rw same (ap some f ∙ (sym e ∙ ap (λ k. lookup k dir) (eq_of_text_eq path q same)))
    ]

after_copy-lookup :
    (answers : Answers) (path q : Text) (dir : Dict FileData) (old : FileData) (copy : Copy)
    (e : Option CopyError)
    → text_eq (tmp_path path) q ≡ false
    → lookup path dir ≡ some old
    → (e ≡ none → copy.file ≡ old)
    → lookup q (after_copy answers path dir (copy, e)).0 ≡ lookup q dir
unfolding after_copy
after_copy-lookup answers path q dir old copy (some e) h here same =
    other_path (tmp_path path) q copy.file dir h
after_copy-lookup answers path q dir old copy none h here same = elim (Bool-cases answers.renamed) [
  | inl e ↦ rw e (renamed_path (tmp_path path) path q copy.file old dir h here (same refl))
  | inr e ↦ rw e (other_path (tmp_path path) q copy.file dir h)
]

tmp_path-ne : (path : Text) → text_eq (tmp_path path) path ≡ false
tmp_path-ne path = elim (Bool-cases (text_eq (tmp_path path) path)) [
  | inr other ↦ other
  | inl same ↦
      let lengths = ap length (eq_of_text_eq (tmp_path path) path same) in
      absurd (omega (arith, lengths, length-append path (codes ".sparse")))
]

copied-lookup :
    (answers : Answers) (path q : Text) (dir : Dict FileData) (old : FileData)
    (o : Option (Copy × Option CopyError)) (after : Dict FileData) (e : Option RewriteError)
    → text_eq (tmp_path path) q ≡ false
    → lookup path dir ≡ some old
    → ((copy : Copy) → o ≡ some (copy, none) → copy.file ≡ old)
    → copied answers path dir o ≡ some (after, e)
    → lookup q after ≡ lookup q dir
unfolding copied
copied-lookup answers path q dir old none after e h here same run = absurd (ground arith)
copied-lookup answers path q dir old (some (copy, err)) after e h here same run =
    let result : after_copy answers path dir (copy, err) ≡ (after, e) = ground arith in
    ap (λ r. lookup q r.0) (sym result)
    ∙ after_copy-lookup answers path q dir old copy err h here
        (λ ok. same copy (ap (λ k. some (copy, k)) ok))

-- However a rewrite of a file ends, with an error or without, every path but that of the file with
-- ".sparse" behind it reads as before: opens, the lock, reads, seeks, writes and the rename may fail.
-- Truncate, whose error copySparse does not look at, does not fail, and what is read are the file's
-- bytes, all of them at its end.
pub rewrite-lookup :
    (answers : Answers) (dir : Dict FileData) (path q : Text) (old : FileData)
    (after : Dict FileData) (e : Option RewriteError)
    → text_eq (tmp_path path) q ≡ false
    → lookup path dir ≡ some old
    → Reads answers.rounds old
    → IsTruncated answers.rounds
    → rewrite answers dir path ≡ some (after, e)
    → lookup q after ≡ lookup q dir
unfolding rewrite
rewrite-lookup answers dir path q old after e h here given cut run =
    let fresh = insert (tmp_path path) [] dir in
    let begun : lookup path fresh ≡ some old =
      lookup-insert (tmp_path path) path [] dir ∙ rw (tmp_path-ne path) here in
    elim (Bool-cases (answers.opened && answers.locked && answers.created)) [
      | inr refused ↦
          let unchanged : dir ≡ after = ground (arith, refused) in ap (lookup q) (sym unchanged)
      | inl began ↦
          let shown : copied answers path fresh (copy_sparse answers.rounds) ≡ some (after, e) =
            ground (arith, began) in
          copied-lookup answers path q fresh old (copy_sparse answers.rounds) after e h begun
            (λ copy ok. copy_sparse-Reads answers.rounds copy old given cut ok) shown
          ∙ other_path (tmp_path path) q [] dir h
    ]
