-- ===== src/Whisper/Update/Database.antt =====
-- The archives of a database of whisper/whisper.go lie side by side, whichever Update chooses.
use buckytools.Prelude.{
  ℕ, ◌≤◌, refl, ◌≢◌, ◌⊎◌, inl, inr, List, [], ◌∷◌, arith, Bool-cases, length, All, All-map,
}
use buckytools.Prelude.Int.{ℤ, pos, ltb_ℤ}
use buckytools.Whisper.File.{FileData}
use buckytools.Whisper.Retention.{max_retention}
use buckytools.Whisper.Archive.{ArchiveInfo, IsProper, end_offset}
use buckytools.Whisper.Header.{Whisper}
use buckytools.Whisper.Header.Layout.{Tiles}
use buckytools.Whisper.Update.{choose_archive}
use buckytools.Whisper.Update.Regions.{InFile, IsMethod, Behind}

-- A database whose archives lie side by side, up to the end of the file at most.
pub record IsDatabase (w : Whisper) : Type 0 where
  pub method : IsMethod w.aggregation_method
  pub start : ℕ
  pub end : ℕ
  pub tiles : Tiles start w.archives end
  pub end_le : end ≤ length w.file
  pub proper : All IsProper w.archives
  pub some_archive : length w.archives ≢ 0

-- No archive of a database reaches back further than the database itself.
abbrev pub IsLongest : Whisper → Type 0
IsLongest w = All (λ a. max_retention a.retention ≤ w.max_retention) w.archives

-- No archive reaches back further than one behind it.
abbrev pub IsIncreasing : List ArchiveInfo → Type 0
IsIncreasing [] = Unit
IsIncreasing (a ∷ rest) =
    All (λ b. max_retention a.retention ≤ max_retention b.retention) rest × IsIncreasing rest

pub Tiles-le : (offset : ℕ) (xs : List ArchiveInfo) (end : ℕ) → Tiles offset xs end → offset ≤ end
unfolding end_offset
Tiles-le offset [] end t = omega (arith, t)
Tiles-le offset (a ∷ xs) end t =
    let start = t.0 in omega (arith, start, Tiles-le (end_offset a) xs end t.1)

pub Tiles-Behind :
    (f : FileData) (offset : ℕ) (xs : List ArchiveInfo) (end : ℕ)
    → Tiles offset xs end
    → end ≤ length f
    → All IsProper xs
    → All (Behind f offset) xs
Tiles-Behind f offset [] end t h p = tt
Tiles-Behind f offset (a ∷ xs) end t h p =
    let start = t.0 in
    let within = Tiles-le (end_offset a) xs end t.1 in
    let after : offset ≤ end_offset a = unfold end_offset in omega (arith, start) in
    let weaker : (b : ArchiveInfo) → Behind f (end_offset a) b → Behind f offset b =
      λ b k. record { in_file = k.in_file; starts = let s = k.starts in omega (arith, after, s) } in
    (
      record {
        in_file = record { proper = p.0; end_le = omega arith };
        starts = omega (arith, start);
      },
      All-map (Behind f (end_offset a)) (Behind f offset) xs weaker
          (Tiles-Behind f (end_offset a) xs end t.1 h p.1),
    )

-- The archive that is chosen lies in the file, and the lower ones behind it.
pub choose_archive-Behind :
    (f : FileData) (diff : ℤ) (b : ArchiveInfo) (offset : ℕ) (xs : List ArchiveInfo) (end : ℕ)
    → Tiles offset xs end
    → end ≤ length f
    → All IsProper xs
    → (InFile f b) ⊎ (length xs ≢ 0)
    → InFile f (choose_archive diff b xs).0
      × All (Behind f (end_offset (choose_archive diff b xs).0)) (choose_archive diff b xs).1
unfolding choose_archive
choose_archive-Behind f diff b offset [] end t h p (inl here) = (here, tt)
choose_archive-Behind f diff b offset [] end t h p (inr nonempty) = absurd (nonempty refl)
choose_archive-Behind f diff b offset (a ∷ xs) end t h p some_archive =
    let all = Tiles-Behind f offset (a ∷ xs) end t h p in
    elim (Bool-cases (ltb_ℤ (pos (max_retention a.retention)) diff)) [
      | inl older ↦
          rw (older, choose_archive)
            (choose_archive-Behind f diff a (end_offset a) xs end t.1 h p.1 (inl all.0.in_file))
      | inr covered ↦
          rw (covered, choose_archive)
            (all.0.in_file, Tiles-Behind f (end_offset a) xs end t.1 h p.1)
    ]
