-- ===== src/Fill/Complete.antt =====
-- OpenWSP of fill/fill.go between two databases: it is done, since its windows begin in the past.
use buckytools.Prelude.{
  ℕ, ◌+◌, ◌≤◌, ◌≡◌, refl, ap, inl, inr, true, List, [], ◌∷◌, Bool-cases, length, All,
}
use buckytools.Prelude.Int.{ℤ, pos, negsuc, ◌-ℤ◌, ltb_ℤ}
use buckytools.Whisper.File.{FileData, read_at}
use buckytools.Whisper.Retention.{Retention, max_retention, sort_retentions, sort_retentions-All}
use buckytools.Whisper.Archive.{ArchiveInfo}
use buckytools.Whisper.Header.{Whisper}
use buckytools.Whisper.Update.{choose_archive}
use buckytools.Whisper.Update.Database.{IsDatabase, IsLongest, IsIncreasing}
use buckytools.Whisper.UpdateMany.Total.{Keeps, Keeps-refl}
use buckytools.Whisper.Fetch.{FetchResult, TimeSeries, series, fetch}
use buckytools.Fill.{
  Env, Filler, filled, retentions, with_file, fill_archive, ignore_error, scan_series, open_from,
  open_wsp,
}
use buckytools.Fill.Filled.{IsDatabase-with_file, fill_archive-filled, retentions-All}
use buckytools.Fill.Windows.{Fills, scan-filled}
use buckytools.Fill.Span.{IsUpTo, IsChosen, choose_archive-le, fetch-IsUpTo}

module _ (env : Env) (src dst : Whisper) (from : IsDatabase src) (to : IsDatabase dst)
    (longest : IsLongest src) where
  -- What OpenWSP does with a window.
  filler : Filler
  filler start stop w = ignore_error (fill_archive env src start stop w)

  filler-Fills : Fills env.now to.start to.end dst filler
  unfolding filler ignore_error
  filler-Fills start stop file ordered past keeps =
      let (g, e, kept) =
        fill_archive-filled env src dst start stop from to longest ordered past file keeps in
      (g, ap ignore_error e, kept)

  scan_series-filled :
      (precision : ℕ) (ts : TimeSeries) (r : FetchResult) (file : FileData)
      → r ≡ series ts
      → IsUpTo env.now ts
      → Keeps to.start to.end dst.file file
      → (g : FileData) × (scan_series filler precision r (with_file dst file)
          ≡ filled (with_file dst g))
        × Keeps to.start to.end dst.file g
  unfolding scan_series
  scan_series-filled precision ts r file e up_to keeps =
      let (g, e2, kept) =
        scan-filled env.now to.start to.end dst filler filler-Fills ts.step precision ts.until_time
          up_to.positive ts.values ts.from_time (negsuc 0) file (inl refl) up_to.bounded keeps in
      (g, rw (e, scan_series, e2) refl, kept)

  -- A retention of the target.
  record Known (v : Retention) : Type 0 where
    reach : max_retention v ≤ dst.max_retention
    chosen :
        (b : ArchiveInfo)
        → max_retention (choose_archive (pos (max_retention v)) b dst.archives).0.retention
          ≤ max_retention v

  -- A Fetch of the target, whose file has changed, from an archive's end on.
  target_series :
      (v : Retention) (start_time : ℤ) (file : FileData)
      → Known v
      → Keeps to.start to.end dst.file file
      → ltb_ℤ (env.now -ℤ pos (max_retention v)) start_time ≡ true
      → (ts : TimeSeries) × (fetch env.now
            (with_file dst file)
            (env.now -ℤ pos (max_retention v))
            start_time
          ≡ series ts)
        × IsUpTo env.now ts
  target_series v start_time file h keeps earlier =
      fetch-IsUpTo env.now (with_file dst file) (max_retention v) start_time
        (IsDatabase-with_file dst file to keeps.same_length) h.reach h.chosen earlier

  open_from-filled :
      (vs : List Retention) (start_time : ℤ) (file : FileData)
      → All Known vs
      → Keeps to.start to.end dst.file file
      → (g : FileData) × (open_from env src start_time vs (with_file dst file)
          ≡ filled (with_file dst g))
        × Keeps to.start to.end dst.file g
  unfolding open_from filler
  open_from-filled [] start_time file h keeps = (file, refl, keeps)
  open_from-filled (v ∷ vs) start_time file h keeps =
      let from_time = env.now -ℤ pos (max_retention v) in
      let r = fetch env.now (with_file dst file) from_time start_time in
      elim (Bool-cases (ltb_ℤ from_time start_time)) [
        | inr later ↦
            let (g, e, kept) = open_from-filled vs start_time file h.1 keeps in
            (g, rw (later, open_from) e, kept)
        | inl earlier ↦
            let (ts, answer, up_to) = target_series v start_time file h.0 keeps earlier in
            let (g, e, kept) =
              scan_series-filled v.seconds_per_point ts r file answer up_to keeps in
            let (n, e2, last) = open_from-filled vs from_time g h.1 kept in
            (n, rw (earlier, open_from, e) e2, last)
      ]

-- OpenWSP between two databases, whatever the time to start from, is done without an error or a panic:
-- it changes the target's file only, and keeps its size and all that lies before its archives. No
-- archive reaches back further than its database's header says, and in the target none further than
-- one behind it.
pub open_wsp-filled :
    (env : Env) (src dst : Whisper) (start_time : ℤ)
    → (from : IsDatabase src) (to : IsDatabase dst) → IsLongest src
    → IsLongest dst
    → IsIncreasing dst.archives
    → (g : FileData) × (open_wsp env src dst start_time ≡ filled (with_file dst g))
      × (length g ≡ length dst.file)
      × ((o n : ℕ) → o + n ≤ to.start → read_at g o n ≡ read_at dst.file o n)
unfolding open_wsp
open_wsp-filled env src dst start_time from to longest longest_too increasing =
    let known = sort_retentions-All (Known env src dst from to longest) (retentions dst.archives) (
      retentions-All (Known env src dst from to longest) dst.archives
        (all_known dst.archives longest_too (choose_archive-le dst.archives increasing))) in
    let (g, e, keeps) =
      open_from-filled env src dst from to longest (sort_retentions (retentions dst.archives))
        start_time dst.file known (Keeps-refl to.start to.end dst.file) in
    (g, e, keeps.same_length, λ o n before. keeps.outside o n (inl before))
  where
    all_known :
        (l : List ArchiveInfo)
        → All (λ a. max_retention a.retention ≤ dst.max_retention) l
        → All (IsChosen dst.archives) l
        → All (λ a. Known env src dst from to longest a.retention) l
    all_known [] h hs = tt
    all_known (a ∷ l) h hs = (record { reach = h.0; chosen = hs.0 }, all_known l h.1 hs.1)
