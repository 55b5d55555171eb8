-- ===== src/Fill/Errors.antt =====
-- The errors of fill/fill.go: those of Fetch do not occur at the intervals that are asked for.
use buckytools.Prelude.{
  ℕ, ◌≡◌, refl, inl, inr, Bool, true, false, ◌&&◌, not, Option, none, some, List, [], ◌∷◌, arith,
  if◌then◌else◌, Bool-cases, Option-cases,
}
use buckytools.Prelude.Int.{ℤ, pos, negsuc, ◌-ℤ◌, ltb_ℤ}
use buckytools.Whisper.Retention.{Retention, max_retention, sort_retentions}
use buckytools.Whisper.Archive.{ArchiveInfo}
use buckytools.Whisper.File.{FileData}
use buckytools.Whisper.Header.{Whisper}
use buckytools.Whisper.Update.{get_base_interval, Outcome, stored, not_covered, panicked}
use buckytools.Whisper.Fetch.{
  FetchResult, series, invalid_interval, no_series, unreadable, start_time, fetch, fetch_archive,
}
use buckytools.Fill.{
  Env, Filler, Fill, filled, failed, crashed, retentions, merge, after_merge, after_fetch,
  fill_from, fill_archive, ignore_error, scan, scan_series, open_from, open_wsp,
}

IsAnswer : FetchResult → Type 0
IsAnswer (series ts) = Unit
IsAnswer invalid_interval = ⊥
IsAnswer no_series = Unit
IsAnswer unreadable = Unit

-- Not an error.
IsFine : Fill → Type 0
IsFine (filled dst) = Unit
IsFine (failed dst) = ⊥
IsFine crashed = Unit

fetch_archive-IsAnswer :
    (f : FileData) (a : ArchiveInfo) (t u : ℤ) → IsAnswer (fetch_archive f a t u)
unfolding fetch_archive IsAnswer
fetch_archive-IsAnswer f a t u = elim (Option-cases (get_base_interval f a)) [
  | inl missing ↦ rw (missing, IsAnswer) tt
  | inr (base, e) ↦ rw (e, IsAnswer) tt
]

no_series-IsAnswer : IsAnswer no_series
unfolding IsAnswer
no_series-IsAnswer = tt

either-IsAnswer :
    (b : Bool) (r s : FetchResult) → IsAnswer r → IsAnswer s → IsAnswer (if b then r else s)
either-IsAnswer true r s hr hs = hr
either-IsAnswer false r s hr hs = hs

fetch-IsAnswer : (now : ℤ) (w : Whisper) (t u : ℤ) → ltb_ℤ u t ≡ false → IsAnswer (fetch now w t u)
unfolding fetch
fetch-IsAnswer now w t u h = rw h (
    either-IsAnswer _ _ _ no_series-IsAnswer
      (either-IsAnswer _ _ _ no_series-IsAnswer (fetch_archive-IsAnswer w.file _ _ _)))

after_merge-IsFine : (dst : Whisper) (o : Outcome) → IsFine (after_merge dst o)
unfolding after_merge IsFine
after_merge-IsFine dst (stored f) = tt
after_merge-IsFine dst not_covered = tt
after_merge-IsFine dst panicked = tt

after_fetch-IsFine :
    (env : Env) (dst : Whisper) (r : FetchResult) → IsAnswer r → IsFine (after_fetch env dst r)
unfolding after_fetch IsAnswer IsFine
after_fetch-IsFine env dst (series ts) h = after_merge-IsFine dst (merge env dst ts)
after_fetch-IsFine env dst invalid_interval h = absurd h
after_fetch-IsFine env dst no_series h = tt
after_fetch-IsFine env dst unreadable h = tt

next_fill-IsFine :
    (r : Fill) (next : Whisper → Fill)
    → IsFine r
    → ((dst : Whisper) → IsFine (next dst))
    → IsFine (elim r [ crashed ↦ crashed | failed dst ↦ failed dst | filled dst ↦ next dst ])
unfolding IsFine
next_fill-IsFine crashed next hr h = tt
next_fill-IsFine (failed dst) next hr h = hr
next_fill-IsFine (filled dst) next hr h = h dst

stop_or_go-IsFine :
    (b : Bool) (dst : Whisper) (r : Fill)
    → IsFine r
    → IsFine (elim b [ false ↦ filled dst | true ↦ r ])
unfolding IsFine
stop_or_go-IsFine false dst r h = tt
stop_or_go-IsFine true dst r h = h

either-IsFine :
    (b : Bool) (r s : Fill)
    → (b ≡ true → IsFine r)
    → (b ≡ false → IsFine s)
    → IsFine (elim b [ true ↦ r | false ↦ s ])
either-IsFine true r s hr hs = hr refl
either-IsFine false r s hr hs = hs refl

fill_from-IsFine :
    (env : Env) (src : Whisper) (vs : List Retention) (dst : Whisper) (start stop : ℤ)
    → ltb_ℤ stop start ≡ false
    → IsFine (fill_from env src dst start stop vs)
unfolding fill_from
fill_from-IsFine env src [] dst start stop h = unfold IsFine in tt
fill_from-IsFine env src (v ∷ vs) dst start stop h =
    let r_time = env.now -ℤ pos (max_retention v) in
    let from_time = if ltb_ℤ start r_time then r_time else start in
    let after : ltb_ℤ from_time start ≡ false = ground arith in
    either-IsFine (not (ltb_ℤ r_time stop)) _ _
      (λ past. fill_from-IsFine env src vs dst start stop h)
      (λ inside.
        let before : ltb_ℤ stop from_time ≡ false = ground (arith, inside, h) in
        next_fill-IsFine (after_fetch env dst (fetch env.now src from_time stop)) _
          (after_fetch-IsFine env dst _ (fetch-IsAnswer env.now src from_time stop before))
          (λ d.
            stop_or_go-IsFine (ltb_ℤ start from_time) d _
              (fill_from-IsFine env src vs d start from_time after)))

-- Where a window does not end before it starts, fillArchive returns no error.
fill_archive-IsFine :
    (env : Env) (src dst : Whisper) (start stop : ℤ)
    → ltb_ℤ stop start ≡ false
    → IsFine (fill_archive env src start stop dst)
unfolding fill_archive IsFine
fill_archive-IsFine env src dst start stop h =
    let oldest = start_time env.now src in
    elim (Bool-cases (ltb_ℤ start oldest && ltb_ℤ stop oldest)) [
      | inl older ↦ rw (older, IsFine) tt
      | inr inside ↦
          rw (inside, fill_archive)
            (fill_from-IsFine env src (sort_retentions (retentions src.archives)) dst start stop h)
    ]

scanned-IsFine : (o : Option Whisper) → IsFine (elim o [ none ↦ crashed | some dst ↦ filled dst ])
unfolding IsFine
scanned-IsFine none = tt
scanned-IsFine (some dst) = tt

scan_series-IsFine :
    (fill : Filler) (precision : ℕ) (r : FetchResult) (dst : Whisper)
    → IsAnswer r
    → IsFine (scan_series fill precision r dst)
unfolding scan_series IsAnswer
scan_series-IsFine fill precision invalid_interval dst h = absurd h
scan_series-IsFine fill precision no_series dst h = unfold IsFine in tt
scan_series-IsFine fill precision unreadable dst h = unfold IsFine in tt
scan_series-IsFine fill precision (series ts) dst h =
    scanned-IsFine (scan fill ts.step precision ts.until_time ts.from_time (negsuc 0) ts.values dst)

open_from-IsFine :
    (env : Env) (src : Whisper) (vs : List Retention) (start_time : ℤ) (dst : Whisper)
    → IsFine (open_from env src start_time vs dst)
unfolding open_from
open_from-IsFine env src [] start_time dst = unfold IsFine in tt
open_from-IsFine env src (v ∷ vs) start_time dst =
    let from_time = env.now -ℤ pos (max_retention v) in
    let fill : Filler = λ start stop dst. ignore_error (fill_archive env src start stop dst) in
    let r = fetch env.now dst from_time start_time in
    go_or_skip-IsFine (ltb_ℤ from_time start_time) _ _
      (λ later. open_from-IsFine env src vs start_time dst)
      (λ earlier.
        let order : ltb_ℤ start_time from_time ≡ false = ground (arith, earlier) in
        next_fill-IsFine (scan_series fill v.seconds_per_point r dst) _
          (scan_series-IsFine fill v.seconds_per_point r dst
            (fetch-IsAnswer env.now dst from_time start_time order))
          (λ d. open_from-IsFine env src vs from_time d))
  where
    go_or_skip-IsFine :
        (b : Bool) (r s : Fill)
        → (b ≡ false → IsFine r)
        → (b ≡ true → IsFine s)
        → IsFine (elim b [ false ↦ r | true ↦ s ])
    go_or_skip-IsFine true r s hr hs = hs refl
    go_or_skip-IsFine false r s hr hs = hr refl

-- OpenWSP returns no error, whatever the two files and the time: it fills the file or panics.
open_wsp-IsFine :
    (env : Env) (src dst : Whisper) (start_time : ℤ) → IsFine (open_wsp env src dst start_time)
unfolding open_wsp
open_wsp-IsFine env src dst start_time =
    open_from-IsFine env src (sort_retentions (retentions dst.archives)) start_time dst
