-- ===== src/Fill/Span.antt =====
-- How far the series reach that OpenWSP of fill/fill.go fetches from its target.
use native.Mathlib.Nat.{le_refl, mul-le-mul_left, div-mul-le_self, zero-mul, mul_comm}
use mathlib.Core.Path.{subst}
use buckytools.Prelude.{
  ℕ, ◌+◌, ◌*◌, ◌/◌, ◌≤◌, ◌<◌, ◌≡◌, refl, sym, ap, ◌∙◌, inl, inr, true, false, List, [], ◌∷◌, arith,
  Bool-cases, length, All, length-replicate,
}
use buckytools.Prelude.Int.{
  ℤ, pos, negsuc, pos_part, neg_part, sub_ℕ, ◌+ℤ◌, ◌-ℤ◌, ◌≤ℤ◌, ltb_ℤ, +ℤ_parts, -ℤ_parts,
  eq_of_parts,
}
use buckytools.Whisper.Mod.{quotient, residue, floor_mod-eq-residue}
use buckytools.Whisper.Retention.{max_retention}
use buckytools.Whisper.Archive.{ArchiveInfo, IsProper, interval_after}
use buckytools.Whisper.Header.{Whisper}
use buckytools.Whisper.Update.{choose_archive, no_archive}
use buckytools.Whisper.Update.Database.{IsDatabase, IsIncreasing, choose_archive-Behind}
use buckytools.Whisper.Fetch.{TimeSeries, series, start_time, fetch, nan}
use buckytools.Whisper.Fetch.Series.{Covers, covering, window_start, window_end, fetch-Covers}

-- The archive that is chosen for the age of another one's end does not reach back further than it.
abbrev pub IsChosen : List ArchiveInfo → ArchiveInfo → Type 0
IsChosen xs a =
    (b : ArchiveInfo)
    → max_retention (choose_archive (pos (max_retention a.retention)) b xs).0.retention
      ≤ max_retention a.retention

pub choose_archive-le : (xs : List ArchiveInfo) → IsIncreasing xs → All (IsChosen xs) xs
unfolding choose_archive
choose_archive-le [] h = tt
choose_archive-le (c ∷ rest) h = (
  λ b. let same = self (max_retention c.retention) in rw same (le_refl (max_retention c.retention)),
  later rest h.0 (choose_archive-le rest h.1),
)
  where
    self : (d : ℕ) → ltb_ℤ (pos d) (pos d) ≡ false
    self d = ground arith

    later :
        (l : List ArchiveInfo)
        → All (λ a. max_retention c.retention ≤ max_retention a.retention) l
        → All (IsChosen rest) l
        → All (IsChosen (c ∷ rest)) l
    later [] hs hr = tt
    later (a ∷ l) hs hr = (
      λ b.
          elim (Bool-cases
            (ltb_ℤ (pos (max_retention c.retention)) (pos (max_retention a.retention)))) [
              | inl older ↦ rw older (hr.0 c)
              | inr covered ↦ rw covered hs.0
            ],
      later l hs.1 hr.1,
    )

interval_after-le :
    (a : ArchiveInfo) (t : ℤ) → IsProper a → interval_after a t ≤ℤ t +ℤ pos a.seconds_per_point
unfolding interval_after
interval_after-le a t p =
    let s = a.seconds_per_point in
    rw (floor_mod-eq-residue t s p.precise) (
      omega (
        arith,
        -ℤ_parts t (pos (residue t s)),
        +ℤ_parts (t -ℤ pos (residue t s)) (pos s),
        +ℤ_parts t (pos s),
      ))

below : (n : ℕ) → pos_part (sub_ℕ 0 n) ≡ 0
below n = ground arith

-- The steps of a span end at its end, if it has any.
quotient-le :
    (i u m : ℤ) (s : ℕ) → i ≤ℤ m → u ≤ℤ m → i +ℤ pos (pos_part (quotient (u -ℤ i) s) * s) ≤ℤ m
quotient-le i u m s hi hu = steps (u -ℤ i) (-ℤ_parts u i)
  where
    steps :
        (z : ℤ)
        → pos_part z + neg_part u + pos_part i ≡ neg_part z + pos_part u + neg_part i
        → i +ℤ pos (pos_part (quotient z s) * s) ≤ℤ m
    steps (pos k) e =
        unfold quotient in
        omega (arith, e, hi, hu, div-mul-le_self k s, +ℤ_parts i (pos (k / s * s)))
    steps (negsuc k) e =
        let nothing : pos_part (quotient (negsuc k) s) * s ≡ 0 =
          unfold quotient in ap (λ n. n * s) (below ((k + 1) / s)) ∙ zero-mul s in
        rw nothing (omega (arith, hi, +ℤ_parts i (pos 0)))

-- A series from an archive's end on does not go beyond the step behind the present, and its first time
-- lies in the span.
pub record IsUpTo (now : ℤ) (ts : TimeSeries) : Type 0 where
  pub positive : 0 < ts.step
  pub bounded : ts.from_time +ℤ pos (length ts.values * ts.step) ≤ℤ now +ℤ pos ts.step

length-le :
    (now : ℤ) (r : ℕ) (a : ArchiveInfo) (ts : TimeSeries) (from until : ℤ)
    → IsProper a
    → max_retention a.retention ≤ r
    → Covers a from until ts
    → from ≤ℤ now -ℤ pos r +ℤ pos a.seconds_per_point
    → until ≤ℤ now +ℤ pos a.seconds_per_point
    → ts.from_time +ℤ pos (length ts.values * ts.step) ≤ℤ now +ℤ pos ts.step
unfolding max_retention
length-le now r a ts from until proper reach covers hf hu =
    let s = a.seconds_per_point in
    let first = -ℤ_parts now (pos r) in
    let second = +ℤ_parts (now -ℤ pos r) (pos s) in
    let third = +ℤ_parts now (pos s) in
    rw (covers.from_eq, covers.step_eq)
      (elim covers.count [
        | inl none_there ↦
            let missing = pos_part (quotient (until -ℤ from) s) in
            let len : length ts.values ≡ missing =
              ap length none_there ∙ length-replicate missing nan in
            rw len
              (quotient-le from until (now +ℤ pos s) s (omega (arith, hf, first, second, third)) hu)
        | inr (some_there, room) ↦
            let most : length ts.values * s ≤ s * a.number_of_points =
              omega (arith, mul-le-mul_left s room, mul_comm (length ts.values) s) in
            omega (
              arith,
              hf,
              first,
              second,
              third,
              most,
              reach,
              +ℤ_parts from (pos (length ts.values * s)),
            )
      ])

pub fetch-IsUpTo :
    (now : ℤ) (w : Whisper) (r : ℕ) (until : ℤ)
    → IsDatabase w
    → r ≤ w.max_retention
    → ((b : ArchiveInfo) → max_retention (choose_archive (pos r) b w.archives).0.retention ≤ r)
    → ltb_ℤ (now -ℤ pos r) until ≡ true
    → (ts : TimeSeries) × (fetch now w (now -ℤ pos r) until ≡ series ts) × IsUpTo now ts
unfolding start_time max_retention
fetch-IsUpTo now w r until db longest chosen later =
    let from = now -ℤ pos r in
    let minus = -ℤ_parts now (pos r) in
    let minus_all = -ℤ_parts now (pos w.max_retention) in
    let ordered : ltb_ℤ until from ≡ false = ground (arith, later) in
    let past : ltb_ℤ now from ≡ false = ground (arith, minus) in
    let reached : ltb_ℤ until (now -ℤ pos w.max_retention) ≡ false =
      ground (arith, later, minus, minus_all, longest) in
    let (ts, answer, covers) = fetch-Covers now w from until db ordered past reached in
    let a = covering now w from in
    let inside : ltb_ℤ from (now -ℤ pos w.max_retention) ≡ false =
      ground (arith, minus, minus_all, longest) in
    let whole : window_start now w from ≡ from = rw inside refl in
    let age : now -ℤ window_start now w from ≡ pos r =
      ap (λ z. now -ℤ z) whole
      ∙ eq_of_parts (now -ℤ from) (pos r) (omega (arith, minus, -ℤ_parts now from)) in
    let reach : max_retention a.retention ≤ r =
      subst (λ z. max_retention (choose_archive z no_archive w.archives).0.retention ≤ r) (sym age)
        (chosen no_archive) in
    let proper : IsProper a =
      (choose_archive-Behind w.file (now -ℤ window_start now w from) no_archive db.start w.archives
        db.end db.tiles db.end_le db.proper (inr db.some_archive)).0.proper in
    let bound =
      length-le now r a ts (interval_after a (window_start now w from))
        (interval_after a (window_end now until)) proper reach covers
        (subst (λ z. interval_after a (window_start now w from) ≤ℤ z +ℤ pos a.seconds_per_point)
          whole (interval_after-le a (window_start now w from) proper))
        (end_le a proper) in
    let step = covers.step_eq in
    let precise = proper.precise in
    (ts, answer, record { positive = omega (arith, step, precise); bounded = bound })
  where
    end_le :
        (a : ArchiveInfo)
        → IsProper a
        → interval_after a (window_end now until) ≤ℤ now +ℤ pos a.seconds_per_point
    end_le a proper =
        let before : window_end now until ≤ℤ now = ground arith in
        omega (
          arith,
          before,
          interval_after-le a (window_end now until) proper,
          +ℤ_parts (window_end now until) (pos a.seconds_per_point),
          +ℤ_parts now (pos a.seconds_per_point),
        )
