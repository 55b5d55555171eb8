-- ===== src/Fill/Scan.antt =====
-- The loop of OpenWSP of fill/fill.go over the values of a series, against the windows of its gaps.
use buckytools.Prelude.{
  ℕ, suc, ◌+◌, ◌-◌, ◌*◌, ◌≤◌, ◌<◌, ◌≡◌, refl, sym, ap, ap₂, ◌∙◌, inl, inr, Bool, true, false,
  Option, none, some, List, [], ◌∷◌, ◌++◌, arith, ltb, if◌then◌else◌, Bool-cases, length, All,
  length-append,
}
use buckytools.Prelude.Int.{ℤ, pos, negsuc, ◌+ℤ◌, ◌-ℤ◌, +ℤ_parts, -ℤ_parts, eq_of_parts}
use buckytools.Whisper.Header.{Whisper}
use buckytools.Fill.{is_nan, gap_step, Filler, fill_window, scan}
use buckytools.Fill.Gaps.{
  Gaps, ended, known, gap, last_gap, flatten, IsMissing, IsKnown, IsRight, windows,
  fill_all_windows, describe, flatten-describe, describe-IsRight,
}

gap_step_inside :
    (step p u t g : ℕ) → t + step < u → gap_step step p (pos u) (pos t) (pos g) true ≡ (none, pos g)
unfolding gap_step ◌-ℤ◌
gap_step_inside step p u t g h = ground arith

gap_step_last :
    (step p u t g : ℕ)
    → u ≡ t + step
    → gap_step step p (pos u) (pos t) (pos g) true ≡ (some (pos g -ℤ pos step, pos t), pos g)
unfolding gap_step
gap_step_last step p u t g h =
    let end : pos u -ℤ pos step ≡ pos t =
      eq_of_parts _ (pos t) (omega (arith, h, -ℤ_parts (pos u) (pos step))) in
    rw end (ground arith)

gap_step_behind :
    (step p : ℕ) (u : ℤ) (t g : ℕ)
    → g ≤ t
    → gap_step step p u (pos t) (pos g) false
      ≡ ((if ltb p (t - g) then some (pos g -ℤ pos step, pos t) else none), negsuc 0)
unfolding gap_step
gap_step_behind step p u t g h =
    let apart : pos t -ℤ pos g ≡ pos (t - g) =
      eq_of_parts _ (pos (t - g)) (omega (arith, h, -ℤ_parts (pos t) (pos g))) in
    rw apart (ground arith)

-- A round of `scan` once its step is known.
resume : Filler → ℕ → ℕ → ℕ → ℤ → List ℕ → Whisper → Option (ℤ × ℤ) × ℤ → Option Whisper
resume fill step precision until next_time dps dst (window, next) =
    elim (fill_window fill window dst) [
      | none ↦ none
      | some dst ↦ scan fill step precision (pos until) next_time next dps dst
    ]

later : (t step : ℕ) → pos t +ℤ pos step ≡ pos (t + step)
later t step = eq_of_parts _ (pos (t + step)) (omega (arith, +ℤ_parts (pos t) (pos step)))

same_after :
    (o : Option Whisper) (f g : Whisper → Option Whisper)
    → ((dst : Whisper) → f dst ≡ g dst)
    → (elim o [ none ↦ none | some dst ↦ f dst ]) ≡ (elim o [ none ↦ none | some dst ↦ g dst ])
same_after none f g h = refl
same_after (some dst) f g h = h dst

nothing_after : (o : Option Whisper) → (elim o [ none ↦ none | some dst ↦ some dst ]) ≡ o
nothing_after none = refl
nothing_after (some dst) = refl

module _ (fill : Filler) (step p u : ℕ) where
  scan_round :
      (t : ℕ) (gapstart : ℤ) (v : ℕ) (vs : List ℕ) (dst : Whisper) (s : Option (ℤ × ℤ) × ℤ)
      (b : Bool)
      → is_nan v ≡ b
      → gap_step step p (pos u) (pos t) gapstart b ≡ s
      → scan fill step p (pos u) (pos t) gapstart (v ∷ vs) dst
        ≡ resume fill step p u (pos (t + step)) vs dst s
  unfolding scan resume
  scan_round t gapstart v vs dst s b hv hs =
      ap₂ (λ z r. resume fill step p u z vs dst r) (later t step)
        (ap (gap_step step p (pos u) (pos t) gapstart) hv ∙ hs)

  -- From within a gap to the known value behind it, at the time e.
  scan_gap :
      (ns : List ℕ) (t g e v : ℕ) (vs : List ℕ) (dst : Whisper)
      → All IsMissing ns
      → IsKnown v
      → 0 < step
      → g ≤ t
      → e ≡ t + length ns * step
      → u ≡ t + length (ns ++ (v ∷ vs)) * step
      → scan fill step p (pos u) (pos t) (pos g) (ns ++ (v ∷ vs)) dst
        ≡ resume fill step p u
            (pos (e + step))
            vs
            dst
            ((if ltb p (e - g) then some (pos g -ℤ pos step, pos e) else none), negsuc 0)
  unfolding resume fill_window
  scan_gap [] t g e v vs dst hm hv hs hg he hu =
      let here : t ≡ e = omega (arith, he) in
      ap (λ k. scan fill step p (pos u) (pos k) (pos g) (v ∷ vs) dst) here
      ∙ scan_round e (pos g) v vs dst _ false hv
          (gap_step_behind step p (pos u) e g (omega (arith, here, hg)))
  scan_gap (n ∷ ns) t g e v vs dst hm hv hs hg he hu =
      let more : length (ns ++ (v ∷ vs)) ≡ suc (length ns + length vs) =
        length-append ns (v ∷ vs) ∙ omega arith in
      let inside : t + step < u =
        let grows = ap (λ k. k * step) more in omega (arith, hu, grows, hs) in
      scan_round t (pos g) n (ns ++ (v ∷ vs)) dst _ true hm.0 (gap_step_inside step p u t g inside)
      ∙ scan_gap ns (t + step) g e v vs dst hm.1 hv hs (omega (arith, hg)) (omega (arith, he))
          (omega (arith, hu))

  -- From within a gap to the series' end, whose last value is at the time e.
  scan_end :
      (m : ℕ) (ns : List ℕ) (t g e : ℕ) (dst : Whisper)
      → All IsMissing (m ∷ ns)
      → 0 < step
      → e ≡ t + length ns * step
      → u ≡ e + step
      → scan fill step p (pos u) (pos t) (pos g) (m ∷ ns) dst ≡ fill (pos g -ℤ pos step) (pos e) dst
  unfolding resume fill_window scan
  scan_end m [] t g e dst hm hs he hu =
      let here : t ≡ e = omega (arith, he) in
      ap (λ k. scan fill step p (pos u) (pos k) (pos g) (m ∷ []) dst) here
      ∙ (scan_round e (pos g) m [] dst _ true hm.0 (gap_step_last step p u e g hu)
          ∙ nothing_after (fill (pos g -ℤ pos step) (pos e) dst))
  scan_end m (n ∷ ns) t g e dst hm hs he hu =
      let inside : t + step < u = omega (arith, he, hu, hs) in
      scan_round t (pos g) m (n ∷ ns) dst _ true hm.0 (gap_step_inside step p u t g inside)
      ∙ scan_end n ns (t + step) g e dst hm.1 hs (omega (arith, he)) hu

  scan-windows :
      (g : Gaps) (t : ℕ) (dst : Whisper)
      → IsRight g
      → 0 < step
      → u ≡ t + length (flatten g) * step
      → scan fill step p (pos u) (pos t) (negsuc 0) (flatten g) dst
        ≡ fill_all_windows fill (windows step p t g) dst
  unfolding resume fill_window
  scan-windows ended t dst h hs hu = unfold scan in refl
  scan-windows (known v g) t dst h hs hu =
      scan_round t (negsuc 0) v (flatten g) dst (none, negsuc 0) false h.0 (unfold gap_step in refl)
      ∙ scan-windows g (t + step) dst h.1 hs (omega (arith, hu))
  scan-windows (last_gap n []) t dst h hs hu =
      scan_round t (negsuc 0) n [] dst (none, pos t) true h.0 (unfold gap_step in refl)
      ∙ (unfold scan in refl)
  scan-windows (last_gap n (m ∷ ns)) t dst h hs hu =
      let e = t + suc (length ns) * step in
      scan_round t (negsuc 0) n (m ∷ ns) dst (none, pos t) true h.0 (unfold gap_step in refl)
      ∙ (scan_end m ns (t + step) t e dst h.1 hs (omega arith) (omega (arith, hu))
          ∙ sym (nothing_after (fill (pos t -ℤ pos step) (pos e) dst)))
  scan-windows (gap n ns v g) t dst h hs hu =
      let e = t + suc (length ns) * step in
      let more : length (ns ++ (v ∷ flatten g)) ≡ suc (length ns + length (flatten g)) =
        length-append ns (v ∷ flatten g) ∙ omega arith in
      let grows = ap (λ k. k * step) more in
      scan_round t (negsuc 0) n (ns ++ (v ∷ flatten g)) dst (none, pos t) true h.0
        (unfold gap_step in refl)
      ∙ (scan_gap ns (t + step) t e v (flatten g) dst h.1 h.2 hs (omega arith) (omega arith)
            (omega (arith, hu))
          ∙ elim (Bool-cases (ltb p (e - t))) [
            | inl long ↦ rw long (
                same_after (fill (pos t -ℤ pos step) (pos e) dst) _ _
                  (λ d. scan-windows g (e + step) d h.3 hs (omega (arith, hu, grows))))
            | inr short ↦ rw short (scan-windows g (e + step) dst h.3 hs (omega (arith, hu, grows)))
          ])

-- Every series has a description by known values and gaps. For a step that is not 0 and a series that
-- starts at a time t and ends a step behind its last value, the machine of OpenWSP fills exactly the
-- windows of these gaps, in order: from the step before a gap to the known value behind it if the gap
-- is longer than the precision, and to the last value for a gap of two values or more at the end.
pub scan-describe :
    (fill : Filler) (step precision t : ℕ) (vs : List ℕ) (dst : Whisper)
    → 0 < step
    → (flatten (describe vs) ≡ vs)
      × IsRight (describe vs)
      × (scan fill step precision (pos (t + length vs * step)) (pos t) (negsuc 0) vs dst
          ≡ fill_all_windows fill (windows step precision t (describe vs)) dst)
scan-describe fill step precision t vs dst hs =
    let same = flatten-describe vs in
    let right = describe-IsRight vs in
    let until = t + length vs * step in
    let times : until ≡ t + length (flatten (describe vs)) * step =
      ap (λ l. t + length l * step) (sym same) in
    (
      same,
      right,
      ap (λ l. scan fill step precision (pos until) (pos t) (negsuc 0) l dst) (sym same)
          ∙ scan-windows fill step precision until (describe vs) t dst right hs times,
    )
