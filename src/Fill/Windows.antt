-- ===== src/Fill/Windows.antt =====
-- The windows of OpenWSP of fill/fill.go begin in the past, in a series that reaches up to the present.
use native.Mathlib.Nat.{suc-mul}
use buckytools.Prelude.{
  ℕ, ◌+◌, ◌*◌, ◌<◌, ◌≡◌, refl, ◌⊎◌, inl, inr, Bool, true, false, ◌&&◌, not, Option, none, some,
  List, [], ◌∷◌, arith, if◌then◌else◌, length,
}
use buckytools.Prelude.Int.{
  ℤ, pos, negsuc, pos_part, neg_part, ◌+ℤ◌, ◌-ℤ◌, ◌≤ℤ◌, ltb_ℤ, +ℤ_parts, -ℤ_parts, ◌==ℤ◌,
}
use buckytools.Whisper.File.{FileData}
use buckytools.Whisper.Header.{Whisper}
use buckytools.Whisper.UpdateMany.Total.{Keeps}
use buckytools.Fill.{Filler, with_file, is_nan, gap_step, fill_window, scan}

-- Where a gap may have begun: outside of one there is a negative number.
abbrev pub Begun : ℤ → ℤ → Type 0
Begun start gapstart = (ltb_ℤ gapstart (pos 0) ≡ true) ⊎ (gapstart ≤ℤ start)

-- A round asks for no window, or for one from the step before the gap to the time it has come to.
abbrev IsPlain : ℕ → ℤ → ℤ → Option (ℤ × ℤ) → Type 0
IsPlain step start gapstart window =
    (window ≡ none) ⊎ ((window ≡ some (gapstart -ℤ pos step, start)) × (gapstart ≤ℤ start))

gap_step-IsPlain :
    (step precision : ℕ) (until start gapstart : ℤ) (missing : Bool)
    → Begun start gapstart
    → IsPlain step start gapstart (gap_step step precision until start gapstart missing).0
      × Begun start (gap_step step precision until start gapstart missing).1
unfolding gap_step
gap_step-IsPlain step precision until start gapstart missing begun =
    by_tests missing (ltb_ℤ gapstart (pos 0)) (ltb_ℤ (pos precision) (start -ℤ gapstart))
      (start ==ℤ (until -ℤ pos step)) (inside begun)
  where
    inside : Begun start gapstart → ltb_ℤ gapstart (pos 0) ≡ false → gapstart ≤ℤ start
    inside (inl outside) e = absurd (ground arith)
    inside (inr b) e = b

    same : start ≤ℤ start
    same = omega arith

    by_tests :
        (missing outside long last : Bool)
        → (outside ≡ false → gapstart ≤ℤ start)
        → let r : Option (ℤ × ℤ) × ℤ =
            if missing && outside
            then (none, start)
            else if not missing && not outside
            then (if long then (some (gapstart -ℤ pos step, start), negsuc 0) else (none, negsuc 0))
            else if not outside && last
            then (some (gapstart -ℤ pos step, start), gapstart)
            else (none, gapstart) in
          IsPlain step start gapstart r.0 × Begun start r.1
    by_tests true true long last h = (inl refl, inr same)
    by_tests true false long true h = (inr (refl, h refl), begun)
    by_tests true false long false h = (inl refl, begun)
    by_tests false true long last h = (inl refl, begun)
    by_tests false false true last h = (inr (refl, h refl), inl refl)
    by_tests false false false last h = (inl refl, inl refl)

-- A window that begins in the past is filled.
abbrev pub Fills : ℤ → ℕ → ℕ → Whisper → Filler → Type 0
Fills now place place_end dst fill =
    (start stop : ℤ) (file : FileData)
    → ltb_ℤ stop start ≡ false
    → ltb_ℤ now start ≡ false
    → Keeps place place_end dst.file file
    → (g : FileData) × (fill start stop (with_file dst file) ≡ some (with_file dst g))
      × Keeps place place_end dst.file g

module _ (now : ℤ) (place place_end : ℕ) (dst : Whisper) (fill : Filler)
    (fills : Fills now place place_end dst fill) (step precision : ℕ) (until : ℤ)
    (positive : 0 < step) where
  fill_window-filled :
      (start gapstart : ℤ) (window : Option (ℤ × ℤ)) (file : FileData)
      → IsPlain step start gapstart window
      → start ≤ℤ now
      → Keeps place place_end dst.file file
      → (g : FileData) × (fill_window fill window (with_file dst file) ≡ some (with_file dst g))
        × Keeps place place_end dst.file g
  unfolding fill_window
  fill_window-filled start gapstart window file (inl e) past keeps = rw e (file, refl, keeps)
  fill_window-filled start gapstart window file (inr (e, begun)) past keeps =
      let before = -ℤ_parts gapstart (pos step) in
      rw e (
        fills (gapstart -ℤ pos step) start file (ground (arith, before, begun))
          (ground (arith, before, begun, past)) keeps)

  -- The windows of a series that reaches up to the present are all filled.
  pub scan-filled :
      (vs : List ℕ) (start gapstart : ℤ) (file : FileData)
      → Begun start gapstart
      → start +ℤ pos (length vs * step) ≤ℤ now +ℤ pos step
      → Keeps place place_end dst.file file
      → (g : FileData) × (scan fill step precision until start gapstart vs (with_file dst file)
          ≡ some (with_file dst g))
        × Keeps place place_end dst.file g
  unfolding scan
  scan-filled [] start gapstart file begun bound keeps = (file, refl, keeps)
  scan-filled (v ∷ vs) start gapstart file begun bound keeps =
      let (plain, next_begun) =
        gap_step-IsPlain step precision until start gapstart (is_nan v) begun in
      let next = (gap_step step precision until start gapstart (is_nan v)).1 in
      let more = suc-mul (length vs) step in
      let first = +ℤ_parts start (pos (length (v ∷ vs) * step)) in
      let second = +ℤ_parts now (pos step) in
      let third = +ℤ_parts start (pos step) in
      let past : start ≤ℤ now = omega (arith, bound, more, first, second) in
      let (g, e, kept) = fill_window-filled start gapstart _ file plain past keeps in
      let bound' : start +ℤ pos step +ℤ pos (length vs * step) ≤ℤ now +ℤ pos step = omega (
        arith,
        bound,
        more,
        first,
        second,
        third,
        +ℤ_parts (start +ℤ pos step) (pos (length vs * step)),
      ) in
      let (n, e2, last) =
        scan-filled vs (start +ℤ pos step) next g (later next next_begun third) bound' kept in
      (n, rw (scan, e) e2, last)
    where
      later :
          (next : ℤ)
          → Begun start next
          → pos_part (start +ℤ pos step) + neg_part start + 0
            ≡ neg_part (start +ℤ pos step) + pos_part start + step
          → Begun (start +ℤ pos step) next
      later next (inl outside) e = inl outside
      later next (inr b) e = inr (omega (arith, b, e))
