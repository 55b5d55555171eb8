-- ===== src/Whisper/Fetch/Stored.antt =====
-- Fetch of whisper/whisper.go, once the archive and the interval of a stored point are known.
use native.Mathlib.Nat.{add-mul}
use buckytools.Prelude.{
  ℕ, suc, ◌+◌, ◌-◌, ◌*◌, ◌<◌, ◌≡◌, refl, sym, ap, ◌∙◌, ◌≢◌, ◌⊎◌, inl, inr, true, false, some, [],
  ◌∷◌, arith, ltb, ◌==◌, if◌then◌else◌, lt→ltb, ==_iff, Bool-cases,
}
use buckytools.Prelude.Int.{
  parts_of_eq, ◌==ℤ◌, ℤ, pos, ◌+ℤ◌, ◌-ℤ◌, ltb_ℤ, +ℤ_parts, eq_of_parts, parts_of_eq, ◌==ℤ◌,
}
use buckytools.Whisper.Mod.{residue, residue-lt}
use buckytools.Whisper.File.{FileData, read_at}
use buckytools.Whisper.Archive.{align, ArchiveInfo, point_offset, point_offset-eq}
use buckytools.Whisper.Point.{Fits, DataPoint, unpack_data_point}
use buckytools.Whisper.Header.{Whisper}
use buckytools.Whisper.Update.{
  Floats, choose_archive, no_archive, update, stored, get_base_interval, get_point_offset,
  read_series,
}
use buckytools.Whisper.Update.Regions.{InFile}
use buckytools.Whisper.Update.Database.{IsDatabase, choose_archive-Behind}
use buckytools.Whisper.Update.Lookup.{update-Found, Found}
use buckytools.Whisper.Fetch.{nan, series, fill_values, fetch_archive}
use buckytools.Whisper.Fetch.Series.{slots, read_series-slots}
use buckytools.Whisper.Fetch.Steps.{next_place, residue-next, next-sub, quotient_exact}

-- From one point to the next, `readSeries` gives the one point.
read_series-one :
    (f : FileData) (a : ArchiveInfo) (i : ℕ)
    → i < a.number_of_points
    → read_series f (a.offset + i * 12) (a.offset + next_place a.number_of_points i * 12) a
      ≡ slots f (a.offset + i * 12) 1
read_series-one f a i h = elim (Bool-cases ((i + 1) == a.number_of_points)) [
  | inl full ↦
      let eq = (==_iff (i + 1) a.number_of_points).0 full in
      let one : a.number_of_points - i ≡ 1 = omega arith in
      let back : ltb i 0 ≡ false = ground arith in
      rw full (read_series-slots f a i 0 h (omega arith) ∙ rw (back, one) refl)
  | inr room ↦
      let lt : i + 1 < a.number_of_points = ground arith in
      let one : i + 1 - i ≡ 1 = omega arith in
      let up = lt→ltb i (i + 1) (omega arith) in
      rw room (read_series-slots f a i (i + 1) h lt ∙ rw (up, one) refl)
]

-- An archive that has been written to: its first point's time is not 0, and stands on its step.
pub record IsStarted (f : FileData) (a : ArchiveInfo) : Type 0 where
  pub in_file : InFile f a
  pub round : ℕ
  pub base_eq : get_base_interval f a ≡ some (round * a.seconds_per_point)
  pub positive : 0 < round * a.seconds_per_point

-- Its place is the one that the first point's time gives.
place_of_base :
    (f : FileData) (a : ArchiveInfo) (t : ℤ) (place : ℕ)
    → (k : IsStarted f a) → get_point_offset f t a ≡ some place
    → point_offset a (pos (k.round * a.seconds_per_point)) t ≡ place
unfolding get_point_offset
place_of_base f a t place k e =
    let used : (k.round * a.seconds_per_point == 0) ≡ false = let h = k.positive in ground arith in
    let found : some (point_offset a (pos (k.round * a.seconds_per_point)) t) ≡ some place =
      sym (rw (k.base_eq, used, get_point_offset) refl) ∙ e in
    cc

-- In an archive that has been written to, the read of the one step from a time on, where a point with
-- that time is found, gives the value of the point and no other.
fetch_archive-Found :
    (f : FileData) (a : ArchiveInfo) (p : DataPoint) (u : ℕ)
    → IsStarted f a
    → Found f a p
    → p.interval ≡ pos (u * a.seconds_per_point)
    → fetch_archive f a p.interval (p.interval +ℤ pos a.seconds_per_point)
      ≡ series record {
        from_time = p.interval;
        until_time = p.interval +ℤ pos a.seconds_per_point;
        step = a.seconds_per_point;
        values = p.value ∷ [];
      }
unfolding fetch_archive fill_values
fetch_archive-Found f a p u k found on_step =
    let s = a.seconds_per_point in
    let n = a.number_of_points in
    let base = k.round * s in
    let proper = k.in_file.proper in
    let i = residue (pos u -ℤ pos k.round) n in
    let until : p.interval +ℤ pos s ≡ pos (suc u * s) =
      eq_of_parts _ (pos (suc u * s))
        (omega (arith, parts_of_eq on_step, +ℤ_parts p.interval (pos s), add-mul 1 u s)) in
    let here : point_offset a (pos base) p.interval ≡ a.offset + i * 12 =
      ap (point_offset a (pos base)) on_step
      ∙ (point_offset-eq a (pos base) (pos (u * s)) proper
          ∙ ap (λ q. a.offset + residue q n * 12) (quotient_exact u k.round s proper.precise)) in
    let there : point_offset a (pos base) (p.interval +ℤ pos s) ≡ a.offset + next_place n i * 12 =
      ap (point_offset a (pos base)) until
      ∙ (point_offset-eq a (pos base) (pos (suc u * s)) proper
          ∙ (ap (λ q. a.offset + residue q n * 12)
                (quotient_exact (suc u) k.round s proper.precise ∙ next-sub u k.round)
              ∙ ap (λ j. a.offset + j * 12)
                  (residue-next (pos u -ℤ pos k.round) n proper.holds))) in
    let used : (base == 0) ≡ false = let h = k.positive in ground arith in
    let within = residue-lt (pos u -ℤ pos k.round) n proper.holds in
    let one : unpack_data_point (read_at f (a.offset + i * 12) 12) ≡ p =
      ap (λ o. unpack_data_point (read_at f o 12))
        (sym here ∙ place_of_base f a p.interval found.place k found.place_eq)
      ∙ found.point_eq in
    rw (k.base_eq, fetch_archive)
      (rw (used, here, there, read_series-one f a i within, one)
        (ap
          (λ v. series record {
            from_time = p.interval;
            until_time = p.interval +ℤ pos s;
            step = s;
            values = v ∷ [];
          })
          (same_interval p)))
  where
    same_interval : (p : DataPoint) → (if p.interval ==ℤ p.interval then p.value else nan) ≡ p.value
    same_interval p = ground arith

-- The archive that an `Update` at a time chooses.
abbrev pub chosen : ℤ → Whisper → ℤ → ArchiveInfo
chosen now w t = (choose_archive (now -ℤ t) no_archive w.archives).0

-- An `Update` of a covered time succeeds, and the read of the one step from the start of the time's
-- interval, in the archive that was chosen, then gives the value that was stored and no other. The
-- database has its archives side by side, the archive's first time is a multiple of its step, as is
-- the start of the interval, which is not 0 and fits 32 bits.
pub fetch_archive-update :
    (ops : Floats) (now : ℤ) (w : Whisper) (v : ℕ) (t : ℤ) (u : ℕ)
    → IsDatabase w
    → ltb_ℤ (now -ℤ t) (pos w.max_retention) ≡ true
    → ltb_ℤ (now -ℤ t) (pos 0) ≡ false
    → (fits : Fits record { interval = align (chosen now w t) t; value = v })
    → fits.time ≡ u * (chosen now w t).seconds_per_point
    → 0 < fits.time
    → ((k : ℕ)
        → get_base_interval w.file (chosen now w t) ≡ some k
        → (b : ℕ) × (k ≡ b * (chosen now w t).seconds_per_point))
    → (g : FileData) × (update ops now w v t ≡ stored g)
      × (fetch_archive g
            (chosen now w t)
            (align (chosen now w t) t)
            (align (chosen now w t) t +ℤ pos (chosen now w t).seconds_per_point)
          ≡ series record {
            from_time = align (chosen now w t) t;
            until_time = align (chosen now w t) t +ℤ pos (chosen now w t).seconds_per_point;
            step = (chosen now w t).seconds_per_point;
            values = v ∷ [];
          })
fetch_archive-update ops now w v t u db young past fits on_step positive based =
    let a = chosen now w t in
    let (g, e, found, len, (k, base, origin)) = update-Found ops now w v t db young past fits in
    let (here, behind) =
      choose_archive-Behind w.file (now -ℤ t) no_archive db.start w.archives db.end db.tiles
        db.end_le db.proper (inr db.some_archive) in
    let in_g : InFile g a = record {
      proper = here.proper;
      end_le = let h = here.end_le in omega (arith, h, len);
    } in
    let (b, k_eq, k_positive) = first_time k origin in
    let started : IsStarted g a = record {
      in_file = in_g;
      round = b;
      base_eq = base ∙ ap some k_eq;
      positive = omega (arith, k_eq, k_positive);
    } in
    (
      g,
      e,
      fetch_archive-Found g a record { interval = align a t; value = v } u started found
          (fits.interval_eq ∙ ap pos on_step),
    )
  where
    first_time :
        (k : ℕ)
        → (k ≡ fits.time) ⊎ ((get_base_interval w.file (chosen now w t) ≡ some k) × (k ≢ 0))
        → (b : ℕ) × (k ≡ b * (chosen now w t).seconds_per_point) × (0 < k)
    first_time k (inl e) = (u, e ∙ on_step, omega (arith, e, positive))
    first_time k (inr (e, nonzero)) = let (b, eq) = based k e in (b, eq, ground (arith, nonzero))
