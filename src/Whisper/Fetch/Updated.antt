-- ===== src/Whisper/Fetch/Updated.antt =====
-- Fetch of whisper/whisper.go, of the span in which an Update has stored a point.
use buckytools.Prelude.{
  ℕ, zero, suc, ◌*◌, ◌≤◌, ◌<◌, ◌≡◌, refl, sym, ap, ap₂, ◌∙◌, inl, inr, true, false, some, List, [],
  ◌∷◌, arith, Bool-cases, All,
}
use buckytools.Prelude.Int.{
  ℤ, pos, ◌+ℤ◌, ◌-ℤ◌, ◌≤ℤ◌, ltb_ℤ, +ℤ_parts, -ℤ_parts, eq_of_parts, parts_of_eq,
}
use native.Mathlib.Nat.{add-mul, mul-mod_left}
use buckytools.Whisper.Mod.{floor_mod, residue, floor_mod-eq-residue}
use buckytools.Whisper.Retention.{max_retention}
use buckytools.Whisper.File.{FileData}
use buckytools.Whisper.Archive.{ArchiveInfo, IsProper, align, interval_after}
use buckytools.Whisper.Point.{Fits}
use buckytools.Whisper.Header.{Whisper}
use buckytools.Whisper.Update.{
  Floats, choose_archive, no_archive, update, stored, get_base_interval,
}
use buckytools.Whisper.Update.Database.{IsDatabase, IsLongest, choose_archive-Behind}
use buckytools.Whisper.Fetch.{series, start_time, fetch, fetch_archive}
use buckytools.Whisper.Fetch.Stored.{chosen, fetch_archive-update}

-- An age that the archive chosen for a lesser one still covers chooses the same archive.
choose_archive-same :
    (d e : ℤ) (l : List ArchiveInfo) (x : ArchiveInfo)
    → d ≤ℤ e
    → ltb_ℤ (pos (max_retention (choose_archive d x l).0.retention)) e ≡ false
    → (choose_archive e x l).0 ≡ (choose_archive d x l).0
unfolding choose_archive
choose_archive-same d e [] x h c = refl
choose_archive-same d e (a ∷ rest) x h c =
    elim (Bool-cases (ltb_ℤ (pos (max_retention a.retention)) d)) [
      | inl short ↦
          let shorter : ltb_ℤ (pos (max_retention a.retention)) e ≡ true = ground (arith, short) in
          let same : (choose_archive d x (a ∷ rest)).0 ≡ (choose_archive d a rest).0 =
            rw (short, choose_archive) refl in
          rw (short, shorter, choose_archive)
            (choose_archive-same d e rest a h
              (ap (λ (b : ArchiveInfo). ltb_ℤ (pos (max_retention b.retention)) e) (sym same) ∙ c))
      | inr far ↦
          let same : (choose_archive d x (a ∷ rest)).0 ≡ a = rw (far, choose_archive) refl in
          let farther : ltb_ℤ (pos (max_retention a.retention)) e ≡ false =
            ap (λ (b : ArchiveInfo). ltb_ℤ (pos (max_retention b.retention)) e) (sym same) ∙ c in
          rw (far, farther, choose_archive) refl
    ]

-- A time on the step of an archive begins the interval before the one that `Interval` gives.
interval_after-step :
    (a : ArchiveInfo) (k : ℕ)
    → IsProper a
    → interval_after a (pos (k * a.seconds_per_point))
      ≡ pos (k * a.seconds_per_point) +ℤ pos a.seconds_per_point
unfolding interval_after
interval_after-step a k proper =
    let s = a.seconds_per_point in
    let none_left : floor_mod (pos (k * s)) s ≡ pos 0 =
      floor_mod-eq-residue (pos (k * s)) s proper.precise ∙ ap pos (mul-mod_left k s) in
    rw none_left (
      eq_of_parts _ _ (
        omega (
          arith,
          -ℤ_parts (pos (k * s)) (pos 0),
          +ℤ_parts (pos (k * s) -ℤ pos 0) (pos s),
          +ℤ_parts (pos (k * s)) (pos s),
        )))

align-le : (a : ArchiveInfo) (t : ℤ) → IsProper a → align a t ≤ℤ t
unfolding align
align-le a t proper =
    rw (floor_mod-eq-residue t a.seconds_per_point proper.precise)
      (omega (arith, -ℤ_parts t (pos (residue t a.seconds_per_point))))

-- A `Fetch` of two times in order that the header and the clock do not cut, from the archive that it
-- takes for the first.
fetch-uncut :
    (now : ℤ) (w : Whisper) (from until : ℤ)
    → ltb_ℤ until from ≡ false
    → ltb_ℤ now until ≡ false
    → ltb_ℤ from (start_time now w) ≡ false
    → let a = (choose_archive (now -ℤ from) no_archive w.archives).0 in
      fetch now w from until
      ≡ fetch_archive w.file a (interval_after a from) (interval_after a until)
unfolding fetch
fetch-uncut now w from until ordered past reached =
    let present : ltb_ℤ now from ≡ false = ground (arith, ordered, past) in
    let covered : ltb_ℤ until (start_time now w) ≡ false = ground (arith, ordered, reached) in
    rw (ordered, present, covered, past, reached) refl

-- The archive chosen is one of the database's, which covers no more than the header says.
chosen-le :
    (d : ℤ) (l : List ArchiveInfo) (x : ArchiveInfo) (m : ℕ)
    → max_retention x.retention ≤ m
    → All (λ a. max_retention a.retention ≤ m) l
    → max_retention (choose_archive d x l).0.retention ≤ m
unfolding choose_archive
chosen-le d [] x m hx h = hx
chosen-le d (a ∷ rest) x m hx h = elim (Bool-cases (ltb_ℤ (pos (max_retention a.retention)) d)) [
  | inl short ↦ rw (short, choose_archive) (chosen-le d rest a m h.0 h.1)
  | inr far ↦ rw (far, choose_archive) h.0
]

-- An `Update` of a covered time succeeds, and a `Fetch`, now or later, from the step before the time's
-- interval to the start of the interval, then gives the value that was stored and no other, as long as
-- the archive that was chosen for the update covers that step. The database has its archives side by
-- side, none covers more than the header says, and the chosen one's first time is a multiple of its
-- step, as is the start of the interval, which is not 0 and fits 32 bits.
pub fetch-update :
    (ops : Floats) (now later : ℤ) (w : Whisper) (v : ℕ) (t : ℤ) (u : ℕ)
    → IsDatabase w
    → IsLongest w
    → ltb_ℤ (now -ℤ t) (pos w.max_retention) ≡ true
    → ltb_ℤ (now -ℤ t) (pos 0) ≡ false
    → (fits : Fits record { interval = align (chosen now w t) t; value = v })
    → fits.time ≡ u * (chosen now w t).seconds_per_point
    → 0 < fits.time
    → ((k : ℕ)
        → get_base_interval w.file (chosen now w t) ≡ some k
        → (b : ℕ) × (k ≡ b * (chosen now w t).seconds_per_point))
    → now ≤ℤ later
    → ltb_ℤ
        (pos (max_retention (chosen now w t).retention))
        (later -ℤ (align (chosen now w t) t -ℤ pos (chosen now w t).seconds_per_point))
      ≡ false
    → let start = align (chosen now w t) t in
      let step = (chosen now w t).seconds_per_point in
      (g : FileData) × (update ops now w v t ≡ stored g)
      × (fetch later (record w { file = g }) (start -ℤ pos step) start
          ≡ series record {
            from_time = start;
            until_time = start +ℤ pos step;
            step = step;
            values = v ∷ [];
          })
unfolding start_time max_retention
fetch-update ops now later w v t zero db longest young past fits on_step positive based after
      covers =
    absurd (omega (arith, on_step, positive))
fetch-update ops now later w v t (suc u) db longest young past fits on_step positive based after
      covers =
    let a = chosen now w t in
    let s = a.seconds_per_point in
    let start = align a t in
    let from = start -ℤ pos s in
    let (g, e, got) =
      fetch_archive-update ops now w v t (suc u) db young past fits on_step positive based in
    let v' : Whisper = record w { file = g } in
    let proper =
      (choose_archive-Behind w.file (now -ℤ t) no_archive db.start w.archives db.end db.tiles
        db.end_le db.proper (inr db.some_archive)).0.proper in
    let precise = proper.precise in
    let start_eq : start ≡ pos (suc u * s) = fits.interval_eq ∙ ap pos on_step in
    let begins = parts_of_eq start_eq in
    let before = -ℤ_parts start (pos s) in
    let from_eq : from ≡ pos (u * s) =
      eq_of_parts from (pos (u * s)) (omega (arith, begins, before, add-mul 1 u s)) in
    let early = align-le a t proper in
    let age = -ℤ_parts now t in
    let old = -ℤ_parts later from in
    let most = -ℤ_parts later (pos w.max_retention) in
    let bound = chosen-le (now -ℤ t) w.archives no_archive w.max_retention (omega arith) longest in
    let ordered : ltb_ℤ start from ≡ false = ground (arith, before) in
    let present : ltb_ℤ later start ≡ false = ground (arith, early, age, past, after) in
    let reached : ltb_ℤ from (later -ℤ pos w.max_retention) ≡ false =
      ground (arith, most, old, bound, covers) in
    let older : (now -ℤ t) ≤ℤ (later -ℤ from) = omega (arith, age, old, before, early, after) in
    let same : (choose_archive (later -ℤ from) no_archive w.archives).0 ≡ a =
      choose_archive-same (now -ℤ t) (later -ℤ from) w.archives no_archive older covers in
    let first : interval_after a from ≡ start =
      ap (interval_after a) from_eq
      ∙ (interval_after-step a u proper
          ∙ eq_of_parts (pos (u * s) +ℤ pos s) start
              (omega (arith, begins, +ℤ_parts (pos (u * s)) (pos s), add-mul 1 u s))) in
    let last : interval_after a start ≡ start +ℤ pos s =
      ap (interval_after a) start_eq
      ∙ (interval_after-step a (suc u) proper ∙ ap (λ z. z +ℤ pos s) (sym start_eq)) in
    (
      g,
      e,
      fetch-uncut later v' from start ordered present reached
          ∙ (ap (λ b. fetch_archive g b (interval_after b from) (interval_after b start)) same
              ∙ (ap₂ (fetch_archive g a) first last ∙ got)),
    )
