-- ===== src/Whisper/UpdateMany/Stored.antt =====
-- archiveUpdateMany of whisper/whisper.go as a whole: the points are stored, and what is propagated to
-- the archives behind leaves them.
use mathlib.Core.Path.{subst}
use buckytools.Prelude.{
  ℕ, zero, suc, ◌+◌, ◌%◌, ◌≤◌, ◌≡◌, refl, sym, ap, ap₂, ◌∙◌, ◌⊎◌, inl, inr, Bool, false, ◌||◌, none,
  some, List, [], ◌∷◌, arith, ◌==◌, Bool-cases, length, All, All-map,
}
use buckytools.Prelude.Int.{ℤ}
use buckytools.Whisper.File.{FileData, read_at}
use buckytools.Whisper.Mod.{scale}
use buckytools.Whisper.Archive.{ArchiveInfo, IsProper, end_offset, align, point_offset}
use buckytools.Whisper.Point.{DataPoint, unpack_data_point}
use buckytools.Whisper.Header.{Whisper}
use buckytools.Whisper.Update.{Floats, get_base_interval, get_point_offset}
use buckytools.Whisper.Update.Regions.{
  InFile, IsMethod, Behind, OnlyIn, OnlyIn-refl, OnlyIn-trans, InFile-OnlyIn,
  get_point_offset-Inside,
}
use buckytools.Whisper.Update.Propagated.{propagate-OnlyIn}
use buckytools.Whisper.Update.Place.{same_base, point_offset_base}
use buckytools.Whisper.Update.Lookup.{Found}
use buckytools.Whisper.UpdateMany.{
  TimeSeriesPoint, align_points, write_points, lower_archives, propagate_points, propagate_many,
  archive_update_many,
}
use buckytools.Whisper.UpdateMany.Aligned.{
  IsDistinct, last_at, value_at, value_at-All, align_points-last_at, align_points-Head,
  align_points-All,
}
use buckytools.Whisper.UpdateMany.Blocks.{
  write_each, first_base, first_base-IsStep, align-IsStep, align_points-each,
}
use buckytools.Whisper.UpdateMany.Written.{IsStorable, Counts, write_each-Found}

pub propagate_points-OnlyIn :
    (ops : Floats) (w : Whisper) (f : FileData) (further : Bool) (higher lower : ArchiveInfo)
    (ps : List DataPoint)
    → InFile f higher
    → InFile f lower
    → IsMethod w.aggregation_method
    → (done : Bool) × (g : FileData) × (propagate_points ops w f further higher lower ps
        ≡ some (done, g))
      × OnlyIn lower f g
unfolding propagate_points
propagate_points-OnlyIn ops w f further higher lower [] hh hl m =
    (further, f, refl, OnlyIn-refl lower f)
propagate_points-OnlyIn ops w f further higher lower (p ∷ ps) hh hl m =
    let (one, g, e, only) =
      propagate-OnlyIn ops w f (align lower p.interval) higher lower hh hl m in
    let keep = InFile-OnlyIn lower f g only in
    let (done, h, e2, rest) =
      propagate_points-OnlyIn ops w g (one || further) higher lower ps (keep higher hh)
        (keep lower hl) m in
    rw (e, propagate_points) (done, h, e2, OnlyIn-trans lower f g h only rest)

-- The propagation to the lower archives does not panic, and leaves what lies before them.
propagate_many-before :
    (ops : Floats) (w : Whisper) (f : FileData) (higher : ArchiveInfo) (ps : List DataPoint)
    (lower : List ArchiveInfo) (place : ℕ)
    → IsMethod w.aggregation_method
    → InFile f higher
    → All (Behind f place) lower
    → (g : FileData) × (propagate_many ops w f higher ps lower ≡ some g)
      × ((o n : ℕ) → o + n ≤ place → read_at g o n ≡ read_at f o n)
      × (length g ≡ length f)
unfolding propagate_many
propagate_many-before ops w f higher ps [] place m hh hl = (f, refl, (λ o n h. refl), refl)
propagate_many-before ops w f higher ps (a ∷ rest) place m hh hl =
    let (done, g, e, only) = propagate_points-OnlyIn ops w f false higher a ps hh hl.0.in_file m in
    let keep = InFile-OnlyIn a f g only in
    let behind = hl.0.starts in
    let before : (o n : ℕ) → o + n ≤ place → read_at g o n ≡ read_at f o n =
      λ o n h. only.outside o n (inl (omega (arith, behind, h))) in
    elim (Bool-cases done) [
      | inl further ↦
          let later : (b : ArchiveInfo) → Behind f place b → Behind g place b =
            λ b h. record { in_file = keep b h.in_file; starts = h.starts } in
          let (k, e2, same, len) =
            propagate_many-before ops w g a ps rest place m (keep a hl.0.in_file)
              (All-map (Behind f place) (Behind g place) rest later hl.1) in
          rw (e, further, propagate_many)
            (k, e2, (λ o n h. same o n h ∙ before o n h), len ∙ only.same_length)
      | inr stop ↦ rw (e, stop, propagate_many) (g, refl, before, only.same_length)
    ]

-- What is found in an archive is found as well in a file that is the same up to the archive's end.
Found-kept :
    (f g : FileData) (a : ArchiveInfo) (p : DataPoint)
    → InFile f a
    → InFile g a
    → ((o n : ℕ) → o + n ≤ end_offset a → read_at g o n ≡ read_at f o n)
    → Found f a p
    → Found g a p
Found-kept f g a p hf hg same h =
    let (offset, e, inside) = get_point_offset-Inside f p.interval a hf in
    let here : offset ≡ h.place = injective offset h.place (sym e ∙ h.place_eq) in
    let starts = inside.starts in
    let ends = inside.ends in
    record {
      place = h.place;
      place_eq =
          same_base g f p.interval a hg hf (same a.offset 4 (omega (arith, starts, ends)))
          ∙ h.place_eq;
      point_eq = ap unpack_data_point (same h.place 12 (omega (arith, here, ends))) ∙ h.point_eq;
    }
  where
    injective : (m n : ℕ) → some m ≡ some n → m ≡ n
    injective m n e = cc

-- The places of the writes are counted from what a lookup counts from, or the first one is the start.
Counts-or_start :
    (f : FileData) (a : ArchiveInfo) (from b : ℤ) (proper : IsProper a) (k : ℕ) (q : DataPoint)
    → get_base_interval f a ≡ some k
    → IsStorable a from q
    → first_base k q.interval ≡ scale b a.seconds_per_point
    → (Counts a from b proper f)
      ⊎ (point_offset a (scale b a.seconds_per_point) q.interval ≡ a.offset)
unfolding get_point_offset
Counts-or_start f a from b proper zero q hk h eb = inr (
    ap (λ z. point_offset a z q.interval) (sym eb)
    ∙ (ap (λ z. point_offset a z z) h.fits.interval_eq ∙ point_offset_base a h.fits.time))
Counts-or_start f a from b proper (suc k) q hk h eb =
    let nonzero : (suc k == 0) ≡ false = ground arith in
    inl (λ j.
      rw (hk, nonzero, get_point_offset)
        (ap (λ z. some (point_offset a z (scale j a.seconds_per_point))) eb))

-- An update of an archive with points whose intervals are among as many neighbouring steps as the
-- archive has points does not fail and keeps the size of the file, and each interval that has points
-- is found with the value given last for it, whatever is propagated to the lower archives. The
-- archive lies in the file and the lower ones behind it, its base interval k is a whole number of
-- steps, the method is one of the five, the intervals are positive and fit 32 bits, and the values
-- fit 64 bits.
pub archive_update_many-Found :
    (ops : Floats) (w : Whisper) (f : FileData) (a : ArchiveInfo) (from : ℤ) (k : ℕ)
    (t : TimeSeriesPoint) (ts : List TimeSeriesPoint)
    → IsMethod w.aggregation_method
    → InFile f a
    → All (Behind f (end_offset a)) (lower_archives a w.archives)
    → get_base_interval f a ≡ some k
    → k % a.seconds_per_point ≡ 0
    → All (λ u. IsStorable a from record { interval = align a u.time; value = u.value }) (t ∷ ts)
    → (g : FileData) × (archive_update_many ops w f a (t ∷ ts) ≡ some g)
      × (length g ≡ length f)
      × ((z : ℤ) (v : ℕ)
          → last_at a z (t ∷ ts) none ≡ some v
          → Found g a record { interval = z; value = v })
unfolding archive_update_many
archive_update_many-Found ops w f a from k t ts m hf hl hk whole h =
    let l = align_points a (t ∷ ts) in
    let (q, ps, eq, first) = align_points-Head a t ts in
    let (distinct, last) = align_points-last_at a (t ∷ ts) in
    let s = a.seconds_per_point in
    let (b, eb) =
      first_base-IsStep s k (align a t.time) hf.proper.precise whole (align-IsStep a t.time) in
    let storable =
      subst (All (IsStorable a from)) eq (align_points-All a (t ∷ ts) (IsStorable a from) h) in
    let start =
      Counts-or_start f a from b hf.proper k q hk storable.0 (ap (first_base k) first ∙ eb) in
    let (found, only) =
      write_each-Found a from b hf.proper q ps f hf storable (subst IsDistinct eq distinct) start in
    let g = write_each a (scale b s) f (q ∷ ps) in
    let written : write_points f a l ≡ some g =
      align_points-each f a k t ts hf.proper hk whole
      ∙ ap₂ (λ z r. some (write_each a z f r)) eb eq in
    let keep = InFile-OnlyIn a f g only in
    let later : (c : ArchiveInfo) → Behind f (end_offset a) c → Behind g (end_offset a) c =
      λ c r. record { in_file = keep c r.in_file; starts = r.starts } in
    let (n, e, same, len) =
      propagate_many-before ops w g a l (lower_archives a w.archives) (end_offset a) m (keep a hf) (
        All-map (Behind f (end_offset a)) (Behind g (end_offset a)) (lower_archives a w.archives)
          later hl) in
    let in_n : InFile n a = record {
      proper = hf.proper;
      end_le = let r = (keep a hf).end_le in omega (arith, r, len);
    } in
    rw (written, archive_update_many)
      (
        n,
        e,
        len ∙ only.same_length,
        λ z v e2.
            Found-kept g n a record { interval = z; value = v } (keep a hf) in_n same
              (value_at-All (Found g a) z v (q ∷ ps) found
                (sym (ap (value_at z) eq) ∙ (last z ∙ e2))),
      )
