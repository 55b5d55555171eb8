-- ===== src/Whisper/UpdateMany/Written.antt =====
-- What the writes of archiveUpdateMany of whisper/whisper.go leave in its archive: each aligned point
-- at its place.
use buckytools.Prelude.{
  ℕ, ◌<◌, ◌≡◌, refl, sym, ap, ◌∙◌, ◌⊎◌, inl, inr, false, some, List, [], ◌∷◌, arith, ◌==◌, All,
}
use buckytools.Prelude.Int.{ℤ, pos, ◌+ℤ◌, ◌==ℤ◌}
use buckytools.Whisper.File.{
  FileData, read_at, write_at, read_at-write_at, read_at-write_at_disjoint,
}
use buckytools.Whisper.Mod.{scale}
use buckytools.Whisper.Archive.{ArchiveInfo, IsProper, point_offset}
use buckytools.Whisper.Point.{DataPoint, Fits, bytes, length-bytes, unpack_data_point, unpack-bytes}
use buckytools.Whisper.Update.{get_point_offset}
use buckytools.Whisper.Update.Regions.{
  InFile, OnlyIn, OnlyIn-refl, OnlyIn-trans, OnlyIn-write, InFile-OnlyIn, Inside-point_offset,
}
use buckytools.Whisper.Update.Place.{same_base, get_base_interval-start}
use buckytools.Whisper.Update.Lookup.{Found}
use buckytools.Whisper.UpdateMany.Aligned.{IsDistinct, Apart}
use buckytools.Whisper.UpdateMany.Blocks.{write_each, other_interval}
use buckytools.Whisper.UpdateMany.Window.{IsWithin, point_offset_apart, point_offset_rebase}

-- A point that an archive can store beside its neighbours: its interval is not 0, and is one of as many
-- neighbouring steps as the archive has points.
pub record IsStorable (a : ArchiveInfo) (from : ℤ) (p : DataPoint) : Type 0 where
  pub fits : Fits p
  pub positive : 0 < fits.time
  pub within : IsWithin a from p.interval

module _ (a : ArchiveInfo) (from b : ℤ) (proper : IsProper a) where
  -- The base interval.
  abbrev base : ℤ
  base = scale b a.seconds_per_point

  -- Where a point is written.
  abbrev place : DataPoint → ℕ
  place p = point_offset a base p.interval

  -- A lookup in the file counts from the base.
  abbrev pub Counts : FileData → Type 0
  Counts f =
      (j : ℤ)
      → get_point_offset f (scale j a.seconds_per_point) a
        ≡ some (point_offset a (scale b a.seconds_per_point) (scale j a.seconds_per_point))

  Counts-at_start :
      (f : FileData) (p : DataPoint)
      → InFile (write_at f (bytes p) (place p)) a
      → IsStorable a from p
      → place p ≡ a.offset
      → Counts (write_at f (bytes p) (place p))
  unfolding get_point_offset
  Counts-at_start f p hg h start j =
      let s = a.seconds_per_point in
      let (i, less, eq) = h.within in
      let time = h.fits.time in
      let positive = h.positive in
      let nonzero : (time == 0) ≡ false = ground arith in
      let first : point_offset a (scale b s) (scale (from +ℤ pos i) s) ≡ a.offset =
        ap (point_offset a (scale b s)) (sym eq) ∙ start in
      let set = get_base_interval-start f p a (place p) h.fits hg start in
      rw (set, nonzero, get_point_offset)
        (ap (λ z. some (point_offset a z (scale j s))) (sym h.fits.interval_eq ∙ eq)
          ∙ ap some (point_offset_rebase a j (from +ℤ pos i) b proper first))

  write-OnlyIn :
      (f : FileData) (p : DataPoint) → InFile f a → OnlyIn a f (write_at f (bytes p) (place p))
  write-OnlyIn f p h = OnlyIn-write a f p (place p) h (Inside-point_offset a base p.interval proper)

  -- A lookup goes on to count from the base when a point is written.
  write-Counts :
      (f : FileData) (p : DataPoint)
      → InFile f a
      → IsStorable a from p
      → (Counts f) ⊎ (place p ≡ a.offset)
      → Counts (write_at f (bytes p) (place p))
  write-Counts f p hf h (inr start) =
      Counts-at_start f p (InFile-OnlyIn a f _ (write-OnlyIn f p hf) a hf) h start
  write-Counts f p hf h (inl counts) =
      let hg = InFile-OnlyIn a f _ (write-OnlyIn f p hf) a hf in
      elim ((Inside-point_offset a base p.interval proper).whole) [
        | inl start ↦ Counts-at_start f p hg h start
        | inr behind ↦ λ j.
            let same =
              read_at-write_at_disjoint f (bytes p) (place p) a.offset 4 (inl (omega arith)) in
            sym (same_base f _ (scale j a.seconds_per_point) a hf hg (sym same)) ∙ counts j
      ]

  write_each-OnlyIn :
      (ps : List DataPoint) (f : FileData) → InFile f a → OnlyIn a f (write_each a base f ps)
  write_each-OnlyIn [] f h = OnlyIn-refl a f
  write_each-OnlyIn (p ∷ ps) f h =
      let only = write-OnlyIn f p h in
      OnlyIn-trans a f _ _ only (write_each-OnlyIn ps _ (InFile-OnlyIn a f _ only a h))

  write_each-Counts :
      (ps : List DataPoint) (f : FileData)
      → InFile f a
      → All (IsStorable a from) ps
      → Counts f
      → Counts (write_each a base f ps)
  write_each-Counts [] f hf h counts = counts
  write_each-Counts (p ∷ ps) f hf h counts =
      write_each-Counts ps _ (InFile-OnlyIn a f _ (write-OnlyIn f p hf) a hf) h.1
        (write-Counts f p hf h.0 (inl counts))

  -- The writes of other intervals leave a point alone.
  write_each_kept :
      (ps : List DataPoint) (f : FileData) (p : DataPoint)
      → IsStorable a from p
      → All (IsStorable a from) ps
      → Apart p.interval ps
      → read_at (write_each a base f ps) (place p) 12 ≡ read_at f (place p) 12
  write_each_kept [] f p hp h apart = refl
  write_each_kept (q ∷ qs) f p hp h apart =
      let other = other_interval p q qs apart in
      let twelve = length-bytes q in
      write_each_kept qs _ p hp h.1 (rest_apart other apart)
      ∙ read_at-write_at_disjoint f (bytes q) (place q) (place p) 12
          (elim (point_offset_apart a from b q.interval p.interval proper h.0.within hp.within
            other) [
              | inl before ↦ inr (omega (arith, before, twelve))
              | inr behind ↦ inl (omega (arith, behind))
            ])
    where
      rest_apart :
          (q.interval ==ℤ p.interval) ≡ false → Apart p.interval (q ∷ qs) → Apart p.interval qs
      rest_apart o e = ground arith

  write_each-read :
      (ps : List DataPoint) (f : FileData)
      → All (IsStorable a from) ps
      → IsDistinct ps
      → All (λ p. read_at (write_each a base f ps) (place p) 12 ≡ bytes p) ps
  write_each-read [] f h d = tt
  write_each-read (p ∷ ps) f h d = (
    write_each_kept ps _ p h.0 h.1 d.0
        ∙ (ap (read_at (write_at f (bytes p) (place p)) (place p)) (sym (length-bytes p))
            ∙ read_at-write_at f (bytes p) (place p)),
    write_each-read ps _ h.1 d.1,
  )

  -- In a file whose lookups count from the base, every point is found that its place has.
  pub read-Found :
      (f : FileData) (p : DataPoint)
      → Counts f
      → IsStorable a from p
      → read_at f (point_offset a (scale b a.seconds_per_point) p.interval) 12 ≡ bytes p
      → Found f a p
  read-Found f p counts h e =
      let (i, less, eq) = h.within in
      record {
        place = place p;
        place_eq =
            ap (λ z. get_point_offset f z a) eq
            ∙ (counts (from +ℤ pos i) ∙ ap (λ z. some (point_offset a base z)) (sym eq));
        point_eq = ap unpack_data_point e ∙ unpack-bytes p h.fits;
      }

  -- The writes of points of different intervals leave each one where a lookup finds it, if the archive's
  -- lookups count from the base already, or the first point is written at its start.
  pub write_each-Found :
      (p : DataPoint) (ps : List DataPoint) (f : FileData)
      → InFile f a
      → All (IsStorable a from) (p ∷ ps)
      → IsDistinct (p ∷ ps)
      → (Counts f) ⊎ (point_offset a (scale b a.seconds_per_point) p.interval ≡ a.offset)
      → All (Found (write_each a (scale b a.seconds_per_point) f (p ∷ ps)) a) (p ∷ ps)
        × OnlyIn a f (write_each a (scale b a.seconds_per_point) f (p ∷ ps))
  write_each-Found p ps f hf h d start =
      let g = write_each a base f (p ∷ ps) in
      let only = write-OnlyIn f p hf in
      let counts : Counts g =
        write_each-Counts ps _ (InFile-OnlyIn a f _ only a hf) h.1
          (write-Counts f p hf h.0 start) in
      (
        found_all g counts (p ∷ ps) h (write_each-read (p ∷ ps) f h d),
        write_each-OnlyIn (p ∷ ps) f hf,
      )
    where
      found_all :
          (g : FileData)
          → Counts g
          → (l : List DataPoint) → All (IsStorable a from) l
          → All (λ q. read_at g (place q) 12 ≡ bytes q) l
          → All (Found g a) l
      found_all g counts [] h r = tt
      found_all g counts (q ∷ qs) h r =
          (read-Found g q counts h.0 r.0, found_all g counts qs h.1 r.1)
