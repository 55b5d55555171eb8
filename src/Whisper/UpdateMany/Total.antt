-- ===== src/Whisper/UpdateMany/Total.antt =====
-- UpdateMany of whisper/whisper.go on any points: what it can change, and whether it ends.
use buckytools.Prelude.{
  ℕ, ◌+◌, ◌≤◌, ◌≡◌, refl, ap, ◌∙◌, ◌⊎◌, inl, inr, false, some, List, [], ◌∷◌, ◌++◌, arith, ltb,
  Bool-cases, length, All, All-map,
}
use buckytools.Prelude.Int.{ℤ}
use buckytools.Whisper.File.{FileData, read_at}
use buckytools.Whisper.Retention.{max_retention}
use buckytools.Whisper.Point.{DataPoint}
use buckytools.Whisper.Archive.{ArchiveInfo, IsProper, end_offset}
use buckytools.Whisper.Header.{Whisper}
use buckytools.Whisper.Header.Layout.{Tiles}
use buckytools.Whisper.Update.{Floats, outcome, stored}
use buckytools.Whisper.Update.Regions.{InFile, IsMethod, OnlyIn, InFile-OnlyIn}
use buckytools.Whisper.Update.Database.{IsDatabase, Tiles-le}
use buckytools.Whisper.UpdateMany.{
  TimeSeriesPoint, align_points, lower_archives, archive_update_many, reversed, extract_points,
  update_from, update_many, propagate_many,
}
use buckytools.Whisper.UpdateMany.Within.{write_points-OnlyIn}
use buckytools.Whisper.UpdateMany.Stored.{propagate_points-OnlyIn}

-- What `g` keeps of `f`: the size, and what lies before a place and behind another one.
pub record Keeps (start end : ℕ) (f g : FileData) : Type 0 where
  pub same_length : length g ≡ length f
  pub outside : (o n : ℕ) → (o + n ≤ start) ⊎ (end ≤ o) → read_at g o n ≡ read_at f o n

pub Keeps-refl : (start end : ℕ) (f : FileData) → Keeps start end f f
Keeps-refl start end f = record { same_length = refl; outside = λ o n away. refl }

pub Keeps-trans :
    (start end : ℕ) (f g h : FileData)
    → Keeps start end f g
    → Keeps start end g h
    → Keeps start end f h
Keeps-trans start end f g h fg gh = record {
  same_length = gh.same_length ∙ fg.same_length;
  outside = λ o n away. gh.outside o n away ∙ fg.outside o n away;
}

-- An archive in the file, between two places.
record Between (f : FileData) (start end : ℕ) (a : ArchiveInfo) : Type 0 where
  in_file : InFile f a
  starts : start ≤ a.offset
  ends : end_offset a ≤ end

Keeps-OnlyIn :
    (start end : ℕ) (a : ArchiveInfo) (f g : FileData)
    → Between f start end a
    → OnlyIn a f g
    → Keeps start end f g
Keeps-OnlyIn start end a f g h only =
    let starts = h.starts in
    let ends = h.ends in
    record {
      same_length = only.same_length;
      outside = λ o n away. only.outside o n (further o n away);
    }
  where
    further : (o n : ℕ) → (o + n ≤ start) ⊎ (end ≤ o) → (o + n ≤ a.offset) ⊎ (end_offset a ≤ o)
    further o n (inl before) = let starts = h.starts in inl (omega (arith, starts, before))
    further o n (inr behind) = let ends = h.ends in inr (omega (arith, ends, behind))

-- The archives lie as well in a file of the same size.
Between-Keeps :
    (start end : ℕ) (f g : FileData) (l : List ArchiveInfo)
    → Keeps start end f g
    → All (Between f start end) l
    → All (Between g start end) l
Between-Keeps start end f g l keeps =
    let same = keeps.same_length in
    All-map (Between f start end) (Between g start end) l (λ b h.
      let inside = h.in_file.end_le in
      record {
        in_file = record { proper = h.in_file.proper; end_le = omega (arith, inside, same) };
        starts = h.starts;
        ends = h.ends;
      })

Tiles-Between :
    (f : FileData) (start end offset : ℕ) (l : List ArchiveInfo)
    → Tiles offset l end
    → start ≤ offset
    → end ≤ length f
    → All IsProper l
    → All (Between f start end) l
Tiles-Between f start end offset [] tiles h room proper = tt
Tiles-Between f start end offset (a ∷ rest) tiles h room proper =
    let first = tiles.0 in
    let within = Tiles-le (end_offset a) rest end tiles.1 in
    let after : start ≤ end_offset a = unfold end_offset in omega (arith, first, h) in
    (
      record {
        in_file = record { proper = proper.0; end_le = omega (arith, within, room) };
        starts = omega (arith, first, h);
        ends = within;
      },
      Tiles-Between f start end (end_offset a) rest tiles.1 after room proper.1,
    )

lower_archives-All :
    (P : ArchiveInfo → Type 0) (a : ArchiveInfo) (l : List ArchiveInfo)
    → All P l
    → All P (lower_archives a l)
unfolding lower_archives
lower_archives-All P a [] h = tt
lower_archives-All P a (b ∷ rest) h =
    elim (Bool-cases (ltb a.seconds_per_point b.seconds_per_point)) [
      | inl finer ↦ rw finer h
      | inr other ↦ rw other (lower_archives-All P a rest h.1)
    ]

empty_or_not :
    (l : List TimeSeriesPoint)
    → (l ≡ []) ⊎ ((p : TimeSeriesPoint) × (ps : List TimeSeriesPoint) × (l ≡ p ∷ ps))
empty_or_not [] = inl refl
empty_or_not (p ∷ ps) = inr (p, ps, refl)

reversed_first :
    (p : TimeSeriesPoint) (ps : List TimeSeriesPoint)
    → (t : TimeSeriesPoint) × (ts : List TimeSeriesPoint) × (reversed (p ∷ ps) ≡ t ∷ ts)
unfolding reversed
reversed_first p ps = ends (reversed ps)
  where
    ends :
        (l : List TimeSeriesPoint)
        → (t : TimeSeriesPoint) × (ts : List TimeSeriesPoint) × (l ++ (p ∷ []) ≡ t ∷ ts)
    ends [] = (p, [], refl)
    ends (t ∷ ts) = (t, ts ++ (p ∷ []), refl)

module _ (ops : Floats) (w : Whisper) (start end : ℕ) (m : IsMethod w.aggregation_method) where
  propagate_many-Keeps :
      (lower : List ArchiveInfo) (f : FileData) (higher : ArchiveInfo) (ps : List DataPoint)
      → InFile f higher
      → All (Between f start end) lower
      → (g : FileData) × (propagate_many ops w f higher ps lower ≡ some g) × Keeps start end f g
  unfolding propagate_many
  propagate_many-Keeps [] f higher ps hh hl = (f, refl, Keeps-refl start end f)
  propagate_many-Keeps (a ∷ rest) f higher ps hh hl =
      let (done, g, e, only) =
        propagate_points-OnlyIn ops w f false higher a ps hh hl.0.in_file m in
      let keeps = Keeps-OnlyIn start end a f g hl.0 only in
      elim (Bool-cases done) [
        | inl further ↦
            let (k, e2, more) =
              propagate_many-Keeps rest g a ps (InFile-OnlyIn a f g only a hl.0.in_file)
                (Between-Keeps start end f g rest keeps hl.1) in
            rw (e, further, propagate_many) (k, e2, Keeps-trans start end f g k keeps more)
        | inr stop ↦ rw (e, stop, propagate_many) (g, refl, keeps)
      ]

  archive_update_many-Keeps :
      (f : FileData) (a : ArchiveInfo) (t : TimeSeriesPoint) (ts : List TimeSeriesPoint)
      → Between f start end a
      → All (Between f start end) w.archives
      → (g : FileData) × (archive_update_many ops w f a (t ∷ ts) ≡ some g) × Keeps start end f g
  unfolding archive_update_many
  archive_update_many-Keeps f a t ts h hs =
      let (g, e, only) = write_points-OnlyIn a f t ts h.in_file in
      let keeps = Keeps-OnlyIn start end a f g h only in
      let lower = lower_archives a w.archives in
      let (n, e2, more) =
        propagate_many-Keeps lower g a (align_points a (t ∷ ts))
          (InFile-OnlyIn a f g only a h.in_file)
          (Between-Keeps start end f g lower keeps
            (lower_archives-All (Between f start end) a w.archives hs)) in
      rw (e, archive_update_many) (n, e2, Keeps-trans start end f g n keeps more)

  update_from-Keeps :
      (now : ℤ) (l : List ArchiveInfo) (f : FileData) (points : List TimeSeriesPoint)
      → All (Between f start end) l
      → All (Between f start end) w.archives
      → (g : FileData) × (update_from ops w now f l points ≡ some g) × Keeps start end f g
  unfolding update_from
  update_from-Keeps now [] f points h hs = (f, refl, Keeps-refl start end f)
  update_from-Keeps now (a ∷ rest) f points h hs =
      let parts = extract_points points now (max_retention a.retention) in
      elim (empty_or_not parts.0) [
        | inl none_here ↦ rw (none_here, update_from) (update_from-Keeps now rest f parts.1 h.1 hs)
        | inr (p, ps, here) ↦
            let (t, ts, turned) = reversed_first p ps in
            let (g, e, keeps) = archive_update_many-Keeps f a t ts h.0 hs in
            elim (empty_or_not parts.1) [
              | inl done ↦ rw (here, update_from, turned, e, done) (g, refl, keeps)
              | inr (q, qs, left) ↦
                  let (n, e2, more) =
                    update_from-Keeps now rest g (q ∷ qs)
                      (Between-Keeps start end f g rest keeps h.1)
                      (Between-Keeps start end f g w.archives keeps hs) in
                  rw (here, update_from, turned, e, left, e2)
                    (n, refl, Keeps-trans start end f g n keeps more)
            ]
      ]

-- On a database, whose archives lie side by side in the file, UpdateMany of any points, whatever
-- sort.Sort makes of them, ends without a panic and writes inside the archives only: it keeps the
-- size of the file, and every byte that lies before the first archive or behind the last one.
pub update_many-stored :
    (newest_first : List TimeSeriesPoint → List TimeSeriesPoint) (ops : Floats) (now : ℤ)
    (w : Whisper) (points : List TimeSeriesPoint)
    → (db : IsDatabase w)
    → (g : FileData) × (update_many newest_first ops now w points ≡ stored g)
      × (length g ≡ length w.file)
      × ((o n : ℕ) → (o + n ≤ db.start) ⊎ (db.end ≤ o) → read_at g o n ≡ read_at w.file o n)
unfolding update_many outcome
update_many-stored newest_first ops now w points db =
    let between =
      Tiles-Between w.file db.start db.end db.start w.archives db.tiles (omega arith) db.end_le
        db.proper in
    let (g, e, keeps) =
      update_from-Keeps ops w db.start db.end db.method now w.archives w.file (newest_first points)
        between between in
    (g, ap outcome e, keeps.same_length, keeps.outside)
