-- ===== src/Whisper/Update/Lookup.antt =====
-- What Update of whisper/whisper.go stores is found again at its place.
use buckytools.Prelude.{
  ℕ, ◌≡◌, sym, ap, ◌∙◌, inr, true, false, some, List, arith, length, All, All-map,
}
use buckytools.Prelude.Int.{ℤ, pos, ◌-ℤ◌, ltb_ℤ}
use buckytools.Whisper.Bytes.{unpack_int}
use buckytools.Whisper.File.{FileData, read_at, write_at, read_at-write_at}
use buckytools.Whisper.Retention.{point_size}
use buckytools.Whisper.Archive.{ArchiveInfo, end_offset, align}
use buckytools.Whisper.Point.{DataPoint, Fits, bytes, length-bytes, unpack_data_point, unpack-bytes}
use buckytools.Whisper.Header.{Whisper}
use buckytools.Whisper.Update.{
  Floats, get_point_offset, choose_archive, no_archive, update_archives, update, outcome, stored,
}
use buckytools.Whisper.Update.Regions.{
  InFile, IsMethod, Behind, OnlyIn-write, InFile-OnlyIn, get_base_interval-InFile,
  write_point-Inside,
}
use buckytools.Whisper.Update.Propagated.{propagate_all-before}
use buckytools.Whisper.Update.Database.{IsDatabase, choose_archive-Behind}
use buckytools.Whisper.Update.Place.{place_kept, same_base, BaseAfter, write_at-BaseAfter}

-- What is found for a time in an archive of a file.
pub record Found (f : FileData) (a : ArchiveInfo) (p : DataPoint) : Type 0 where
  pub place : ℕ
  pub place_eq : get_point_offset f p.interval a ≡ some place
  pub point_eq : unpack_data_point (read_at f place point_size) ≡ p

update_archives-Found :
    (ops : Floats) (w : Whisper) (v : ℕ) (t : ℤ) (a : ArchiveInfo) (lower : List ArchiveInfo)
    → IsMethod w.aggregation_method
    → InFile w.file a
    → All (Behind w.file (end_offset a)) lower
    → (fits : Fits record { interval = align a t; value = v })
    → (g : FileData) × (update_archives ops w v t a lower ≡ some g)
      × Found g a record { interval = align a t; value = v }
      × (length g ≡ length w.file)
      × BaseAfter w.file g a fits.time
unfolding update_archives
update_archives-Found ops w v t a lower m ha hl fits =
    let p : DataPoint = record { interval = align a t; value = v } in
    let (offset, e, place, inside) = write_point-Inside w.file p a ha in
    let f = write_at w.file (bytes p) offset in
    let only = OnlyIn-write a w.file p offset ha inside in
    let move = InFile-OnlyIn a w.file f only in
    let later : (b : ArchiveInfo) → Behind w.file (end_offset a) b → Behind f (end_offset a) b =
      λ b h. record { in_file = move b h.in_file; starts = h.starts } in
    let (g, e2, same, len) =
      propagate_all-before ops w f (align a t) a lower (end_offset a) m (move a ha)
        (All-map (Behind w.file (end_offset a)) (Behind f (end_offset a)) lower later hl) in
    let ends = inside.ends in
    let starts = inside.starts in
    let twelve = length-bytes p in
    let kept = place_kept w.file p a offset fits ha (move a ha) inside place in
    let still = same a.offset 4 (omega arith) in
    let in_g : InFile g a = record {
      proper = ha.proper;
      end_le = let h = (move a ha).end_le in omega (arith, h, len);
    } in
    let (k, base, origin) = write_at-BaseAfter w.file p a offset fits ha (move a ha) inside place in
    let written = ap (read_at f offset) (sym twelve) ∙ read_at-write_at w.file (bytes p) offset in
    rw (e, update_archives)
      (
        g,
        e2,
        record {
          place = offset;
          place_eq = same_base g f p.interval a in_g (move a ha) still ∙ kept;
          point_eq =
              ap unpack_data_point (same offset 12 (omega arith) ∙ written) ∙ unpack-bytes p fits;
        },
        len ∙ only.same_length,
        (
          k,
          get_base_interval-InFile g a in_g
              ∙ (ap (λ l. some (unpack_int l)) still
                  ∙ (sym (get_base_interval-InFile f a (move a ha)) ∙ base)),
          origin,
        ),
      )

-- An `Update` at a time that the database covers does not fail, keeps the size of the file, and the
-- archive that it chooses then has the value at the place of the time's interval, whatever is
-- propagated to the archives behind it; the archive's first time is that time, or an earlier write's. The archives lie side by side in the file, and the start of
-- the interval is not negative and fits 32 bits.
pub update-Found :
    (ops : Floats) (now : ℤ) (w : Whisper) (v : ℕ) (t : ℤ)
    → IsDatabase w
    → ltb_ℤ (now -ℤ t) (pos w.max_retention) ≡ true
    → ltb_ℤ (now -ℤ t) (pos 0) ≡ false
    → (fits : Fits record {
      interval = align (choose_archive (now -ℤ t) no_archive w.archives).0 t;
      value = v;
    })
    → (g : FileData) × (update ops now w v t ≡ stored g)
      × Found g (choose_archive (now -ℤ t) no_archive w.archives).0 record {
        interval = align (choose_archive (now -ℤ t) no_archive w.archives).0 t;
        value = v;
      }
      × (length g ≡ length w.file)
      × BaseAfter w.file g (choose_archive (now -ℤ t) no_archive w.archives).0 fits.time
unfolding update outcome
update-Found ops now w v t db young past fits =
    let chosen = choose_archive (now -ℤ t) no_archive w.archives in
    let (here, behind) =
      choose_archive-Behind w.file (now -ℤ t) no_archive db.start w.archives db.end db.tiles
        db.end_le db.proper (inr db.some_archive) in
    let (g, e, found, len, base) =
      update_archives-Found ops w v t chosen.0 chosen.1 db.method here behind fits in
    rw (young, past, update) (g, ap outcome e, found, len, base)
