-- ===== src/Fill/Filled.antt =====
-- fillArchive of fill/fill.go between two databases: Fetch gives a series for each retention, and
-- UpdateMany stores it, so that the fill is done.
use buckytools.Prelude.{
  ◌≤◌, ◌≡◌, refl, ◌∙◌, inl, inr, Bool, true, false, ◌&&◌, not, List, [], ◌∷◌, arith, if◌then◌else◌,
  Bool-cases, length, All,
}
use buckytools.Prelude.Int.{ℤ, pos, ◌-ℤ◌, ltb_ℤ, -ℤ_parts}
use buckytools.Whisper.File.{FileData}
use buckytools.Whisper.Retention.{Retention, max_retention, sort_retentions, sort_retentions-All}
use buckytools.Whisper.Archive.{ArchiveInfo}
use buckytools.Whisper.Header.{Whisper}
use buckytools.Whisper.Update.Database.{IsDatabase, IsLongest}
use buckytools.Whisper.UpdateMany.Total.{Keeps, Keeps-trans, update_many-stored}
use buckytools.Whisper.Fetch.{start_time, fetch}
use buckytools.Whisper.Fetch.Series.{fetch-Covers}
use buckytools.Fill.{
  Env, Fill, filled, failed, crashed, retentions, with_file, known_points, merge, after_merge,
  after_fetch, fill_from, fill_archive,
}

-- A round of the loop, by what it tests and fetches.
abbrev round : Bool → Bool → Fill → Fill → (Whisper → Fill) → Fill
round skip further r skipped next = elim skip [
  | true ↦ skipped
  | false ↦ elim r [
    | crashed ↦ crashed
    | failed d ↦ failed d
    | filled d ↦ elim further [ false ↦ filled d | true ↦ next d ]
  ]
]

round_skipped :
    (skip further : Bool) (r skipped : Fill) (next : Whisper → Fill)
    → skip ≡ true
    → round skip further r skipped next ≡ skipped
round_skipped skip further r skipped next e = rw e refl

round_further :
    (skip further : Bool) (r skipped : Fill) (next : Whisper → Fill) (g : Whisper)
    → skip ≡ false
    → r ≡ filled g
    → further ≡ true
    → round skip further r skipped next ≡ next g
round_further skip further r skipped next g e e2 e3 = rw (e, e2, e3) refl

round_done :
    (skip further : Bool) (r skipped : Fill) (next : Whisper → Fill) (g : Whisper)
    → skip ≡ false
    → r ≡ filled g
    → further ≡ false
    → round skip further r skipped next ≡ filled g
round_done skip further r skipped next g e e2 e3 = rw (e, e2, e3) refl

-- Where a round begins to read.
abbrev reach : Env → ℤ → Retention → ℤ
reach env start v =
    let r_time = env.now -ℤ pos (max_retention v) in if ltb_ℤ start r_time then r_time else start

fill_from-round :
    (env : Env) (src dst : Whisper) (start stop : ℤ) (v : Retention) (vs : List Retention)
    → fill_from env src dst start stop (v ∷ vs)
      ≡ round
          (not (ltb_ℤ (env.now -ℤ pos (max_retention v)) stop))
          (ltb_ℤ start (reach env start v))
          (after_fetch env dst (fetch env.now src (reach env start v) stop))
          (fill_from env src dst start stop vs)
          (λ d. fill_from env src d start (reach env start v) vs)
unfolding fill_from
fill_from-round env src dst start stop v vs = refl

pub retentions-All :
    (P : Retention → Type 0) (l : List ArchiveInfo)
    → All (λ a. P a.retention) l
    → All P (retentions l)
unfolding retentions
retentions-All P [] h = tt
retentions-All P (a ∷ rest) h = (h.0, retentions-All P rest h.1)

-- A database goes on to be one when its file keeps its size.
abbrev pub IsDatabase-with_file :
    (w : Whisper) (file : FileData)
    → IsDatabase w
    → length file ≡ length w.file
    → IsDatabase (with_file w file)
IsDatabase-with_file w file db len = record {
  method = db.method;
  start = db.start;
  end = db.end;
  tiles = db.tiles;
  end_le = let ends = db.end_le in omega (arith, ends, len);
  proper = db.proper;
  some_archive = db.some_archive;
}

-- A round that is not skipped reads a span that Fetch answers.
reach-bounds :
    (env : Env) (src : Whisper) (start stop : ℤ) (v : Retention)
    → ltb_ℤ env.now start ≡ false
    → max_retention v ≤ src.max_retention
    → ltb_ℤ stop start ≡ false
    → not (ltb_ℤ (env.now -ℤ pos (max_retention v)) stop) ≡ false
    → (ltb_ℤ stop (reach env start v) ≡ false)
      × (ltb_ℤ (reach env start v) start ≡ false)
      × (ltb_ℤ env.now (reach env start v) ≡ false)
      × (ltb_ℤ stop (start_time env.now src) ≡ false)
unfolding start_time
reach-bounds env src start stop v past longest ordered inside =
    let r_time = env.now -ℤ pos (max_retention v) in
    let minus = -ℤ_parts env.now (pos (max_retention v)) in
    let minus_all = -ℤ_parts env.now (pos src.max_retention) in
    (
      ground (arith, inside, ordered),
      ground arith,
      ground (arith, past, minus),
      ground (arith, inside, minus, minus_all, longest),
    )

module _ (env : Env) (src dst : Whisper) (from : IsDatabase src) (to : IsDatabase dst) where
  -- A fetch of a span that does not lie before the retention is stored.
  after_fetch-filled :
      (file : FileData) (start stop : ℤ)
      → Keeps to.start to.end dst.file file
      → ltb_ℤ stop start ≡ false
      → ltb_ℤ env.now start ≡ false
      → ltb_ℤ stop (start_time env.now src) ≡ false
      → (g : FileData) × (after_fetch env (with_file dst file) (fetch env.now src start stop)
          ≡ filled (with_file dst g))
        × Keeps to.start to.end dst.file g
  unfolding after_fetch after_merge merge
  after_fetch-filled file start stop keeps ordered past reached =
      let (ts, answer, covers) = fetch-Covers env.now src start stop from ordered past reached in
      let (g, e, len, outside) =
        update_many-stored env.newest_first env.floats env.now (with_file dst file)
          (known_points ts.from_time ts.step ts.values)
          (IsDatabase-with_file dst file to keeps.same_length) in
      rw (answer, after_fetch, merge, e, after_merge)
        (
          g,
          refl,
          Keeps-trans to.start to.end dst.file file g keeps
              record { same_length = len; outside = outside },
        )

  fill_from-filled :
      (start : ℤ) (vs : List Retention) (file : FileData) (stop : ℤ)
      → ltb_ℤ env.now start ≡ false
      → All (λ v. max_retention v ≤ src.max_retention) vs
      → ltb_ℤ stop start ≡ false
      → Keeps to.start to.end dst.file file
      → (g : FileData) × (fill_from env src (with_file dst file) start stop vs
          ≡ filled (with_file dst g))
        × Keeps to.start to.end dst.file g
  fill_from-filled start [] file stop past h ordered keeps = (file, unfold fill_from in refl, keeps)
  fill_from-filled start (v ∷ vs) file stop past h ordered keeps =
      let d = with_file dst file in
      let older = not (ltb_ℤ (env.now -ℤ pos (max_retention v)) stop) in
      let from_time = reach env start v in
      let further = ltb_ℤ start from_time in
      let one = fill_from-round env src d start stop v vs in
      let r = after_fetch env d (fetch env.now src from_time stop) in
      let skipped = fill_from env src d start stop vs in
      let next : Whisper → Fill = λ w. fill_from env src w start from_time vs in
      elim (Bool-cases older) [
        | inl before ↦
            let (g, e, more) = fill_from-filled start vs file stop past h.1 ordered keeps in
            (g, one ∙ (round_skipped older further r skipped next before ∙ e), more)
        | inr inside ↦
            let (ordered', after, past', reached) =
              reach-bounds env src start stop v past h.0 ordered inside in
            let (g, e, more) =
              after_fetch-filled file from_time stop keeps ordered' past' reached in
            elim (Bool-cases further) [
              | inl on ↦
                  let (n, e2, last) = fill_from-filled start vs g from_time past h.1 after more in
                  (
                    n,
                    one
                        ∙ (round_further older further r skipped next (with_file dst g) inside e on
                            ∙ e2),
                    last,
                  )
              | inr done ↦ (
                g,
                one ∙ round_done older further r skipped next (with_file dst g) inside e done,
                more,
              )
            ]
      ]

-- A fill between two databases, of a span that begins in the past and does not end before it begins,
-- is done without an error or a panic. No archive of the source reaches back further than its header
-- says.
pub fill_archive-filled :
    (env : Env) (src dst : Whisper) (start stop : ℤ)
    → (from : IsDatabase src) (to : IsDatabase dst) → IsLongest src
    → ltb_ℤ stop start ≡ false
    → ltb_ℤ env.now start ≡ false
    → (file : FileData) → Keeps to.start to.end dst.file file
    → (g : FileData) × (fill_archive env src start stop (with_file dst file)
        ≡ filled (with_file dst g))
      × Keeps to.start to.end dst.file g
unfolding fill_archive
fill_archive-filled env src dst start stop from to longest ordered past file keeps =
    let oldest = start_time env.now src in
    elim (Bool-cases (ltb_ℤ start oldest && ltb_ℤ stop oldest)) [
      | inl older ↦ rw older (file, refl, keeps)
      | inr inside ↦ rw inside (
          fill_from-filled env src dst from to start (sort_retentions (retentions src.archives))
            file stop past
            (sort_retentions-All (λ v. max_retention v ≤ src.max_retention)
              (retentions src.archives)
              (retentions-All (λ v. max_retention v ≤ src.max_retention) src.archives longest))
            ordered keeps)
    ]
