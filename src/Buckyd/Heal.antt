-- ===== src/Buckyd/Heal.antt =====
-- healMetric of cmd/buckyd/metrics.go: what a POST leaves in the store.
use buckytools.Prelude.{
  ℕ, ◌<◌, ◌≡◌, refl, ap, ap₂, ◌∙◌, ◌≢◌, inl, inr, true, false, Option, none, some, [], arith, leb,
  ◌==◌, if◌then◌else◌, Bool-cases, Option-cases, length,
}
use buckytools.Prelude.Text.{Text, codes, text_eq, text_eq_refl, eq_of_text_eq}
use buckytools.Prelude.Dict.{lookup, insert, erase, lookup-insert, lookup-erase}
use buckytools.Whisper.File.{FileData}
use buckytools.Sparse.{Copy, CopyError, copy_sparse}
use buckytools.Sparse.Content.{
  source, IsWhole, copy_sparse-eq-source, Reads, IsTruncated, copy_sparse-Reads,
}
use buckytools.Metrics.{MetricData}
use buckytools.Buckyd.{
  Stored, Disk, OsCall, stat, mkdir, io_copy, create, flock, remove, Env, Request, heal_existing,
  heal_missing, heal_metric, copy_body, new_file,
}

-- No call of the operating system fails, and a sparse copy meets the whole body.
pub record IsHealthy (env : Env) : Type 0 where
  pub calls : (c : OsCall) → env.fails c ≡ false
  pub arrives :
      (bytes : FileData) → IsWhole (env.arrive bytes) × (source (env.arrive bytes) ≡ bytes)

copy_body-IsHealthy :
    (env : Env) (bytes : FileData)
    → IsHealthy env
    → copy_body env (some bytes) ≡ (bytes, length bytes, true)
unfolding copy_body
copy_body-IsHealthy env bytes h = elim (Bool-cases env.sparse_files) [
  | inr plain ↦ rw (h.calls io_copy, plain, copy_body) refl
  | inl sparse ↦
      let (whole, same) = h.arrives bytes in
      let (final, copied, file, written) = copy_sparse-eq-source (env.arrive bytes) whole in
      rw (h.calls io_copy, sparse, copied, copy_body)
        (ap₂ (λ f n. (f, n, true)) (file ∙ same) (written ∙ ap (λ (l : FileData). length l) same))
]

-- The bytes of a request, decompressed where its header says so.
abbrev pub body_of : Env → Request → Option FileData
body_of env r =
    if text_eq r.content_encoding (codes "snappy") then env.decompress r.body else some r.body

-- A request that brings the bytes of a metric, compressed or not, with a header that agrees.
pub record Brings (env : Env) (r : Request) (bytes : FileData) (header : MetricData) : Type 0 where
  pub content_type_eq : r.content_type ≡ codes "application/octet-stream"
  pub body_eq : body_of env r ≡ some bytes
  pub header_eq : env.unmarshal r.metric_stat ≡ some header
  pub size_eq : header.size ≡ length bytes
  pub large : 28 < header.size

heal_missing-IsHealthy :
    (env : Env) (disk : Disk) (header : MetricData) (bytes : FileData) (path : Text)
    → IsHealthy env
    → header.size ≡ length bytes
    → heal_missing env disk header (some bytes) path ≡ (insert path (new_file env bytes) disk, 200)
unfolding heal_missing
heal_missing-IsHealthy env disk header bytes path h size =
    let agrees : (length bytes == header.size) ≡ true = ground arith in
    rw (h.calls create, h.calls flock, copy_body-IsHealthy env bytes h, agrees) refl

-- A metric that is not in the store yet is stored as an identical copy of what the request brings, and
-- nothing else in the store changes.
pub heal_metric_missing :
    (env : Env) (disk : Disk) (r : Request) (path : Text) (bytes : FileData) (header : MetricData)
    → IsHealthy env
    → Brings env r bytes header
    → lookup path disk ≡ none
    → heal_metric env disk r path ≡ (insert path (new_file env bytes) disk, 200)
unfolding heal_metric
heal_metric_missing env disk r path bytes header h b e =
    let octets : text_eq r.content_type (codes "application/octet-stream") ≡ true =
      ap (λ t. text_eq t (codes "application/octet-stream")) b.content_type_eq
      ∙ text_eq_refl (codes "application/octet-stream") in
    let enough : leb header.size 28 ≡ false = let large = b.large in ground arith in
    let body : Option FileData → Disk × ℕ = λ o. heal_missing env disk header o path in
    rw (octets, b.header_eq, enough, heal_metric)
      (rw (h.calls stat, e, h.calls mkdir)
        (ap body b.body_eq ∙ heal_missing-IsHealthy env disk header bytes path h b.size_eq))

-- What is put at a free path and taken away again leaves no trace.
erase-insert :
    (path j : Text) (f : Stored) (disk : Disk)
    → lookup path disk ≡ none
    → lookup j (erase path (insert path f disk)) ≡ lookup j disk
erase-insert path j f disk e = ground (
  arith,
  lookup-erase path j (insert path f disk),
  lookup-insert path j f disk,
  eq_of_text_eq path j,
)

heal_missing-kept :
    (env : Env) (disk : Disk) (header : MetricData) (body : Option FileData) (path j : Text)
    → lookup path disk ≡ none
    → env.fails remove ≡ false
    → (heal_missing env disk header body path).1 ≡ 400
    → lookup j (heal_missing env disk header body path).0 ≡ lookup j disk
unfolding heal_missing
heal_missing-kept env disk header body path j e works bad =
    ground (arith, erase-insert path j (new_file env (copy_body env body).0) disk e)

heal_existing-kept :
    (env : Env) (disk : Disk) (header : MetricData) (body : Option FileData) (path : Text)
    (old : Stored)
    → (heal_existing env disk header body path old).1 ≡ 400
    → (heal_existing env disk header body path old).0 ≡ disk
unfolding heal_existing
heal_existing-kept env disk header none path old bad = ground arith
heal_existing-kept env disk header (some bytes) path old bad = ground arith

-- What holds of a store left alone, and of what the two ways of healing make of it, holds of what
-- `healMetric` makes of it.
heal_metric-cases :
    (env : Env) (disk : Disk) (r : Request) (path : Text) (P : Disk × ℕ → Type 0)
    → ((code : ℕ) → code ≢ 200 → P (disk, code))
    → ((header : MetricData) (old : Stored)
        → lookup path disk ≡ some old
        → P (heal_existing env disk header (body_of env r) path old))
    → ((header : MetricData)
        → lookup path disk ≡ none
        → P (heal_missing env disk header (body_of env r) path))
    → P (heal_metric env disk r path)
unfolding heal_metric
heal_metric-cases env disk r path P same existing missing =
    elim (Bool-cases (text_eq r.content_type (codes "application/octet-stream"))) [
      | inr other ↦ rw other (same 400 (λ e. absurd (omega arith)))
      | inl octets ↦ elim (Option-cases (env.unmarshal r.metric_stat)) [
        | inl bad ↦ rw (octets, bad, heal_metric) (same 400 (λ e. absurd (omega arith)))
        | inr (header, good) ↦ elim (Bool-cases (leb header.size 28)) [
          | inl small ↦ rw (octets, good, small, heal_metric) (same 400 (λ e. absurd (omega arith)))
          | inr large ↦ elim (Bool-cases (env.fails stat)) [
            | inl failed ↦
                rw (octets, good, large, failed, heal_metric) (same 500 (λ e. absurd (omega arith)))
            | inr works ↦ elim (Option-cases (lookup path disk)) [
              | inr (old, found) ↦
                  rw (octets, good, large, works, found, heal_metric) (existing header old found)
              | inl none_there ↦ elim (Bool-cases (env.fails mkdir)) [
                | inl failed ↦
                    rw (octets, good, large, works, none_there, failed, heal_metric)
                      (same 500 (λ e. absurd (omega arith)))
                | inr made ↦
                    rw (octets, good, large, works, none_there, made, heal_metric)
                      (missing header none_there)
              ]
            ]
          ]
        ]
      ]
    ]

-- A request that is refused as malformed, or whose body has another size than its header says, leaves
-- every metric of the store as it was, where the removal of a file that was begun does not fail.
pub heal_metric-kept :
    (env : Env) (disk : Disk) (r : Request) (path j : Text)
    → env.fails remove ≡ false
    → (heal_metric env disk r path).1 ≡ 400
    → lookup j (heal_metric env disk r path).0 ≡ lookup j disk
heal_metric-kept env disk r path j works =
    heal_metric-cases env disk r path (λ x. x.1 ≡ 400 → lookup j x.0 ≡ lookup j disk)
      (λ code not_ok bad. refl)
      (λ header old there bad.
        ap (lookup j) (heal_existing-kept env disk header (body_of env r) path old bad))
      (λ header e bad. heal_missing-kept env disk header (body_of env r) path j e works bad)

heal_missing_other :
    (env : Env) (disk : Disk) (header : MetricData) (body : Option FileData) (path j : Text)
    → text_eq path j ≡ false
    → lookup j (heal_missing env disk header body path).0 ≡ lookup j disk
unfolding heal_missing
heal_missing_other env disk header body path j differs =
    let there = new_file env (copy_body env body).0 in
    ground (
      arith,
      lookup-insert path j there disk,
      lookup-insert path j (new_file env []) disk,
      lookup-erase path j (insert path there disk),
    )

heal_existing_other :
    (env : Env) (disk : Disk) (header : MetricData) (body : Option FileData) (path j : Text)
    (old : Stored)
    → text_eq path j ≡ false
    → lookup j (heal_existing env disk header body path old).0 ≡ lookup j disk
unfolding heal_existing
heal_existing_other env disk header none path j old differs = ground arith
heal_existing_other env disk header (some bytes) path j old differs =
    let filled : Stored = record old {
      content = (env.fill_all bytes old.content).0;
      mod_time = env.now;
    } in
    ground (arith, lookup-insert path j filled disk)

-- Whatever a POST brings and however it ends, the metrics at other paths stay as they were.
pub heal_metric_other :
    (env : Env) (disk : Disk) (r : Request) (path j : Text)
    → text_eq path j ≡ false
    → lookup j (heal_metric env disk r path).0 ≡ lookup j disk
heal_metric_other env disk r path j differs =
    heal_metric-cases env disk r path (λ x. lookup j x.0 ≡ lookup j disk) (λ code not_ok. refl)
      (λ header old there. heal_existing_other env disk header (body_of env r) path j old differs)
      (λ header e. heal_missing_other env disk header (body_of env r) path j differs)

-- What a body that arrives is for the file that is there: the new file, or what the old one is filled
-- from.
abbrev pub arrived : Env → Option Stored → FileData → FileData
arrived env none bytes = bytes
arrived env (some old) bytes = (env.fill_all bytes old.content).0

-- A copy of the body that succeeds has its bytes.
copy_body-Reads :
    (env : Env) (bytes : FileData)
    → Reads (env.arrive bytes) bytes
    → IsTruncated (env.arrive bytes)
    → (copy_body env (some bytes)).2 ≡ true
    → (copy_body env (some bytes)).0 ≡ bytes
unfolding copy_body
copy_body-Reads env bytes given cut done = elim (Bool-cases env.sparse_files) [
  | inr plain ↦ ground (arith, plain)
  | inl sparse ↦ by_result (copy_sparse (env.arrive bytes)) refl
]
  where
    by_result :
        (o : Option (Copy × Option CopyError))
        → copy_sparse (env.arrive bytes) ≡ o
        → (copy_body env (some bytes)).0 ≡ bytes
    by_result none e = ground (arith, e)
    by_result (some (c, some x)) e = ground (arith, e)
    by_result (some (c, none)) e =
        let same = copy_sparse-Reads (env.arrive bytes) c bytes given cut e in
        ground (arith, e, same)

heal_missing_done :
    (env : Env) (disk : Disk) (header : MetricData) (bytes : FileData) (path : Text)
    → Reads (env.arrive bytes) bytes
    → IsTruncated (env.arrive bytes)
    → (heal_missing env disk header (some bytes) path).1 ≡ 200
    → (f : Stored) × (lookup path (heal_missing env disk header (some bytes) path).0 ≡ some f)
      × (f.content ≡ bytes)
unfolding heal_missing
heal_missing_done env disk header bytes path given cut done =
    let copied = copy_body env (some bytes) in
    let there = new_file env copied.0 in
    (
      there,
      ground (arith, lookup-insert path path there disk, text_eq_refl path),
      copy_body-Reads env bytes given cut (ground arith),
    )

heal_existing_done :
    (env : Env) (disk : Disk) (header : MetricData) (bytes : FileData) (path : Text) (old : Stored)
    → (heal_existing env disk header (some bytes) path old).1 ≡ 200
    → (f : Stored) × (lookup path (heal_existing env disk header (some bytes) path old).0 ≡ some f)
      × (f.content ≡ arrived env (some old) bytes)
unfolding heal_existing
heal_existing_done env disk header bytes path old done =
    let filled : Stored = record old {
      content = (env.fill_all bytes old.content).0;
      mod_time = env.now;
    } in
    (filled, ground (arith, lookup-insert path path filled disk, text_eq_refl path), refl)

-- After a POST that is answered 200 there is a file at the metric's path: a copy of the body, or what
-- the fill made from it of the file that was there.
pub heal_metric_done :
    (env : Env) (disk : Disk) (r : Request) (path : Text) (bytes : FileData)
    → body_of env r ≡ some bytes
    → Reads (env.arrive bytes) bytes
    → IsTruncated (env.arrive bytes)
    → (heal_metric env disk r path).1 ≡ 200
    → (f : Stored) × (lookup path (heal_metric env disk r path).0 ≡ some f)
      × (f.content ≡ arrived env (lookup path disk) bytes)
heal_metric_done env disk r path bytes brought given cut =
    heal_metric-cases env disk r path
      (λ x.
        x.1 ≡ 200
        → (f : Stored) × (lookup path x.0 ≡ some f)
          × (f.content ≡ arrived env (lookup path disk) bytes))
      (λ code not_ok done. absurd (not_ok done))
      (λ header old found. rw (brought, found) (heal_existing_done env disk header bytes path old))
      (λ header e. rw (brought, e) (heal_missing_done env disk header bytes path given cut))
