-- ===== src/Whisper/Update/Propagated.antt =====
-- What propagate of whisper/whisper.go changes, for one lower archive and for all.
use buckytools.Prelude.{
  ℕ, zero, suc, ◌+◌, ◌≤◌, ◌≡◌, refl, ◌∙◌, ◌≢◌, inl, inr, Bool, true, false, some, List, [], ◌∷◌,
  arith, ◌==◌, Bool-cases, length, All, All-map,
}
use buckytools.Prelude.Int.{ℤ}
use buckytools.Whisper.File.{FileData, read_at, write_at}
use buckytools.Whisper.Archive.{ArchiveInfo, align}
use buckytools.Whisper.Point.{DataPoint, bytes}
use buckytools.Whisper.Header.{Whisper}
use buckytools.Whisper.Update.{Floats, aggregate, write_aggregate, propagate, propagate_all}
use buckytools.Whisper.Update.Regions.{
  InFile, IsMethod, get_point_offset-Inside, write_point-Inside, OnlyIn, OnlyIn-refl, OnlyIn-write,
  InFile-OnlyIn, Behind,
}

aggregate-total :
    (ops : Floats) (method : ℕ) (values : List ℕ)
    → IsMethod method
    → length values ≢ 0
    → (v : ℕ) × (aggregate ops method values ≡ some v)
unfolding aggregate
aggregate-total ops method [] m h = absurd (h refl)
aggregate-total ops (suc zero) (v ∷ vs) m h = (_, refl)
aggregate-total ops (suc (suc zero)) (v ∷ vs) m h = (_, refl)
aggregate-total ops (suc (suc (suc zero))) (v ∷ vs) m h = (_, refl)
aggregate-total ops (suc (suc (suc (suc zero)))) (v ∷ vs) m h = (_, refl)
aggregate-total ops (suc (suc (suc (suc (suc zero))))) (v ∷ vs) m h = (_, refl)
aggregate-total ops zero (v ∷ vs) m h = let p = m.positive in absurd (omega arith)
aggregate-total ops (suc (suc (suc (suc (suc (suc k)))))) (v ∷ vs) m h =
    let p = m.small in absurd (omega arith)

write_aggregate-OnlyIn :
    (ops : Floats) (w : Whisper) (f : FileData) (start : ℤ) (lower : ArchiveInfo) (known : List ℕ)
    (total : ℕ)
    → InFile f lower
    → IsMethod w.aggregation_method
    → (done : Bool) × (g : FileData) × (write_aggregate ops w f start lower known total
        ≡ some (done, g))
      × OnlyIn lower f g
unfolding write_aggregate
write_aggregate-OnlyIn ops w f start lower known total h m = elim (Bool-cases (length known == 0)) [
  | inl e ↦ rw (e, write_aggregate) (false, f, refl, OnlyIn-refl lower f)
  | inr e ↦ elim (Bool-cases (few known)) [
    | inl e2 ↦ rw (e, e2, write_aggregate) (false, f, refl, OnlyIn-refl lower f)
    | inr e2 ↦
        let (v, e3) = aggregate-total ops w.aggregation_method known m (some_known e) in
        let p : DataPoint = record { interval = start; value = v } in
        let (offset, e4, place, inside) = write_point-Inside f p lower h in
        rw (e, e2, e3, e4, write_aggregate)
          (true, write_at f (bytes p) offset, refl, OnlyIn-write lower f p offset h inside)
  ]
]
  where
    few : List ℕ → Bool
    few k =
        ops.less32 (ops.div32 (ops.from_int32 (length k)) (ops.from_int32 total)) w.x_files_factor

    some_known : (length known == 0) ≡ false → length known ≢ 0
    some_known e z = ground arith

-- `propagate` does not panic, and changes the lower archive only.
pub propagate-OnlyIn :
    (ops : Floats) (w : Whisper) (f : FileData) (t : ℤ) (higher lower : ArchiveInfo)
    → InFile f higher
    → InFile f lower
    → IsMethod w.aggregation_method
    → (done : Bool) × (g : FileData) × (propagate ops w f t higher lower ≡ some (done, g))
      × OnlyIn lower f g
unfolding propagate
propagate-OnlyIn ops w f t higher lower hh hl m =
    let (first, e, inside) = get_point_offset-Inside f (align lower t) higher hh in
    rw (e, propagate) (write_aggregate-OnlyIn ops w f (align lower t) lower _ _ hl m)

-- The propagation to all lower archives does not panic, and leaves what lies before them.
pub propagate_all-before :
    (ops : Floats) (w : Whisper) (f : FileData) (t : ℤ) (higher : ArchiveInfo)
    (lower : List ArchiveInfo) (place : ℕ)
    → IsMethod w.aggregation_method
    → InFile f higher
    → All (Behind f place) lower
    → (g : FileData) × (propagate_all ops w f t higher lower ≡ some g)
      × ((o n : ℕ) → o + n ≤ place → read_at g o n ≡ read_at f o n)
      × (length g ≡ length f)
unfolding propagate_all
propagate_all-before ops w f t higher [] place m hh hl = (f, refl, (λ o n h. refl), refl)
propagate_all-before ops w f t higher (a ∷ rest) place m hh hl =
    let (done, g, e, only) = propagate-OnlyIn ops w f t higher a hh hl.0.in_file m in
    let keep = only.outside in
    let behind = hl.0.starts in
    elim (Bool-cases done) [
      | inl further ↦
          let later : (b : ArchiveInfo) → Behind f place b → Behind g place b =
            λ b h. record { in_file = InFile-OnlyIn a f g only b h.in_file; starts = h.starts } in
          let (k, e2, same, len) =
            propagate_all-before ops w g t a rest place m (InFile-OnlyIn a f g only a hl.0.in_file)
              (All-map (Behind f place) (Behind g place) rest later hl.1) in
          rw (e, further, propagate_all)
            (
              k,
              e2,
              (λ o n h. same o n h ∙ keep o n (inl (omega (arith, behind, h)))),
              len ∙ only.same_length,
            )
      | inr stop ↦
          rw (e, stop, propagate_all)
            (g, refl, (λ o n h. keep o n (inl (omega (arith, behind, h)))), only.same_length)
    ]
