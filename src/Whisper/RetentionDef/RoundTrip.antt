-- ===== src/Whisper/RetentionDef/RoundTrip.antt =====
-- What the parser of retentions of whisper/whisper.go reads of retentions written in seconds.
use native.Mathlib.Nat.{mul-div_cancel_left}
use buckytools.Prelude.{
  ℕ, zero, suc, ◌*◌, ◌^◌, ◌≤◌, ◌<◌, ◌≡◌, refl, sym, ap, ap₂, ◌∙◌, ◌≢◌, ◌⊎◌, inl, inr, true, false,
  some, List, [], ◌∷◌, map, arith, ltb, ◌==◌, lt→ltb, All, All-append, All-map,
}
use buckytools.Prelude.Int.{ℤ, pos}
use buckytools.Prelude.Text.{Text, show_nat, show_fuel}
use buckytools.Prelude.Strings.{join, Lacks, split-join}
use buckytools.Hashing.Node.ParseInt.{
  parse_digits, parse_digits-show_fuel, show_fuel_lead, IsDigits-show_fuel,
}
use buckytools.Whisper.Mod.{quotient}
use buckytools.Whisper.Retention.{Retention}
use buckytools.Whisper.RetentionDef.{
  parsed, in_range_32, parse_unsigned, parse_decimal, number_or_unit, parse_retention_part, div_int,
  points_of, with_parts, parse_parts, parse_retention_def, add_def, parse_defs,
  parse_retention_defs,
}

-- A definition written with its two spans in seconds.
abbrev pub print_def : Retention → Text
print_def r =
    join b':'
      (show_nat r.seconds_per_point ∷ (show_nat (r.seconds_per_point * r.number_of_points) ∷ []))

-- A precision that is not 0, and a span of 31 bits.
pub record IsPrintable (r : Retention) : Type 0 where
  pub precise : 0 < r.seconds_per_point
  pub short : r.seconds_per_point < 2 ^ 31
  pub span_lt : r.seconds_per_point * r.number_of_points < 2 ^ 31

abbrev pub as_ints : Retention → ℤ × ℤ
as_ints r = (pos r.seconds_per_point, pos r.number_of_points)

show_nat_lead : (n : ℕ) → (c : ℕ) × (cs : Text) × (show_nat n ≡ c ∷ cs) × (48 ≤ c) × (c ≤ 57)
unfolding show_nat
show_nat_lead zero = (48, [], unfold show_fuel in refl, omega arith, omega arith)
show_nat_lead (suc n) =
    let (c, cs, e, low, high) = show_fuel_lead (suc n) (suc n) (omega arith) (omega arith) in
    (c, cs, e, omega (arith, low), high)

parse_decimal-show_nat : (n : ℕ) → n < 2 ^ 31 → parse_decimal (show_nat n) ≡ some (pos n)
unfolding parse_decimal parse_unsigned in_range_32
parse_decimal-show_nat n h =
    let (c, cs, e, low, high) = show_nat_lead n in
    let whole : parse_digits 10 0 (c ∷ cs) ≡ some n =
      ap (parse_digits 10 0) (sym e)
      ∙ (unfold show_nat in parse_digits-show_fuel n n (omega arith)) in
    let minus : (c == b'-') ≡ false = ground (arith, low) in
    let plus : (c == b'+') ≡ false = ground (arith, low) in
    let small : ltb n (2 ^ 31) ≡ true = lt→ltb n (2 ^ 31) h in
    ap parse_decimal e ∙ rw (minus, plus, whole, small, in_range_32) refl

show_nat-Lacks : (b n : ℕ) → (b < 48) ⊎ (57 < b) → Lacks b (show_nat n)
unfolding show_nat
show_nat-Lacks b n h =
    All-map (λ c. (48 ≤ c) × (c ≤ 57)) (λ c. c ≢ b) (show_fuel n n) (λ c d e. outside c d e h)
      (IsDigits-show_fuel n n (omega arith))
  where
    outside : (c : ℕ) → (48 ≤ c) × (c ≤ 57) → c ≡ b → (b < 48) ⊎ (57 < b) → ⊥
    outside c d e (inl low) = omega (arith, d.0, e, low)
    outside c d e (inr high) = omega (arith, d.1, e, high)

parse_retention_part-show_nat :
    (n : ℕ) → n < 2 ^ 31 → parse_retention_part (show_nat n) ≡ parsed (pos n)
unfolding parse_retention_part number_or_unit
parse_retention_part-show_nat n h = ap (number_or_unit (show_nat n)) (parse_decimal-show_nat n h)

div_int-mul : (a n : ℕ) → 0 < a → div_int (pos (a * n)) (pos a) ≡ some (pos n)
unfolding div_int quotient
div_int-mul zero n h = absurd (omega (arith, h))
div_int-mul (suc a) n h = ap (λ k. some (pos k)) (mul-div_cancel_left n h)

parse_retention_def-print_def :
    (r : Retention) → IsPrintable r → parse_retention_def (print_def r) ≡ parsed (as_ints r)
unfolding parse_retention_def parse_parts with_parts
parse_retention_def-print_def r h =
    let precision = show_nat r.seconds_per_point in
    let span = show_nat (r.seconds_per_point * r.number_of_points) in
    let parts = split-join b':' precision (span ∷ []) (
      show_nat-Lacks b':' r.seconds_per_point (inr (omega arith)),
      (show_nat-Lacks b':' (r.seconds_per_point * r.number_of_points) (inr (omega arith)), tt),
    ) in
    ap parse_parts parts
    ∙ (ap₂ with_parts (parse_retention_part-show_nat r.seconds_per_point h.short)
          (parse_retention_part-show_nat (r.seconds_per_point * r.number_of_points) h.span_lt)
        ∙ ap (points_of (pos r.seconds_per_point))
            (div_int-mul r.seconds_per_point r.number_of_points h.precise)
        ∙ (unfold points_of in refl))

print_def-Lacks : (r : Retention) → Lacks b',' (print_def r)
unfolding join
print_def-Lacks r =
    All-append (λ c. c ≢ b',') (show_nat r.seconds_per_point) _
      (show_nat-Lacks b',' r.seconds_per_point (inl (omega arith)))
      (
        (λ e. omega (arith, e)),
        show_nat-Lacks b',' (r.seconds_per_point * r.number_of_points) (inl (omega arith)),
      )

printed-Lacks : (rs : List Retention) → All (Lacks b',') (map print_def rs)
printed-Lacks [] = tt
printed-Lacks (r ∷ rs) = (print_def-Lacks r, printed-Lacks rs)

parse_defs-print_def :
    (rs : List Retention)
    → All IsPrintable rs
    → parse_defs (map print_def rs) ≡ parsed (map as_ints rs)
unfolding parse_defs add_def
parse_defs-print_def [] h = refl
parse_defs-print_def (r ∷ rs) h =
    ap₂ add_def (parse_retention_def-print_def r h.0) (parse_defs-print_def rs h.1)

-- ParseRetentionDefs reads back a list of retentions, not empty, that is written with commas between
-- them, each as its precision, a colon and its span, both in seconds. No precision is 0, and each of
-- these numbers is below 2 ^ 31.
pub parse_retention_defs-join :
    (r : Retention) (rs : List Retention)
    → All IsPrintable (r ∷ rs)
    → parse_retention_defs (join b',' (map print_def (r ∷ rs))) ≡ parsed (map as_ints (r ∷ rs))
unfolding parse_retention_defs
parse_retention_defs-join r rs h =
    ap parse_defs (split-join b',' (print_def r) (map print_def rs) (printed-Lacks (r ∷ rs)))
    ∙ parse_defs-print_def (r ∷ rs) h
