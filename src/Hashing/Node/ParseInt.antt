-- ===== src/Hashing/Node/ParseInt.antt =====
-- `strconv.ParseInt(s, 0, 0)`, with which NewNodeParser (hashing/hashing.go) reads a port: a sign,
-- a prefix that gives the base, digits, and the range of an int64.
use buckytools.Prelude.{
  ℕ, zero, suc, ◌+◌, ◌-◌, ◌*◌, ◌/◌, ◌%◌, ◌^◌, ◌≤◌, ◌<◌, ◌≡◌, refl, sym, ap, ◌∙◌, ◌≢◌, inl, inr,
  Bool, true, false, ◌&&◌, ◌||◌, Option, none, some, [], ◌∷◌, ◌++◌, arith, ltb, leb, ◌==◌,
  if◌then◌else◌, lt→ltb, Bool-cases, All, All-append,
}
use buckytools.Prelude.Int.{ℤ, pos, negsuc}
use buckytools.Prelude.Text.{Text, codes, show_nat, show_fuel}

-- The value of one digit; 36 and more is no digit.
digit_value : ℕ → ℕ
digit_value c =
    if leb b'0' c && leb c b'9'
    then c - b'0'
    else if leb b'a' c && leb c b'z'
    then c - b'a' + 10
    else if leb b'A' c && leb c b'Z'
    then c - b'A' + 10
    else 36

add_digit : ℕ → ℕ → ℕ → Option ℕ
unfolding digit_value
add_digit base n c = let d = digit_value c in if ltb d base then some (n * base + d) else none

unfoldable pub parse_digits : ℕ → ℕ → Text → Option ℕ
unfolding add_digit
parse_digits base n [] = some n
parse_digits base n (c ∷ cs) = elim (add_digit base n c) [
  | none ↦ none
  | some m ↦ parse_digits base m cs
]

-- The base 0 of `ParseInt`: 0x is hexadecimal, another leading 0 octal.
parse_uint : Text → Option ℕ
unfolding parse_digits
parse_uint [] = none
parse_uint (c ∷ []) = if c == b'0' then some 0 else parse_digits 10 0 (c ∷ [])
parse_uint (c ∷ d ∷ []) =
    if c == b'0'
    then (if (d == b'x') || (d == b'X') then none else parse_digits 8 0 (d ∷ []))
    else parse_digits 10 0 (c ∷ d ∷ [])
parse_uint (c ∷ d ∷ e ∷ rest) =
    if c == b'0'
    then (if (d == b'x') || (d == b'X')
        then parse_digits 16 0 (e ∷ rest)
        else parse_digits 8 0 (d ∷ e ∷ rest))
    else parse_digits 10 0 (c ∷ d ∷ e ∷ rest)

-- -n, where n is not 0.
negate : ℕ → ℤ
negate zero = pos 0
negate (suc n) = negsuc n

in_range : Bool → Option ℕ → Option ℤ
unfolding negate
in_range neg none = none
in_range false (some n) = if ltb n (2 ^ 63) then some (pos n) else none
in_range true (some n) = if leb n (2 ^ 63) then some (negate n) else none

unfoldable pub parse_int : Text → Option ℤ
unfolding parse_uint in_range
parse_int [] = none
parse_int (c ∷ cs) =
    if c == b'-'
    then in_range true (parse_uint cs)
    else if c == b'+'
    then in_range false (parse_uint cs)
    else in_range false (parse_uint (c ∷ cs))

ports :
    (parse_int (codes "2003") ≡ some (pos 2003))
    × (parse_int (codes "-1") ≡ some (negsuc 0))
    × (parse_int (codes "0x1F") ≡ some (pos 31))
    × (parse_int (codes "017") ≡ some (pos 15))
    × (parse_int (codes "09") ≡ none)
    × (parse_int (codes "") ≡ none)
    × (parse_int (codes "9223372036854775808") ≡ none)
unfolding parse_int
ports = (refl, refl, refl, refl, refl, refl, refl)

parse_digits-append :
    (base n : ℕ) (xs : Text) (c m : ℕ)
    → parse_digits base n xs ≡ some m
    → parse_digits base n (xs ++ (c ∷ [])) ≡ add_digit base m c
unfolding parse_digits
parse_digits-append base n [] c m h = ground arith
parse_digits-append base n (x ∷ xs) c m h =
    ground (arith, parse_digits-append base (n * base + digit_value x) xs c m)

-- The decimal digits of a number read back as the number.
pub parse_digits-show_fuel : (f n : ℕ) → n ≤ f → parse_digits 10 0 (show_fuel f n) ≡ some n
unfolding parse_digits show_fuel
parse_digits-show_fuel zero n h = ground arith
parse_digits-show_fuel (suc f) n h = elim (Bool-cases (ltb n 10)) [
  | inl small ↦ rw small (ground arith)
  | inr large ↦ rw large (
      parse_digits-append 10 0 (show_fuel f (n / 10)) (48 + n % 10) (n / 10)
        (parse_digits-show_fuel f (n / 10) (ground arith))
      ∙ ground arith)
]

-- A number that is not 0 has no leading 0 and no sign.
pub show_fuel_lead :
    (f n : ℕ)
    → n ≤ f
    → 0 < n
    → (c : ℕ) × (cs : Text) × (show_fuel f n ≡ c ∷ cs) × (49 ≤ c) × (c ≤ 57)
unfolding show_fuel
show_fuel_lead zero n h k = absurd (omega arith)
show_fuel_lead (suc f) n h k = elim (Bool-cases (ltb n 10)) [
  | inl small ↦ (48 + n, [], rw small, ground arith, ground arith)
  | inr large ↦
      let (c, cs, e, low, high) = show_fuel_lead f (n / 10) (ground arith) (ground arith) in
      (c, cs ++ ((48 + n % 10) ∷ []), rw (large, e), low, high)
]

parse_uint-decimal : (c : ℕ) (cs : Text) → 49 ≤ c → parse_uint (c ∷ cs) ≡ parse_digits 10 0 (c ∷ cs)
unfolding parse_uint
parse_uint-decimal c [] h = ground arith
parse_uint-decimal c (d ∷ []) h = ground arith
parse_uint-decimal c (d ∷ e ∷ rest) h = ground arith

parse_int-decimal :
    (c : ℕ) (cs : Text) (n : ℕ)
    → 49 ≤ c
    → parse_digits 10 0 (c ∷ cs) ≡ some n
    → n < 2 ^ 63
    → parse_int (c ∷ cs) ≡ some (pos n)
unfolding parse_int
parse_int-decimal c cs n low e h =
    let minus : (c == b'-') ≡ false = ground arith in
    let plus : (c == b'+') ≡ false = ground arith in
    let small : ltb n (2 ^ 63) ≡ true = lt→ltb n (2 ^ 63) h in
    rw (minus, plus, parse_uint-decimal c cs low ∙ e, small)

-- `ParseInt` reads what `%d` printed.
pub parse_int-show_nat : (n : ℕ) → n < 2 ^ 63 → parse_int (show_nat n) ≡ some (pos n)
unfolding show_nat
parse_int-show_nat zero h = unfold parse_int show_fuel in refl
parse_int-show_nat (suc n) h =
    let (c, cs, e, low, high) = show_fuel_lead (suc n) (suc n) (omega arith) (omega arith) in
    let whole = parse_digits-show_fuel (suc n) (suc n) (omega arith) in
    ap parse_int e ∙ parse_int-decimal c cs (suc n) low (ap (parse_digits 10 0) (sym e) ∙ whole) h

-- What `%d` prints has a first digit, and only digits.
pub IsDigits-show_fuel : (f n : ℕ) → n ≤ f → All (λ c. (48 ≤ c) × (c ≤ 57)) (show_fuel f n)
unfolding show_fuel
IsDigits-show_fuel zero n h = ((omega arith, omega arith), tt)
IsDigits-show_fuel (suc f) n h = elim (Bool-cases (ltb n 10)) [
  | inl small ↦ rw small ((omega arith, ground arith), tt)
  | inr large ↦ rw large (
      All-append _ (show_fuel f (n / 10)) _ (IsDigits-show_fuel f (n / 10) (ground arith))
        ((omega arith, omega arith), tt))
]

pub show_nat-ne-nil : (n : ℕ) → show_nat n ≢ []
unfolding show_nat show_fuel
show_nat-ne-nil zero h = cc
show_nat-ne-nil (suc n) h =
    let (c, cs, e, low, high) = show_fuel_lead (suc n) (suc n) (omega arith) (omega arith) in cc (e)
