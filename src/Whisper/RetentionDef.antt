-- ===== src/Whisper/RetentionDef.antt =====
-- ParseRetentionDef and ParseRetentionDefs of whisper/whisper.go. The two numbers of a definition may be
-- negative here, as strconv.ParseInt takes a sign.

pub mod RoundTrip
mod Tests
use buckytools.Prelude.{
  ℕ, zero, suc, ◌*◌, ◌^◌, Bool, true, false, ◌&&◌, ◌||◌, not, Option, none, some, List, [], ◌∷◌,
  ◌++◌, ltb, leb, ◌==◌, if◌then◌else◌, length,
}
use buckytools.Prelude.Int.{ℤ, pos, negsuc, pos_part, neg_part, sub_ℕ, ◌-ℤ◌}
use buckytools.Prelude.Text.{Text, codes}
use buckytools.Prelude.Strings.{has_prefix, split}
use buckytools.Hashing.Node.ParseInt.{parse_digits}
use buckytools.Whisper.Mod.{quotient}

-- What a parser returns; a panic where the source panics.
pub data Parsed {ℓ} (A : Type ℓ) : Type ℓ where
  parsed : A → Parsed A
  malformed panics : Parsed A

-- `unitMultiplier`.
unfoldable pub unit_multiplier : Text → Option ℕ
unit_multiplier s =
    if has_prefix s (codes "s")
    then some 1
    else if has_prefix s (codes "m")
    then some 60
    else if has_prefix s (codes "h")
    then some 3600
    else if has_prefix s (codes "d")
    then some 86400
    else if has_prefix s (codes "w")
    then some (86400 * 7)
    else if has_prefix s (codes "y")
    then some (86400 * 365)
    else none

-- The numbers of 32 bits.
unfoldable pub in_range_32 : Bool → Option ℕ → Option ℤ
in_range_32 negative none = none
in_range_32 false (some n) = if ltb n (2 ^ 31) then some (pos n) else none
in_range_32 true (some n) = if leb n (2 ^ 31) then some (sub_ℕ 0 n) else none

unfoldable pub parse_unsigned : Text → Option ℕ
parse_unsigned [] = none
parse_unsigned (c ∷ cs) = parse_digits 10 0 (c ∷ cs)

-- `strconv.ParseInt(s, 10, 32)`.
unfoldable pub parse_decimal : Text → Option ℤ
parse_decimal [] = none
parse_decimal (c ∷ cs) =
    if c == b'-'
    then in_range_32 true (parse_unsigned cs)
    else if c == b'+'
    then in_range_32 false (parse_unsigned cs)
    else in_range_32 false (parse_unsigned (c ∷ cs))

unfoldable pub is_digit : ℕ → Bool
is_digit c = leb b'0' c && leb c b'9'

unfoldable pub is_unit : ℕ → Bool
is_unit c = (c == b's') || (c == b'm') || (c == b'h') || (c == b'd') || (c == b'w') || (c == b'y')

-- Whether a text is units only, as the end of `retentionRegexp` asks.
unfoldable pub all_units : Text → Bool
all_units [] = true
all_units (c ∷ cs) = is_unit c && all_units cs

-- The two submatches of `retentionRegexp`: the digits, with those read before, and the units.
unfoldable pub submatches : Text → Text → Option (Text × Text)
submatches digits [] = none
submatches digits (c ∷ cs) =
    let longer = submatches (digits ++ (c ∷ [])) cs in
    if is_digit c
    then longer
    else if not (length digits == 0) && all_units (c ∷ cs)
    then some (digits, c ∷ cs)
    else none

-- A number with its multiplier. The panic is at a number that is out of range.
unfoldable pub scaled : Option ℤ → Option ℕ → Parsed ℤ
scaled none m = panics
scaled (some value) none = malformed
scaled (some value) (some m) = parsed (sub_ℕ (pos_part value * m) (neg_part value * m))

unfoldable pub by_unit : Option (Text × Text) → Parsed ℤ
by_unit none = malformed
by_unit (some (digits, units)) = scaled (parse_decimal digits) (unit_multiplier units)

unfoldable pub number_or_unit : Text → Option ℤ → Parsed ℤ
number_or_unit s (some n) = parsed n
number_or_unit s none = by_unit (submatches [] s)

-- `parseRetentionPart`.
unfoldable pub parse_retention_part : Text → Parsed ℤ
parse_retention_part s = number_or_unit s (parse_decimal s)

-- Go's `a / b`; `none` is the panic at 0.
unfoldable pub div_int : ℤ → ℤ → Option ℤ
div_int a (pos zero) = none
div_int a (pos (suc b)) = some (quotient a (suc b))
div_int a (negsuc b) = some (pos 0 -ℤ quotient a (suc b))

-- The precision and the number of points of a definition.
unfoldable pub points_of : ℤ → Option ℤ → Parsed (ℤ × ℤ)
points_of precision none = panics
points_of precision (some points) = parsed (precision, points)

unfoldable pub with_parts : Parsed ℤ → Parsed ℤ → Parsed (ℤ × ℤ)
with_parts malformed points = malformed
with_parts panics points = panics
with_parts (parsed precision) malformed = malformed
with_parts (parsed precision) panics = panics
with_parts (parsed precision) (parsed points) = points_of precision (div_int points precision)

unfoldable pub parse_parts : List Text → Parsed (ℤ × ℤ)
parse_parts [] = malformed
parse_parts (p ∷ []) = malformed
parse_parts (p ∷ (q ∷ [])) = with_parts (parse_retention_part p) (parse_retention_part q)
parse_parts (p ∷ (q ∷ (r ∷ rest))) = malformed

-- `ParseRetentionDef`.
unfoldable pub parse_retention_def : Text → Parsed (ℤ × ℤ)
parse_retention_def def = parse_parts (split b':' def)

unfoldable pub add_def : Parsed (ℤ × ℤ) → Parsed (List (ℤ × ℤ)) → Parsed (List (ℤ × ℤ))
add_def malformed rest = malformed
add_def panics rest = panics
add_def (parsed r) malformed = malformed
add_def (parsed r) panics = panics
add_def (parsed r) (parsed rs) = parsed (r ∷ rs)

unfoldable pub parse_defs : List Text → Parsed (List (ℤ × ℤ))
parse_defs [] = parsed []
parse_defs (def ∷ defs) = add_def (parse_retention_def def) (parse_defs defs)

-- `ParseRetentionDefs`.
unfoldable pub parse_retention_defs : Text → Parsed (List (ℤ × ℤ))
parse_retention_defs defs = parse_defs (split b',' defs)
