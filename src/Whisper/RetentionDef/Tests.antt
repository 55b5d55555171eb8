-- ===== src/Whisper/RetentionDef/Tests.antt =====
-- Runs of the parser of retentions, and its theorem applied there.
use buckytools.Prelude.{◌≡◌, refl, [], ◌∷◌, map, arith}
use buckytools.Prelude.Int.{pos}
use buckytools.Prelude.Text.{codes}
use buckytools.Prelude.Strings.{has_prefix, split, split_from, join}
use buckytools.Hashing.Node.ParseInt.{parse_digits}
use buckytools.Whisper.Mod.{quotient}
use buckytools.Whisper.Retention.{Retention}
use buckytools.Whisper.RetentionDef.{
  parsed, malformed, panics, unit_multiplier, in_range_32, parse_unsigned, parse_decimal, is_digit,
  is_unit, all_units, submatches, scaled, by_unit, number_or_unit, parse_retention_part, div_int,
  points_of, with_parts, parse_parts, parse_retention_def, parse_retention_defs,
}
use buckytools.Whisper.RetentionDef.RoundTrip.{
  print_def, IsPrintable, as_ints, parse_retention_defs-join,
}

-- The definitions that the code's own tests parse, a precision of 0, and a number that is too large.
definitions :
    (parse_retention_def (codes "1s:5m") ≡ parsed (pos 1, pos 300))
    × (parse_retention_def (codes "1m:30m") ≡ parsed (pos 60, pos 30))
    × (parse_retention_def (codes "1m") ≡ malformed)
    × (parse_retention_def (codes "1m:30m:20s") ≡ malformed)
    × (parse_retention_def (codes "1f:30s") ≡ malformed)
    × (parse_retention_def (codes "0:30s") ≡ panics)
    × (parse_retention_def (codes "1s:4294967296s") ≡ panics)
unfolding parse_retention_def parse_parts with_parts points_of div_int parse_retention_part
    number_or_unit by_unit scaled submatches all_units is_unit is_digit parse_decimal parse_unsigned
    in_range_32 unit_multiplier parse_digits quotient split split_from has_prefix
definitions = (refl, refl, refl, refl, refl, refl, refl)

abbrev minutes : Retention
minutes = record { seconds_per_point = 60; number_of_points = 5 }

parse_retention_defs-join_example :
    parse_retention_defs (join b',' (map print_def (minutes ∷ (minutes ∷ []))))
    ≡ parsed (map as_ints (minutes ∷ (minutes ∷ [])))
parse_retention_defs-join_example =
    let fits : IsPrintable minutes = record {
      precise = omega arith;
      short = omega arith;
      span_lt = omega arith;
    } in
    parse_retention_defs-join minutes (minutes ∷ []) (fits, (fits, tt))
