-- ===== src/Examples/Texts.antt =====
-- The theorem on the texts of ranges, at a concrete input.
use mikrolb.Common.{◌≡◌, refl, true, false, ◌==◌, ok, if◌then◌else◌, arith, is_space}
use mikrolb.Examples.{table, range}
use mikrolb.IpRange.Parse.{parse_ip_range}
use mikrolb.IpRangeSet.Print.{range_string}
use mikrolb.IpRangeSet.Printed.{ReadsBack, parse_ip_range-range_string}
use mikrolb.Net.{v4, value}
use mikrolb.Net.Text.{AddrText}

-- Two addresses with their texts.
abbrev pub printer : AddrText
printer = record table { addr_string = λ a. if value a == 9 then "0.0.0.9" else "0.0.0.5" }

five_back : ReadsBack printer (v4 5)
unfolding is_space
five_back = record {
  reads = refl;
  no_space = (refl, (refl, (refl, (refl, (refl, (refl, (refl, tt)))))));
  no_dash = (refl, (refl, (refl, (refl, (refl, (refl, (refl, tt)))))));
  no_slash = (refl, (refl, (refl, (refl, (refl, (refl, (refl, tt)))))));
  no_bang = (refl, (refl, (refl, (refl, (refl, (refl, (refl, tt)))))));
}

nine_back : ReadsBack printer (v4 9)
unfolding is_space
nine_back = record {
  reads = refl;
  no_space = (refl, (refl, (refl, (refl, (refl, (refl, (refl, tt)))))));
  no_dash = (refl, (refl, (refl, (refl, (refl, (refl, (refl, tt)))))));
  no_slash = (refl, (refl, (refl, (refl, (refl, (refl, (refl, tt)))))));
  no_bang = (refl, (refl, (refl, (refl, (refl, (refl, (refl, tt)))))));
}

parse_ip_range-range_string_example :
    parse_ip_range printer (range_string printer (range 5 9)) true ≡ ok (range 5 9, false)
parse_ip_range-range_string_example =
    parse_ip_range-range_string printer (range 5 9) true
      (record { start_of = omega arith; end_of = omega arith; ordered = omega arith }) five_back
      nine_back
