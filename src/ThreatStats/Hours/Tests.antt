-- ===== src/ThreatStats/Hours/Tests.antt =====
-- Business hours of a zone six hours behind UTC, their parsing, and the theorem on them.
use t_log.Shared.{
  ℕ, ◌+◌, ◌-◌, ◌*◌, ◌/◌, ◌≡◌, ◌⊎◌, refl, true, Option, none, some, String, if◌then◌else◌, ◌==◌,
}
use t_log.Shared.Text.{split, strip}
use t_log.Shared.Decimal.{ascii_digits, decimal, int_of}
use t_log.ThreatStats.Hours.{
  before, Parsed, parsed, value_error, overflow_error, Local, Zone, time_of, parse_business_hours,
  window, business_hours_range, covers, in_hours_so_far, asked_range, business_hours_range_lem,
}
use Prim.Native.Nat.{◌%◌}

abbrev hour : ℕ
hour = 3600000000

abbrev central : Zone
central = record {
  to_local =
      λ t. record { day = (t - 6 * hour) / (24 * hour); tick = (t - 6 * hour) % (24 * hour) };
  to_utc = λ l. l.day * (24 * hour) + l.tick + 6 * hour;
}

abbrev zone : String → Option Zone
zone name = if name == "America/Chicago" then some central else none

abbrev ltr : ℕ → ℕ → String × String
ltr a b = (decimal (a / hour), decimal (b / hour))

abbrev noon : ℕ
noon = 10 * (24 * hour) + 18 * hour

abbrev at : String → String → ℕ → Parsed (Option (String × String))
at hours name now = business_hours_range ascii_digits zone hours name ltr now

parse_tests :
    (parse_business_hours ascii_digits "08:00-18:00" ≡ parsed (8 * hour, 18 * hour))
    × (parse_business_hours ascii_digits " 0_8:00 -+18:0" ≡ parsed (8 * hour, 18 * hour))
    × (parse_business_hours ascii_digits "08:00" ≡ value_error)
    × (parse_business_hours ascii_digits "8-18:00" ≡ value_error)
    × (parse_business_hours ascii_digits "08:00-24:00" ≡ value_error)
    × (parse_business_hours ascii_digits "8_:00-18:00" ≡ value_error)
    × (parse_business_hours ascii_digits "08:00-18:2147483648" ≡ overflow_error)
unfolding parse_business_hours time_of int_of split strip ascii_digits
parse_tests = (refl, refl, refl, refl, refl, refl, refl)

range_tests :
    (at "08:00-18:00" "America/Chicago" noon ≡ parsed (some ("254", "258")))
    × (at "08:00-18:00" "America/Chicago" (noon + 9 * hour) ≡ parsed (some ("254", "264")))
    × (at "08:00-18:00" "America/Chicago" (noon - 4 * hour) ≡ parsed none)
    × (at "22:00-06:00" "America/Chicago" (noon + 11 * hour) ≡ parsed none)
    × (at "08:00-18:00" "Chicago" noon ≡ parsed none)
unfolding business_hours_range parse_business_hours time_of window before decimal int_of split strip
    ascii_digits
range_tests = (refl, refl, refl, refl, refl)

business_hours_range_lem_example :
    (w : Option (Local × Local)) × (at "08:00-18:00" "America/Chicago" noon
      ≡ parsed (asked_range central ltr w))
    × ((t : Local) → covers w t ≡ in_hours_so_far (central.to_local noon) (8 * hour, 18 * hour) t)
    × ((w ≡ none) ⊎ ((t : Local) × (covers w t ≡ true)))
unfolding parse_business_hours time_of int_of split strip ascii_digits
business_hours_range_lem_example =
    business_hours_range_lem ascii_digits zone "08:00-18:00" "America/Chicago" ltr noon
      (8 * hour, 18 * hour) central refl refl
