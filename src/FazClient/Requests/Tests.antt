-- ===== src/FazClient/Requests/Tests.antt =====
-- The three requests at concrete answers.
use t_log.Shared.{◌≡◌, refl, Option, none, some, String, if◌then◌else◌, ◌==◌}
use t_log.Shared.Text.{strip, starts_with}
use t_log.Shared.Dict.{get}
use t_log.Shared.Int.{ℤ, pos, negsuc}
use t_log.Shared.Json.{Json, null, int, float, not_finite, str, list, dict, nil, cons, end, field}
use t_log.Shared.Decimal.{ascii_digits, int_of}
use t_log.FazErrors.{contains, faz_error}
use t_log.LogUsage.{Reply, got, raised}
use t_log.FazClient.Requests.{get_log_fields, get_alert_counts, local_time_range}

abbrev one : String → Json → Json
one key v = dict (field key v end)

abbrev counts : Json → Reply (Option ℤ)
counts v = get_alert_counts ascii_digits (λ x. x) (got (some v))

count_tests :
    (counts (list (cons (one "count" (int (pos 7))) nil)) ≡ got (some (pos 7)))
    × (counts (one "count" (str " -3 ")) ≡ got (some (negsuc 2)))
    × (counts (one "count" (str "n/a")) ≡ got none)
    × (counts (one "count" null) ≡ got (some (pos 0)))
    × (counts (one "total" (int (pos 7))) ≡ got (some (pos 0)))
    × (counts (list nil) ≡ got (some (pos 0)))
    × (counts (float (pos 4)) ≡ got (some (pos 4)))
    × (counts not_finite ≡ got none)
unfolding get_alert_counts int_of strip get ascii_digits
count_tests = (refl, refl, refl, refl, refl, refl, refl, refl)

abbrev named : Json
named = list (cons (str "srcip") nil)

field_tests :
    (get_log_fields (got (some (list (cons (one "field" named) nil)))) ≡ got (some named))
    × (get_log_fields (got (some (list (cons (one "name" named) nil)))) ≡ got (some (list nil)))
    × (get_log_fields (got (some (list (cons (str "fields") nil)))) ≡ got none)
    × (get_log_fields (got (some (list (cons null nil)))) ≡ got none)
    × (get_log_fields (got none) ≡ got (some (list nil)))
    × (get_log_fields (raised (faz_error "no")) ≡ raised (faz_error "no"))
unfolding get_log_fields get contains starts_with
field_tests = (refl, refl, refl, refl, refl, refl)

abbrev zone : String → Option (String → Option String)
zone name = if name == "UTC" then some (λ s. if s == "now" then none else some "12:00") else none

abbrev times : Reply (Option Json) → String → String → String × String
times answer a b = local_time_range zone answer a b

time_tests :
    (times (got (some (one "TZ" (str "UTC")))) "a" "b" ≡ ("12:00", "12:00"))
    × (times (got (some (one "TZ" (str "UTC")))) "a" "now" ≡ ("a", "now"))
    × (times (got (some (one "TZ" (str "Mars")))) "a" "b" ≡ ("a", "b"))
    × (times (got (some null)) "a" "b" ≡ ("a", "b"))
    × (times (raised (faz_error "no")) "a" "b" ≡ ("a", "b"))
unfolding local_time_range get
time_tests = (refl, refl, refl, refl, refl)
