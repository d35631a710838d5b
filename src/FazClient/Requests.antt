-- ===== src/FazClient/Requests.antt =====
-- app/faz_client.py: get_log_fields, get_alert_counts and local_time_range, which each make one request
-- and read the "data" of its unwrapped answer, any JSON value.
mod Tests
use t_log.Shared.{
  ℕ, ◌≡◌, refl, Bool, true, false, Option, none, some, List, [], ◌∷◌, String, ◌==◌, if◌then◌else◌,
  default, any, ◌⊎◌, inl, inr,
}
use t_log.Shared.Dict.{get}
use t_log.Shared.Int.{ℤ, pos}
use t_log.Shared.Json.{
  Json, null, bool, int, float, not_finite, str, list, dict, nil, cons, items, fields,
}
use t_log.Shared.Decimal.{Digits, int_of}
use t_log.FazErrors.{contains}
use t_log.LogUsage.{Reply, got, raised}

-- The value of a request whose answer was read; `none` is an exception that is no FAZError.
and_read {ℓ} : {A : Type ℓ} → (Option Json → Option A) → Reply (Option Json) → Reply (Option A)
and_read read (raised e) = raised e
and_read read (got answer) = got (read answer)

is_field : Json → Bool
is_field (str s) = s == "field"
is_field _ = false

-- `data[0]["field"]` if `"field" in data[0]`, which a text, a number or null does not allow
field_of : Json → Option Json
unfolding is_field
field_of (dict fs) = some (default (get "field" (fields fs)) (list nil))
field_of (str s) = if contains "field" s then none else some (list nil)
field_of (list vs) = if any is_field (items vs) then none else some (list nil)
field_of _ = none

log_fields : Option Json → Option Json
unfolding field_of
log_fields (some (list (cons first rest))) = field_of first
log_fields _ = some (list nil)

unfoldable pub get_log_fields : Reply (Option Json) → Reply (Option Json)
unfolding log_fields and_read
get_log_fields answer = and_read log_fields answer

-- `truncate` is the whole part of a float.
module _ (d : Digits) (truncate : ℤ → ℤ) where
  -- `int(v or 0)`
  int_or_zero : Json → Option ℤ
  int_or_zero null = some (pos 0)
  int_or_zero (bool b) = some (if b then pos 1 else pos 0)
  int_or_zero (int n) = some n
  int_or_zero (float x) = some (truncate x)
  int_or_zero not_finite = none
  int_or_zero (str s) = if s == "" then some (pos 0) else int_of d s
  int_or_zero (list nil) = some (pos 0)
  int_or_zero (list _) = none
  int_or_zero (dict fs) = elim (fields fs) [ [] ↦ some (pos 0) | f ∷ rest ↦ none ]

  -- The tests after a list was replaced by its first item.
  count_of : Json → Option ℤ
  unfolding int_or_zero
  count_of (dict fs) = int_or_zero (default (get "count" (fields fs)) (int (pos 0)))
  count_of (bool b) = int_or_zero (bool b)
  count_of (int n) = some n
  count_of (float x) = some (truncate x)
  count_of not_finite = none
  count_of _ = some (pos 0)

  alert_count : Option Json → Option ℤ
  unfolding count_of
  alert_count none = some (pos 0)
  alert_count (some (list nil)) = some (pos 0)
  alert_count (some (list (cons first rest))) = count_of first
  alert_count (some v) = count_of v

  unfoldable pub get_alert_counts : Reply (Option Json) → Reply (Option ℤ)
  unfolding alert_count and_read
  get_alert_counts answer = and_read alert_count answer

-- `zone` is `ZoneInfo(name)`; it gives `convert`, the rest of that function: each is absent where it
-- raises.
module _ (zone : String → Option (String → Option String)) where
  convert_both : (String → Option String) → String → String → String × String
  convert_both convert start_iso end_iso = elim (convert start_iso) [
    | none ↦ (start_iso, end_iso)
    | some start ↦ elim (convert end_iso) [ none ↦ (start_iso, end_iso) | some end ↦ (start, end) ]
  ]

  -- The zone of the answer of `get_sys_status`; a name that is no text has no zone.
  zone_of : Reply (Option Json) → Option (String → Option String)
  zone_of (got (some (dict fs))) = elim (get "TZ" (fields fs)) [
    | some (str name) ↦ if name == "" then none else zone name
    | _ ↦ none
  ]
  zone_of _ = none

  unfoldable pub local_time_range : Reply (Option Json) → String → String → String × String
  unfolding convert_both zone_of
  local_time_range status start_iso end_iso = elim (zone_of status) [
    | none ↦ (start_iso, end_iso)
    | some convert ↦ convert_both convert start_iso end_iso
  ]
