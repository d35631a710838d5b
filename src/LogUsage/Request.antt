-- ===== src/LogUsage/Request.antt =====
-- `_validate_log_usage_request` of app/routes/external_api_routes.py.
pub mod Rules
use t_log.Shared.{
  Bool, true, false, not, ◌&&◌, ◌||◌, Option, none, some, List, [], ◌∷◌, ◌++◌, String, ◌==◌, eq_iff,
  eq_refl, ◌≡◌, refl, if◌then◌else◌, is_some, default, All, any, map, arith, Bool-cases,
  Option-cases, inl, inr,
}
use t_log.Shared.Int.{ℤ, pos, ltb_ℤ, leb_ℤ}
use t_log.Shared.Text.{Unicode, strip, strip_idem}
use t_log.Shared.Dict.{Dict, get, put, has, keys, values, get-put, IsUnique, put-IsUnique, Distinct}
use t_log.Shared.Json.{
  Json, null, bool, int, float, not_finite, str, list, dict, Items, nil, cons, items,
}

-- A validated request.
pub record LogRequest : Type 0 where
  pub adom : String
  pub devices : List String
  pub policyid : ℤ
  pub days : ℤ

pub data Validated : Type 0 where
  accepted : LogRequest → Validated
  rejected : String → Validated

-- `d.strip()` of every item, where all of them are texts that are not blank
device_names : List Json → Option (List String)
device_names [] = some []
device_names (str d ∷ ds) =
    let rest = device_names ds in
    if strip d == "" then none else elim rest [ none ↦ none | some names ↦ some (strip d ∷ names) ]
device_names (_ ∷ ds) = none

-- `isinstance(devices, list)`, not empty, and every item a text that is not blank
unfoldable pub devices_of : Option Json → Option (List String)
unfolding device_names
devices_of (some (list (cons d ds))) = device_names (d ∷ items ds)
devices_of _ = none

-- `isinstance(v, int) and not isinstance(v, bool)` with both bounds
int_between : ℤ → Option ℤ → Option Json → Option ℤ
int_between low none (some (int n)) = if leb_ℤ low n then some n else none
int_between low (some high) (some (int n)) = if leb_ℤ low n && leb_ℤ n high then some n else none
int_between low high _ = none

module _ (u : Unicode) where
  -- `deduped.setdefault(stripped.lower(), stripped)`
  set_default : String → Dict String → Dict String
  set_default name deduped =
      if has (u.lower name) deduped then deduped else put (u.lower name) name deduped

  dedupe : Dict String → List String → Dict String
  unfolding set_default
  dedupe deduped [] = deduped
  dedupe deduped (name ∷ names) = dedupe (set_default name deduped) names

  -- The checks after the one on `adom`, in the order of the code.
  check_rest : String → Option (List String) → Option ℤ → Option ℤ → Validated
  unfolding dedupe
  check_rest adom none policyid days = rejected "devices must be a non-empty list of strings"
  check_rest adom (some names) none days = rejected "policyid must be a positive integer"
  check_rest adom (some names) (some policyid) none =
      rejected "days must be an integer between 1 and 60"
  check_rest adom (some names) (some policyid) (some days) =
      accepted (record {
        adom = adom;
        devices = values (dedupe [] names);
        policyid = policyid;
        days = days;
      })

  -- `text` is `str(data.get("adom") or "")`.
  unfoldable pub validate_log_usage_request : (Option Json → String) → Dict Json → Validated
  unfolding check_rest devices_of int_between
  validate_log_usage_request text body =
      let adom = strip (text (get "adom" body)) in
      if adom == ""
      then rejected "adom is required"
      else check_rest adom (devices_of (get "devices" body))
          (int_between (pos 1) none (get "policyid" body))
          (int_between (pos 1) (some (pos 60)) (get "days" body))
