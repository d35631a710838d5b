-- ===== src/FazHealth/Query.antt =====
-- app/faz_health_cache.py: `_snmp_get` and `_poll_snmp`, the SNMP query behind a health card, and
-- `get_cached`. What the SNMP library answers is a parameter; `percent` is `used / total * 100`.
use t_log.Shared.{
  ℕ, zero, suc, ◌*◌, ◌/◌, ◌≡◌, refl, Bool, true, false, Option, none, some, List, [], ◌∷◌, String,
  ◌==◌, if◌then◌else◌,
}
use t_log.Shared.Text.{Unicode, ascii, starts_with}
use t_log.Shared.Dict.{Dict, get}
use t_log.FazErrors.{contains}
use t_log.FazHealth.{Card, Snmp}

-- What `get_cmd` returns: the texts of the two errors, empty where there is none, and the values; no
-- values stand for one that is no number, and the whole answer is absent where something raises.
pub record Answer : Type 0 where
  pub error_indication : String
  pub error_status : String
  pub values : Option (List ℕ)

-- What `_snmp_get` returns or raises.
pub data Queried : Type 0 where
  queried : List ℕ → Queried
  snmp_timeout snmp_error : Queried

module _ (u : Unicode) where
  snmp_get : Option Answer → Queried
  snmp_get none = snmp_error
  snmp_get (some a) =
      if a.error_indication == ""
      then if a.error_status == ""
        then elim a.values [ none ↦ snmp_error | some values ↦ queried values ]
        else snmp_error
      else if contains "timeout" (u.lower a.error_indication)
      then snmp_timeout
      else snmp_error

  unread : String → Snmp
  unread status = record { cpu = none; mem = none; snmp_status = status }

  -- The three values that were asked for; of another number the assignment raises.
  read_loads : (ℕ → ℕ → ℕ) → Queried → Snmp
  unfolding unread
  read_loads percent (queried (cpu ∷ mem_used ∷ zero ∷ [])) = record {
    cpu = some cpu;
    mem = some 0;
    snmp_status = "ok";
  }
  read_loads percent (queried (cpu ∷ mem_used ∷ suc n ∷ [])) = record {
    cpu = some cpu;
    mem = some (percent mem_used (suc n));
    snmp_status = "ok";
  }
  read_loads percent snmp_timeout = unread "timeout"
  read_loads percent _ = unread "error"

  unfoldable poll_snmp : Bool → (ℕ → ℕ → ℕ) → Option Answer → Snmp
  unfolding snmp_get read_loads
  poll_snmp enabled percent answer =
      if enabled then read_loads percent (snmp_get answer) else unread "disabled"

get_cached : String → Dict Card → Option Card
get_cached label cache = get label cache

abbrev answer : String → List ℕ → Option Answer
answer error values =
    some (record { error_indication = error; error_status = ""; values = some values })

abbrev loads : Bool → Option Answer → Option ℕ × Option ℕ × String
loads enabled a =
    let s = poll_snmp ascii enabled (λ used total. used * 100 / total) a in
    (s.cpu, s.mem, s.snmp_status)

poll_snmp_tests :
    (loads true (answer "" (12 ∷ 2 ∷ 8 ∷ [])) ≡ (some 12, some 25, "ok"))
    × (loads true (answer "" (12 ∷ 2 ∷ 0 ∷ [])) ≡ (some 12, some 0, "ok"))
    × (loads true (answer "" (12 ∷ 2 ∷ [])) ≡ (none, none, "error"))
    × (loads true (answer "No SNMP response before timeout" []) ≡ (none, none, "timeout"))
    × (loads true none ≡ (none, none, "error"))
    × (loads false (answer "" (12 ∷ 2 ∷ 8 ∷ [])) ≡ (none, none, "disabled"))
unfolding poll_snmp contains starts_with
poll_snmp_tests = (refl, refl, refl, refl, refl, refl)
