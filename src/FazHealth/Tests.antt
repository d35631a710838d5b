-- ===== src/FazHealth/Tests.antt =====
-- A poll of the health cards, and the theorems on it.
use t_log.Shared.{ℕ, none, some, List, [], ◌∷◌, String, ◌≡◌, refl}
use t_log.Shared.Dict.{Dict, get, put, put_all}
use t_log.FazErrors.{request_error, timeout}
use t_log.LogUsage.{got, raised}
use t_log.FazHealth.{
  Limits, classify_status, Card, Snmp, Target, blank_card, State, poll_all_targets, get_all_cached,
}
use t_log.FazHealth.Cards.{CardsOf, get_all_cached-stored}

abbrev limits : Limits
limits = record { cpu_crit = 90; mem_crit = 90; cpu_warn = 70; mem_warn = 70 }

abbrev exact : ℕ → ℕ
exact x = x

abbrev snmp : Snmp
snmp = record { cpu = some 75; mem = none; snmp_status = "ok" }

-- One target that answers, one that times out and one without a host.
abbrev fleet : List Target
fleet =
    (record {
      label = some "one";
      host = some "h";
      adom = none;
      sys_status = got (("hostname", "faz") ∷ []);
      snmp = snmp;
    })
    ∷ (record {
      label = some "two";
      host = some "i";
      adom = some "lab";
      sys_status = raised (request_error timeout);
      snmp = snmp;
    })
    ∷ (record { label = some "three"; host = none; adom = none; sys_status = got []; snmp = snmp })
    ∷ []

abbrev before : State
before = record { cache = []; stored = none }

abbrev statuses : List Card → List String
statuses [] = []
statuses (c ∷ cs) = c.status ∷ statuses cs

poll_run : Unit {0}
unfolding poll_all_targets get_all_cached classify_status get put put_all
poll_run = tt

poll_tests :
    (statuses (get_all_cached fleet (poll_all_targets limits exact "t" "u" fleet before)).1
      ≡ "yellow" ∷ "offline" ∷ "offline" ∷ [])
    × (statuses (get_all_cached fleet before).1 ≡ "gray" ∷ "gray" ∷ "gray" ∷ [])
    × (classify_status limits (some 0) (some 95) ≡ "red")
    × (classify_status limits none none ≡ "green")
unfolding poll_run
poll_tests = (refl, refl, refl, refl)

abbrev cards : Dict Card
cards = ("one", blank_card (some "one") "h" "root" "green" none (some "t")) ∷ []

get_all_cached-stored_example :
    ((get_all_cached fleet (record { cache = []; stored = some cards })).1
      ≡ (get_all_cached fleet (record { cache = cards; stored = some cards })).1)
    × CardsOf cards fleet (get_all_cached fleet (record { cache = cards; stored = some cards })).1
unfolding poll_run
get_all_cached-stored_example = get_all_cached-stored fleet cards (refl, tt)
