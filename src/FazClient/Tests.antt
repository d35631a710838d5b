-- ===== src/FazClient/Tests.antt =====
-- Answers of an appliance, and what the statistics make of them.
use t_log.Shared.{ℕ, not, Option, none, some, List, [], ◌∷◌, String, ◌≡◌, refl, keep, map}
use t_log.FazErrors.{faz_error}
use t_log.LogUsage.{got, raised}
use t_log.LogStats.{Stat, is_fresh, classify_devices}
use t_log.FazClient.{Managed, get_devices, Vdom, Logging, device_stat, get_log_stats}
use t_log.FazClient.Stats.{some_fresh, classify_devices-get_log_stats}

abbrev vdom : Option ℕ → Vdom
vdom t = record { last_log_timestamp = t; lograte = some 3 }

abbrev logging : String → List Vdom → Logging
logging id vdoms = record { devid = some id; devname = none; vdoms = some vdoms }

abbrev stat : String → Option ℕ → ℕ → Stat
stat id t rate = record { devid = id; devname = ""; last_log_timestamp = t; lograte = rate }

-- One vdom of "a" still logs; "b" is old, "c" has no vdoms.
abbrev fleet : List Logging
fleet =
    logging "a" (vdom (some 100) ∷ vdom (some 990) ∷ vdom none ∷ [])
    ∷ logging "b" (vdom (some 20) ∷ vdom (some 0) ∷ [])
    ∷ logging "c" []
    ∷ []

abbrev read : List Stat
read = stat "a" (some 990) 9 ∷ stat "b" (some 20) 6 ∷ stat "c" none 0 ∷ []

abbrev managed : Option String → Managed
managed sn = record { sn = sn; name = some "fw"; platform_str = none }

stats_run : Unit {0}
unfolding get_log_stats get_devices classify_devices is_fresh
stats_run = tt

stats_tests :
    (get_log_stats (got (some fleet)) ≡ got read)
    × (get_log_stats (got none) ≡ got [])
    × ((classify_devices read 1000 1).0 ≡ stat "a" (some 990) 9 ∷ [])
    × (get_devices (got (some (managed (some "s") ∷ managed none ∷ managed (some "") ∷ [])))
        ≡ got ((record { devid = "s"; name = "fw"; platform = "" }) ∷ []))
    × (get_devices (raised (faz_error "down")) ≡ raised (faz_error "down"))
unfolding stats_run
stats_tests = (refl, refl, refl, refl, refl)

classify_devices-get_log_stats_example : classify_devices read 1000 1 ≡ (
  map device_stat (keep (some_fresh 1000 1) fleet),
  map device_stat (keep (λ dev. not (some_fresh 1000 1 dev)) fleet),
)
unfolding stats_run
classify_devices-get_log_stats_example = classify_devices-get_log_stats 1000 1 fleet read refl
