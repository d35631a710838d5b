-- ===== src/FazSearch/Tests.antt =====
-- Runs of the polling loop and of the filter expression, and the theorems on them.
use t_log.Shared.{
  ℕ, String, true, false, none, some, List, [], ◌∷◌, ◌≡◌, ◌⊎◌, refl, is_some, all, arith,
  if◌then◌else◌, leb, ok, err, value_error,
}
use t_log.Shared.Text.{ascii}
use t_log.Shared.Dict.{keys}
use t_log.Shared.Sets.{eq_string, update, add, member}
use t_log.Shared.Sort.{sorted}
use t_log.FazErrors.{faz_error, search_timeout}
use t_log.LogUsage.{Reply, got, raised}
use t_log.FazSearch.{
  Item, Body, error, items, item, empty_item, ask, Found, found, search_logs, run_fortiview,
}
use t_log.FazSearch.Loop.{run_task-total, FinishedBy, Reports, search_logs-FinishedBy}
use t_log.FazSearch.Filters.{
  Extra, is_safe, Refused, Expression, build_filter_expression, build_filter_expression_lem,
}

abbrev task : ℕ → Item
task percentage = record empty_item {
  tid = some 7;
  percentage = some percentage;
  rows = some ((("srcip", "a") ∷ []) ∷ []);
}

-- The task is complete at its second fetch.
abbrev post : ℕ → Reply Body
post n = got (if leb 3 n then items (task 100 ∷ []) else item (task 40))

abbrev refused : ℕ → Reply Body
refused n = got (error "No permission")

abbrev clock : ℕ → ℕ
clock n = n

abbrev answer : Found
answer = record { rows = (("srcip", "a") ∷ []) ∷ []; fields = "srcip" ∷ []; truncated = true }

search_run : Unit {0}
unfolding search_logs run_fortiview ask found sorted update add member keys
search_run = tt

search_tests :
    (search_logs post clock 60 1 61 ≡ some (got answer))
    × (search_logs post clock 1 1 61 ≡ some (raised (search_timeout "did not complete")))
    × (search_logs refused clock 60 1 61
        ≡ some (raised (faz_error "FortiAnalyzer error: No permission")))
    × (search_logs post clock 60 1 1 ≡ none)
unfolding search_run
search_tests = (refl, refl, refl, refl)

run_task-total_example :
    (is_some (search_logs post clock 60 1000 61) ≡ true)
    × (is_some (run_fortiview post clock 60 61) ≡ true)
run_task-total_example = run_task-total post clock 60 (λ n. omega arith) 1000

search_logs-FinishedBy_example : (i : Item) × FinishedBy post clock 60 i × Reports 1 i answer
unfolding search_run
search_logs-FinishedBy_example = search_logs-FinishedBy post clock 60 1 61 answer refl

abbrev by_action : List Extra
by_action =
    record { field = "action"; op = "!="; value = "accept" }
    ∷ (record { field = "policyid"; op = "=="; value = "-7" })
    ∷ []

filter_run : Unit {0}
unfolding build_filter_expression
filter_run = tt

filter_tests :
    (build_filter_expression ascii ("srcip==a" ∷ "srcip==b" ∷ []) [] ("dstport==1" ∷ []) by_action
      ≡ ok "(srcip==a or srcip==b) and (dstport==1) and (action!=\"accept\") and (policyid==-7)")
    × (build_filter_expression ascii [] [] []
          (record { field = "a b"; op = "=="; value = "x" } ∷ [])
        ≡ err (value_error "Invalid filter field"))
    × (build_filter_expression ascii [] [] []
          (record { field = "a"; op = "=="; value = "x\" or \"" } ∷ [])
        ≡ err (value_error "Invalid filter value"))
unfolding filter_run
filter_tests = (refl, refl, refl)

build_filter_expression_lem_example :
    ((all (is_safe ascii) by_action ≡ true)
      × ((text : String) × (build_filter_expression ascii ("srcip==a" ∷ []) [] [] by_action
            ≡ ok text)
          × Expression ascii ("srcip==a" ∷ []) [] [] by_action text))
    ⊎ ((all (is_safe ascii) by_action ≡ false)
        × Refused (build_filter_expression ascii ("srcip==a" ∷ []) [] [] by_action))
build_filter_expression_lem_example =
    build_filter_expression_lem ascii ("srcip==a" ∷ []) [] [] by_action
