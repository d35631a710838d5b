-- ===== src/LogUsage/Tests.antt =====
-- Runs of a log-usage request, and the theorems at concrete targets.
use t_log.Shared.{
  ℕ, Bool, true, false, Option, some, List, [], ◌∷◌, String, ◌==◌, ◌≡◌, refl, leb, if◌then◌else◌,
}
use t_log.Shared.Int.{pos}
use t_log.Shared.Text.{ascii_with, Unicode, strip}
use t_log.Shared.Dict.{Dict, get, put, remove, values}
use t_log.Shared.Json.{Json, int, str, list, bool, cons, nil}
use t_log.Shared.Sets.{eq_int, eq_string, member, add, discard, update}
use t_log.Shared.Sort.{sorted}
use t_log.FazErrors.{faz_error, request_error, message, timeout}
use t_log.LogUsage.{got, raised, Contribution, start, search_targets}
use t_log.LogUsage.Request.{LogRequest, accepted, rejected, devices_of, validate_log_usage_request}
use t_log.LogUsage.Request.Rules.{WellFormed, SameNames, validate_log_usage_request-WellFormed}
use t_log.LogUsage.Answer.{Response, no_target, answered, Source, run_log_usage_search}
use t_log.LogUsage.Answer.Report.{Reported, run_log_usage_search-Reported}

abbrev plain : Unicode
plain = ascii_with (λ s. if s == "FW1" then "fw1" else s) (λ s. s)

abbrev text : Option Json → String
text (some (str s)) = s
text _ = ""

abbrev body : Dict Json
body =
    ("adom", str " lab ")
    ∷ ("devices", list (cons (str "FW1 ") (cons (str "fw1") (cons (str "fw2") nil))))
    ∷ ("policyid", int (pos 7))
    ∷ ("days", int (pos 60))
    ∷ []

abbrev wanted : LogRequest
wanted = record { adom = "lab"; devices = "FW1" ∷ "fw2" ∷ []; policyid = pos 7; days = pos 60 }

validation : Unit {0}
unfolding validate_log_usage_request devices_of strip get put values
validation = tt

validate_tests :
    (validate_log_usage_request plain text body ≡ accepted wanted)
    × (validate_log_usage_request plain text (put "policyid" (bool true) body)
        ≡ rejected "policyid must be a positive integer")
    × (validate_log_usage_request plain text (put "days" (int (pos 61)) body)
        ≡ rejected "days must be an integer between 1 and 60")
    × (validate_log_usage_request plain text (put "devices" (list nil) body)
        ≡ rejected "devices must be a non-empty list of strings")
unfolding validation
validate_tests = (refl, refl, refl, refl)

validate_log_usage_request-WellFormed_example :
    WellFormed plain wanted
    × ((names : List String) × (devices_of (get "devices" body) ≡ some names)
        × SameNames plain wanted.devices names)
unfolding validation
validate_log_usage_request-WellFormed_example =
    validate_log_usage_request-WellFormed plain text body wanted refl

abbrev found : Contribution
found = record {
  local_start = "a";
  local_end = "b";
  srcips = "10.0.0.2" ∷ "10.0.0.1" ∷ [];
  dstips = [];
  dstports = pos 443 ∷ pos 53 ∷ [];
  log_count = 5;
  truncated = false;
}

-- The first target times out, the second one knows both devices, and the second search fails.
abbrev targets : List Source
targets =
    (record {
      adom = "lab";
      client = record { devices = raised (request_error timeout); search = λ id. got found };
    })
    ∷ (record {
      adom = "lab";
      client = record {
        devices =
            got (
              (record { name = "fw1"; devid = "1" }) ∷ (record { name = "fw2"; devid = "2" }) ∷ []);
        search = λ id. if id == "1" then got found else raised (faz_error "busy");
      };
    })
    ∷ []

abbrev never : ℕ → Bool
never k = false

abbrev late_from_one : ℕ → Bool
late_from_one k = leb 1 k

abbrev report_of : List String → Dict String → Response
report_of queried errors = record {
  policyid = pos 7;
  days = pos 60;
  time_range = some ("a", "b");
  srcips = "10.0.0.1" ∷ "10.0.0.2" ∷ [];
  dstips = [];
  dstports = pos 53 ∷ pos 443 ∷ [];
  log_count = 5;
  truncated = false;
  devices_queried = queried;
  devices_not_found = [];
  device_errors = errors;
}

search_run : Unit {0}
unfolding run_log_usage_search search_targets get put remove member add discard update sorted
    message strip start
search_run = tt

run_tests :
    (run_log_usage_search never plain targets wanted
      ≡ answered (report_of ("FW1" ∷ []) (("fw2", "busy") ∷ [])))
    × (run_log_usage_search late_from_one plain targets wanted
        ≡ answered (report_of ("FW1" ∷ []) (("fw2", "skipped: request deadline exceeded") ∷ [])))
    × (run_log_usage_search never plain [] wanted ≡ no_target "lab")
unfolding search_run
run_tests = (refl, refl, refl)

run_log_usage_search-Reported_example :
    Reported wanted.devices "fw2" (report_of ("FW1" ∷ []) (("fw2", "busy") ∷ []))
unfolding search_run
run_log_usage_search-Reported_example =
    run_log_usage_search-Reported never plain targets wanted "fw2"
      (report_of ("FW1" ∷ []) (("fw2", "busy") ∷ [])) refl
