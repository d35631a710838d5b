-- ===== src/LogSearch/Routes/Tests.antt =====
-- Searches of Log Search, and the theorems at a concrete site.
use t_log.Shared.{
  true, false, none, some, [], ◌∷◌, ◌≡◌, refl, keep, ok, contents, load_or_raise, load_or_default,
}
use t_log.Shared.Text.{ascii, strip, split, starts_with}
use t_log.Shared.Decimal.{decimal, number, ascii_digits}
use t_log.Shared.Dict.{get, put, values, keys}
use t_log.Shared.Sets.{eq_string, member, add, update, meets}
use t_log.Shared.Sort.{sorted}
use t_log.Users.{StoredUser, load_users}
use t_log.Groups.{StoredGroup, load}
use t_log.Groups.Access.{
  belongs, get_allowed_tabs, get_allowed_adoms, user_can_access_adom, within, stored_admin,
}
use t_log.Sessions.{Session, App, sso_valid, tab_required, check_adom_access}
use t_log.Targets.{Target, TargetsFile, text, get_target, list_targets}
use t_log.AppLog.{Entry, Log, app_log}
use t_log.FazErrors.{request_error, timeout, message, summarize_connection_error}
use t_log.LogUsage.{got, raised}
use t_log.FazSearch.{Found}
use t_log.FazSearch.Filters.{build_filter_expression}
use t_log.LogSearch.{parse_ip_entries, parse_port_entries}
use t_log.LogSearch.Tests.{v4}
use t_log.LogSearch.Prepare.{SearchBody, failed, not_permitted, query_of}
use t_log.LogSearch.Routes.{
  Connection, SearchClient, done, refused, choices_of, search_route, api_search, api_targets,
  api_listing, listed, no_listing,
}
use t_log.LogSearch.Routes.Stored.{Answered, search_route-Answered}
use t_log.LogSearch.Routes.Offered.{passes, api_targets-passes}

abbrev ops : StoredGroup
ops = record {
  members = some ("bob" ∷ []);
  ad_groups = none;
  allowed_tabs = some ("log_search" ∷ []);
  adom_restrict = some true;
  allowed_adoms = some ("lab" ∷ []);
}

abbrev bob : StoredUser
bob = record { password_hash = some "h"; role = none }

abbrev site : App
site = record {
  users_file = contents (("bob", bob) ∷ []);
  groups = record {
    file = contents (("ops", ops) ∷ []);
    known_tabs = ("log_search", "Log Search") ∷ [];
  };
  checker = none;
  lifetime = 36000;
  now = 5000;
}

abbrev lab : Target
lab = ("label", text "lab") ∷ ("host", text "192.0.2.7") ∷ ("threat_poll_enabled", text "yes") ∷ []

abbrev files : TargetsFile
files = contents (lab ∷ (("label", text "site b") ∷ ("host", text "h") ∷ []) ∷ [])

abbrev session : Session
session = record {
  user = some "bob";
  role = some "viewer";
  auth_source = some "local";
  login_at = some 4000;
  sso_login_at = none;
  ad_groups = [];
  allowed_tabs = [];
}

abbrev body : SearchBody
body = record {
  target = some "lab";
  start_time = some "2026-11-01T00:00";
  end_time = some "2026-11-02T00:00";
  source_ips = some "10.0.0.1";
  destination_ips = some "any";
  ports = some "443";
  logtype = none;
  device = none;
  extra_filters = [];
}

abbrev rows : Found
rows = record { rows = []; fields = []; truncated = false }

abbrev connect : Connection → SearchClient
connect c = record { local_time_range = λ a b. (a, b); search_logs = λ q. got rows }

abbrev empty_log : Log
empty_log = record { buffer = []; current_level = "INFO" }

abbrev entry : Entry
entry = record {
  ts = "t";
  level = "INFO";
  component = "log_search";
  message = "Search completed";
  extra =
      ("by", "bob")
      ∷ ("target", "lab")
      ∷ ("filter_expression", "(srcip==10.0.0.1) and (dstport==443)")
      ∷ ("rows", "0")
      ∷ ("requested_utc", "2026-11-01T00:00..2026-11-02T00:00")
      ∷ ("appliance_local", "2026-11-01T00:00..2026-11-02T00:00")
      ∷ [];
}

abbrev filled_log : Log
filled_log = record { buffer = entry ∷ []; current_level = "INFO" }

abbrev inside : Session
inside = record session { allowed_tabs = "log_search" ∷ [] }

route : Unit {0}
unfolding tab_required check_adom_access load_users load load_or_raise load_or_default get keys
    values member add update meets sorted belongs get_allowed_tabs get_allowed_adoms
    user_can_access_adom stored_admin within get_target list_targets app_log build_filter_expression
    search_route api_targets api_listing strip split decimal number ascii_digits v4 starts_with
    choices_of sso_valid parse_ip_entries parse_port_entries query_of put message
    summarize_connection_error
route = tt

search_run :
    search_route ascii v4 ascii_digits site "/api/log-search" files connect "t" session body
      empty_log
    ≡ ok (inside, filled_log, some (done rows))
unfolding route
search_run = refl

refused_tests :
    (api_search ascii v4 ascii_digits site "/api" files connect "t" inside
        (record body { target = some "site b" })
        (record empty_log { current_level = "ERROR" })
      ≡ ok (record empty_log { current_level = "ERROR" }, refused not_permitted))
    × (api_search ascii v4 ascii_digits site "/api" files connect "t" inside
          (record body { source_ips = none })
          (record empty_log { current_level = "ERROR" })
        ≡ ok (
          record empty_log { current_level = "ERROR" },
          refused (failed 400 "At least one of source or destination IP is required"),
        ))
unfolding route
refused_tests = (refl, refl)

search_route-Answered_example :
    Answered ascii v4 ascii_digits site "/api/log-search" files connect "bob" bob
      (("ops", ops) ∷ [])
      session
      body
      rows
unfolding route
search_route-Answered_example =
    search_route-Answered ascii v4 ascii_digits site "/api/log-search" files connect "t" "bob" refl
      (("bob", bob) ∷ []) refl bob refl (("ops", ops) ∷ []) refl session inside body empty_log
      filled_log rows refl refl

api_targets-passes_example :
    api_targets site files inside
    ≡ choices_of (keep (passes site "/api/log-search/targets" inside) (list_targets files))
unfolding route
api_targets-passes_example =
    api_targets-passes site "/api/log-search/targets" inside (some ("lab" ∷ [])) refl files
      (("lab", refl), (("site b", refl), tt))

listing_tests :
    (api_targets site files inside
      ≡ ok (record { label = text "lab"; host = text "192.0.2.7"; adom = text "root" } ∷ []))
    × (api_listing (λ c. got c.adom) site "/api" files inside "lab" ≡ ok (listed (text "root")))
    × (api_listing {A = Unit {0}}
          (λ c. raised (request_error timeout))
          site
          "/api"
          files
          inside
          "lab"
        ≡ ok (no_listing (failed 502 "Request timed out")))
    × (api_listing (λ c. got c.adom) site "/api" files inside "site b"
        ≡ ok (no_listing not_permitted))
unfolding route
listing_tests = (refl, refl, refl, refl)
