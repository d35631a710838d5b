-- ===== src/SignIn/Tests.antt =====
-- Signing in and the next request, at concrete browsers.
use t_log.Shared.{
  not, ◌||◌, none, some, [], ◌∷◌, String, ◌==◌, ◌≡◌, refl, ok, err, contents, if◌then◌else◌,
  value_error, load_or_raise,
}
use t_log.Shared.Text.{starts_with}
use t_log.Shared.Dict.{Dict, get, keys, values}
use t_log.Shared.Sets.{eq_string, member, add, update, meets}
use t_log.Users.{StoredUser, load_users}
use t_log.Groups.{StoredGroup, load}
use t_log.Groups.Access.{stored_admin, belongs, get_allowed_tabs}
use t_log.Sessions.{guard, is_api_path}
use t_log.Csrf.{
  Browser, cleared_browser, Request, json_error, type_error, provided, changes_state, exempt,
  security_filters, passes, proves, security_filters-passes,
}
use t_log.SignIn.{Site, page, redirect, after_login, first_allowed_url, sign_in, sso_login, logout}
use t_log.SignIn.Fresh.{app_at, sign_in-guard, sso_login-guard, sign_in-token_gone}

abbrev accounts : Dict StoredUser
accounts = ("bob", record { password_hash = some "h"; role = some "viewer" }) ∷ []

abbrev ops : StoredGroup
ops = record {
  members = some ("bob" ∷ "eve" ∷ []);
  ad_groups = none;
  allowed_tabs = some ("log_search" ∷ []);
  adom_restrict = none;
  allowed_adoms = none;
}

abbrev site : Site
site = record {
  users_file = contents accounts;
  groups = record {
    file = contents (("ops", ops) ∷ []);
    known_tabs = ("log_search", "Log Search") ∷ [];
  };
  registry =
      ("dashboard", record { name = "Dashboard"; endpoint = "dashboard.index"; icon = "" })
      ∷ ("log_search", record { name = "Log Search"; endpoint = "log_search.index"; icon = "" })
      ∷ [];
  parse =
      λ url. if url == "bad" then none else some (record { scheme = ""; netloc = ""; path = url });
  url_for = λ endpoint. endpoint;
  now = 5000;
}

abbrev post : String → Request
post token = record {
  method = "POST";
  endpoint = "log_search.api_search";
  path = "/api/log-search/search";
  header_token = token;
  form_token = "";
}

abbrev holding : Browser
holding = record cleared_browser { csrf_token = some "abc" }

request : Unit {0}
unfolding sign_in sso_login after_login first_allowed_url get_allowed_tabs load_users load get keys
    values stored_admin belongs member meets update add load_or_raise starts_with security_filters
    provided is_api_path
request = tt

sign_in_tests :
    ((sign_in site "" "bob" "viewer" []).2 ≡ ok (redirect "log_search.index"))
    × ((sign_in site "/login" "bob" "viewer" []).2 ≡ ok (redirect "log_search.index"))
    × ((sign_in site "/x" "bob" "viewer" []).2 ≡ ok (redirect "/x"))
    × ((sign_in site "bad" "bob" "viewer" []).2 ≡ err (value_error "Invalid URL"))
    × ((sso_login site none holding).2 ≡ ok (page 403))
    × ((security_filters "new" (post "abc") holding).1 ≡ none)
    × ((security_filters "new" (post "") cleared_browser).1 ≡ some json_error)
    × ((security_filters "new" (post "é") holding).1 ≡ some type_error)
unfolding request
sign_in_tests = (refl, refl, refl, refl, refl, refl, refl, refl)

sign_in-guard_example :
    let s = (sign_in site "" "bob" "viewer" []).0.session in
    (s.allowed_tabs ≡ "log_search" ∷ [])
    × (guard (app_at site none 36000 6000) "/api/log" (λ t. none) s ≡ ok (s, none))
unfolding request
sign_in-guard_example =
    sign_in-guard site none 36000 6000 "/api/log" "bob" refl accounts refl refl ""
      (record { password_hash = some "h"; role = some "viewer" }) [] ("log_search" ∷ []) (λ t. none)
      refl refl

sso_login-guard_example :
    let s = (sso_login site (some "eve") holding).0.session in
    (s.allowed_tabs ≡ "log_search" ∷ [])
    × (guard (app_at site none 36000 6000) "/api/log" (λ t. none) s ≡ ok (s, none))
unfolding request
sso_login-guard_example =
    sso_login-guard site none 36000 6000 "/api/log" "eve" refl accounts refl refl holding
      ("log_search" ∷ []) (λ t. none) refl refl refl

sign_in-token_gone_example :
    (passes (security_filters "new" (post "abc") (sign_in site "" "bob" "viewer" []).0)
      ≡ (not (changes_state (post "abc")) || exempt (post "abc")))
    × (passes (security_filters "new" (post "abc") (logout site holding).0)
        ≡ (not (changes_state (post "abc")) || exempt (post "abc")))
unfolding request
sign_in-token_gone_example =
    sign_in-token_gone site "" "bob" "viewer" [] holding "new" (post "abc") refl

security_filters-passes_example :
    passes (security_filters "new" (post "abc") holding)
    ≡ (not (changes_state (post "abc")) || (exempt (post "abc") || proves (post "abc") holding))
unfolding request
security_filters-passes_example = security_filters-passes "new" (post "abc") holding refl
