-- ===== src/SignIn.antt =====
-- app/routes/auth_routes.py: what signing in and out does to the session of a browser, and where the
-- answer leads. `urlparse` and `url_for` are parameters; flashed messages are part of a page.
pub mod Fresh
mod Tests
use t_log.Shared.{
  ℕ, Bool, true, false, not, ◌&&◌, ◌||◌, Option, none, some, List, [], ◌∷◌, String, ◌==◌,
  if◌then◌else◌, default, Result, ok, err, value_error,
}
use t_log.Shared.Text.{strip, starts_with, Unicode}
use t_log.Shared.Dict.{Dict}
use t_log.Shared.Sets.{eq_string, member}
use t_log.Users.{UsersFile}
use t_log.Groups.{Groups}
use t_log.Groups.Access.{get_allowed_tabs}
use t_log.Sessions.{Session, cleared}
use t_log.Csrf.{Browser, cleared_browser}
use t_log.Login.{Failures, Attempt, Answer, bad_request, unauthorized, too_many, success, login}

-- One value of the registry of app/registry.py, by the key of its tab.
pub record Meta : Type 0 where
  pub name : String
  pub endpoint : String
  pub icon : String

-- `urlparse(url)`
pub record Url : Type 0 where
  pub scheme : String
  pub netloc : String
  pub path : String

pub data Response : Type 0 where
  page : ℕ → Response
  redirect : String → Response

-- One call of `app_log` for "auth": the level, the message and the name.
abbrev pub Note : Type 0
Note = String × String × String

-- What the handlers read. `parse` is none where `urlparse` raises a ValueError.
pub record Site : Type 0 where
  pub users_file : UsersFile
  pub groups : Groups
  pub registry : Dict Meta
  pub parse : String → Option Url
  pub url_for : String → String
  pub now : ℕ

-- The browser afterwards, what was logged, and the answer or the exception.
abbrev pub Handled : Type 0
Handled = Browser × List Note × Result Response

is_local_url : String → Url → Bool
is_local_url url parsed =
    parsed.scheme == ""
    && (parsed.netloc == "" && (starts_with parsed.path "/" && not (url == "/login")))

module _ (site : Site) where
  pub safe_redirect : String → Result Bool
  unfolding is_local_url
  safe_redirect url = elim (site.parse url) [
    | none ↦ err (value_error "Invalid URL")
    | some parsed ↦ ok (is_local_url url parsed)
  ]

  first_of : List String → Dict Meta → String
  first_of tabs [] = site.url_for "auth.login"
  first_of tabs ((key, m) ∷ registry) =
      let rest = first_of tabs registry in if member key tabs then site.url_for m.endpoint else rest

  pub first_allowed_url : List String → String
  unfolding first_of
  first_allowed_url tabs = first_of tabs site.registry

  -- Where a success leads: to `next` where it is a path of the application, and else to the first tab.
  pub after_login : String → List String → Result Response
  unfolding safe_redirect first_allowed_url
  after_login next tabs =
      if next == "" then ok (redirect (first_allowed_url tabs)) else elim (safe_redirect next) [
        | err e ↦ err e
        | ok safe ↦ ok (redirect (if safe then next else first_allowed_url tabs))
      ]

  -- The session before its tabs are known.
  pub opened : String → String → List String → String → Session
  opened username role ad_groups source = record cleared {
    user = some username;
    role = some role;
    ad_groups = ad_groups;
    auth_source = some source;
  }

  -- The rest of a login, once the tabs are computed or failed to be.
  pub fill_local : String → Session → Result (List String) → Handled
  unfolding after_login
  fill_local next s (err e) = (record { session = s; csrf_token = none }, [], err e)
  fill_local next s (ok tabs) = (
    record {
      session = record s { allowed_tabs = tabs; login_at = some site.now };
      csrf_token = none;
    },
    ("INFO", "Login successful", default s.user "") ∷ [],
    after_login next tabs,
  )

  pub sign_in : String → String → String → List String → Handled
  unfolding opened fill_local
  sign_in next username role ad_groups =
      fill_local next (opened username role ad_groups "local")
        (get_allowed_tabs site.groups site.users_file username ad_groups (some role))

  -- What the answer of the limiter and of `authenticate` means for the browser.
  pub respond : String → String → Browser → Answer → Handled
  unfolding sign_in
  respond next username b bad_request = (b, [], ok (page 400))
  respond next username b too_many =
      (b, ("WARN", "Login rate-limited", username) ∷ [], ok (page 429))
  respond next username b unauthorized =
      (b, ("WARN", "Failed login attempt", username) ∷ [], ok (page 401))
  respond next username b (success role ad_groups) = sign_in next username role ad_groups

  -- A POST to /login, with the argument "next" of its address.
  pub post_login :
      Unicode
      → ℕ
      → (String → String → Option (String × List String))
      → String
      → Attempt
      → Failures
      → Browser
      → Failures × Handled
  unfolding respond
  post_login u max_keys authenticate next a failures b =
      let (after, answer) = login u max_keys authenticate a failures in
      (after, respond (strip next) (strip a.username) b answer)

  fill_sso : Session → Result (List String) → Handled
  unfolding first_allowed_url
  fill_sso s (err e) = (record { session = s; csrf_token = none }, [], err e)
  fill_sso s (ok tabs) = (
    record {
      session = record s {
        allowed_tabs = tabs;
        login_at = some site.now;
        sso_login_at = some site.now;
      };
      csrf_token = none;
    },
    ("INFO", "SSO login successful", default s.user "") ∷ [],
    ok (redirect (first_allowed_url tabs)),
  )

  -- `username` is what `verify_token` gives for the token of the request, a text where it gives one.
  pub sso_login : Option String → Browser → Handled
  unfolding opened fill_sso
  sso_login none b = (b, [], ok (page 403))
  sso_login (some username) b =
      fill_sso (opened username "sso" [] "sso")
        (get_allowed_tabs site.groups site.users_file username [] (some "sso"))

  pub logout : Browser → Handled
  logout b = (
    cleared_browser,
    ("INFO", "Logout", default b.session.user "unknown") ∷ [],
    ok (redirect (site.url_for "auth.login")),
  )
