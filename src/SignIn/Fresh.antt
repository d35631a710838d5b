-- ===== src/SignIn/Fresh.antt =====
-- The sessions that signing in opens, at the guards of the next requests.
use t_log.Shared.{
  ℕ, ◌+◌, Bool, true, false, not, ◌||◌, Option, none, some, List, [], String, ◌==◌, ◌≡◌, refl, ltb,
  default, Result, ok, err, arith, ◌∙◌,
}
use t_log.Shared.Dict.{Dict, get}
use t_log.Users.{StoredUser, load_users}
use t_log.Groups.Access.{get_allowed_tabs}
use t_log.Sessions.{Session, Denied, App, sso_valid, is_local, blank, guard}
use t_log.Sessions.Renewed.{guard-stored, guard-sso}
use t_log.Csrf.{
  Browser, Request, passes, provided, changes_state, exempt, security_filters,
  security_filters-passes,
}
use t_log.SignIn.{Site, opened, fill_local, fill_sso, sign_in, sso_login, logout}

-- The application at a later request: the files are as they were, the time is `now`.
abbrev pub app_at : Site → Option (String → ℕ → Bool) → ℕ → ℕ → App
app_at site checker lifetime now = record {
  users_file = site.users_file;
  groups = site.groups;
  checker = checker;
  lifetime = lifetime;
  now = now;
}

module _ (site : Site) (checker : Option (String → ℕ → Bool)) (lifetime now : ℕ) (path : String)
    (user : String) (filled : (user == "") ≡ false) (users : Dict StoredUser)
    (stored : load_users site.users_file ≡ ok users)
    (fresh : ltb (site.now + lifetime) now ≡ false) where
  abbrev app : App
  app = app_at site checker lifetime now

  -- A local login of a user with an entry, whose name is not empty and whose tabs can be read, opens a
  -- session with these tabs. Until its lifetime is over and while the files stay as they are, every
  -- guard goes on with that session unchanged, and the guard's own test decides.
  pub sign_in-guard :
      (next : String) (e : StoredUser) (ad_groups tabs : List String)
      (test : Session → Option Denied)
      → get user users ≡ some e
      → get_allowed_tabs site.groups site.users_file user ad_groups (some (default e.role "viewer"))
        ≡ ok tabs
      → let s = (sign_in site next user (default e.role "viewer") ad_groups).0.session in
        (s.allowed_tabs ≡ tabs) × (guard app path test s ≡ ok (s, test s))
  unfolding sign_in opened fill_local sso_valid
  sign_in-guard next e ad_groups tabs test found allowed = rw allowed (
    refl,
    guard-stored app path user filled users stored _ site.now refl refl refl fresh test e tabs found
        allowed,
  )

  -- An SSO login of a user without an entry, whose name is not empty and whose tabs can be read, opens
  -- a session with these tabs. As long as the checker accepts it, within its lifetime and while the
  -- files stay as they are, every guard goes on with it unchanged, and the guard's own test decides.
  pub sso_login-guard :
      (b : Browser) (tabs : List String) (test : Session → Option Denied)
      → get user users ≡ none
      → get_allowed_tabs site.groups site.users_file user [] (some "sso") ≡ ok tabs
      → elim checker [ none ↦ true | some accepts ↦ accepts user site.now ] ≡ true
      → let s = (sso_login site (some user) b).0.session in
        (s.allowed_tabs ≡ tabs) × (guard app path test s ≡ ok (s, test s))
  unfolding sso_login opened fill_sso sso_valid is_local blank
  sso_login-guard b tabs test absent allowed accepted = rw allowed (
    refl,
    guard-sso app path user filled users stored _ site.now refl refl accepted fresh test tabs absent
        refl refl allowed,
  )

fill_local-csrf :
    (site : Site) (next : String) (s : Session) (tabs : Result (List String))
    → (fill_local site next s tabs).0.csrf_token ≡ none
unfolding fill_local
fill_local-csrf site next s (ok tabs) = refl
fill_local-csrf site next s (err e) = refl

passes-none :
    (random : String) (r : Request) (b : Browser)
    → (random == provided r) ≡ false
    → b.csrf_token ≡ none
    → passes (security_filters random r b) ≡ (not (changes_state r) || exempt r)
passes-none random r b unguessed gone =
    security_filters-passes random r b unguessed ∙ rw gone (ground arith)

-- Signing in and out ends the token of the browser: a request that repeats an old one afterwards, or
-- any text but the new random one, is stopped unless its method changes nothing or it is exempt.
pub sign_in-token_gone :
    (site : Site) (next username role : String) (ad_groups : List String) (b : Browser)
    (random : String) (r : Request)
    → (random == provided r) ≡ false
    → (passes (security_filters random r (sign_in site next username role ad_groups).0)
        ≡ (not (changes_state r) || exempt r))
      × (passes (security_filters random r (logout site b).0) ≡ (not (changes_state r) || exempt r))
unfolding sign_in logout
sign_in-token_gone site next username role ad_groups b random r unguessed = (
  passes-none random r _ unguessed (fill_local-csrf site next _ _),
  passes-none random r _ unguessed refl,
)
