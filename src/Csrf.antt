-- ===== src/Csrf.antt =====
-- app/security.py, and `_security_filters` of app/__init__.py, which runs before every request: the
-- token against cross-site request forgery. The random token is a parameter.
use t_log.Shared.{
  Bool, true, false, not, ◌&&◌, ◌||◌, Option, none, some, [], ◌∷◌, String, ◌==◌, ◌≡◌, refl,
  if◌then◌else◌, default, leb, arith, Bool-cases, inl, inr, ◌∙◌, ap,
}
use t_log.Shared.Text.{starts_with, all_chars}
use t_log.Shared.Sets.{eq_string, member}
use t_log.Sessions.{Session, cleared, is_api_path}
use Prim.Native.Char.{Char, code}

-- The session of a browser, with its key "_csrf_token".
pub record Browser : Type 0 where
  pub session : Session
  pub csrf_token : Option String

-- `session.clear()`
abbrev pub cleared_browser : Browser
cleared_browser = record { session = cleared; csrf_token = none }

-- The header "X-CSRF-Token" and the field "csrf_token" of the form are empty where they are missing.
pub record Request : Type 0 where
  pub method : String
  pub endpoint : String
  pub path : String
  pub header_token : String
  pub form_token : String

-- What a filter answers instead of the route: JSON or text with the status 400, or the TypeError
-- that `compare_digest` raises on a text that is not ASCII.
pub data Blocked : Type 0 where
  json_error text_error type_error : Blocked

pub ensure_csrf_token : String → Browser → Browser
ensure_csrf_token random b =
    if default b.csrf_token "" == "" then record b { csrf_token = some random } else b

-- `request.headers.get("X-CSRF-Token") or request.form.get("csrf_token") or ""`
unfoldable pub provided : Request → String
provided r = if r.header_token == "" then r.form_token else r.header_token

abbrev pub is_ascii : String → Bool
is_ascii = all_chars (λ (c : Char). leb (code c) 127)

-- `hmac.compare_digest`, none where it raises.
compare_digest : String → String → Option Bool
compare_digest a b = if is_ascii a && is_ascii b then some (a == b) else none

pub validate_csrf_request : Request → Browser → Option Bool
unfolding compare_digest provided
validate_csrf_request r b =
    let expected = default b.csrf_token "" in
    if expected == "" then some false else compare_digest expected (provided r)

pub csrf_error_response : Request → Blocked
csrf_error_response r = if is_api_path r.path then json_error else text_error

blocked_unless : Blocked → Option Bool → Option Blocked
blocked_unless error none = some type_error
blocked_unless error (some true) = none
blocked_unless error (some false) = some error

-- `request.method in {"POST", "PUT", "PATCH", "DELETE"}`
pub changes_state : Request → Bool
changes_state r = member r.method ("POST" ∷ "PUT" ∷ "PATCH" ∷ "DELETE" ∷ [])

-- Static files, and the routes that take a bearer token.
pub exempt : Request → Bool
exempt r =
    r.endpoint == "static"
    || (starts_with r.path "/external/api/" || starts_with r.path "/4tsuite/")

unfoldable pub security_filters : String → Request → Browser → Browser × Option Blocked
unfolding ensure_csrf_token validate_csrf_request csrf_error_response blocked_unless changes_state
    exempt
security_filters random r b =
    let ensured = ensure_csrf_token random b in
    if not (changes_state r) || exempt r
    then (ensured, none)
    else (ensured, blocked_unless (csrf_error_response r) (validate_csrf_request r ensured))

-- The request goes on to its route.
abbrev pub passes : Browser × Option Blocked → Bool
passes (b, none) = true
passes (b, some error) = false

abbrev pub proves : Request → Browser → Bool
proves r b =
    is_ascii (default b.csrf_token "")
    && (is_ascii (provided r)
        && (not (default b.csrf_token "" == "") && default b.csrf_token "" == provided r))

passes-blocked_unless :
    (b : Browser) (error : Blocked) (o : Option Bool)
    → passes (b, blocked_unless error o) ≡ default o false
unfolding blocked_unless
passes-blocked_unless b error none = refl
passes-blocked_unless b error (some true) = refl
passes-blocked_unless b error (some false) = refl

default-validate_csrf_request :
    (r : Request) (b : Browser) → default (validate_csrf_request r b) false ≡ proves r b
unfolding validate_csrf_request compare_digest
default-validate_csrf_request r b = elim (Bool-cases (default b.csrf_token "" == "")) [
  | inl blank ↦ rw blank (ground arith)
  | inr filled ↦ elim (Bool-cases (is_ascii (default b.csrf_token "") && is_ascii (provided r))) [
    | inl ascii ↦ rw (filled, ascii) (ground (arith, ascii))
    | inr other ↦ rw (filled, other) (ground (arith, other))
  ]
]

proves-ensure_csrf_token :
    (random : String) (r : Request) (b : Browser)
    → (random == provided r) ≡ false
    → proves r (ensure_csrf_token random b) ≡ proves r b
unfolding ensure_csrf_token
proves-ensure_csrf_token random r b unguessed = elim (Bool-cases (default b.csrf_token "" == "")) [
  | inl blank ↦ rw blank (ground (arith, unguessed, blank))
  | inr filled ↦ let same : ensure_csrf_token random b ≡ b = rw filled refl in ap (proves r) same
]

-- Where the random token was not guessed, a request reaches its route exactly when its method
-- changes nothing, or it is exempt, or the browser already held a token that is not empty before
-- the request and the request repeats it, both in ASCII.
pub security_filters-passes :
    (random : String) (r : Request) (b : Browser)
    → (random == provided r) ≡ false
    → passes (security_filters random r b) ≡ (not (changes_state r) || (exempt r || proves r b))
unfolding security_filters
security_filters-passes random r b unguessed =
    elim (Bool-cases (not (changes_state r) || exempt r)) [
      | inl free ↦ rw free (ground (arith, free))
      | inr checked ↦ rw checked (
          let ensured = ensure_csrf_token random b in
          passes-blocked_unless ensured (csrf_error_response r) (validate_csrf_request r ensured)
          ∙ default-validate_csrf_request r ensured
          ∙ proves-ensure_csrf_token random r b unguessed
          ∙ ground (arith, checked))
    ]
