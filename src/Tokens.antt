-- ===== src/Tokens.antt =====
-- app/api_tokens.py and app/app_settings.py, and the gate that app/routes/external_api_routes.py puts
-- before every route of the external API. SHA-256 and the two random values of a new token are
-- parameters.
pub mod Gate
mod Tests
use Prim.Native.String.{◌++◌ as append}
use t_log.Shared.{
  ℕ, Bool, true, false, not, ◌&&◌, ◌||◌, Option, none, some, List, [], ◌∷◌, ◌++◌, String, ◌==◌,
  if◌then◌else◌, default, nat_eq, length, keep, File, contents, load_or_default, is_some,
}
use t_log.Shared.Text.{strip, starts_with, drop_chars, Unicode}
use t_log.Shared.Dict.{Dict, get, put, put_all}

-- One entry of api_tokens.json; its keys may be missing.
pub record Token : Type 0 where
  pub id : Option String
  pub name : Option String
  pub token_hash : Option String
  pub enabled : Option Bool

-- `{k: v for k, v in t.items() if k != "token_hash"}`
pub safe : Token → Token
safe t = record t { token_hash = none }

abbrev pub TokensFile : Type 0
TokensFile = File (List Token)

pub load : TokensFile → List Token
unfolding load_or_default
load f = load_or_default [] f

abbrev pub token_prefix : String
token_prefix = "4tl_"

module _ (hash : String → String) where
  -- `hex` is `secrets.token_hex(32)` and `uuid` is `str(uuid.uuid4())`.
  pub create_token : String → String → String → TokensFile → TokensFile × (String × Token)
  unfolding load safe
  create_token hex uuid name f =
      let raw = append token_prefix hex in
      let token : Token = record {
        id = some uuid;
        name = some (strip name);
        token_hash = some (hash raw);
        enabled = some true;
      } in
      (contents (load f ++ token ∷ []), (raw, safe token))

safe_all : List Token → List Token
safe_all [] = []
safe_all (t ∷ ts) = safe t ∷ safe_all ts

pub list_tokens : TokensFile → List Token
unfolding load safe_all
list_tokens f = safe_all (load f)

-- `t.get("id") == token_id`
abbrev pub has_id : String → Token → Bool
has_id token_id t = elim t.id [ none ↦ false | some i ↦ i == token_id ]

pub revoke_token : String → TokensFile → TokensFile × Bool
unfolding load
revoke_token token_id f =
    let tokens = load f in
    let remaining = keep (λ t. not (has_id token_id t)) tokens in
    if nat_eq (length remaining) (length tokens) then (f, false) else (contents remaining, true)

-- `hmac.compare_digest(t.get("token_hash", ""), h) and t.get("enabled", True)`
abbrev pub accepts : String → Token → Bool
accepts h t = default t.token_hash "" == h && default t.enabled true

first_match : String → List Token → Option Token
first_match h [] = none
first_match h (t ∷ ts) = let rest = first_match h ts in if accepts h t then some (safe t) else rest

module _ (hash : String → String) where
  pub validate_token : String → TokensFile → Option Token
  unfolding load first_match
  validate_token raw f = if raw == "" then none else first_match (hash raw) (load f)

-- A value of app_settings.json, and its defaults.
abbrev pub SettingsFile : Type 0
SettingsFile = File (Dict Bool)

abbrev defaults : Dict Bool
defaults = ("external_api_enabled", false) ∷ []

pub load_settings : SettingsFile → Dict Bool
unfolding load_or_default put_all
load_settings f = put_all defaults (load_or_default [] f)

pub get_setting : String → Bool → SettingsFile → Bool
unfolding load_settings
get_setting key fallback f = default (get key (load_settings f)) fallback

pub set_setting : String → Bool → SettingsFile → SettingsFile
unfolding load_settings
set_setting key value f = contents (put key value (load_settings f))

-- The status that `_gate` answers instead of the route.
pub data Refused : Type 0 where
  disabled unauthorized : Refused

module _ (hash : String → String) (u : Unicode) where
  -- `_authenticate` on the header `Authorization`, the empty text where there is none
  pub authenticate : String → TokensFile → Option Token
  authenticate auth tokens =
      if starts_with (u.lower auth) "bearer "
      then validate_token hash (strip (drop_chars 7 auth)) tokens
      else none

  pub gate : SettingsFile → TokensFile → String → Option Refused
  unfolding authenticate get_setting
  gate settings tokens auth =
      if not (get_setting "external_api_enabled" false settings)
      then some disabled
      else if not (is_some (authenticate auth tokens))
      then some unauthorized
      else none
