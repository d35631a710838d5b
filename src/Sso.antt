-- ===== src/Sso.antt =====
-- app/sso_verify.py: the keys of 4tSuite and the two kinds of its tokens. The JWT library is a
-- parameter: the header of a token, and decoding with a key under the checks that the code asks for
-- (algorithm, audience, issuer, times, required claims). So is the cryptography library: the
-- identifier of a PEM block, `none` where it does not load.
pub mod Trust
mod Tests
use t_log.Shared.{
  ℕ, zero, Bool, true, false, not, ◌&&◌, Option, none, some, List, [], ◌∷◌, String, ◌==◌,
  if◌then◌else◌, is_some,
}
use t_log.Shared.Int.{ℤ, pos}
use t_log.Shared.Dict.{Dict, get, put, has, values}
use t_log.Shared.Json.{
  Json, null, bool, int, float, not_finite, str, list, dict, nil, cons, end, field,
}

-- What `jwt.decode` returns or raises.
pub data Decoded : Type 0 where
  claims : Dict Json → Decoded
  bad_signature invalid : Decoded

-- The libraries: `header` is `none` where the token has no readable header, and otherwise its "kid".
pub record Libraries : Type 0 where
  pub key_id : String → Option String
  pub header : String → Option (Option Json)
  pub decode : String → String → Decoded

module _ (lib : Libraries) where
  add_key : Option String → String → Dict String → Dict String
  add_key none block found = found
  add_key (some kid) block found = put kid block found

  -- `_load_keys` on the PEM blocks of the file, none where it cannot be read.
  unfoldable pub load_keys : List String → Dict String → Dict String
  unfolding add_key
  load_keys [] found = found
  load_keys (block ∷ blocks) found = load_keys blocks (add_key (lib.key_id block) block found)

  named_key : Option String → List String → List String
  named_key none pems = pems
  named_key (some pem) pems = pem ∷ []

  -- The one key that the header names, or every key.
  pub candidates : Option Json → Dict String → List String
  unfolding named_key
  candidates (some (str kid)) keys = named_key (get kid keys) (values keys)
  candidates _ keys = values keys

  -- The answer for one key, where `rest` is that of the keys after it.
  next_key : Decoded → Option (Dict Json) → Option (Dict Json)
  next_key (claims c) rest = some c
  next_key bad_signature rest = rest
  next_key invalid rest = none

  try_keys : String → List String → Option (Dict Json)
  unfolding next_key
  try_keys token [] = none
  try_keys token (pem ∷ pems) =
      let rest = try_keys token pems in next_key (lib.decode token pem) rest

  decode_header : String → Dict String → Option (Option Json) → Option (Dict Json)
  unfolding candidates try_keys
  decode_header token keys none = none
  decode_header token keys (some kid) = try_keys token (candidates kid keys)

  pub decode_token : List String → String → Option (Dict Json)
  unfolding load_keys decode_header
  decode_token blocks token = elim (load_keys blocks []) [
    | [] ↦ none
    | key ∷ keys ↦ decode_header token (key ∷ keys) (lib.header token)
  ]

  -- `bool(v)`
  truthy : Json → Bool
  truthy null = false
  truthy (bool b) = b
  truthy (int (pos zero)) = false
  truthy (int n) = true
  truthy (float (pos zero)) = false
  truthy (float x) = true
  truthy not_finite = true
  truthy (str s) = not (s == "")
  truthy (list nil) = false
  truthy (list (cons v vs)) = true
  truthy (dict end) = false
  truthy (dict (field k v fs)) = true

  -- `v or None`
  or_none : Option Json → Option Json
  unfolding truthy
  or_none none = none
  or_none (some v) = if truthy v then some v else none

  user_of : Option (Dict Json) → Option Json
  unfolding or_none
  user_of none = none
  user_of (some c) = if has "scope" c then none else or_none (get "sub" c)

  pub verify_token : List String → String → Option Json
  unfolding decode_token user_of
  verify_token blocks token = user_of (decode_token blocks token)

  -- `claims.get("scope") == expected_scope`
  is_scope : String → Option Json → Bool
  is_scope expected (some (str s)) = s == expected
  is_scope expected _ = false

  service_of : String → Option (Dict Json) → Option (Dict Json)
  unfolding is_scope
  service_of expected none = none
  service_of expected (some c) = if is_scope expected (get "scope" c) then some c else none

  unfoldable pub verify_service_token : List String → String → String → Option (Dict Json)
  unfolding decode_token service_of
  verify_service_token blocks token expected_scope =
      service_of expected_scope (decode_token blocks token)
