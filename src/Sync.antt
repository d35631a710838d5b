-- ===== src/Sync.antt =====
-- The plugin routes for 4tSuite: `create_blueprint` of app/tsuite_adapter.py with the callbacks of
-- app/routes/sync_routes.py. Services are believed by `Sso.verify_service_token`, and the push of a
-- membership writes through `Groups`.

pub mod Membership
mod Tests
use Prim.Native.String.{◌++◌ as append}
use t_log.Shared.{
  ℕ, Bool, true, false, not, Option, none, some, List, [], ◌∷◌, String, ◌==◌, if◌then◌else◌, map,
  Result, ok, err, ◌>>=◌,
}
use t_log.Shared.Text.{starts_with, drop_chars}
use t_log.Shared.Dict.{Dict, get, keys}
use t_log.Shared.Sets.{eq_string, member}
use t_log.Shared.Sort.{sorted, text_le}
use t_log.Shared.Json.{Json, str, bool, dict, Fields, fields}
use t_log.Groups.{Group, Groups, list_groups, add_group_member, remove_group_member}
use t_log.Sso.{Libraries, verify_service_token}

-- What the manifest tells 4tSuite.
pub record Manifest : Type 0 where
  pub tabs : List String
  pub groups : List String
  pub capabilities : List String

pub data Answer : Type 0 where
  manifest : Manifest → Answer
  health : Answer
  no_content : Answer
  abort : ℕ → String → Answer

-- `_apply_group_change`
pub apply_group_change : Groups → String → String → Bool → Result Groups
apply_group_change s username group true = add_group_member s group username
apply_group_change s username group false = remove_group_member s group username

-- `[g["name"] for g in groups.list_groups()]`
pub group_names : Groups → Result (List String)
group_names s = do listed ← list_groups s; ok (map (λ (g : Group). g.name) listed)

-- `isinstance(v, str) and v`, and `isinstance(v, bool)`
text_of : Option Json → Option String
text_of (some (str s)) = if s == "" then none else some s
text_of _ = none

flag_of : Option Json → Option Bool
flag_of (some (bool b)) = some b
flag_of _ = none

-- `auth.removeprefix("Bearer ")`
bearer : String → String
unfolding starts_with
bearer auth = if starts_with auth "Bearer " then drop_chars 7 auth else auth

module _ (lib : Libraries) (blocks : List String) where
  has_scope : String → Option Json → Bool
  has_scope scope (some (str s)) = s == scope
  has_scope scope _ = false

  claims_pass : String → Option (Dict Json) → Bool
  unfolding has_scope
  claims_pass scope none = false
  claims_pass scope (some claims) = has_scope scope (get "scope" claims)

  -- `require_scope`: whether the request goes on. The verifier here raises nothing.
  pub require_scope : String → String → Bool
  unfolding claims_pass bearer
  require_scope auth scope = claims_pass scope (verify_service_token lib blocks (bearer auth) scope)

  pub get_manifest : Bool → String → Groups → Result Answer
  unfolding require_scope group_names
  get_manifest checker auth s =
      if not (require_scope auth "manifest_read") then ok (abort 403 "") else do
        names ← group_names s
        ok (
            manifest (record {
              tabs = sorted text_le (keys s.known_tabs);
              groups = names;
              capabilities = if checker then "revocations" ∷ [] else [];
            }))

  pub get_health : String → Answer
  unfolding require_scope
  get_health auth = if require_scope auth "health_read" then health else abort 403 ""

  -- The part of `receive_group_push` from the list of groups on.
  pub change_known : Groups → String → String → Bool → List String → Result (Groups × Answer)
  unfolding apply_group_change
  change_known s username group is_member names =
      if not (member group names)
      then ok (s, abort 400 (append "no such group: " group))
      else do s' ← apply_group_change s username group is_member; ok (s', no_content)

  -- The checks of the three values, in their order.
  pub push_values : Groups → Option String → Option String → Option Bool → Result (Groups × Answer)
  unfolding change_known group_names starts_with
  push_values s none group is_member = ok (s, abort 400 "username must be a non-empty string")
  push_values s (some username) none is_member =
      ok (s, abort 400 "group must be a non-empty string")
  push_values s (some username) (some group) none = ok (s, abort 400 "member must be true or false")
  push_values s (some username) (some group) (some is_member) =
      if starts_with username "_service:"
      then ok (s, abort 400 "cannot grant group membership to a service sentinel username")
      else group_names s >>= change_known s username group is_member

  push_body : Groups → Option Json → Result (Groups × Answer)
  unfolding push_values text_of flag_of
  push_body s (some (dict fs)) =
      let body = fields fs in
      push_values s (text_of (get "username" body)) (text_of (get "group" body))
        (flag_of (get "member" body))
  push_body s _ = ok (s, abort 400 "body must be a JSON object")

  pub receive_group_push : String → Option Json → Groups → Result (Groups × Answer)
  unfolding require_scope push_body
  receive_group_push auth body s =
      if require_scope auth "groups_push" then push_body s body else ok (s, abort 403 "")
