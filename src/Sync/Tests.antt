-- ===== src/Sync/Tests.antt =====
-- Pushes from 4tSuite, and the theorem at one of them.
use t_log.Shared.{
  Bool, true, none, some, [], ◌∷◌, String, ◌≡◌, refl, ok, contents, ◌>>=◌, load_or_raise,
}
use t_log.Shared.Text.{starts_with, drop_chars}
use t_log.Shared.Dict.{get, put, keys, values}
use t_log.Shared.Sets.{eq_string, member, add, discard, update}
use t_log.Shared.Sort.{sorted}
use t_log.Shared.Json.{Json, str, bool, dict, field, end}
use t_log.Groups.{
  StoredGroup, Groups, load, save, get_group, list_groups, update_group, add_group_member,
  remove_group_member, group_to_dict,
}
use t_log.Sso.{claims, Libraries, load_keys, verify_service_token}
use t_log.Sync.{Answer, manifest, no_content, abort, get_manifest, get_health, receive_group_push}
use t_log.Sync.Membership.{is_member, Pushed, receive_group_push-Pushed}

-- The text of a token is the scope of its claims.
abbrev lib : Libraries
lib = record {
  key_id = λ pem. some pem;
  header = λ token. some none;
  decode = λ token pem. claims (("scope", str token) ∷ []);
}

abbrev ops : StoredGroup
ops = record {
  members = some ("bob" ∷ []);
  ad_groups = none;
  allowed_tabs = none;
  adom_restrict = none;
  allowed_adoms = none;
}

abbrev start : Groups
start = record { file = contents (("ops", ops) ∷ []); known_tabs = ("b", "B") ∷ ("a", "A") ∷ [] }

abbrev push : String → String → Json
push username group =
    dict
      (field "username" (str username) (field "group" (str group) (field "member" (bool true) end)))

run : Unit {0}
unfolding verify_service_token load_keys get put keys values member add discard update sorted
    starts_with drop_chars load save load_or_raise get_group list_groups update_group
    add_group_member remove_group_member group_to_dict get_manifest get_health receive_group_push
    is_member
run = tt

route_tests :
    (◌>>=◌ {B = Bool × Bool × Answer}
        (receive_group_push lib ("k" ∷ []) "Bearer groups_push" (some (push "amy" "ops")) start)
        (λ (s, a). ok (is_member s "ops" "amy", is_member s "ops" "bob", a))
      ≡ ok (true, true, no_content))
    × (receive_group_push lib ("k" ∷ []) "Bearer health_read" (some (push "amy" "ops")) start
        ≡ ok (start, abort 403 ""))
    × (receive_group_push lib ("k" ∷ []) "groups_push" (some (push "_service:x" "ops")) start
        ≡ ok (start, abort 400 "cannot grant group membership to a service sentinel username"))
    × (receive_group_push lib ("k" ∷ []) "groups_push" (some (push "amy" "dev")) start
        ≡ ok (start, abort 400 "no such group: dev"))
    × (get_manifest lib ("k" ∷ []) true "manifest_read" start
        ≡ ok (
            manifest (record {
              tabs = "a" ∷ "b" ∷ [];
              groups = "ops" ∷ [];
              capabilities = "revocations" ∷ [];
            })))
    × (get_health lib [] "health_read" ≡ abort 403 "")
unfolding run
route_tests = (refl, refl, refl, refl, refl, refl)

receive_group_push-Pushed_example :
    Pushed lib
      ("k" ∷ [])
      "Bearer groups_push"
      (some (push "amy" "ops"))
      start
      (receive_group_push lib ("k" ∷ []) "Bearer groups_push" (some (push "amy" "ops")) start)
unfolding run
receive_group_push-Pushed_example =
    receive_group_push-Pushed lib ("k" ∷ []) start (("ops", ops) ∷ []) refl "Bearer groups_push"
      (some (push "amy" "ops"))
