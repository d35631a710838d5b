-- ===== src/Groups/Tests.antt =====
-- Runs of app/groups.py, and the theorems at concrete stores.
use t_log.Shared.{
  true, false, none, some, [], ◌∷◌, ◌≡◌, refl, any, value_error, ok, err, ◌>>=◌, missing, contents,
  load_or_raise,
}
use t_log.Shared.Text.{strip}
use t_log.Shared.Dict.{Dict, get, put, remove, keys, values}
use t_log.Shared.Sets.{eq_string, member, add, discard, update}
use t_log.Shared.Sort.{sorted}
use t_log.Users.{UsersFile, load_users}
use t_log.Groups.{
  StoredGroup, Groups, Fields, load, save, get_group, list_groups, create_group, update_group,
  add_group_member, remove_group_member, delete_group, group_to_dict,
}
use t_log.Groups.Access.{
  belongs, get_allowed_tabs, user_can_access_tab, get_allowed_adoms, user_can_access_adom,
  stored_admin,
}
use t_log.Groups.Access.Rules.{
  gives_tab, gives_adom, member-get_allowed_tabs, user_can_access_adom-gives_adom,
}

-- A group whose file entry lacks two keys, and whose tabs name one that is not registered.
abbrev ops : StoredGroup
ops = record {
  members = some ("zoe" ∷ "bob" ∷ []);
  ad_groups = none;
  allowed_tabs = some ("dashboard" ∷ "retired" ∷ []);
  adom_restrict = some true;
  allowed_adoms = some ("faz1" ∷ []);
}

abbrev file : Dict StoredGroup
file = ("ops", ops) ∷ []

abbrev start : Groups
start = record {
  file = contents file;
  known_tabs = ("dashboard", "Dashboard") ∷ ("log_search", "Log Search") ∷ [];
}

abbrev fields : Fields
fields = record {
  members = "amy" ∷ [];
  ad_groups = [];
  allowed_tabs = "log_search" ∷ [];
  adom_restrict = false;
  allowed_adoms = [];
}

abbrev no_users : UsersFile
no_users = missing

groups : Unit {0}
unfolding load save load_or_raise get_group create_group update_group add_group_member
    remove_group_member delete_group get put remove keys values member add discard update sorted
    group_to_dict strip
groups = tt

add_amy :
    (add_group_member start "ops" "amy" >>= λ s. get_group s "ops")
    ≡ ok (
        some (record {
          name = "ops";
          members = "amy" ∷ "bob" ∷ "zoe" ∷ [];
          ad_groups = [];
          allowed_tabs = "dashboard" ∷ [];
          adom_restrict = true;
          allowed_adoms = "faz1" ∷ [];
        }))
unfolding groups
add_amy = refl

create_tests :
    (create_group start " " fields ≡ err (value_error "Group name cannot be empty."))
    × (create_group start " ops " fields ≡ ok (start, false))
    × ((create_group start "new " fields >>= λ (s, _). list_groups s)
        ≡ (create_group start "new" fields >>= λ (s, _). list_groups s))
    × (add_group_member start "none" "amy" ≡ ok start)
unfolding groups list_groups
create_tests = (refl, refl, refl, refl)

access_tests :
    (user_can_access_tab start no_users "zoe" "dashboard" ≡ ok true)
    × (user_can_access_tab start no_users "zoe" "log_search" ≡ ok false)
    × (get_allowed_tabs start no_users "eve" [] (some "admin")
        ≡ ok ("dashboard" ∷ "log_search" ∷ []))
    × (get_allowed_adoms start no_users "bob" [] none ≡ ok (some ("faz1" ∷ [])))
    × (get_allowed_adoms start no_users "eve" [] none ≡ ok (some []))
unfolding groups get_allowed_tabs get_allowed_adoms user_can_access_tab load_users belongs
access_tests = (refl, refl, refl, refl, refl)

loaded_start : load start ≡ ok file
unfolding groups
loaded_start = refl

found_ops : get "ops" file ≡ some ops
unfolding groups
found_ops = refl

no_users_loaded : load_users no_users ≡ ok []
unfolding load_users
no_users_loaded = refl

zoe_is_no_admin : stored_admin (get "zoe" []) ≡ false
unfolding groups stored_admin
zoe_is_no_admin = refl

member-get_allowed_tabs_example :
    (get_allowed_tabs start no_users "zoe" [] (some "viewer") >>= λ tabs.
    ok (member "dashboard" tabs))
    ≡ ok (any (gives_tab "zoe" [] "dashboard") (values file))
member-get_allowed_tabs_example =
    member-get_allowed_tabs start no_users "zoe" [] file no_users_loaded loaded_start
      zoe_is_no_admin [] (some "viewer") "dashboard" refl

user_can_access_adom-gives_adom_example :
    user_can_access_adom start no_users "zoe" "faz1" []
    ≡ ok (any (gives_adom "zoe" [] "faz1") (values file))
user_can_access_adom-gives_adom_example =
    user_can_access_adom-gives_adom start no_users "zoe" [] file no_users_loaded loaded_start
      zoe_is_no_admin [] "faz1"
