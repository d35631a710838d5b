-- ===== src/Groups/Access.antt =====
-- Access control of app/groups.py: the tabs and the ADOMs that a user may reach.
pub mod Rules
use t_log.Shared.{
  Bool, true, false, not, ◌&&◌, ◌||◌, Option, none, some, List, [], ◌∷◌, String, ◌==◌,
  if◌then◌else◌, default, any, keep, Result, ok, ◌>>=◌,
}
use t_log.Shared.Dict.{Dict, get, keys, values}
use t_log.Shared.Sets.{eq_string, member, update, meets}
use t_log.Shared.Sort.{sorted, text_le}
use t_log.Users.{StoredUser, UsersFile, load_users}
use t_log.Groups.{StoredGroup, Groups, load}

-- `x == "admin"` for a value that may be None
abbrev pub is_admin : Option String → Bool
is_admin none = false
is_admin (some r) = r == "admin"

-- `users.get(username, {}).get("role") == "admin"`
unfoldable pub stored_admin : Option StoredUser → Bool
stored_admin none = false
stored_admin (some e) = is_admin e.role

-- The user is named by the group, or shares one of its directory groups.
unfoldable pub belongs : String → List String → StoredGroup → Bool
unfolding meets
belongs username ad_groups g =
    member username (default g.members [])
    || meets (update [] ad_groups) (update [] (default g.ad_groups []))

-- The loop of `get_allowed_tabs` over the groups.
tabs_of : String → List String → List String → List StoredGroup → List String
tabs_of username ad_groups tabs [] = tabs
tabs_of username ad_groups tabs (g ∷ gs) =
    tabs_of username ad_groups
      (if belongs username ad_groups g then update tabs (default g.allowed_tabs []) else tabs) gs

unfoldable pub get_allowed_tabs :
    Groups → UsersFile → String → List String → Option String → Result (List String)
unfolding tabs_of stored_admin
get_allowed_tabs s users_file username ad_groups role =
    if is_admin role then ok (keys s.known_tabs) else do
      users ← load_users users_file
      if stored_admin (get username users)
          then ok (keys s.known_tabs)
          else (do groups ← load s; ok (tabs_of username ad_groups [] (values groups)))

unfoldable pub user_can_access_tab : Groups → UsersFile → String → String → Result Bool
user_can_access_tab s users_file username tab_key = do
  tabs ← get_allowed_tabs s users_file username [] none
  ok (member tab_key tabs)

adoms_of : List String → List StoredGroup → List String
adoms_of allowed [] = allowed
adoms_of allowed (g ∷ gs) = adoms_of (update allowed (default g.allowed_adoms [])) gs

-- `None`, here `none`, is "unrestricted".
adoms_for : List StoredGroup → Option (List String)
unfolding adoms_of
adoms_for [] = some []
adoms_for (g ∷ gs) =
    if any (λ g. not (default g.adom_restrict false)) (g ∷ gs)
    then none
    else some (sorted text_le (adoms_of [] (g ∷ gs)))

unfoldable pub get_allowed_adoms :
    Groups → UsersFile → String → List String → Option String → Result (Option (List String))
unfolding adoms_for stored_admin
get_allowed_adoms s users_file username ad_groups role = if is_admin role then ok none else do
  users ← load_users users_file
  if stored_admin (get username users)
      then ok none
      else (do groups ← load s; ok (adoms_for (keep (belongs username ad_groups) (values groups))))

unfoldable pub within : String → Option (List String) → Bool
within adom none = true
within adom (some allowed) = member adom allowed

unfoldable pub user_can_access_adom :
    Groups → UsersFile → String → String → List String → Result Bool
unfolding within
user_can_access_adom s users_file username adom ad_groups = do
  allowed ← get_allowed_adoms s users_file username ad_groups none
  ok (within adom allowed)
