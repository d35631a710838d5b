-- ===== src/Groups.antt =====
-- app/groups.py: the store of groups behind groups.json. A stored group is a JSON object whose keys
-- may be missing; every reader goes through `g.get(key, default)`.
pub mod Access
pub mod Membership
pub mod Store
pub mod Invariant
pub mod Names
mod Tests
use t_log.Shared.{
  Bool, true, false, not, ◌&&◌, ◌||◌, Option, none, some, List, [], ◌∷◌, ◌++◌, String, ◌==◌,
  if◌then◌else◌, default, is_some, Bool-cases, keep, any, map, Error, value_error, Result, ok, err,
  ◌>>=◌, File, contents, load_or_raise, ◌≡◌, refl,
}
use t_log.Shared.Text.{strip}
use t_log.Shared.Dict.{Dict, get, put, remove, has, keys, values}
use t_log.Shared.Sets.{eq_string, member, add, discard, update, meets}
use t_log.Shared.Sort.{sorted, text_le}

-- One value of groups.json; an entry has no other keys.
pub record StoredGroup : Type 0 where
  pub members : Option (List String)
  pub ad_groups : Option (List String)
  pub allowed_tabs : Option (List String)
  pub adom_restrict : Option Bool
  pub allowed_adoms : Option (List String)

-- What `_group_to_dict` returns.
pub record Group : Type 0 where
  pub name : String
  pub members : List String
  pub ad_groups : List String
  pub allowed_tabs : List String
  pub adom_restrict : Bool
  pub allowed_adoms : List String

unfoldable pub group_to_dict : String → StoredGroup → Group
group_to_dict name g = record {
  name = name;
  members = default g.members [];
  ad_groups = default g.ad_groups [];
  allowed_tabs = default g.allowed_tabs [];
  adom_restrict = default g.adom_restrict false;
  allowed_adoms = default g.allowed_adoms [];
}

-- groups.json, and the tabs that the registry knows (`KNOWN_TABS`, key to title).
pub record Groups : Type 0 where
  pub file : File (Dict StoredGroup)
  pub known_tabs : Dict String

unfoldable pub load : Groups → Result (Dict StoredGroup)
unfolding load_or_raise
load s = load_or_raise [] s.file

unfoldable pub save : Groups → Dict StoredGroup → Groups
save s d = record s { file = contents d }

pub load-save : (s : Groups) (d : Dict StoredGroup) → load (save s d) ≡ ok d
unfolding load save load_or_raise
load-save s d = refl

listed : Dict StoredGroup → List Group
listed [] = []
listed ((name, g) ∷ d) = group_to_dict name g ∷ listed d

unfoldable pub list_groups : Groups → Result (List Group)
unfolding listed
list_groups s = do groups ← load s; ok (listed groups)

shown : String → Option StoredGroup → Option Group
shown name none = none
shown name (some g) = some (group_to_dict name g)

unfoldable pub get_group : Groups → String → Result (Option Group)
unfolding shown
get_group s name = do groups ← load s; ok (shown name (get name groups))

-- The arguments of `create_group` and `update_group` after `list(x or [])` and `bool(x)`.
pub record Fields : Type 0 where
  pub members : List String
  pub ad_groups : List String
  pub allowed_tabs : List String
  pub adom_restrict : Bool
  pub allowed_adoms : List String

stored : Fields → StoredGroup
stored f = record {
  members = some f.members;
  ad_groups = some f.ad_groups;
  allowed_tabs = some f.allowed_tabs;
  adom_restrict = some f.adom_restrict;
  allowed_adoms = some f.allowed_adoms;
}

-- The state comes back with the answer; an exception leaves no new state.
unfoldable pub create_group : Groups → String → Fields → Result (Groups × Bool)
unfolding stored
create_group s raw f =
    let name = strip raw in
    if name == "" then err (value_error "Group name cannot be empty.") else do
      groups ← load s
      if has name groups then ok (s, false) else ok (save s (put name (stored f) groups), true)

-- `[t for t in allowed_tabs if t in KNOWN_TABS] if KNOWN_TABS else list(allowed_tabs)`
pub known_only : Dict String → List String → List String
known_only [] tabs = tabs
known_only known tabs = keep (λ t. has t known) tabs

unfoldable pub update_group : Groups → String → Fields → Result (Groups × Bool)
unfolding stored known_only
update_group s name f = do
  groups ← load s
  if has name groups
      then (let tabs = known_only s.known_tabs f.allowed_tabs in
          ok (save s (put name (stored (record f { allowed_tabs = tabs })) groups), true))
      else ok (s, false)

-- Both membership changes write back what `get_group` returned, with the members sorted.
with_members : Group → List String → Fields
with_members g members = record {
  members = sorted text_le members;
  ad_groups = g.ad_groups;
  allowed_tabs = g.allowed_tabs;
  adom_restrict = g.adom_restrict;
  allowed_adoms = g.allowed_adoms;
}

change_members : (List String → List String) → Groups → String → Option Group → Result Groups
unfolding with_members
change_members change s name none = ok s
change_members change s name (some g) = do
  (s', _) ← update_group s name (with_members g (change (update [] g.members)))
  ok s'

unfoldable pub add_group_member : Groups → String → String → Result Groups
unfolding change_members
add_group_member s name username = do
  group ← get_group s name
  change_members (add username) s name group

unfoldable pub remove_group_member : Groups → String → String → Result Groups
unfolding change_members
remove_group_member s name username = do
  group ← get_group s name
  change_members (discard username) s name group

pub delete_group : Groups → String → Result (Groups × Bool)
delete_group s name = do
  groups ← load s
  if has name groups then ok (save s (remove name groups), true) else ok (s, false)
