-- ===== src/Admin/Requests/Tests.antt =====
-- Requests to the admin API, and the theorems on them.
use t_log.Shared.{
  Option, true, false, none, some, [], ◌∷◌, ◌≡◌, ◌⊎◌, refl, ok, contents, missing, load_or_raise,
  load_or_default, arith, eq_iff,
}
use t_log.Shared.Text.{strip, starts_with}
use t_log.Shared.Dict.{get, put, values, keys, Dict}
use t_log.Shared.Sets.{eq_string, member, add, update, meets}
use t_log.Users.{StoredUser, load_users}
use t_log.Groups.{
  StoredGroup, Group, Groups, load, save, get_group, create_group, update_group, group_to_dict,
}
use t_log.Groups.Access.{get_allowed_tabs, is_admin, belongs, stored_admin}
use t_log.Groups.Store.{Written, as_group}
use t_log.Sessions.{Session, sso_valid, admin_required}
use t_log.AppLog.{app_log}
use t_log.Shared.Text.{ascii}
use t_log.Admin.{
  Site, Response, json, group, GroupBody, noted, with_groups, fields_or, api_groups_update,
  api_groups_create,
}
use t_log.Admin.Updates.{changed, api_groups_update_lem}
use t_log.Admin.Invariant.{IsValid}
use t_log.Admin.Requests.{groups_create, handle, request}
use t_log.Admin.Requests.Guarded.{Handled, request-Handled}
use t_log.Admin.Requests.Reach.{here, next, step, Reach-IsValid}

abbrev ops : StoredGroup
ops = record {
  members = some ("bob" ∷ []);
  ad_groups = none;
  allowed_tabs = some ("log_search" ∷ []);
  adom_restrict = some true;
  allowed_adoms = some ("lab" ∷ []);
}

abbrev ann : StoredUser
ann = record { password_hash = some "h"; role = some "admin" }

abbrev accounts : Dict StoredUser
accounts = ("ann", ann) ∷ []

abbrev stored : Groups
stored = record {
  file = contents (("ops", ops) ∷ []);
  known_tabs = ("log_search", "Log Search") ∷ ("admin", "Admin") ∷ [];
}

abbrev site : Site
site = record {
  app = record {
    users_file = contents accounts;
    groups = stored;
    checker = none;
    lifetime = 36000;
    now = 5000;
  };
  targets = missing;
  tokens = missing;
  settings = missing;
  log = record { buffer = []; current_level = "WARN" };
}

abbrev session : Session
session = record {
  user = some "ann";
  role = some "admin";
  auth_source = some "local";
  login_at = some 4000;
  sso_login_at = none;
  ad_groups = [];
  allowed_tabs = "log_search" ∷ "admin" ∷ [];
}

-- Only the members are given.
abbrev body : GroupBody
body = record {
  name = none;
  members = some ("zoe" ∷ []);
  ad_groups = none;
  allowed_tabs = none;
  adom_restrict = none;
  allowed_adoms = none;
}

abbrev noc : GroupBody
noc = record body { name = some " noc " }

abbrev noc_group : Group
noc_group = record {
  name = "noc";
  members = "zoe" ∷ [];
  ad_groups = [];
  allowed_tabs = [];
  adom_restrict = false;
  allowed_adoms = [];
}

abbrev noc_stored : StoredGroup
noc_stored = record {
  members = some ("zoe" ∷ []);
  ad_groups = some [];
  allowed_tabs = some [];
  adom_restrict = some false;
  allowed_adoms = some [];
}

abbrev grown : Groups
grown = record stored { file = contents (("ops", ops) ∷ ("noc", noc_stored) ∷ []) }

abbrev site_after : Site
site_after = record site { app = record site.app { groups = grown } }

run : Unit {0}
unfolding load_or_raise load_or_default strip starts_with get put values keys member add update
    meets load_users load save get_group create_group update_group group_to_dict get_allowed_tabs
    belongs stored_admin sso_valid admin_required app_log noted with_groups fields_or
    api_groups_update api_groups_create handle request
run = tt

create_run :
    request ascii (λ s. s) "t" "/admin/api/groups" session (groups_create noc) site
    ≡ ok (site_after, session, some (json 201 (group (some noc_group))))
unfolding run
create_run = refl

-- An administrator creates a group; the level of the log keeps the entry out.
request-Handled_example :
    ((site_after ≡ site)
      × (◌≡◌ {A = Option Response} (some (json 201 (group (some noc_group)))) none))
    ⊎ ((is_admin ann.role ≡ true)
        × Handled ascii
            (λ s. s)
            "t"
            session
            site
            site_after
            (some (json 201 (group (some noc_group)))))
unfolding run
request-Handled_example =
    request-Handled ascii (λ s. s) "t" "/admin/api/groups" "ann" accounts ann session session
      (groups_create noc) site site_after (some (json 201 (group (some noc_group)))) refl refl refl
      refl refl

site-IsValid : IsValid site
unfolding run
site-IsValid = record {
  groups = record {
    content = λ d e.
        let same : ◌≡◌ {A = Dict StoredGroup} (("ops", ops) ∷ []) d = cc e in
        rw (← same)
          (record { unique = (refl, tt); named = ((refl, ground (arith, eq_iff "ops" "")), tt) });
  };
  log = omega arith;
}

Reach-IsValid_example : IsValid site_after
unfolding run
Reach-IsValid_example =
    Reach-IsValid ascii (λ s. s) {start = site} site-IsValid
      (next here (
        step "t" "/admin/api/groups" session session (groups_create noc)
          (some (json 201 (group (some noc_group)))) refl))

api_groups_update_lem_example :
    (g : Groups) × (api_groups_update ascii "ann" "t" "ops" body site
      ≡ ok (
        noted ascii "ann" "t" "Group updated"
            (("group", "ops") ∷ [])
            (with_groups ascii "ann" "t" site g),
        json 200 (
            group (
              some (
                as_group "ops"
                  (changed ascii "ann" "t" "ops" body site (group_to_dict "ops" ops))))),
      ))
    × Written stored "ops" (changed ascii "ann" "t" "ops" body site (group_to_dict "ops" ops)) g
unfolding run
api_groups_update_lem_example =
    api_groups_update_lem ascii "ann" "t" "ops" body site (group_to_dict "ops" ops)
      (("ops", ops) ∷ []) refl refl
