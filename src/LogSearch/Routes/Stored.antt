-- ===== src/LogSearch/Routes/Stored.antt =====
-- Rows of logs go only to the users whom users.json and groups.json allow.
use t_log.Shared.{
  true, false, ◌||◌, some, List, String, ◌==◌, default, ◌≡◌, inl, inr, any, ok, Bool-cases,
  steps_of_ok, sym, ◌∙◌,
}
use t_log.Shared.Text.{Unicode}
use t_log.Shared.Decimal.{Digits}
use t_log.Shared.Dict.{Dict, get, values}
use t_log.Users.{StoredUser, load_users}
use t_log.Groups.{StoredGroup, load}
use t_log.Groups.Access.{is_admin, stored_admin}
use t_log.Groups.Access.Rules.{gives_tab, gives_adom}
use t_log.Sessions.{Session, App, tab_required, check_adom_access}
use t_log.Sessions.Guards.{Valid, role-passed, tab_required-stored, tab_required-kept}
use t_log.Sessions.Local.{check_adom_access-gives_adom}
use t_log.Targets.{Target, TargetsFile, get_target}
use t_log.AppLog.{Log}
use t_log.LogUsage.{got}
use t_log.FazSearch.{Found}
use t_log.LogSearch.{IpLibrary}
use t_log.LogSearch.Prepare.{SearchBody, Query}
use t_log.LogSearch.Routes.{Connection, SearchClient, done, client_for, search_if, search_route}
use t_log.LogSearch.Prepare.Asked.{Asked}
use t_log.LogSearch.Routes.Access.{search_on, api_search-done, search_if-done}

module _ (u : Unicode) (ip : IpLibrary) (d : Digits) (app : App) (path : String)
    (targets : TargetsFile) (connect : Connection → SearchClient) (user : String) (e : StoredUser)
    (groups : Dict StoredGroup) where
  -- What stands behind an answer with rows: who asked, for which target, and what was searched.
  pub record Answered (s : Session) (b : SearchBody) (f : Found) : Type 0 where
    pub valid : Valid app path s
    pub tab :
        (is_admin e.role || any (gives_tab user s.ad_groups "log_search") (values groups)) ≡ true
    pub adom :
        (is_admin e.role || any (gives_adom user s.ad_groups (default b.target "")) (values groups))
        ≡ true
    pub t : Target
    pub q : Query
    pub c : Connection
    pub target : get_target targets (default b.target "") ≡ some t
    pub asked : Asked u ip d b q
    pub connected : client_for t ≡ got c
    pub answered : search_on u ip d connect c q ≡ got f

module _ (u : Unicode) (ip : IpLibrary) (d : Digits) (app : App) (path : String)
    (targets : TargetsFile) (connect : Connection → SearchClient) (now user : String)
    (filled : (user == "") ≡ false) (users : Dict StoredUser)
    (stored : load_users app.users_file ≡ ok users) (e : StoredUser)
    (entry : get user users ≡ some e) (groups : Dict StoredGroup)
    (loaded : load app.groups ≡ ok groups) where
  -- The ADOM check of the session that `tab_required` leaves, read in the two stores.
  check_adom-stored :
      (s : Session) (ad_groups : List String) (adom : String)
      → s.user ≡ some user
      → s.ad_groups ≡ ad_groups
      → s.role ≡ some (default e.role "viewer")
      → check_adom_access app path adom s ≡ ok false
      → (is_admin e.role || any (gives_adom user ad_groups adom) (values groups)) ≡ true
  check_adom-stored s ad_groups adom named same role h = elim (Bool-cases (is_admin e.role)) [
    | inl y ↦ rw y
    | inr n ↦
        let viewer : stored_admin (get user users) ≡ false = rw entry (unfold stored_admin in n) in
        let given =
          check_adom_access-gives_adom app path user filled users stored s adom groups named
            (rw (role, role-passed e) n) viewer loaded in
        elim (Bool-cases (any (gives_adom user ad_groups adom) (values groups))) [
          | inl y ↦ rw (n, y)
          | inr no_group ↦ absurd (cc (rw (same, no_group) at (sym h ∙ given)))
        ]
  ]

  -- Rows are returned only where the session is valid, its user is an administrator in users.json
  -- or belongs to groups of groups.json that list the tab and give the ADOM, the target is
  -- configured, both times and a source or destination address are given, and the client of that
  -- target answered the rows to the expression built from the parsed boxes. The user has an entry in
  -- users.json, and groups.json can be read.
  pub search_route-Answered :
      (s s' : Session) (b : SearchBody) (l l' : Log) (f : Found)
      → s.user ≡ some user
      → search_route u ip d app path targets connect now s b l ≡ ok (s', l', some (done f))
      → Answered u ip d app path targets connect user e groups s b f
  unfolding search_route
  search_route-Answered s s' b l l' f named h =
      let (checked, last, first) =
        steps_of_ok (tab_required app path "log_search" s)
          (search_if u ip d app path targets connect now b l) h in
      let (passed, searched) =
        search_if-done u ip d app path targets connect now b l l' s' f checked last in
      let through = rw passed at first in
      let (valid, tab) =
        tab_required-stored app path user filled users stored "log_search" s s' e groups named entry
          loaded through in
      let (kept, ad_groups, role) =
        tab_required-kept app path user filled users stored "log_search" s s' e named entry
          through in
      let (t, q, c, permitted, target, asked, connected, answered) =
        api_search-done u ip d app path targets connect now s' b l l' f searched in
      record {
        valid = valid;
        tab = tab;
        adom = check_adom-stored s' s.ad_groups (default b.target "") kept ad_groups role permitted;
        t = t;
        q = q;
        c = c;
        target = target;
        asked = asked;
        connected = connected;
        answered = answered;
      }
