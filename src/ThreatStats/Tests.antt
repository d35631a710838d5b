-- ===== src/ThreatStats/Tests.antt =====
-- A poll cycle over two targets, and the theorems on it.
use t_log.Shared.{
  ◌≤◌, Bool, true, false, not, ◌&&◌, none, some, List, [], ◌∷◌, String, ◌≡◌, refl, any, length,
}
use t_log.Shared.Text.{ascii, strip}
use t_log.Shared.Dict.{get, put}
use t_log.Shared.Sets.{eq_string, member, add, update}
use t_log.Shared.Sort.{sorted}
use t_log.FazErrors.{faz_error}
use t_log.LogUsage.{got, raised}
use t_log.ThreatStats.{
  Key, key_eq, eq_key, Top, TunnelRow, BySeverity, Answers, Stats, sum, tunnel_name, tunnel_up,
  names_of, up_names_of, users_now, poll_one_target, merge_top_lists,
}
use t_log.ThreatStats.Fleet.{
  State, empty_cache, Target, union_of, down_names, combine, collect, poll_all_targets,
}
use t_log.ThreatStats.Fleet.Tunnels.{down_names_lem}

abbrev tunnel : String → Bool → TunnelRow
tunnel name ended = record { dvid = "d"; vpnname = name; tunnelid = "7"; ended = ended }

abbrev answers : List TunnelRow → Top → Answers
answers tunnels top = record {
  alert_counts = λ filter. got 2;
  types = got (record { type_name = " ips "; count = 9; blocked_sessions = 3 } ∷ []);
  signatures = got top;
  countries = got top;
  admin_logins = got (record { fortigate = "fw"; login_num = 4; login_fail_num = 1 } ∷ []);
  failed_auth = got top;
  business = some (got (record { fortigate = "fw"; login_num = 6; login_fail_num = 0 } ∷ []));
  site_to_site = got tunnels;
  ssl_dialup = got (record { dvid = "d"; f_user = "ann"; ended = false } ∷ []);
}

abbrev target : String → Answers → Target
target label a = record { label = label; host = "h"; threat_poll_enabled = true; answers = a }

-- "hq" is closed at the first target and open at the second one; "lab" is closed at both.
abbrev fleet : List Target
fleet =
    target "one" (answers (tunnel "hq" true ∷ tunnel "lab" true ∷ []) (("x", 1) ∷ ("y", 5) ∷ []))
    ∷ target "two" (answers (tunnel "hq" false ∷ tunnel "lab" true ∷ []) (("x", 7) ∷ []))
    ∷ target "three" (record (answers [] []) { countries = raised (faz_error "down") })
    ∷ []

abbrev none_yet : BySeverity
none_yet = record { critical = 0; high = 0; medium = 0; low = 0 }

abbrev before : State
before = record { cache = empty_cache; stored = none; rollups = [] }

abbrev stats_of : List Key → List Key → Stats
stats_of names up = record {
  alerts_unacked_total = 0;
  alerts_unacked_by_severity = none_yet;
  ips_detections_24h = 0;
  ips_blocked_24h = 0;
  top_signatures = [];
  top_source_countries = [];
  failed_admin_logins_24h = 0;
  devices_with_failed_login_names = [];
  top_failed_sources = [];
  admin_logins_outside_hours_24h = 0;
  ipsec_tunnel_names = names;
  ipsec_tunnel_up_names = up;
  ssl_vpn_users_now_names = [];
}

poll_run : Unit {0}
unfolding poll_all_targets collect combine poll_one_target update names_of tunnel_up tunnel_name
    key_eq add member up_names_of users_now merge_top_lists sorted put get sum strip
poll_run = tt

poll_tests :
    let after = (poll_all_targets ascii "now" "cutoff" fleet before).cache in
    (after.ipsec_tunnels_total ≡ 2)
    × (after.ipsec_tunnels_down ≡ 1)
    × (after.ssl_vpn_users_now ≡ 1)
    × (after.top_signatures ≡ ("x", 8) ∷ ("y", 5) ∷ [])
    × (after.admin_logins_outside_hours_24h ≡ 0)
    × (after.alerts_unacked_total ≡ 4)
    × (after.ips_detections_24h ≡ 18)
    × (poll_all_targets ascii "now" "cutoff" [] before ≡ before)
unfolding poll_run
poll_tests = (refl, refl, refl, refl, refl, refl, refl, refl)

abbrev reports : List Stats
reports =
    stats_of (("d", "hq") ∷ []) []
    ∷ stats_of (("d", "hq") ∷ ("d", "lab") ∷ []) (("d", "hq") ∷ [])
    ∷ []

down_names_lem_example :
    (member ("d", "lab") (down_names reports) ≡ (
      any (λ (r : Stats). member ("d", "lab") r.ipsec_tunnel_names) reports
      && not (any (λ (r : Stats). member ("d", "lab") r.ipsec_tunnel_up_names) reports)))
    × (length (down_names reports)
        ≤ length (union_of (λ (r : Stats). r.ipsec_tunnel_names) reports))
down_names_lem_example = down_names_lem ("d", "lab") reports
