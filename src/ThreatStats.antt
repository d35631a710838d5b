-- ===== src/ThreatStats.antt =====
-- app/threat_stats_cache.py: what one FortiAnalyzer reports on threats, admin logins and VPN, and the
-- figures over the whole fleet. The rows of a FortiView are records of the fields that are read, a
-- missing text being the empty one and a count that is missing or null being 0; the time ranges and
-- the requests are part of the answers.
pub mod Merge
pub mod Fleet
pub mod Hours
mod Tests
use t_log.Shared.{
  ℕ, zero, suc, ◌+◌, ◌-◌, ◌*◌, ◌≡◌, ◌↔◌, Bool, true, false, not, ◌&&◌, ◌||◌, Option, none, some,
  List, [], ◌∷◌, ◌++◌, String, ◌==◌, eq_iff, eq_refl, ap, ◌∙◌, if◌then◌else◌, default, leb, ltb,
  keep, take, length, arith,
}
use t_log.Shared.Text.{strip, Unicode}
use t_log.Shared.Dict.{Dict, get, put}
use t_log.Shared.Sets.{Eq, eq_string, member, add, discard, update}
use t_log.Shared.Sort.{sorted}
use t_log.LogUsage.{Reply, got, raised}

infixl 5 ◌>>=◌
abbrev pub ◌>>=◌ {ℓ κ} : {A : Type ℓ} {B : Type κ} → Reply A → (A → Reply B) → Reply B
raised e >>= next = raised e
got a >>= next = next a

-- The identity of a tunnel or a user: the device and the name.
abbrev pub Key : Type 0
Key = String × String

pub key_eq : Key → Key → Bool
key_eq a b = a.0 == b.0 && a.1 == b.1

pub key_eq_iff : (a b : Key) → (key_eq a b ≡ true) ↔ (a ≡ b)
unfolding key_eq
key_eq_iff (a, b) (c, d) = (
  λ h.
      let p : a ≡ c = (eq_iff a c).0 (ground (arith, h)) in
      let q : b ≡ d = (eq_iff b d).0 (ground (arith, h)) in ap (λ x. (x, b)) p ∙ ap (λ y. (c, y)) q,
  λ h.
      let p : a ≡ c = ap (λ (k : Key). k.0) h in
      let q : b ≡ d = ap (λ (k : Key). k.1) h in ground (arith, (eq_iff a c).1 p, (eq_iff b d).1 q),
)

instance abbrev pub eq_key : Eq Key
eq_key = record { beq = key_eq; beq_iff = key_eq_iff }

-- Rows of the views "top-type", "admin-logins", "site-to-site-ipsec" and "ssl-dialup-ipsec"; `ended`
-- is whether the row has an end time.
pub record TypeRow : Type 0 where
  pub type_name : String
  pub count : ℕ
  pub blocked_sessions : ℕ

pub record LoginRow : Type 0 where
  pub fortigate : String
  pub login_num : ℕ
  pub login_fail_num : ℕ

pub record TunnelRow : Type 0 where
  pub dvid : String
  pub vpnname : String
  pub tunnelid : String
  pub ended : Bool

pub record UserRow : Type 0 where
  pub dvid : String
  pub f_user : String
  pub ended : Bool

-- A top list: a name and its count.
abbrev pub Top : Type 0
Top = List (String × ℕ)

pub record BySeverity : Type 0 where
  pub critical : ℕ
  pub high : ℕ
  pub medium : ℕ
  pub low : ℕ

-- What the client of one target answers, in the order of the requests; `business` is `none` where
-- the business hours have not begun.
pub record Answers : Type 0 where
  pub alert_counts : String → Reply ℕ
  pub types : Reply (List TypeRow)
  pub signatures : Reply Top
  pub countries : Reply Top
  pub admin_logins : Reply (List LoginRow)
  pub failed_auth : Reply Top
  pub business : Option (Reply (List LoginRow))
  pub site_to_site : Reply (List TunnelRow)
  pub ssl_dialup : Reply (List UserRow)

-- What `_poll_one_target` returns.
pub record Stats : Type 0 where
  pub alerts_unacked_total : ℕ
  pub alerts_unacked_by_severity : BySeverity
  pub ips_detections_24h : ℕ
  pub ips_blocked_24h : ℕ
  pub top_signatures : Top
  pub top_source_countries : Top
  pub failed_admin_logins_24h : ℕ
  pub devices_with_failed_login_names : List String
  pub top_failed_sources : Top
  pub admin_logins_outside_hours_24h : ℕ
  pub ipsec_tunnel_names : List Key
  pub ipsec_tunnel_up_names : List Key
  pub ssl_vpn_users_now_names : List Key

-- `sum(f(r) for r in rows)`
pub sum {ℓ} : {A : Type ℓ} → (A → ℕ) → List A → ℕ
sum f [] = 0
sum f (x ∷ xs) = f x + sum f xs

-- `row.get("vpnname") or row.get("tunnelid") or ""`
pub tunnel_name : TunnelRow → String
tunnel_name r = if r.vpnname == "" then r.tunnelid else r.vpnname

abbrev pub tunnel_key : TunnelRow → Key
tunnel_key r = (r.dvid, tunnel_name r)

-- `tunnel_up[key] = tunnel_up.get(key, False) or is_open`
mark : Key → Bool → List (Key × Bool) → List (Key × Bool)
mark k is_open [] = (k, is_open) ∷ []
mark k is_open ((j, up) ∷ d) =
    let rest = mark k is_open d in if key_eq j k then (j, up || is_open) ∷ d else (j, up) ∷ rest

-- The loop over the rows of the tunnels; a row without a name is skipped.
pub tunnel_up : List (Key × Bool) → List TunnelRow → List (Key × Bool)
unfolding mark
tunnel_up d [] = d
tunnel_up d (r ∷ rows) =
    tunnel_up (if tunnel_name r == "" then d else mark (tunnel_key r) (not r.ended) d) rows

-- `set(tunnel_up.keys())`, and the keys whose value is true
pub names_of : List (Key × Bool) → List Key
names_of [] = []
names_of ((k, up) ∷ d) = k ∷ names_of d

pub up_names_of : List (Key × Bool) → List Key
up_names_of [] = []
up_names_of ((k, up) ∷ d) = let rest = up_names_of d in if up then k ∷ rest else rest

pub users_now : List UserRow → List Key
users_now [] = []
users_now (r ∷ rows) =
    let rest = users_now rows in
    if not r.ended && not (r.f_user == "") then update ((r.dvid, r.f_user) ∷ []) rest else rest

failed_names : List LoginRow → List String
failed_names [] = []
failed_names (r ∷ rows) =
    let rest = failed_names rows in
    if ltb 0 r.login_fail_num then update (r.fortigate ∷ []) rest else rest

module _ (u : Unicode) where
  first_ips : List TypeRow → Option TypeRow
  first_ips [] = none
  first_ips (r ∷ rows) =
      let rest = first_ips rows in if u.lower (strip r.type_name) == "ips" then some r else rest

  logins_of : Option (Reply (List LoginRow)) → Reply ℕ
  logins_of none = got 0
  logins_of (some rows) = do rs ← rows; got (sum (λ (r : LoginRow). r.login_num) rs)

  unfoldable pub poll_one_target : Answers → Reply Stats
  unfolding first_ips logins_of failed_names
  poll_one_target a = do
    total ← a.alert_counts "ackflag=no"
    critical ← a.alert_counts "ackflag=no and severity=critical"
    high ← a.alert_counts "ackflag=no and severity=high"
    medium ← a.alert_counts "ackflag=no and severity=medium"
    low ← a.alert_counts "ackflag=no and severity=low"
    types ← a.types
    signatures ← a.signatures
    countries ← a.countries
    admin_logins ← a.admin_logins
    failed_auth ← a.failed_auth
    business_logins ← logins_of a.business
    tunnels ← a.site_to_site
    users ← a.ssl_dialup
    let ips = first_ips types
    let up = tunnel_up [] tunnels
    got (record {
      alerts_unacked_total = total;
      alerts_unacked_by_severity = record {
        critical = critical;
        high = high;
        medium = medium;
        low = low;
      };
      ips_detections_24h = elim ips [ none ↦ 0 | some r ↦ r.count ];
      ips_blocked_24h = elim ips [ none ↦ 0 | some r ↦ r.blocked_sessions ];
      top_signatures = signatures;
      top_source_countries = countries;
      failed_admin_logins_24h = sum (λ (r : LoginRow). r.login_fail_num) admin_logins;
      devices_with_failed_login_names = discard "" (failed_names admin_logins);
      top_failed_sources = failed_auth;
      admin_logins_outside_hours_24h =
          sum (λ (r : LoginRow). r.login_num) admin_logins - business_logins;
      ipsec_tunnel_names = names_of up;
      ipsec_tunnel_up_names = up_names_of up;
      ssl_vpn_users_now_names = users_now users;
    })

-- The totals of `_merge_top_lists` over the rows of every list.
add_rows : Top → Dict ℕ → Dict ℕ
add_rows [] totals = totals
add_rows ((name, count) ∷ rows) totals =
    add_rows rows (put name (default (get name totals) 0 + count) totals)

pub totals_of : List Top → Dict ℕ → Dict ℕ
unfolding add_rows
totals_of [] totals = totals
totals_of (rows ∷ lists) totals = totals_of lists (add_rows rows totals)

-- `sorted(..., key=lambda kv: kv[1], reverse=True)` keeps the order of equal counts.
abbrev pub count_ge : String × ℕ → String × ℕ → Bool
count_ge a b = leb b.1 a.1

pub merge_top_lists : List Top → ℕ → Top
unfolding totals_of
merge_top_lists lists limit = take limit (sorted count_ge (totals_of lists []))
