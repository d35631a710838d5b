-- ===== src/ThreatStats/Fleet/Tunnels.antt =====
-- Which tunnels count as down, over the rows of one target and over the fleet.
use t_log.Shared.{
  ◌≤◌, Bool, true, false, not, ◌&&◌, ◌||◌, List, [], ◌∷◌, ◌==◌, ◌≡◌, refl, ◌∙◌, any, length,
  length-keep-le, arith, Bool-cases, inl, inr,
}
use t_log.Shared.Sets.{Eq, eq_string, member, member-update, member-minus}
use t_log.ThreatStats.{
  Key, key_eq, key_eq_iff, eq_key, TunnelRow, tunnel_name, tunnel_key, mark, tunnel_up, names_of,
  up_names_of, Stats,
}
use t_log.ThreatStats.Fleet.{union_of, down_names}

-- A row of the tunnel, and one whose session is open.
abbrev pub of_tunnel : Key → TunnelRow → Bool
of_tunnel k r = not (tunnel_name r == "") && key_eq (tunnel_key r) k

abbrev pub open_of : Key → TunnelRow → Bool
open_of k r = of_tunnel k r && not r.ended

abbrev named : Key → Key × Bool → Bool
named j e = key_eq e.0 j

abbrev is_up : Key → Key × Bool → Bool
is_up j e = key_eq e.0 j && e.1

member-names_of : (j : Key) (d : List (Key × Bool)) → member j (names_of d) ≡ any (named j) d
unfolding names_of member
member-names_of j [] = refl
member-names_of j ((k, up) ∷ d) = ground (arith, member-names_of j d)

member-up_names_of : (j : Key) (d : List (Key × Bool)) → member j (up_names_of d) ≡ any (is_up j) d
unfolding up_names_of member
member-up_names_of j [] = refl
member-up_names_of j ((k, true) ∷ d) = ground (arith, member-up_names_of j d)
member-up_names_of j ((k, false) ∷ d) = ground (arith, member-up_names_of j d)

any-mark :
    (j k : Key) (is_open : Bool) (d : List (Key × Bool))
    → (any (named j) (mark k is_open d) ≡ (any (named j) d || key_eq k j))
      × (any (is_up j) (mark k is_open d) ≡ (any (is_up j) d || (key_eq k j && is_open)))
unfolding mark
any-mark j k is_open [] = (ground arith, ground arith)
any-mark j k is_open ((i, up) ∷ d) =
    let (names, ups) = any-mark j k is_open d in
    elim (Bool-cases (key_eq i k)) [
      | inl e ↦ let same : i ≡ k = (key_eq_iff i k).0 e in rw (e, same) (ground arith, ground arith)
      | inr e ↦ rw (e, names, ups) (ground arith, ground arith)
    ]

any-tunnel_up :
    (j : Key) (d : List (Key × Bool)) (rows : List TunnelRow)
    → (any (named j) (tunnel_up d rows) ≡ (any (named j) d || any (of_tunnel j) rows))
      × (any (is_up j) (tunnel_up d rows) ≡ (any (is_up j) d || any (open_of j) rows))
unfolding tunnel_up
any-tunnel_up j d [] = (ground arith, ground arith)
any-tunnel_up j d (r ∷ rows) = elim (Bool-cases (tunnel_name r == "")) [
  | inl blank ↦
      let (names, ups) = any-tunnel_up j d rows in
      rw (blank, names, ups) (ground arith, ground arith)
  | inr filled ↦
      let (names, ups) = any-tunnel_up j (mark (tunnel_key r) (not r.ended) d) rows in
      let (marked, marked_up) = any-mark j (tunnel_key r) (not r.ended) d in
      rw (filled, names, ups, marked, marked_up) (ground arith, ground arith)
]

-- Of the rows of one target, a tunnel is seen exactly when a row with its device and its name, which
-- is not empty, is there, and it is up exactly when such a row has no end time.
pub tunnel_up_lem :
    (j : Key) (rows : List TunnelRow)
    → (member j (names_of (tunnel_up [] rows)) ≡ any (of_tunnel j) rows)
      × (member j (up_names_of (tunnel_up [] rows)) ≡ any (open_of j) rows)
tunnel_up_lem j rows =
    let (names, ups) = any-tunnel_up j [] rows in
    (member-names_of j _ ∙ names, member-up_names_of j _ ∙ ups)

member-union_of :
    {A : Type 0} ⦃e : Eq A⦄ (a : A) (f : Stats → List A) (results : List Stats)
    → member a (union_of f results) ≡ any (λ r. member a (f r)) results
unfolding union_of member
member-union_of a f [] = refl
member-union_of a f (r ∷ results) =
    ground (arith, member-update a (union_of f results) (f r), member-union_of a f results)

-- Over the fleet a tunnel is down exactly when some target saw it and none saw it up, and never more
-- tunnels are down than were seen.
pub down_names_lem :
    (k : Key) (results : List Stats)
    → (member k (down_names results) ≡ (
        any (λ (r : Stats). member k r.ipsec_tunnel_names) results
        && not (any (λ (r : Stats). member k r.ipsec_tunnel_up_names) results)))
      × (length (down_names results)
          ≤ length (union_of (λ (r : Stats). r.ipsec_tunnel_names) results))
unfolding down_names
down_names_lem k results = (
  member-minus k (union_of seen results) (union_of up results)
      ∙ rw (member-union_of k seen results, member-union_of k up results) refl,
  length-keep-le _ (union_of (λ (r : Stats). r.ipsec_tunnel_names) results),
)
  where
    seen : Stats → List Key
    seen r = r.ipsec_tunnel_names

    up : Stats → List Key
    up r = r.ipsec_tunnel_up_names
