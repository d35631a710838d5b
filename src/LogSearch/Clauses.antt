-- ===== src/LogSearch/Clauses.antt =====
-- What the clauses of an accepted filter box look like, and which boxes are refused.
use t_log.Shared.{
  ℕ, ◌≤◌, true, not, ◌&&◌, Option, none, some, List, [], ◌∷◌, String, eq_refl, ◌≡◌, ◌⊎◌, inl, inr,
  refl, keep, Bool-cases, Result-cases, Result, Error, ok, err, ◌>>=◌, arith, ltb, nat_eq,
  ltb-false→le, steps_of_ok,
}
use t_log.Shared.Sets.{eq_string, member}
use t_log.Shared.Text.{Unicode}
use t_log.Shared.Decimal.{Digits, is_numeral, number}
use t_log.LogSearch.{
  Address, IpLibrary, split_entries, is_any, clauses_of, range_clause, ip_clause, equals, range_of,
  parse_ip_entries, port_clause, parse_port_entries, port_text, port_range_text, service_text,
  service_matches, range_or_single, single_clause, port_or_service, proto_port, after_protocol,
  refuse, or_refuse, has_char, range_end, ip_range, single_ip, before, after,
}

-- Two lists of the same length whose items are related one by one.
abbrev pub Each : (String → String → Type 0) → List String → List String → Type 0
Each R [] [] = Unit
Each R [] (c ∷ cs) = ⊥
Each R (entry ∷ entries) [] = ⊥
Each R (entry ∷ entries) (c ∷ cs) = R entry c × Each R entries cs

-- The entries that are not "any" or "all".
abbrev pub wanted : Unicode → List String → List String
wanted u entries = keep (λ entry. not (is_any u entry)) entries

-- The outcome of a loop: a clause for each entry, or the error of one of them.
abbrev pub Parsed :
    (String → String → Type 0)
    → (String → Result String)
    → List String
    → Result (List String)
    → Type 0
Parsed R clause entries outcome =
    ((cs : List String) × (outcome ≡ ok cs) × Each R entries cs)
    ⊎ ((entry : String) × (raised : Error) × (member entry entries ≡ true)
        × (clause entry ≡ err raised)
        × (outcome ≡ err raised))

module _ (u : Unicode) (clause : String → Result String) where
  clauses_of_lem :
      (R : String → String → Type 0) (entries : List String)
      → ((entry : String) (c : String) → clause entry ≡ ok c → R entry c)
      → Parsed R clause (wanted u entries) (clauses_of u clause entries)
  unfolding clauses_of member
  clauses_of_lem R [] shape = inl ([], refl, tt)
  clauses_of_lem R (entry ∷ entries) shape = elim (Bool-cases (is_any u entry)) [
    | inl skipped ↦ rw skipped (clauses_of_lem R entries shape)
    | inr kept ↦ rw kept (elim (Result-cases (clause entry)) [
      | inr (raised, bad) ↦ inr (entry, raised, rw eq_refl refl, bad, rw bad refl)
      | inl (c, good) ↦ elim (clauses_of_lem R entries shape) [
        | inl (cs, parsed, each) ↦ inl (c ∷ cs, rw (good, parsed) refl, (shape entry c good, each))
        | inr (other, raised, among, bad, stopped) ↦
            inr (other, raised, ground (arith, among), bad, rw (good, stopped) refl)
      ]
    ])
  ]

module _ (d : Digits) where
  -- The clause of an entry of the port box: a range in order, one port, or a service by its name.
  abbrev pub PortClause : String → String → Type 0
  PortClause entry c =
      ((lo : ℕ) × (hi : ℕ) × (lo ≤ hi) × (c ≡ port_range_text lo hi))
      ⊎ ((digits : String) × (is_numeral d digits ≡ true) × (c ≡ port_text digits))
      ⊎ ((service_matches entry ≡ true) × (c ≡ service_text entry))

  port_or_service-PortClause :
      (entry c : String) (rest : Option String)
      → port_or_service entry (proto_port d rest) ≡ ok c
      → PortClause entry c
  unfolding port_or_service proto_port refuse
  port_or_service-PortClause entry c none h = elim (Bool-cases (service_matches entry)) [
    | inl good ↦ inr (inr (good, ground arith))
    | inr bad ↦ absurd (ground arith)
  ]
  port_or_service-PortClause entry c (some rest) h = elim (Bool-cases (is_numeral d rest)) [
    | inl good ↦ inr (inl (rest, good, ground arith))
    | inr bad ↦ elim (Bool-cases (service_matches entry)) [
      | inl good ↦ inr (inr (good, ground arith))
      | inr wrong ↦ absurd (ground arith)
    ]
  ]

  single_clause-PortClause : (entry c : String) → single_clause d entry ≡ ok c → PortClause entry c
  unfolding single_clause
  single_clause-PortClause entry c h = elim (Bool-cases (is_numeral d entry)) [
    | inl good ↦ inr (inl (entry, good, ground arith))
    | inr other ↦ port_or_service-PortClause entry c (after_protocol entry) (rw other at h)
  ]

  range_or_single-PortClause :
      (entry c : String) (groups : Option (String × String))
      → range_or_single d entry groups ≡ ok c
      → PortClause entry c
  unfolding range_or_single refuse
  range_or_single-PortClause entry c none h = single_clause-PortClause entry c h
  range_or_single-PortClause entry c (some (a, b)) h =
      elim (Bool-cases (ltb (number d b) (number d a))) [
        | inl wrong ↦ absurd (ground arith)
        | inr good ↦
            inl (number d a, number d b, ltb-false→le (number d b) (number d a) good, ground arith)
      ]

  -- A port box is accepted with one clause for each entry that is not "any" or "all": a range whose
  -- start is not greater than its end, one port written in digits, or a service name of letters,
  -- digits and ". _ / + -" between quotes. Otherwise the box is refused with the error of one of
  -- these entries.
  pub parse_port_entries_lem :
      (u : Unicode) (raw : String)
      → Parsed PortClause
          (port_clause d)
          (wanted u (split_entries raw))
          (parse_port_entries d u raw)
  unfolding parse_port_entries port_clause
  parse_port_entries_lem u raw =
      clauses_of_lem u (port_clause d) PortClause (split_entries raw)
        (λ entry c h. range_or_single-PortClause entry c _ h)

module _ (ip : IpLibrary) (field : String) where
  -- The clause of an entry of an address box: one address or network that the library reads, or a
  -- range of two addresses of one version, in order.
  abbrev pub IpClause : String → String → Type 0
  IpClause entry c =
      ((start : Address) × (end : Address) × (start.version ≡ end.version)
        × (start.value ≤ end.value)
        × (c ≡ range_clause ip field start end))
      ⊎ ((network : String) × (ip.ip_network entry ≡ ok network) × (c ≡ equals ip field network))
      ⊎ ((address : Address) × (ip.ip_address entry ≡ ok address)
          × (c ≡ equals ip field (ip.text address)))

  range_of-IpClause :
      (entry c : String) (start end : Address)
      → range_of ip field entry start end ≡ ok c
      → IpClause entry c
  unfolding range_of refuse
  range_of-IpClause entry c start end h = elim (Bool-cases (nat_eq start.version end.version)) [
    | inr other ↦ absurd (ground arith)
    | inl same ↦ elim (Bool-cases (ltb end.value start.value)) [
      | inl wrong ↦ absurd (ground arith)
      | inr good ↦ inl (start, end, ground arith, ltb-false→le _ _ good, ground arith)
    ]
  ]

  ip_range-IpClause : (entry c : String) → ip_range ip field entry ≡ ok c → IpClause entry c
  unfolding ip_range
  ip_range-IpClause entry c h =
      let finish = λ (start : Address).
        range_end ip field entry (after b'-' entry) >>= range_of ip field entry start in
      let (start, rest, _) = steps_of_ok (range_end ip field entry (before b'-' entry)) finish h in
      let (end, done, _) =
        steps_of_ok (range_end ip field entry (after b'-' entry)) (range_of ip field entry start)
          rest in
      range_of-IpClause entry c start end done

  single_ip-IpClause : (entry c : String) → single_ip ip field entry ≡ ok c → IpClause entry c
  unfolding single_ip or_refuse
  single_ip-IpClause entry c h = elim (Bool-cases (has_char b'/' entry)) [
    | inl slash ↦ elim (Result-cases (ip.ip_network entry)) [
      | inl (network, found) ↦ inr (inl (network, found, ground arith))
      | inr (raised, bad) ↦ absurd (ground arith)
    ]
    | inr plain ↦ elim (Result-cases (ip.ip_address entry)) [
      | inl (address, found) ↦ inr (inr (address, found, ground arith))
      | inr (raised, bad) ↦ absurd (ground arith)
    ]
  ]

  ip_clause-IpClause : (entry c : String) → ip_clause ip field entry ≡ ok c → IpClause entry c
  unfolding ip_clause
  ip_clause-IpClause entry c h =
      elim (Bool-cases (has_char b'-' entry && not (has_char b'/' entry))) [
        | inl range ↦ ip_range-IpClause entry c (rw range at h)
        | inr single ↦ single_ip-IpClause entry c (rw single at h)
      ]

  -- An address box is accepted with one clause for each entry that is not "any" or "all": a network
  -- or an address that the library reads from it, or a range of two addresses of one version whose
  -- start is not greater than its end. Otherwise the box is refused with the error of one of these
  -- entries.
  pub parse_ip_entries_lem :
      (u : Unicode) (raw : String)
      → Parsed IpClause
          (ip_clause ip field)
          (wanted u (split_entries raw))
          (parse_ip_entries ip field u raw)
  unfolding parse_ip_entries
  parse_ip_entries_lem u raw =
      clauses_of_lem u (ip_clause ip field) IpClause (split_entries raw) ip_clause-IpClause
