-- ===== src/LogSearch.antt =====
-- app/log_search_filters.py: the filter boxes of Log Search, turned into clauses of a filter
-- expression. The standard library's `ipaddress` is a record: what `ip_address` and `ip_network` read
-- (or the text of their ValueError), and how an address and a network are written.
pub mod Clauses
pub mod Prepare
pub mod Routes
pub mod Tests
use Prim.Native.Char.{Char, code}
use Prim.Native.String.{◌++◌ as append}
use t_log.Shared.{
  ℕ, suc, ◌+◌, ltb, Bool, true, false, not, ◌&&◌, ◌||◌, Option, none, some, List, [], ◌∷◌, String,
  ◌==◌, if◌then◌else◌, nat_eq, keep, map, any, Result, ok, err, ◌>>=◌, value_error,
}
use t_log.Shared.Text.{Unicode, between, strip, split, drop_chars, starts_with, all_chars, any_char}
use t_log.Shared.Decimal.{Digits, is_numeral, number, decimal}

pub record Address : Type 0 where
  pub version : ℕ
  pub value : ℕ

pub record IpLibrary : Type 0 where
  pub ip_address : String → Result Address
  pub ip_network : String → Result String
  pub text : Address → String

abbrev pub has_char : ℕ → String → Bool
has_char k s = any_char (λ c. nat_eq (code c) k) s

-- The parts of `s.partition(c)` before and after the first `c`.
pub before : ℕ → String → String
before sep String.[] = ""
before sep (String.◌∷◌ c s) =
    let rest = before sep s in if nat_eq (code c) sep then "" else String.◌∷◌ c rest

pub after : ℕ → String → String
after sep String.[] = ""
after sep (String.◌∷◌ c s) = let rest = after sep s in if nat_eq (code c) sep then s else rest

-- `_split_entries`
pub split_entries : String → List String
split_entries raw = keep (λ entry. not (entry == "")) (map strip (split b',' raw))

pub refuse {ℓ} : {A : Type ℓ} → String → String → String → Result A
refuse what entry rest = err (value_error (append what (append entry rest)))

-- The handler of ValueError around a call of `ipaddress`.
or_refuse {ℓ} : {A : Type ℓ} → String → String → Result A → Result A
unfolding refuse
or_refuse what entry (err (value_error why)) = refuse what entry (append "': " why)
or_refuse what entry (err other) = err other
or_refuse what entry (ok a) = ok a

module _ (u : Unicode) where
  -- `entry.lower() in _ANY_VALUES`
  pub is_any : String → Bool
  is_any entry = u.lower entry == "any" || u.lower entry == "all"

  -- The loop over the entries, with the clause of one entry.
  pub clauses_of : (String → Result String) → List String → Result (List String)
  unfolding is_any
  clauses_of clause [] = ok []
  clauses_of clause (entry ∷ entries) =
      let rest = clauses_of clause entries in
      if is_any entry then rest else do c ← clause entry; cs ← rest; ok (c ∷ cs)

module _ (ip : IpLibrary) (field : String) where
  pub equals : String → String
  equals text = append field (append "==" text)

  -- `f"({field}>={start} and {field}<={end})"`
  pub range_clause : Address → Address → String
  range_clause start end = append "(" (
      append field (
        append ">=" (
          append (ip.text start)
            (append " and " (append field (append "<=" (append (ip.text end) ")")))))))

  range_of : String → Address → Address → Result String
  unfolding range_clause refuse
  range_of entry start end =
      if not (nat_eq start.version end.version)
      then refuse "Invalid IP range '" entry "': start and end must be the same IP version"
      else if ltb end.value start.value
      then refuse "Invalid IP range '" entry "': start must not be greater than end"
      else ok (range_clause start end)

  pub range_end : String → String → Result Address
  unfolding or_refuse
  range_end entry side = or_refuse "Invalid IP range '" entry (ip.ip_address (strip side))

  pub ip_range : String → Result String
  unfolding range_end range_of before after
  ip_range entry = do
    start ← range_end entry (before b'-' entry)
    end ← range_end entry (after b'-' entry)
    range_of entry start end

  pub single_ip : String → Result String
  unfolding or_refuse equals
  single_ip entry =
      if has_char b'/' entry
      then (do
        network ← or_refuse "Invalid IP/CIDR '" entry (ip.ip_network entry)
        ok (equals network))
      else (do
        address ← or_refuse "Invalid IP/CIDR '" entry (ip.ip_address entry)
        ok (equals (ip.text address)))

  -- One round of `parse_ip_entries`.
  pub ip_clause : String → Result String
  unfolding ip_range single_ip
  ip_clause entry =
      if has_char b'-' entry && not (has_char b'/' entry) then ip_range entry else single_ip entry

  pub parse_ip_entries : Unicode → String → Result (List String)
  unfolding split_entries clauses_of ip_clause
  parse_ip_entries u raw = clauses_of u ip_clause (split_entries raw)

-- `_PROTO_PORT_RE` and `_PROTO_RANGE_RE` up to the colon, in any case: the text after it.
lower_code : Char → ℕ
lower_code c = if between 65 90 (code c) then code c + 32 else code c

pub starts_nocase : String → String → Bool
unfolding lower_code
starts_nocase s String.[] = true
starts_nocase String.[] (String.◌∷◌ e t) = false
starts_nocase (String.◌∷◌ c s) (String.◌∷◌ e t) =
    nat_eq (lower_code c) (code e) && starts_nocase s t

pub after_protocol : String → Option String
unfolding starts_nocase drop_chars
after_protocol entry =
    if starts_nocase entry "tcp:" || starts_nocase entry "udp:"
    then some (drop_chars 4 entry)
    else none

pub is_service_char : Char → Bool
is_service_char c =
    between 97 122 (code c)
    || between 65 90 (code c)
    || between 48 57 (code c)
    || any (nat_eq (code c)) (b'.' ∷ b'_' ∷ b'/' ∷ b'+' ∷ b'-' ∷ [])

pub service_matches : String → Bool
unfolding is_service_char
service_matches entry = not (entry == "") && all_chars is_service_char entry

pub port_text : String → String
port_text digits = append "dstport==" digits

pub port_range_text : ℕ → ℕ → String
port_range_text start end =
    append "(dstport>="
      (append (decimal start) (append " and dstport<=" (append (decimal end) ")")))

pub service_text : String → String
service_text name = append "service==\"" (append name "\"")

port_or_service : String → Option String → Result String
unfolding refuse service_matches port_text service_text
port_or_service entry (some digits) = ok (port_text digits)
port_or_service entry none =
    if service_matches entry
    then ok (service_text entry)
    else refuse "Invalid port/service entry '" entry "'"

module _ (d : Digits) where
  -- The two groups of `(\d+)-(\d+)$`, where the text has that form.
  range_groups : List String → Option (String × String)
  range_groups (a ∷ b ∷ []) = if is_numeral d a && is_numeral d b then some (a, b) else none
  range_groups _ = none

  pub proto_range : Option String → Option (String × String)
  unfolding range_groups split
  proto_range none = none
  proto_range (some rest) = range_groups (split b'-' rest)

  pub proto_port : Option String → Option String
  proto_port none = none
  proto_port (some rest) = if is_numeral d rest then some rest else none

  -- The tests after the one for a range.
  single_clause : String → Result String
  unfolding port_or_service proto_port port_text
  single_clause entry =
      if is_numeral d entry
      then ok (port_text entry)
      else port_or_service entry (proto_port (after_protocol entry))

  range_or_single : String → Option (String × String) → Result String
  unfolding single_clause port_range_text refuse
  range_or_single entry none = single_clause entry
  range_or_single entry (some (a, b)) =
      if ltb (number d b) (number d a)
      then refuse "Invalid port range '" entry "': start must not be greater than end"
      else ok (port_range_text (number d a) (number d b))

  -- One round of `parse_port_entries`. An entry is stripped, so that no newline stands before `$`.
  pub port_clause : String → Result String
  unfolding range_or_single proto_range after_protocol
  port_clause entry = range_or_single entry (proto_range (after_protocol entry))

  pub parse_port_entries : Unicode → String → Result (List String)
  unfolding split_entries clauses_of port_clause
  parse_port_entries u raw = clauses_of u port_clause (split_entries raw)
