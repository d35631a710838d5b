-- ===== src/LogSearch/Tests.antt =====
-- Runs of the filter boxes with IPv4 addresses, and the theorems on them.
use t_log.Shared.{
  ◌+◌, ◌*◌, ◌/◌, Bool, ◌&&◌, List, [], ◌∷◌, String, if◌then◌else◌, leb, ◌≡◌, refl, Result, ok, err,
  value_error,
}
use Prim.Native.Nat.{◌%◌}
use Prim.Native.String.{◌++◌ as append}
use t_log.Shared.Text.{ascii, split, strip}
use t_log.Shared.Decimal.{
  is_numeral, number, decimal, ascii_digits, ascii_digits-ReadsAscii, number-decimal,
}
use t_log.LogSearch.{
  Address, IpLibrary, split_entries, parse_ip_entries, parse_port_entries, ip_clause, port_clause,
}
use t_log.LogSearch.Clauses.{
  Parsed, wanted, PortClause, IpClause, parse_port_entries_lem, parse_ip_entries_lem,
}

is_octet : String → Bool
is_octet s = is_numeral ascii_digits s && leb (number ascii_digits s) 255

address_of : List String → Result Address
unfolding is_octet
address_of (a ∷ b ∷ c ∷ d ∷ []) =
    let n = number ascii_digits in
    if is_octet a && (is_octet b && (is_octet c && is_octet d))
    then ok (record { version = 4; value = ((n a * 256 + n b) * 256 + n c) * 256 + n d })
    else err (value_error "not an address")
address_of _ = err (value_error "not an address")

-- Dotted quads; a network is kept as it is written.
unfoldable pub v4 : IpLibrary
unfolding address_of
v4 = record {
  ip_address = λ s. address_of (split b'.' s);
  ip_network = λ s. ok s;
  text = λ a.
      let n = a.value in
      append (decimal (n / 16777216)) (
        append "." (
          append (decimal (n / 65536 % 256))
            (append "." (append (decimal (n / 256 % 256)) (append "." (decimal (n % 256)))))));
}

boxes_run : Unit {0}
unfolding parse_ip_entries parse_port_entries v4 strip split decimal number ascii_digits
boxes_run = tt

port_tests :
    (parse_port_entries ascii_digits ascii "443, any,TCP:1-65535 ,udp:53,Web-Access"
      ≡ ok (
          "dstport==443" ∷ "(dstport>=1 and dstport<=65535)" ∷ "dstport==53"
          ∷ "service==\"Web-Access\"" ∷ []))
    × (parse_port_entries ascii_digits ascii "tcp:9-1"
        ≡ err (value_error "Invalid port range 'tcp:9-1': start must not be greater than end"))
    × (parse_port_entries ascii_digits ascii "a\"b"
        ≡ err (value_error "Invalid port/service entry 'a\"b'"))
unfolding boxes_run
port_tests = (refl, refl, refl)

ip_tests :
    (parse_ip_entries v4 "srcip" ascii "10.0.0.1 - 10.0.1.0, all,10.0.0.0/8,1.2.3.4"
      ≡ ok ("(srcip>=10.0.0.1 and srcip<=10.0.1.0)" ∷ "srcip==10.0.0.0/8" ∷ "srcip==1.2.3.4" ∷ []))
    × (parse_ip_entries v4 "srcip" ascii "10.0.0.2-10.0.0.1"
        ≡ err (
            value_error "Invalid IP range '10.0.0.2-10.0.0.1': start must not be greater than end"))
    × (parse_ip_entries v4 "srcip" ascii "10.0.0.256"
        ≡ err (value_error "Invalid IP/CIDR '10.0.0.256': not an address"))
unfolding boxes_run
ip_tests = (refl, refl, refl)

parse_port_entries_lem_example :
    Parsed
      (PortClause ascii_digits)
      (port_clause ascii_digits)
      (wanted ascii (split_entries "443, any,tcp:1-65535"))
      (parse_port_entries ascii_digits ascii "443, any,tcp:1-65535")
parse_port_entries_lem_example = parse_port_entries_lem ascii_digits ascii "443, any,tcp:1-65535"

parse_ip_entries_lem_example :
    Parsed
      (IpClause v4 "srcip")
      (ip_clause v4 "srcip")
      (wanted ascii (split_entries "1.2.3.4, all"))
      (parse_ip_entries v4 "srcip" ascii "1.2.3.4, all")
parse_ip_entries_lem_example = parse_ip_entries_lem v4 "srcip" ascii "1.2.3.4, all"

number-decimal_test : number ascii_digits (decimal 8080) ≡ 8080
number-decimal_test = number-decimal ascii_digits ascii_digits-ReadsAscii 8080
