-- ===== src/LogUsage/Rows/Aggregate.antt =====
-- What one device adds to a log-usage answer, in terms of its rows.
use t_log.Shared.{
  Bool, true, false, not, ◌&&◌, ◌||◌, Option, none, some, List, [], ◌∷◌, String, ◌==◌, ◌≡◌, refl,
  if◌then◌else◌, is_some, length, any, arith, Bool-cases, inl, inr,
}
use t_log.Shared.Int.{ℤ}
use t_log.Shared.Text.{Unicode, strip}
use t_log.Shared.Sets.{eq_int, eq_string, member, member-add}
use t_log.LogUsage.{Reply, got, raised, Contribution}
use t_log.LogUsage.Rows.{
  Port, no_port, bool_port, int_port, text_port, Row, RowsFound, Sets, no_sets, add_address,
  looks_like_int, int_ports, add_port, with_ports, rest_of, collect_rows, contribution,
  search_one_device,
}

-- A row has this address in one of its two columns.
abbrev pub has_address : (Row → String) → String → Row → Bool
has_address column a row = not (column row == "") && column row == a

add_address-lem :
    (a b : String) (s : List String)
    → member b (add_address a s) ≡ (not (a == "") && a == b || member b s)
unfolding add_address
add_address-lem a b s = elim (Bool-cases (a == "")) [
  | inl blank ↦ rw blank refl
  | inr filled ↦ rw filled (member-add a b s)
]

module _ (u : Unicode) (int_of : String → Option ℤ) where
  -- The number of a port, where it has one.
  abbrev pub port_number : Port → Option ℤ
  port_number no_port = none
  port_number bool_port = none
  port_number (int_port n) = some n
  port_number (text_port text) = if looks_like_int u int_of text then int_of (strip text) else none

  -- A text that passes the test and is no number for `int`.
  abbrev pub is_bad : Port → Bool
  is_bad (text_port text) = looks_like_int u int_of text && not (is_some (int_of (strip text)))
  is_bad _ = false

  abbrev pub equals : ℤ → Option ℤ → Bool
  equals n none = false
  equals n (some m) = eq_int.beq m n

  abbrev pub has_port : ℤ → Row → Bool
  has_port n row = equals n (port_number row.dstport)

  abbrev Added : Port → List ℤ → Option (List ℤ) → Type 0
  Added p ports none = is_bad p ≡ true
  Added p ports (some after) =
      (is_bad p ≡ false) × ((n : ℤ) → member n after ≡ (equals n (port_number p) || member n ports))

  int_ports-Added :
      (text : String) (ports : List ℤ) (o : Option ℤ)
      → looks_like_int u int_of text ≡ true
      → int_of (strip text) ≡ o
      → Added (text_port text) ports (int_ports o ports)
  unfolding int_ports
  int_ports-Added text ports none looks h = rw (looks, h) refl
  int_ports-Added text ports (some m) looks h = rw (looks, h) (refl, λ n. member-add m n ports)

  add_port-Added : (p : Port) (ports : List ℤ) → Added p ports (add_port u int_of p ports)
  unfolding add_port
  add_port-Added no_port ports = (refl, λ n. refl)
  add_port-Added bool_port ports = (refl, λ n. refl)
  add_port-Added (int_port m) ports = (refl, λ n. member-add m n ports)
  add_port-Added (text_port text) ports = elim (Bool-cases (looks_like_int u int_of text)) [
    | inl looks ↦ rw looks (int_ports-Added text ports (int_of (strip text)) looks refl)
    | inr other ↦ rw other (rw other refl, λ n. rw other refl)
  ]

  -- The sets hold what they held and what the rows have; an error comes from a bad row.
  abbrev Collected : List Row → Sets → Option Sets → Type 0
  Collected rows s none = any (λ (r : Row). is_bad r.dstport) rows ≡ true
  Collected rows s (some after) =
      (any (λ (r : Row). is_bad r.dstport) rows ≡ false)
      × ((a : String)
          → member a after.srcips ≡ (any (has_address (λ r. r.srcip) a) rows || member a s.srcips))
      × ((a : String)
          → member a after.dstips ≡ (any (has_address (λ r. r.dstip) a) rows || member a s.dstips))
      × ((n : ℤ) → member n after.dstports ≡ (any (has_port n) rows || member n s.dstports))

  with_ports-Collected :
      (row : Row) (s : Sets) (o : Option (List ℤ))
      → Added row.dstport s.dstports o
      → Collected (row ∷ []) s (with_ports row s o)
  unfolding with_ports
  with_ports-Collected row s none bad = rw bad refl
  with_ports-Collected row s (some ports) (fine, has) = (
    rw fine refl,
    λ a. ground (arith, add_address-lem row.srcip a s.srcips),
    λ a. ground (arith, add_address-lem row.dstip a s.dstips),
    λ n. ground (arith, has n),
  )

  rest_of-Collected :
      (row : Row) (rows : List Row) (s : Sets) (o : Option Sets)
      → Collected (row ∷ []) s o
      → ((t : Sets) → Collected rows t (collect_rows u int_of rows t))
      → Collected (row ∷ rows) s (rest_of (collect_rows u int_of rows) o)
  unfolding rest_of
  rest_of-Collected row rows s none bad later = ground (arith, bad)
  rest_of-Collected row rows s (some t) (fine, src, dst, ports) later =
      both (collect_rows u int_of rows t) (later t)
    where
      both : (o : Option Sets) → Collected rows t o → Collected (row ∷ rows) s o
      both none bad = ground (arith, bad)
      both (some after) (fine_later, src', dst', ports') = (
        ground (arith, fine, fine_later),
        λ a. ground (arith, src a, src' a),
        λ a. ground (arith, dst a, dst' a),
        λ n. ground (arith, ports n, ports' n),
      )

  collect_rows-Collected :
      (rows : List Row) (s : Sets) → Collected rows s (collect_rows u int_of rows s)
  unfolding collect_rows
  collect_rows-Collected [] s = (refl, λ a. refl, λ a. refl, λ n. refl)
  collect_rows-Collected (row ∷ rows) s =
      rest_of-Collected row rows s _
        (with_ports-Collected row s _ (add_port-Added row.dstport s.dstports))
        (collect_rows-Collected rows)

  -- What the search of a device gives: a ValueError where some port is bad, and else the addresses and
  -- ports of its rows.
  abbrev pub Aggregates : String × String → RowsFound → Option (Reply Contribution) → Type 0
  Aggregates range a none = any (λ (r : Row). is_bad r.dstport) a.rows ≡ true
  Aggregates range a (some (raised e)) = ⊥
  Aggregates range a (some (got c)) =
      (any (λ (r : Row). is_bad r.dstport) a.rows ≡ false)
      × ((ip : String) → member ip c.srcips ≡ any (has_address (λ r. r.srcip) ip) a.rows)
      × ((ip : String) → member ip c.dstips ≡ any (has_address (λ r. r.dstip) ip) a.rows)
      × ((n : ℤ) → member n c.dstports ≡ any (has_port n) a.rows)
      × (c.log_count ≡ length a.rows)
      × (c.truncated ≡ a.truncated)
      × (c.local_start ≡ range.0)
      × (c.local_end ≡ range.1)

  contribution-Aggregates :
      (range : String × String) (a : RowsFound) (o : Option Sets)
      → Collected a.rows no_sets o
      → Aggregates range a (contribution range a o)
  unfolding contribution member
  contribution-Aggregates range a none bad = bad
  contribution-Aggregates range a (some s) (fine, src, dst, ports) = (
    fine,
    λ ip. ground (arith, src ip),
    λ ip. ground (arith, dst ip),
    λ n. ground (arith, ports n),
    refl,
    refl,
    refl,
    refl,
  )

  -- The search of one device that was answered gives exactly the addresses that are not empty and
  -- exactly the ports of its rows, with the count of the rows, the mark of a truncated answer and the
  -- local times; it raises a ValueError exactly where the port of some row passes the test for an
  -- integer and is none.
  pub search_one_device-Aggregates :
      (range : String × String) (a : RowsFound)
      → Aggregates range a (search_one_device u int_of range (got a))
  unfolding search_one_device
  search_one_device-Aggregates range a =
      contribution-Aggregates range a _ (collect_rows-Collected a.rows no_sets)
