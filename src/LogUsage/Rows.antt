-- ===== src/LogUsage/Rows.antt =====
-- `_search_one_device` of app/routes/external_api_routes.py: one search of the traffic of a policy,
-- and what it adds to the answer. A row has the keys that are read; an address that is missing or
-- falsy is the empty text, and `str(v)` of another value is that text. `int_of` is Python's `int` of a
-- text, none where it raises a ValueError.
pub mod Aggregate
mod Tests
use Prim.Native.Char.{code}
use Prim.Native.String.{String}
use t_log.Shared.{
  Bool, true, false, not, ◌&&◌, Option, none, some, List, [], ◌∷◌, ◌==◌, if◌then◌else◌, length,
  nat_eq,
}
use t_log.Shared.Int.{ℤ}
use t_log.Shared.Text.{Unicode, strip, all_chars}
use t_log.Shared.Sets.{eq_int, eq_string, add}
use t_log.LogUsage.{Reply, got, raised, Contribution}

-- `row["dstport"]`: not there or null, a bool, an int, or the text `str(v)` of another value.
pub data Port : Type 0 where
  no_port bool_port : Port
  int_port : ℤ → Port
  text_port : String → Port

pub record Row : Type 0 where
  pub srcip : String
  pub dstip : String
  pub dstport : Port

-- `result.get("rows", [])` and `result.get("truncated")` of `search_logs`
pub record RowsFound : Type 0 where
  pub rows : List Row
  pub truncated : Bool

-- `s.lstrip("-")`
lstrip_dash : String → String
lstrip_dash String.[] = ""
lstrip_dash (String.◌∷◌ c s) =
    let rest = lstrip_dash s in if nat_eq (code c) 45 then rest else String.◌∷◌ c s

-- The sets of the loop over the rows.
pub record Sets : Type 0 where
  pub srcips : List String
  pub dstips : List String
  pub dstports : List ℤ

abbrev pub no_sets : Sets
no_sets = record { srcips = []; dstips = []; dstports = [] }

-- `if row.get(key): s.add(str(row[key]))`
add_address : String → List String → List String
add_address a s = if a == "" then s else add a s

int_ports : Option ℤ → List ℤ → Option (List ℤ)
int_ports none ports = none
int_ports (some n) ports = some (add n ports)

with_ports : Row → Sets → Option (List ℤ) → Option Sets
unfolding add_address
with_ports row s none = none
with_ports row s (some ports) = some (record {
  srcips = add_address row.srcip s.srcips;
  dstips = add_address row.dstip s.dstips;
  dstports = ports;
})

rest_of : (Sets → Option Sets) → Option Sets → Option Sets
rest_of next none = none
rest_of next (some s) = next s

contribution : String × String → RowsFound → Option Sets → Option (Reply Contribution)
contribution range a none = none
contribution range a (some s) = some (
    got (record {
      local_start = range.0;
      local_end = range.1;
      srcips = s.srcips;
      dstips = s.dstips;
      dstports = s.dstports;
      log_count = length a.rows;
      truncated = a.truncated;
    }))

module _ (u : Unicode) (int_of : String → Option ℤ) where
  -- `str(raw_port).strip().lstrip("-").isdigit()`
  pub looks_like_int : String → Bool
  unfolding lstrip_dash
  looks_like_int text =
      let digits = lstrip_dash (strip text) in not (digits == "") && all_chars u.is_digit digits

  -- One port; none is the ValueError.
  add_port : Port → List ℤ → Option (List ℤ)
  unfolding looks_like_int int_ports
  add_port no_port ports = some ports
  add_port bool_port ports = some ports
  add_port (int_port n) ports = some (add n ports)
  add_port (text_port text) ports =
      if looks_like_int text then int_ports (int_of (strip text)) ports else some ports

  -- The loop over the rows.
  pub collect_rows : List Row → Sets → Option Sets
  unfolding with_ports add_port rest_of
  collect_rows [] s = some s
  collect_rows (row ∷ rows) s =
      rest_of (collect_rows rows) (with_ports row s (add_port row.dstport s.dstports))

  -- `range` is what `local_time_range` gives; none is a ValueError that leaves the function.
  pub search_one_device : String × String → Reply RowsFound → Option (Reply Contribution)
  unfolding collect_rows contribution
  search_one_device range (raised e) = some (raised e)
  search_one_device range (got a) = contribution range a (collect_rows a.rows no_sets)
