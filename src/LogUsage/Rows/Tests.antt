-- ===== src/LogUsage/Rows/Tests.antt =====
-- Rows of one device, good and bad.
use t_log.Shared.{true, Option, none, some, List, [], ◌∷◌, String, ◌==◌, ◌≡◌, refl, if◌then◌else◌}
use t_log.Shared.Int.{ℤ, pos, negsuc}
use t_log.Shared.Text.{ascii, strip}
use t_log.Shared.Sets.{eq_int, eq_string, member, add}
use t_log.FazErrors.{faz_error}
use t_log.LogUsage.{got, raised}
use t_log.LogUsage.Rows.{
  Port, no_port, bool_port, int_port, text_port, Row, RowsFound, looks_like_int, search_one_device,
}
use t_log.LogUsage.Rows.Aggregate.{Aggregates, search_one_device-Aggregates}

abbrev int_of : String → Option ℤ
int_of s = if s == "443" then some (pos 443) else if s == "-5" then some (negsuc 4) else none

abbrev row : String → Port → Row
row a p = record { srcip = a; dstip = "b"; dstport = p }

abbrev answer : List Row → RowsFound
answer rows = record { rows = rows; truncated = true }

abbrev good : List Row
good =
    row "a" (text_port " 443 ")
    ∷ row "" (int_port (pos 53))
    ∷ row "a" (text_port "-5")
    ∷ row "c" (text_port "http")
    ∷ row "c" bool_port
    ∷ row "c" no_port
    ∷ []

rows_run : Unit {0}
unfolding search_one_device looks_like_int member add strip
rows_run = tt

rows_tests :
    (search_one_device ascii int_of ("s", "e") (got (answer good))
      ≡ some (
          got (record {
            local_start = "s";
            local_end = "e";
            srcips = "a" ∷ "c" ∷ [];
            dstips = "b" ∷ [];
            dstports = pos 443 ∷ pos 53 ∷ negsuc 4 ∷ [];
            log_count = 6;
            truncated = true;
          })))
    × (search_one_device ascii int_of ("s", "e") (got (answer (row "a" (text_port "--5") ∷ good)))
        ≡ none)
    × (search_one_device ascii int_of ("s", "e") (raised (faz_error "down"))
        ≡ some (raised (faz_error "down")))
unfolding rows_run
rows_tests = (refl, refl, refl)

search_one_device-Aggregates_example :
    Aggregates ascii int_of
      ("s", "e")
      (answer good)
      (search_one_device ascii int_of ("s", "e") (got (answer good)))
search_one_device-Aggregates_example =
    search_one_device-Aggregates ascii int_of ("s", "e") (answer good)
