-- ===== src/FazSearch.antt =====
-- app/faz_client.py: the answers of FortiAnalyzer's JSON-RPC interface, and the loop of `search_logs`
-- and `run_fortiview` that submits a task and polls it to its end. The requests are one answer for
-- each number that `_next_id` gives, the clock is one reading for each number, both whole numbers;
-- a percentage is the whole part of what the appliance reports. The "data" of an item, where it is
-- there, is a list of rows.
pub mod Loop
pub mod Filters
mod Tests
use Prim.Native.String.{◌++◌ as append}
use t_log.Shared.{
  ℕ, zero, suc, ◌+◌, Bool, true, false, not, ◌&&◌, ◌||◌, Option, none, some, List, [], ◌∷◌, String,
  ◌==◌, if◌then◌else◌, default, leb, length, keep,
}
use t_log.Shared.Int.{ℤ, pos}
use t_log.Shared.Dict.{Dict, keys}
use t_log.Shared.Sets.{eq_string, int_eq, update}
use t_log.Shared.Sort.{sorted, text_le}
use t_log.FazErrors.{Failure, faz_error, search_timeout}
use t_log.LogUsage.{Reply, got, raised}

pub record Status : Type 0 where
  pub code : Option ℤ
  pub message : Option String

-- One item of `result`, with the keys that the client reads.
pub record Item : Type 0 where
  pub status : Option Status
  pub tid : Option ℕ
  pub percentage : Option ℕ
  pub rows : Option (List (Dict String))
  pub return_lines : Option ℕ

-- A decoded response: it has an `error`, or `result` is a list, an object, or something else.
pub data Body : Type 0 where
  error : String → Body
  items : List Item → Body
  item : Item → Body
  other : Body

abbrev pub empty_item : Item
empty_item = record {
  status = none;
  tid = none;
  percentage = none;
  rows = none;
  return_lines = none;
}

check_status : Option Status → Item → Reply Item
check_status none i = got i
check_status (some s) i =
    if int_eq (default s.code (pos 0)) (pos 0)
    then got i
    else raised (faz_error (default s.message "Unknown FortiAnalyzer error"))

pub unwrap_result : Body → Reply Item
unfolding check_status
unwrap_result (error e) = raised (faz_error (append "FortiAnalyzer error: " e))
unwrap_result (items []) = got empty_item
unwrap_result (items (i ∷ rest)) = check_status i.status i
unwrap_result (item i) = check_status i.status i
unwrap_result other = raised (faz_error "Unexpected FortiAnalyzer response shape")

-- `self._unwrap_result(self._post(body))`
pub ask : Reply Body → Reply Item
unfolding unwrap_result
ask (raised e) = raised e
ask (got body) = unwrap_result body

-- What `search_logs` returns.
pub record Found : Type 0 where
  pub rows : List (Dict String)
  pub fields : List String
  pub truncated : Bool

all_keys : List (Dict String) → List String
all_keys [] = []
all_keys (row ∷ rows) = update (keys row) (all_keys rows)

-- The part of `search_logs` after the loop.
pub found : ℕ → Item → Found
unfolding all_keys
found limit i =
    let rows = default i.rows [] in
    record {
      rows = rows;
      fields = sorted text_le (update [] (all_keys rows));
      truncated = leb limit (default i.return_lines (length rows));
    }

module _ (post : ℕ → Reply Body) (clock : ℕ → ℕ) (timeout : ℕ) where
  -- `time.monotonic() + timeout`, the first reading.
  abbrev pub deadline : ℕ
  deadline = clock 0 + timeout

  -- A fetch that was answered: the task is done, or the loop goes on.
  fetched : Reply Item → Option (Reply Item) → Option (Reply Item)
  fetched (raised e) rest = some (raised e)
  fetched (got i) rest = if leb 100 (default i.percentage 0) then some (got i) else rest

  -- The loop before its fetch with the number `n`, after `n` fetches, with the error of the deadline;
  -- `none` is out of fuel.
  pub poll : Failure → ℕ → ℕ → Option (Reply Item)
  unfolding fetched
  poll slow zero n = none
  poll slow (suc fuel) n =
      let rest = poll slow fuel (suc n) in
      if leb deadline (clock (suc n))
      then some (raised slow)
      else fetched (ask (post (suc (suc n)))) rest

  -- The part after the task was submitted.
  poll_task : Failure → ℕ → Reply Item → Option (Reply Item)
  unfolding poll
  poll_task slow fuel (raised e) = some (raised e)
  poll_task slow fuel (got submitted) = elim submitted.tid [
    | none ↦ some (raised (faz_error "submit returned no task ID"))
    | some tid ↦ poll slow fuel 0
  ]

  -- Submit, poll and return the last item, for both tasks.
  pub run_task : Failure → ℕ → Option (Reply Item)
  unfolding poll_task
  run_task slow fuel = poll_task slow fuel (ask (post 1))

  pub finish {ℓ} : {A : Type ℓ} → (Item → A) → Option (Reply Item) → Option (Reply A)
  finish f none = none
  finish f (some (raised e)) = some (raised e)
  finish f (some (got i)) = some (got (f i))

  pub search_logs : ℕ → ℕ → Option (Reply Found)
  unfolding run_task finish found
  search_logs limit fuel = finish (found limit) (run_task (search_timeout "did not complete") fuel)

  pub run_fortiview : ℕ → Option (Reply (List (Dict String)))
  unfolding run_task finish
  run_fortiview fuel =
      finish (λ i. default i.rows []) (run_task (faz_error "did not complete") fuel)
