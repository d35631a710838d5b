-- ===== src/FazSearch/Loop.antt =====
-- The polling loop ends, and returns only what a finished task reported in time.
use t_log.Shared.{
  ℕ, zero, suc, ◌+◌, ◌≤◌, ◌<◌, true, Option, none, some, ◌≡◌, ◌⊎◌, refl, ap, default, leb, is_some,
  List, [], ◌∷◌, any, String, ◌==◌, ◌↔◌, ◌∙◌, length, arith, Bool-cases, Option-cases, inl, inr,
}
use t_log.Shared.Dict.{Dict, has, keys, has-keys}
use t_log.Shared.Sets.{eq_string, member, update, member-update}
use t_log.Shared.Sort.{text_le, any-sorted, IsSorted, sorted-IsSorted}
use t_log.Shared.TextOrder.{text_le_total, text_le_trans}
use t_log.FazErrors.{Failure, search_timeout}
use t_log.LogUsage.{Reply, got, raised}
use t_log.FazSearch.{
  Item, Body, ask, Found, all_keys, found, deadline, fetched, poll, poll_task, run_task, finish,
  search_logs, run_fortiview,
}

-- What a result says of the item that it was made from.
pub record Reports (limit : ℕ) (i : Item) (r : Found) : Type 0 where
  pub rows : r.rows ≡ default i.rows []
  pub fields : (k : String) → member k r.fields ≡ any (has k) r.rows
  pub in_order : IsSorted text_le r.fields
  pub truncated : (r.truncated ≡ true) ↔ (limit ≤ default i.return_lines (length r.rows))

member-all_keys :
    (k : String) (rows : List (Dict String)) → member k (all_keys rows) ≡ any (has k) rows
unfolding all_keys member
member-all_keys k [] = refl
member-all_keys k (row ∷ rows) =
    ground
      (arith, member-update k (keys row) (all_keys rows), member-all_keys k rows, has-keys k row)

found-Reports : (limit : ℕ) (i : Item) → Reports limit i (found limit i)
unfolding found member
found-Reports limit i = record {
  rows = refl;
  fields = λ k.
      any-sorted text_le (λ x. x == k) (update [] (all_keys (default i.rows [])))
      ∙ member-update k [] (all_keys (default i.rows []))
      ∙ member-all_keys k (default i.rows []);
  in_order = sorted-IsSorted text_le text_le_total text_le_trans _;
  truncated = ground arith;
}

module _ (post : ℕ → Reply Body) (clock : ℕ → ℕ) (timeout : ℕ) where
  is_some-fetched :
      (r : Reply Item) (rest : Option (Reply Item))
      → is_some rest ≡ true
      → is_some (fetched post clock timeout r rest) ≡ true
  unfolding fetched
  is_some-fetched (raised e) rest h = refl
  is_some-fetched (got i) rest h = ground (arith, h)

  module _ (runs : (n : ℕ) → clock n < clock (suc n)) where
    clock-le : (n : ℕ) → clock 0 + n ≤ clock n
    clock-le zero = omega arith
    clock-le (suc n) = omega (arith, clock-le n, runs n)

    is_some-poll :
        (slow : Failure) (fuel n : ℕ)
        → timeout ≤ fuel + n + 1
        → is_some (poll post clock timeout slow (suc fuel) n) ≡ true
    unfolding poll
    is_some-poll slow zero n h =
        let late : leb (deadline post clock timeout) (clock (suc n)) ≡ true =
          ground (arith, clock-le (suc n), h) in
        rw late
    is_some-poll slow (suc fuel) n h =
        elim (Bool-cases (leb (deadline post clock timeout) (clock (suc n)))) [
          | inl late ↦ rw late
          | inr early ↦ rw early (
              is_some-fetched (ask (post (suc (suc n)))) _
                (is_some-poll slow fuel (suc n) (omega (arith, h))))
        ]

    is_some-poll_task :
        (slow : Failure) (r : Reply Item)
        → is_some (poll_task post clock timeout slow (suc timeout) r) ≡ true
    unfolding poll_task
    is_some-poll_task slow (raised e) = refl
    is_some-poll_task slow (got submitted) = elim (Option-cases submitted.tid) [
      | inl e ↦ rw e
      | inr (tid, e) ↦ rw e (is_some-poll slow timeout 0 (omega arith))
    ]

    is_some-finish :
        {A : Type 0} (f : Item → A) (o : Option (Reply Item))
        → is_some o ≡ true
        → is_some (finish post clock timeout f o) ≡ true
    unfolding finish
    is_some-finish f none h = h
    is_some-finish f (some (raised e)) h = refl
    is_some-finish f (some (got i)) h = refl

    -- Where each reading of the clock is later than the one before it, a search and a FortiView run
    -- end with a result or an error after at most one fetch more than the timeout has ticks, whatever
    -- the appliance answers.
    pub run_task-total :
        (limit : ℕ)
        → (is_some (search_logs post clock timeout limit (suc timeout)) ≡ true)
          × (is_some (run_fortiview post clock timeout (suc timeout)) ≡ true)
    unfolding search_logs run_fortiview run_task
    run_task-total limit = (
      is_some-finish (found limit) _ (is_some-poll_task _ (ask (post 1))),
      is_some-finish _ _ (is_some-poll_task _ (ask (post 1))),
    )

  -- The fetch that a result comes from: the appliance reported a finished task, at a reading before
  -- the deadline.
  pub record FinishedBy (i : Item) : Type 0 where
    pub fetch : ℕ
    pub in_time : clock (suc fetch) < clock 0 + timeout
    pub answer : ask (post (suc (suc fetch))) ≡ got i
    pub complete : 100 ≤ default i.percentage 0

  fetched-got :
      (r : Reply Item) (rest : Option (Reply Item)) (i : Item)
      → fetched post clock timeout r rest ≡ some (got i)
      → ((r ≡ got i) × (100 ≤ default i.percentage 0)) ⊎ (rest ≡ some (got i))
  unfolding fetched
  fetched-got (raised e) rest i h = absurd (cc h)
  fetched-got (got j) rest i h = elim (Bool-cases (leb 100 (default j.percentage 0))) [
    | inl done ↦
        let same : j ≡ i = cc (rw done at h) in
        inl (ap got same, rw (← same) (ground (arith, done)))
    | inr more ↦ inr (rw more at h)
  ]

  poll-got :
      (slow : Failure) (fuel n : ℕ) (i : Item)
      → poll post clock timeout slow fuel n ≡ some (got i)
      → FinishedBy i
  unfolding poll
  poll-got slow zero n i h = absurd (cc h)
  poll-got slow (suc fuel) n i h =
      elim (Bool-cases (leb (deadline post clock timeout) (clock (suc n)))) [
        | inl late ↦ absurd (cc (rw late at h))
        | inr early ↦
            elim (fetched-got (ask (post (suc (suc n)))) (poll post clock timeout slow fuel (suc n))
              i (rw early at h)) [
                | inl (answer, complete) ↦ record {
                  fetch = n;
                  in_time = ground (arith, early);
                  answer = answer;
                  complete = complete;
                }
                | inr later ↦ poll-got slow fuel (suc n) i later
              ]
      ]

  poll_task-got :
      (slow : Failure) (fuel : ℕ) (r : Reply Item) (i : Item)
      → poll_task post clock timeout slow fuel r ≡ some (got i)
      → FinishedBy i
  unfolding poll_task
  poll_task-got slow fuel (raised e) i h = absurd (cc h)
  poll_task-got slow fuel (got submitted) i h = elim (Option-cases submitted.tid) [
    | inl e ↦ absurd (cc (rw e at h))
    | inr (tid, e) ↦ poll-got slow fuel 0 i (rw e at h)
  ]

  finish-got :
      {A : Type 0} (f : Item → A) (o : Option (Reply Item)) (a : A)
      → finish post clock timeout f o ≡ some (got a)
      → (i : Item) × (o ≡ some (got i)) × (f i ≡ a)
  unfolding finish
  finish-got f none a h = absurd (cc h)
  finish-got f (some (raised e)) a h = absurd (cc h)
  finish-got f (some (got i)) a h = (i, refl, cc h)

  -- A search returns only what a fetch answered that reported the task complete and was made before
  -- the deadline: its rows, the names that some row has as a key, in order, and a mark that is set
  -- exactly where the number of lines that the appliance reports, or else that of the rows, reaches
  -- the limit.
  pub search_logs-FinishedBy :
      (limit fuel : ℕ) (r : Found)
      → search_logs post clock timeout limit fuel ≡ some (got r)
      → (i : Item) × FinishedBy i × Reports limit i r
  unfolding search_logs run_task
  search_logs-FinishedBy limit fuel r h =
      let (i, last, same) =
        finish-got (found limit)
          (poll_task post clock timeout (search_timeout "did not complete") fuel (ask (post 1))) r
          h in
      (
        i,
        poll_task-got (search_timeout "did not complete") fuel (ask (post 1)) i last,
        rw same at (found-Reports limit i),
      )
