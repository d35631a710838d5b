-- ===== src/ThreatStats/Merge.antt =====
-- The merge of the top lists of several targets.
use t_log.Shared.{
  ℕ, zero, suc, ◌+◌, ◌≤◌, true, some, List, [], ◌∷◌, String, ◌==◌, eq_iff, eq_refl, ◌≡◌, refl, ap,
  ◌∙◌, sym, if◌then◌else◌, default, length, take, length-take, All, arith, Bool-cases, inl, inr,
}
use t_log.Shared.Dict.{Dict, get, has, put, get-put, IsUnique, put-IsUnique}
use t_log.Shared.Sort.{sorted, sorted-All, IsSorted, sorted-IsSorted}
use t_log.ThreatStats.{Top, sum, add_rows, totals_of, count_ge, merge_top_lists}

-- The count of a name in one list, and in all of them.
abbrev pub count_in : String → Top → ℕ
count_in name rows = sum (λ (r : String × ℕ). if r.0 == name then r.1 else 0) rows

abbrev pub total_count : String → List Top → ℕ
total_count name lists = sum (count_in name) lists

total-add_rows :
    (name : String) (rows : Top) (totals : Dict ℕ)
    → default (get name (add_rows rows totals)) 0 ≡ count_in name rows + default (get name totals) 0
unfolding add_rows sum
total-add_rows name [] totals = omega arith
total-add_rows name ((n, c) ∷ rows) totals =
    let next = total-add_rows name rows (put n (default (get n totals) 0 + c) totals) in
    elim (Bool-cases (n == name)) [
      | inl e ↦
          let same : n ≡ name = (eq_iff n name).0 e in
          let written = get-put n name (default (get n totals) 0 + c) totals in
          rw (e, next, written, e) (rw same (omega arith))
      | inr e ↦ rw (e, next, get-put n name (default (get n totals) 0 + c) totals, e) (omega arith)
    ]

total-totals_of :
    (name : String) (lists : List Top) (totals : Dict ℕ)
    → default (get name (totals_of lists totals)) 0
      ≡ total_count name lists + default (get name totals) 0
unfolding totals_of sum
total-totals_of name [] totals = omega arith
total-totals_of name (rows ∷ lists) totals =
    omega
      (arith, total-totals_of name lists (add_rows rows totals), total-add_rows name rows totals)

add_rows-IsUnique :
    (rows : Top) (totals : Dict ℕ) → IsUnique totals → IsUnique (add_rows rows totals)
unfolding add_rows
add_rows-IsUnique [] totals h = h
add_rows-IsUnique ((n, c) ∷ rows) totals h = add_rows-IsUnique rows _ (put-IsUnique n _ totals h)

totals_of-IsUnique :
    (lists : List Top) (totals : Dict ℕ) → IsUnique totals → IsUnique (totals_of lists totals)
unfolding totals_of
totals_of-IsUnique [] totals h = h
totals_of-IsUnique (rows ∷ lists) totals h =
    totals_of-IsUnique lists _ (add_rows-IsUnique rows totals h)

-- Each entry of a dict is what a lookup of its key finds, in the dict and in any that agrees with it.
entries-get :
    (d big : Dict ℕ)
    → IsUnique d
    → ((k : String) → has k d ≡ true → get k big ≡ get k d)
    → All (λ (e : String × ℕ). get e.0 big ≡ some e.1) d
unfolding get
entries-get [] big h same = tt
entries-get ((j, v) ∷ d) big (new, hs) same = (
  ground (arith, same j, eq_refl j),
  entries-get d big hs (λ k old. ground (arith, same k, old, new, eq_iff j k)),
)

All-map : (P Q : String × ℕ → Type 0) (d : Top) → ((e : String × ℕ) → P e → Q e) → All P d → All Q d
All-map P Q [] f h = tt
All-map P Q (e ∷ d) f (h, hs) = (f e h, All-map P Q d f hs)

All-take : (P : String × ℕ → Type 0) (n : ℕ) (xs : Top) → All P xs → All P (take n xs)
All-take P zero xs h = tt
All-take P (suc n) [] h = tt
All-take P (suc n) (x ∷ xs) (h, hs) = (h, All-take P n xs hs)

take-IsSorted : (n : ℕ) (xs : Top) → IsSorted count_ge xs → IsSorted count_ge (take n xs)
take-IsSorted zero xs h = tt
take-IsSorted (suc n) [] h = tt
take-IsSorted (suc n) (x ∷ xs) (h, hs) = (All-take _ n xs h, take-IsSorted n xs hs)

module _ (lists : List Top) (limit : ℕ) where
  abbrev totals : Dict ℕ
  totals = totals_of lists []

  counted : All (λ (r : String × ℕ). r.1 ≡ total_count r.0 lists) totals
  unfolding get
  counted =
      All-map _ _ totals
        (λ e found.
          sym (ap (λ o. default o 0) found) ∙ (total-totals_of e.0 lists [] ∙ omega arith))
        (entries-get totals totals (totals_of-IsUnique lists [] tt) (λ k h. refl))

  -- The merged list has at most the limit of names, in the order of falling counts, and the count of
  -- each is the sum of its counts in all lists.
  pub merge_top_lists_lem :
      (length (merge_top_lists lists limit) ≤ limit)
      × IsSorted count_ge (merge_top_lists lists limit)
      × All (λ (r : String × ℕ). r.1 ≡ total_count r.0 lists) (merge_top_lists lists limit)
  unfolding merge_top_lists
  merge_top_lists_lem = (
    omega (arith, length-take limit (sorted count_ge totals)),
    take-IsSorted limit _ (
        sorted-IsSorted count_ge (λ a b h. ground (arith, h)) (λ a b c h k. ground (arith, h, k))
          totals),
    All-take _ limit _ (sorted-All count_ge _ totals counted),
  )
