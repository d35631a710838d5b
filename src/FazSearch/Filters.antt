-- ===== src/FazSearch/Filters.antt =====
-- `FAZClient.build_filter_expression` of app/faz_client.py: the filter expression of a log search.
use Prim.Native.Char.{Char, code}
use Prim.Native.String.{◌++◌ as append}
use t_log.Shared.{
  Bool, true, false, not, ◌&&◌, ◌||◌, List, [], ◌∷◌, ◌++◌, String, ◌==◌, ◌≡◌, ◌⊎◌, inl, inr, refl,
  nat_eq, if◌then◌else◌, all, Result, ok, err, ◌>>=◌, value_error, Bool-cases, arith,
}
use t_log.Shared.Text.{between, all_chars, any_char, Unicode}

-- One entry of `extra_filters`, its values as text.
pub record Extra : Type 0 where
  pub field : String
  pub op : String
  pub value : String

-- `sep.join(parts)`
pub join : String → List String → String
join sep [] = ""
join sep (x ∷ []) = x
join sep (x ∷ y ∷ ys) = append x (append sep (join sep (y ∷ ys)))

-- `$` also matches before one newline at the end.
before_newline : String → String
before_newline String.[] = ""
before_newline (String.◌∷◌ c String.[]) = if nat_eq (code c) 10 then "" else String.◌∷◌ c String.[]
before_newline (String.◌∷◌ c (String.◌∷◌ d s)) = String.◌∷◌ c (before_newline (String.◌∷◌ d s))

is_field_char : Char → Bool
is_field_char c =
    between 97 122 (code c)
    || between 65 90 (code c)
    || between 48 57 (code c)
    || nat_eq (code c) 95
    || nat_eq (code c) 45

-- `_EXTRA_FILTER_FIELD_RE.match(field)`
pub field_matches : String → Bool
unfolding before_newline is_field_char
field_matches s = not (before_newline s == "") && all_chars is_field_char (before_newline s)

-- `value.lstrip("-")`
lstrip_minus : String → String
lstrip_minus String.[] = ""
lstrip_minus (String.◌∷◌ c s) =
    let rest = lstrip_minus s in if nat_eq (code c) 45 then rest else String.◌∷◌ c s

pub has_quote : String → Bool
has_quote value = any_char (λ c. nat_eq (code c) 34) value

-- A text is the parts in their order, with `sep` between each two.
pub data Joined (sep : String) : List String → String → Type 0 where
  nothing : Joined sep [] ""
  one : (x : String) → Joined sep (x ∷ []) x
  more :
      (x y : String) (ys : List String) (text : String)
      → Joined sep (y ∷ ys) text
      → Joined sep (x ∷ y ∷ ys) (append x (append sep text))

join-Joined : (sep : String) (xs : List String) → Joined sep xs (join sep xs)
unfolding join
join-Joined sep [] = nothing
join-Joined sep (x ∷ []) = one x
join-Joined sep (x ∷ y ∷ ys) = more x y ys _ (join-Joined sep (y ∷ ys))

-- What clauses add to an expression: nothing, or one part, in which any of them may hold.
pub data AnyOf : List String → List String → Type 0 where
  left_out : AnyOf [] []
  part :
      (c : String) (cs : List String) (text : String)
      → Joined " or " (c ∷ cs) text
      → AnyOf (c ∷ cs) (append "(" (append text ")") ∷ [])

-- A FilterValidationError, which is a ValueError.
abbrev pub Refused : {A : Type 0} → Result A → Type 0
Refused r = (message : String) × (r ≡ err (value_error message))

-- One group of clauses, where there are some.
pub group : List String → List String
unfolding join
group [] = []
group (c ∷ cs) = append "(" (append (join " or " (c ∷ cs)) ")") ∷ []

group-AnyOf : (cs : List String) → AnyOf cs (group cs)
unfolding group
group-AnyOf [] = left_out
group-AnyOf (c ∷ cs) = part c cs _ (join-Joined " or " (c ∷ cs))

module _ (u : Unicode) where
  -- `str.isdigit`
  pub is_number : String → Bool
  unfolding lstrip_minus
  is_number value =
      let digits = lstrip_minus value in not (digits == "") && all_chars u.is_digit digits

  -- `f"({field}{op}{quoted_value})"`
  pub clause : Extra → String
  unfolding is_number
  clause f =
      let quoted = if is_number f.value then f.value else append "\"" (append f.value "\"") in
      append "(" (append f.field (append f.op (append quoted ")")))

  check_extra : Extra → Result String
  unfolding field_matches has_quote clause
  check_extra f =
      if not (f.op == "==" || f.op == "!=")
      then err (value_error "Invalid filter operator")
      else if not (field_matches f.field)
      then err (value_error "Invalid filter field")
      else if has_quote f.value
      then err (value_error "Invalid filter value")
      else ok (clause f)

  extra_groups : List Extra → Result (List String)
  unfolding check_extra
  extra_groups [] = ok []
  extra_groups (f ∷ fs) = do c ← check_extra f; cs ← extra_groups fs; ok (c ∷ cs)

  unfoldable pub build_filter_expression :
      List String → List String → List String → List Extra → Result String
  unfolding group extra_groups join
  build_filter_expression sources destinations ports extra_filters = do
    extras ← extra_groups extra_filters
    ok (join " and " (group sources ++ group destinations ++ group ports ++ extras))

  -- An extra filter that the expression may hold: one of two operators, a field name of letters,
  -- digits, "_" and "-", which one newline may end, and a value without a quote.
  abbrev pub is_safe : Extra → Bool
  is_safe f = (f.op == "==" || f.op == "!=") && (field_matches f.field && not (has_quote f.value))

  pub clauses : List Extra → List String
  clauses [] = []
  clauses (f ∷ fs) = clause f ∷ clauses fs

  check_extra_lem :
      (f : Extra)
      → ((is_safe f ≡ true) × (check_extra f ≡ ok (clause f)))
        ⊎ ((is_safe f ≡ false) × Refused (check_extra f))
  unfolding check_extra
  check_extra_lem f = elim (Bool-cases (f.op == "==" || f.op == "!=")) [
    | inr bad ↦ rw bad (inr (refl, (_, refl)))
    | inl op ↦ elim (Bool-cases (field_matches f.field)) [
      | inr bad ↦ rw (op, bad) (inr (refl, (_, refl)))
      | inl field ↦ elim (Bool-cases (has_quote f.value)) [
        | inl bad ↦ rw (op, field, bad) (inr (refl, (_, refl)))
        | inr plain ↦ rw (op, field, plain) (inl (refl, refl))
      ]
    ]
  ]

  extra_groups_lem :
      (fs : List Extra)
      → ((all is_safe fs ≡ true) × (extra_groups fs ≡ ok (clauses fs)))
        ⊎ ((all is_safe fs ≡ false) × Refused (extra_groups fs))
  unfolding extra_groups clauses
  extra_groups_lem [] = inl (refl, refl)
  extra_groups_lem (f ∷ fs) = elim (check_extra_lem f) [
    | inr (bad, (message, raised)) ↦ inr (ground (arith, bad), (message, rw raised refl))
    | inl (safe, done) ↦ elim (extra_groups_lem fs) [
      | inl (safe_rest, rest) ↦ inl (ground (arith, safe, safe_rest), rw (done, rest) refl)
      | inr (bad, (message, raised)) ↦ inr (ground (arith, bad), (message, rw (done, raised) refl))
    ]
  ]

  -- A filter with its comparison in parentheses, where the value stands between quotes unless it is a
  -- number.
  pub data Compares (f : Extra) : String → Type 0 where
    number :
        is_number f.value ≡ true
        → Compares f (append "(" (append f.field (append f.op (append f.value ")"))))
    quoted :
        is_number f.value ≡ false
        → Compares f (
            append "("
              (append f.field (append f.op (append (append "\"" (append f.value "\"")) ")"))))

  -- One comparison for each filter, in their order.
  abbrev pub Comparisons : List Extra → List String → Type 0
  Comparisons [] [] = Unit
  Comparisons [] (c ∷ cs) = ⊥
  Comparisons (f ∷ fs) [] = ⊥
  Comparisons (f ∷ fs) (c ∷ cs) = Compares f c × Comparisons fs cs

  clauses-Comparisons : (fs : List Extra) → Comparisons fs (clauses fs)
  unfolding clauses clause
  clauses-Comparisons [] = tt
  clauses-Comparisons (f ∷ fs) = (
    elim (Bool-cases (is_number f.value)) [ inl h ↦ rw h (number h) | inr h ↦ rw h (quoted h) ],
    clauses-Comparisons fs,
  )

  -- An expression in which each of the three groups holds, and each comparison of the filters.
  pub record Expression (sources destinations ports : List String) (fs : List Extra) (text : String)
      : Type 0 where
    pub source : List String
    pub destination : List String
    pub port : List String
    pub filters : List String
    pub of_sources : AnyOf sources source
    pub of_destinations : AnyOf destinations destination
    pub of_ports : AnyOf ports port
    pub of_filters : Comparisons fs filters
    pub joined : Joined " and " (source ++ destination ++ port ++ filters) text

  -- Where every extra filter has one of the operators "==" and "!=", a field name that the pattern
  -- lets pass and no quote in its value, the expression joins by "and", in this order, the sources,
  -- the destinations and the ports, each in parentheses and joined by "or" where there are some, and
  -- one comparison for each extra filter, its value quoted unless it is a number. Otherwise there is
  -- no expression and a validation error is raised.
  pub build_filter_expression_lem :
      (sources destinations ports : List String) (fs : List Extra)
      → ((all is_safe fs ≡ true)
          × ((text : String) × (build_filter_expression sources destinations ports fs ≡ ok text)
              × Expression sources destinations ports fs text))
        ⊎ ((all is_safe fs ≡ false)
            × Refused (build_filter_expression sources destinations ports fs))
  unfolding build_filter_expression
  build_filter_expression_lem sources destinations ports fs = elim (extra_groups_lem fs) [
    | inl (safe, done) ↦ inl (
      safe,
      (
        join " and " (group sources ++ group destinations ++ group ports ++ clauses fs),
        rw done refl,
        record {
          source = group sources;
          destination = group destinations;
          port = group ports;
          filters = clauses fs;
          of_sources = group-AnyOf sources;
          of_destinations = group-AnyOf destinations;
          of_ports = group-AnyOf ports;
          of_filters = clauses-Comparisons fs;
          joined = join-Joined " and " _;
        },
      ),
    )
    | inr (bad, (message, raised)) ↦ inr (bad, (message, rw raised refl))
  ]
