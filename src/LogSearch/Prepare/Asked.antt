-- ===== src/LogSearch/Prepare/Asked.antt =====
-- What a request has passed when its search is made.
use t_log.Shared.{
  Bool, true, false, ◌&&◌, ◌||◌, Option, none, some, String, ◌==◌, default, ◌≡◌, inl, inr, refl, ap,
  ◌∙◌, Result, ok, err, value_error, key_error, json_error, Bool-cases, steps_of_ok,
}
use t_log.Shared.Text.{Unicode}
use t_log.Shared.Decimal.{Digits}
use t_log.Sessions.{Session, App, check_adom_access}
use t_log.Targets.{Target, TargetsFile, get_target}
use t_log.FazSearch.Filters.{build_filter_expression}
use t_log.LogSearch.{IpLibrary}
use t_log.LogSearch.Prepare.{
  Boxes, Query, SearchBody, boxes, checked, invalid, is_empty, prepare, query, query_of, with_boxes,
  with_expression, with_target,
}

module _ (u : Unicode) (ip : IpLibrary) (d : Digits) where
  -- The boxes name an address, the times are given, and the query has the expression of the boxes.
  pub record Asked (b : SearchBody) (q : Query) : Type 0 where
    pub c : Boxes
    pub expression : String
    pub parsed : boxes u ip d b ≡ ok c
    pub address : (is_empty c.source && is_empty c.dest) ≡ false
    pub built : build_filter_expression u c.source c.dest c.port b.extra_filters ≡ ok expression
    pub same : query_of b expression ≡ q
    pub times : (default b.start_time "" == "" || default b.end_time "" == "") ≡ false

  with_expression-query :
      (t t' : Target) (b : SearchBody) (q : Query) (r : Result String)
      → with_expression u ip d t b r ≡ ok (query t' q)
      → (expression : String) × (r ≡ ok expression) × (t ≡ t') × (query_of b expression ≡ q)
  unfolding with_expression invalid
  with_expression-query t t' b q (ok expression) h = (expression, refl, cc h, cc h)
  with_expression-query t t' b q (err (value_error why)) h = absurd (cc h)
  with_expression-query t t' b q (err (key_error why)) h = absurd (cc h)
  with_expression-query t t' b q (err json_error) h = absurd (cc h)

  with_boxes-query :
      (t t' : Target) (b : SearchBody) (q : Query) (r : Result Boxes)
      → boxes u ip d b ≡ r
      → (default b.start_time "" == "" || default b.end_time "" == "") ≡ false
      → with_boxes u ip d t b r ≡ ok (query t' q)
      → Asked b q × (t ≡ t')
  unfolding with_boxes invalid
  with_boxes-query t t' b q (err (value_error why)) parsed times h = absurd (cc h)
  with_boxes-query t t' b q (err (key_error why)) parsed times h = absurd (cc h)
  with_boxes-query t t' b q (err json_error) parsed times h = absurd (cc h)
  with_boxes-query t t' b q (ok c) parsed times h =
      elim (Bool-cases (is_empty c.source && is_empty c.dest)) [
        | inl none_given ↦ absurd (cc (rw none_given at h))
        | inr address ↦
            let (expression, built, target, same) =
              with_expression-query t t' b q _ (rw address at h) in
            (
              record {
                c = c;
                expression = expression;
                parsed = parsed;
                address = address;
                built = built;
                same = same;
                times = times;
              },
              target,
            )
      ]

  with_target-query :
      (label : String) (b : SearchBody) (t : Target) (q : Query) (found : Option Target)
      → with_target u ip d label b found ≡ ok (query t q)
      → Asked b q × (found ≡ some t)
  unfolding with_target
  with_target-query label b t q none h = absurd (cc h)
  with_target-query label b t q (some t') h =
      elim (Bool-cases (default b.start_time "" == "" || default b.end_time "" == "")) [
        | inl missing ↦ absurd (cc (rw missing at h))
        | inr times ↦
            let (asked, same) =
              with_boxes-query t' t b q (boxes u ip d b) refl times (rw times at h) in
            (asked, ap some same)
      ]

  module _ (app : App) (path : String) (targets : TargetsFile) where
    checked-query :
        (label : String) (b : SearchBody) (t : Target) (q : Query) (denied : Bool)
        → checked u ip d app path targets label b denied ≡ ok (query t q)
        → (denied ≡ false) × (get_target targets label ≡ some t) × Asked b q
    unfolding checked
    checked-query label b t q true h = absurd (cc h)
    checked-query label b t q false h =
        let (asked, found) = with_target-query label b t q (get_target targets label) h in
        (refl, found, asked)

    pub prepare-query :
        (s : Session) (b : SearchBody) (t : Target) (q : Query)
        → prepare u ip d app path targets s b ≡ ok (query t q)
        → (check_adom_access app path (default b.target "") s ≡ ok false)
          × (get_target targets (default b.target "") ≡ some t)
          × Asked b q
    unfolding prepare
    prepare-query s b t q h =
        let label = default b.target "" in
        let (denied, rest, passed) =
          steps_of_ok (check_adom_access app path label s) (checked u ip d app path targets label b)
            h in
        let (permitted, found, asked) = checked-query label b t q denied rest in
        (passed ∙ ap ok permitted, found, asked)
