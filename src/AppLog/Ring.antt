-- ===== src/AppLog/Ring.antt =====
-- The buffer never grows over its bound, keeps the newest entries, and answers within the limit.
use t_log.Shared.{
  ℕ, zero, suc, ◌-◌, ◌≤◌, min, max, Bool, true, false, ◌&&◌, ◌||◌, Option, none, some, List, [],
  ◌∷◌, ◌++◌, String, ◌==◌, ◌≡◌, refl, ap, sym, ◌∙◌, ltb, leb, keep, length, length-append,
  length-drop, drop, keep-keep, All, Result, ok, arith, Bool-cases, inl, inr,
}
use t_log.Shared.Int.{ℤ, pos_part}
use t_log.Shared.Text.{Unicode}
use t_log.Shared.Dict.{has}
use t_log.AppLog.{
  rank, max_entries, Entry, Log, append_entry, set_log_level, app_log, clamp, by_level,
  by_component, last_entries, get_log_entries, clear_log_entries, level_rank,
}

-- The operations of the log.
pub data Op : Type 0 where
  setting : String → Op
  logging : String → Entry → Op
  clearing : Op

drop-append :
    {A : Type 0} (k : ℕ) (xs ys : List A) → k ≤ length xs → drop k (xs ++ ys) ≡ drop k xs ++ ys
drop-append zero xs ys h = refl
drop-append (suc k) [] ys h = absurd (omega (arith, h))
drop-append (suc k) (x ∷ xs) ys h = drop-append k xs ys (omega (arith, h))

All-drop : {A : Type 0} (P : A → Type 0) (k : ℕ) (xs : List A) → All P xs → All P (drop k xs)
All-drop P zero xs h = h
All-drop P (suc k) [] h = h
All-drop P (suc k) (x ∷ xs) (h, hs) = All-drop P k xs hs

module _ (u : Unicode) where
  abbrev pub set_or_keep : Result Log → Log → Log
  set_or_keep (ok s') s = s'
  set_or_keep _ s = s

  abbrev pub apply : Op → Log → Log
  apply (setting level) s = set_or_keep (set_log_level u level s) s
  apply (logging level e) s = app_log u level e s
  apply clearing s = clear_log_entries s

  abbrev pub apply_all : List Op → Log → Log
  apply_all [] s = s
  apply_all (op ∷ ops) s = apply_all ops (apply op s)

  length-append_entry : (e : Entry) (es : List Entry) → length (append_entry e es) ≤ max_entries
  unfolding append_entry
  length-append_entry e es =
      omega (arith, length-drop (length (es ++ e ∷ []) - max_entries) (es ++ e ∷ []))

  pub length-apply :
      (op : Op) (s : Log) → length s.buffer ≤ max_entries → length (apply op s).buffer ≤ max_entries
  unfolding set_log_level app_log clear_log_entries
  length-apply (setting level) s h = elim (Bool-cases (has (u.upper level) level_rank)) [
    | inl known ↦ rw known h
    | inr other ↦ rw other h
  ]
  length-apply (logging level e) s h =
      elim (Bool-cases (ltb (rank (u.upper level)) (rank s.current_level))) [
        | inl low ↦ rw low h
        | inr high ↦ rw high (length-append_entry (record e { level = u.upper level }) s.buffer)
      ]
  length-apply clearing s h = omega arith

  -- No sequence of operations lets the buffer grow over 2000 entries.
  pub length-apply_all :
      (ops : List Op) (s : Log)
      → length s.buffer ≤ max_entries
      → length (apply_all ops s).buffer ≤ max_entries
  length-apply_all [] s h = h
  length-apply_all (op ∷ ops) s h = length-apply_all ops (apply op s) (length-apply op s h)

  append_entry-last :
      (e : Entry) (es : List Entry) → (older : List Entry) × (append_entry e es ≡ older ++ e ∷ [])
  unfolding append_entry
  append_entry-last e es =
      let k = length (es ++ e ∷ []) - max_entries in
      (drop k es, drop-append k es (e ∷ []) (omega (arith, length-append es (e ∷ []))))

  last_entries-last :
      (n : ℕ) (e : Entry) (older : List Entry)
      → 1 ≤ n
      → (newer : List Entry) × (last_entries u n (older ++ e ∷ []) ≡ newer ++ e ∷ [])
  unfolding last_entries
  last_entries-last n e older h =
      let k = length (older ++ e ∷ []) - n in
      (drop k older, drop-append k older (e ∷ []) (omega (arith, length-append older (e ∷ []), h)))

  -- An entry whose level is not below the current one is the last of the next answer, with its level
  -- in upper case, whatever the limit that is asked for and however full the buffer is.
  pub get_log_entries-app_log :
      (level : String) (e : Entry) (limit : ℤ) (s : Log)
      → ltb (rank (u.upper level)) (rank s.current_level) ≡ false
      → (newer : List Entry) × (get_log_entries u none none limit (app_log u level e s)
          ≡ newer ++ record e { level = u.upper level } ∷ [])
  unfolding get_log_entries app_log by_level by_component clamp
  get_log_entries-app_log level e limit s logged =
      let entry : Entry = record e { level = u.upper level } in
      let (older, split) = append_entry-last entry s.buffer in
      let (newer, same) =
        last_entries-last (max 1 (min (pos_part limit) max_entries)) entry older (omega arith) in
      (newer, rw (logged, split) same)

  -- What a query asks of an entry; an empty text asks nothing.
  abbrev pub level_ok : Option String → Entry → Bool
  level_ok none e = true
  level_ok (some level) e = level == "" || leb (rank (u.upper level)) (rank e.level)

  abbrev pub component_ok : Option String → Entry → Bool
  component_ok none e = true
  component_ok (some component) e = component == "" || e.component == component

  keep-true : (p : Entry → Bool) (es : List Entry) → ((e : Entry) → p e ≡ true) → keep p es ≡ es
  keep-true p [] h = refl
  keep-true p (e ∷ es) h = rw (h e, keep-true p es h)

  keep-ext :
      (p q : Entry → Bool) (es : List Entry) → ((e : Entry) → p e ≡ q e) → keep p es ≡ keep q es
  keep-ext p q [] h = refl
  keep-ext p q (e ∷ es) h = rw (h e, keep-ext p q es h)

  by_level-keep :
      (level : Option String) (es : List Entry) → by_level u level es ≡ keep (level_ok level) es
  unfolding by_level
  by_level-keep none es = sym (keep-true _ es (λ e. refl))
  by_level-keep (some level) es = elim (Bool-cases (level == "")) [
    | inl blank ↦ rw blank (sym (keep-true (level_ok (some level)) es (λ e. rw blank refl)))
    | inr given ↦ rw given (keep-ext _ (level_ok (some level)) es (λ e. rw given refl))
  ]

  by_component-keep :
      (component : Option String) (es : List Entry)
      → by_component u component es ≡ keep (component_ok component) es
  unfolding by_component
  by_component-keep none es = sym (keep-true _ es (λ e. refl))
  by_component-keep (some component) es = elim (Bool-cases (component == "")) [
    | inl blank ↦ rw blank (sym (keep-true (component_ok (some component)) es (λ e. rw blank refl)))
    | inr given ↦ rw given (keep-ext _ (component_ok (some component)) es (λ e. rw given refl))
  ]

  -- An answer is the end of the entries whose level and component are as asked, in their order: as
  -- many as the limit, which is at least 1 and at most 2000, or all of them if they are fewer.
  pub get_log_entries_lem :
      (level component : Option String) (limit : ℤ) (s : Log)
      → let wanted = keep (λ e. level_ok level e && component_ok component e) s.buffer in
        let answer = get_log_entries u level component limit s in
        (answer ≡ drop (length wanted - clamp u limit) wanted)
        × (length answer ≡ min (clamp u limit) (length wanted))
        × (1 ≤ clamp u limit)
        × (clamp u limit ≤ max_entries)
  unfolding get_log_entries last_entries clamp
  get_log_entries_lem level component limit s =
      (same, ap length same ∙ omega (arith, length-drop _ wanted), omega arith, omega arith)
    where
      wanted : List Entry
      wanted = keep (λ e. level_ok level e && component_ok component e) s.buffer

      filtered : by_component u component (by_level u level s.buffer) ≡ wanted
      filtered =
          rw (by_level-keep, by_component-keep)
            (keep-keep (component_ok component) (level_ok level) s.buffer)

      same :
          get_log_entries u level component limit s
          ≡ drop (length wanted - max 1 (min (pos_part limit) max_entries)) wanted
      same = rw filtered
