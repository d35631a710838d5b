-- ===== src/ThreatStats/Hours.antt =====
-- app/threat_stats_cache.py: `_parse_business_hours` and `_business_hours_range`, the business hours of
-- the day so far, in the zone of the configuration.
mod Tests
use t_log.Shared.{
  ℕ, zero, suc, ◌+◌, ◌*◌, ◌≡◌, Bool, true, false, not, ◌&&◌, ◌||◌, Option, none, some, List, [],
  ◌∷◌, String, ◌==◌, if◌then◌else◌, leb, ltb, nat_eq, arith, inl, inr, refl, ◌⊎◌, Option-cases,
  Bool-cases, ap,
}
use t_log.Shared.Text.{strip, split}
use t_log.Shared.Int.{ℤ, pos, negsuc}
use t_log.Shared.Decimal.{Digits, int_of}
use Prim.Native.Char.{code}

-- What parsing comes to: a value, the ValueError that is caught, or an OverflowError, which is not.
pub data Parsed {ℓ} (A : Type ℓ) : Type ℓ where
  parsed : A → Parsed A
  value_error overflow_error : Parsed A

infixl 5 ◌>>=◌
abbrev pub ◌>>=◌ {ℓ κ} : {A : Type ℓ} {B : Type κ} → Parsed A → (A → Parsed B) → Parsed B
parsed a >>= next = next a
value_error >>= next = value_error
overflow_error >>= next = overflow_error

-- The wall clock of a zone: the day by its number, and the microsecond of the day. Of an hour that
-- occurs twice, as at the end of summer time, the two readings are not told apart.
pub record Local : Type 0 where
  pub day : ℕ
  pub tick : ℕ

-- `a < b` of two readings with one `tzinfo`
pub before : Local → Local → Bool
before a b = ltb a.day b.day || nat_eq a.day b.day && ltb a.tick b.tick

-- A `ZoneInfo`, as `astimezone` uses it; an instant of UTC is a number of microseconds.
pub record Zone : Type 0 where
  pub to_local : ℕ → Local
  pub to_utc : Local → ℕ

-- The start and the end of the hours as microseconds of a day.
abbrev pub Hours : Type 0
Hours = ℕ × ℕ

-- An `int` of the C library holds the arguments of `datetime.time`.
fits : ℤ → Bool
fits (pos n) = ltb n 2147483648
fits (negsuc n) = ltb n 2147483648

below : ℕ → ℤ → Bool
below bound (pos n) = ltb n bound
below bound (negsuc n) = false

magnitude : ℤ → ℕ
magnitude (pos n) = n
magnitude (negsuc n) = suc n

-- `datetime.time(hour, minute)`, which `replace` writes into a date
unfoldable pub time_of : ℤ → ℤ → Parsed ℕ
unfolding fits below magnitude
time_of hour minute =
    if not (fits hour && fits minute)
    then overflow_error
    else if below 24 hour && below 60 minute
    then parsed ((magnitude hour * 60 + magnitude minute) * 60000000)
    else value_error

module _ (d : Digits) where
  -- `h, m = (int(x) for x in s.split(":"))`
  two_ints : List String → Parsed (ℤ × ℤ)
  two_ints (h ∷ m ∷ []) = elim (int_of d h) [
    | none ↦ value_error
    | some hour ↦ elim (int_of d m) [ none ↦ value_error | some minute ↦ parsed (hour, minute) ]
  ]
  two_ints parts = value_error

  -- `s.partition("-")`: the text before the first "-" and the text after it.
  halves : String → String × String
  halves String.[] = ("", "")
  halves (String.◌∷◌ c s) =
      let (a, b) = halves s in if nat_eq (code c) 45 then ("", s) else (String.◌∷◌ c a, b)

  unfoldable pub parse_business_hours : String → Parsed Hours
  unfolding two_ints halves
  parse_business_hours text = do
    let (start_str, end_str) = halves text
    (start_h, start_m) ← two_ints (split b':' start_str)
    (end_h, end_m) ← two_ints (split b':' end_str)
    start ← time_of start_h start_m
    end ← time_of end_h end_m
    parsed (start, end)

-- The hours of the day of `now` up to `now`.
unfoldable pub window : Local → Hours → Option (Local × Local)
window now (start, end) =
    let business_start : Local = record { day = now.day; tick = start } in
    let whole_end : Local = record { day = now.day; tick = end } in
    let business_end : Local = if before now whole_end then now else whole_end in
    if before business_start business_end then some (business_start, business_end) else none

-- `zone` is `ZoneInfo(name)`, if it raises nothing; `local_time_range` is the client's, of two
-- instants written in ISO 8601.
module _ (d : Digits) (zone : String → Option Zone) where
  unfoldable pub business_hours_range :
      String → String → (ℕ → ℕ → String × String) → ℕ → Parsed (Option (String × String))
  business_hours_range hours name local_time_range now_utc = elim (parse_business_hours d hours) [
    | value_error ↦ parsed none
    | overflow_error ↦ overflow_error
    | parsed h ↦ elim (zone name) [
      | none ↦ parsed none
      | some z ↦ elim (window (z.to_local now_utc) h) [
        | none ↦ parsed none
        | some (a, b) ↦ parsed (some (local_time_range (z.to_utc a) (z.to_utc b)))
      ]
    ]
  ]

-- A reading of the clock lies in a window.
pub covers : Option (Local × Local) → Local → Bool
covers none t = false
covers (some (a, b)) t = not (before t a) && before t b

-- It is on the day of `now` and before `now`, and its time of day lies in the hours.
pub in_hours_so_far : Local → Hours → Local → Bool
in_hours_so_far now (start, end) t =
    nat_eq t.day now.day && ltb t.tick now.tick && leb start t.tick && ltb t.tick end

covers-window :
    (now : Local) (h : Hours) (t : Local) → covers (window now h) t ≡ in_hours_so_far now h t
unfolding covers in_hours_so_far window before
covers-window now (start, end) t = ground arith

-- The start of a window lies in it.
window-cases :
    (now : Local) (h : Hours)
    → (window now h ≡ none) ⊎ ((t : Local) × (covers (window now h) t ≡ true))
unfolding covers window before
window-cases now (start, end) =
    elim (Bool-cases (
      before (record { day = now.day; tick = start })
        (if before now (record { day = now.day; tick = end })
          then now
          else record { day = now.day; tick = end }))) [
            | inl h ↦ inr (record { day = now.day; tick = start }, ground arith)
            | inr h ↦ inl (rw h refl)
          ]

-- The strings of a window, as the client gives them.
pub asked_range :
    Zone → (ℕ → ℕ → String × String) → Option (Local × Local) → Option (String × String)
asked_range z local_time_range none = none
asked_range z local_time_range (some (a, b)) = some (local_time_range (z.to_utc a) (z.to_utc b))

module _ (d : Digits) (zone : String → Option Zone) where
  -- Where the settings read as hours and a zone, the range that is asked for is the window which
  -- covers exactly the readings of that zone's clock that lie on the present day, before now and in
  -- the hours. None is asked for exactly where there is no such reading.
  pub business_hours_range_lem :
      (hours name : String) (ltr : ℕ → ℕ → String × String) (now : ℕ)
      → (h : Hours) (z : Zone) → parse_business_hours d hours ≡ parsed h
      → zone name ≡ some z
      → (w : Option (Local × Local)) × (business_hours_range d zone hours name ltr now
          ≡ parsed (asked_range z ltr w))
        × ((t : Local) → covers w t ≡ in_hours_so_far (z.to_local now) h t)
        × ((w ≡ none) ⊎ ((t : Local) × (covers w t ≡ true)))
  unfolding business_hours_range asked_range
  business_hours_range_lem hours name ltr now h z reads known = (
    window (z.to_local now) h,
    rw (business_hours_range, reads, known)
        (elim (Option-cases (window (z.to_local now) h)) [
          | inl e ↦ rw e refl
          | inr (w, e) ↦ rw e refl
        ]),
    covers-window (z.to_local now) h,
    window-cases (z.to_local now) h,
  )
