-- ===== src/Shared/Text.antt =====
-- Python's `str.strip`, `str.split` on one character and tests on characters.
use Prim.Native.Nat.{ℕ, zero, suc}
use Prim.Native.Char.{Char, code}
use Prim.Native.String.{String}
use mathlib.Core.Path.{◌≡◌, refl}
use mathlib.Core.Logic.{inl, inr}
use mathlib.Core.Bool.{Bool, true, false, ◌||◌, ◌&&◌}
use mathlib.Core.List.{List, [], ◌∷◌}
use native.Mathlib.Omega.{arith}
use text.Mathlib.Text.{◌==◌}
use t_log.Shared.Tests.{if◌then◌else◌, leb, nat_eq, Bool-cases}

abbrev pub between : ℕ → ℕ → ℕ → Bool
between lo hi c = leb lo c && leb c hi

-- `str.isspace` of one character, by its code point.
unfoldable pub is_space : Char → Bool
is_space c =
    let n = code c in
    between 9 13 n
    || between 28 32 n
    || nat_eq n 133
    || nat_eq n 160
    || nat_eq n 5760
    || between 8192 8202 n
    || between 8232 8233 n
    || nat_eq n 8239
    || nat_eq n 8287
    || nat_eq n 12288

lstrip : String → String
lstrip String.[] = ""
lstrip (String.◌∷◌ c s) = let rest = lstrip s in if is_space c then rest else String.◌∷◌ c s

rstrip : String → String
rstrip String.[] = ""
rstrip (String.◌∷◌ c s) =
    let rest = rstrip s in if is_space c && rest == "" then "" else String.◌∷◌ c rest

-- `s.strip()`
unfoldable pub strip : String → String
unfolding lstrip rstrip is_space
strip s = rstrip (lstrip s)

-- `s.partition(c)` without the separator, at the first `c`, and `s.split(c)`.
unfoldable pub split : ℕ → String → List String
split sep String.[] = "" ∷ []
split sep (String.◌∷◌ c s) = elim (split sep s) [
  | [] ↦ []
  | part ∷ parts ↦ if nat_eq (code c) sep then "" ∷ part ∷ parts else String.◌∷◌ c part ∷ parts
]

-- `all(p(c) for c in s)` and `any(p(c) for c in s)`
module _ (p : Char → Bool) where
  abbrev pub all_chars : String → Bool
  all_chars String.[] = true
  all_chars (String.◌∷◌ c s) = p c && all_chars s

  abbrev pub any_char : String → Bool
  any_char String.[] = false
  any_char (String.◌∷◌ c s) = p c || any_char s

-- `s.startswith(t)`
unfoldable pub starts_with : String → String → Bool
starts_with s String.[] = true
starts_with String.[] (String.◌∷◌ d t) = false
starts_with (String.◌∷◌ c s) (String.◌∷◌ d t) = nat_eq (code c) (code d) && starts_with s t

-- `s[n:]`
unfoldable pub drop_chars : ℕ → String → String
drop_chars zero s = s
drop_chars (suc n) String.[] = ""
drop_chars (suc n) (String.◌∷◌ c s) = drop_chars n s

-- The tables of Unicode that the code reads through `lower`, `upper`, `islower`, `isupper` and
-- `isdigit`. The development holds for any tables.
pub record Unicode : Type 0 where
  pub lower : String → String
  pub upper : String → String
  pub is_lower : Char → Bool
  pub is_upper : Char → Bool
  pub is_digit : Char → Bool

-- Tables for ASCII, where only the texts at hand change their case.
abbrev pub ascii_with : (String → String) → (String → String) → Unicode
ascii_with lower upper = record {
  lower = lower;
  upper = upper;
  is_lower = λ c. between 97 122 (code c);
  is_upper = λ c. between 65 90 (code c);
  is_digit = λ c. between 48 57 (code c);
}

abbrev pub ascii : Unicode
ascii = ascii_with (λ s. s) (λ s. s)

rstrip_idem : (s : String) → rstrip (rstrip s) ≡ rstrip s
unfolding rstrip
rstrip_idem String.[] = refl
rstrip_idem (String.◌∷◌ c s) = elim (Bool-cases (is_space c && rstrip s == "")) [
  | inl h ↦ rw h
  | inr h ↦ rw h (rw (rstrip_idem s, h))
]

-- `rstrip` keeps a leading character that is no space.
lstrip-rstrip-lstrip : (s : String) → lstrip (rstrip (lstrip s)) ≡ rstrip (lstrip s)
unfolding lstrip rstrip
lstrip-rstrip-lstrip String.[] = refl
lstrip-rstrip-lstrip (String.◌∷◌ c s) = elim (Bool-cases (is_space c)) [
  | inl h ↦ rw h (lstrip-rstrip-lstrip s)
  | inr h ↦ ground (arith, h)
]

-- Stripping a second time changes nothing.
pub strip_idem : (s : String) → strip (strip s) ≡ strip s
unfolding strip
strip_idem s = rw lstrip-rstrip-lstrip (rstrip_idem (lstrip s))

strip_tests :
    (strip "  a b\n" ≡ "a b") × (strip " \t " ≡ "") × (split b',' "a,,b" ≡ "a" ∷ "" ∷ "b" ∷ [])
unfolding strip split is_space
strip_tests = (refl, refl, refl)
