-- ===== src/Shared/Decimal.antt =====
-- Decimal numerals: `str(n)` of a natural number, and `int(s)`.
use Prim.Native.Nat.{ℕ, zero, suc, ◌+◌, ◌*◌, ◌/◌, ◌%◌, ◌<◌}
use Prim.Native.Char.{Char, code}
use Prim.Native.String.{String}
use mathlib.Core.Path.{◌≡◌, refl, ◌∙◌, ap}
use mathlib.Core.Logic.{inl, inr}
use mathlib.Core.Bool.{Bool, false, not, ◌&&◌, ◌||◌}
use native.Mathlib.Omega.{arith}
use text.Mathlib.Text.{◌==◌}
use t_log.Shared.Tests.{if◌then◌else◌, nat_eq, leb, ltb, Bool-cases, ltb→lt, ltb-false→le}
use t_log.Shared.Text.{all_chars, strip}
use t_log.Shared.Int.{ℤ, pos, negsuc}
use mathlib.Core.Option.{Option, none, some}

-- The decimal digits of Unicode, which `\d` matches and `int` reads, each with its value.
pub record Digits : Type 0 where
  pub is_decimal : Char → Bool
  pub value : Char → ℕ

-- The digits with the code points of "0" to "9", with which `str` writes.
digit : ℕ → Char
digit zero = "0"
digit (suc zero) = "1"
digit (suc (suc zero)) = "2"
digit (suc (suc (suc zero))) = "3"
digit (suc (suc (suc (suc zero)))) = "4"
digit (suc (suc (suc (suc (suc zero))))) = "5"
digit (suc (suc (suc (suc (suc (suc zero)))))) = "6"
digit (suc (suc (suc (suc (suc (suc (suc zero))))))) = "7"
digit (suc (suc (suc (suc (suc (suc (suc (suc zero)))))))) = "8"
digit (suc (suc (suc (suc (suc (suc (suc (suc (suc n))))))))) = "9"

-- The digits of `n` before `out`; a number has fewer digits than its successor says.
write : ℕ → ℕ → String → String
unfolding digit
write zero n out = out
write (suc fuel) n out =
    let rest = write fuel (n / 10) (String.◌∷◌ (digit (n % 10)) out) in
    if ltb n 10 then String.◌∷◌ (digit n) out else rest

-- `str(n)`
unfoldable pub decimal : ℕ → String
unfolding write
decimal n = write (suc n) n ""

module _ (d : Digits) where
  abbrev pub is_numeral : String → Bool
  is_numeral s = not (s == "") && all_chars d.is_decimal s

  read : ℕ → String → ℕ
  read n String.[] = n
  read n (String.◌∷◌ c s) = read (n * 10 + d.value c) s

  -- `int(s)` of a numeral
  unfoldable pub number : String → ℕ
  unfolding read
  number s = read 0 s

negated : ℕ → ℤ
negated zero = pos zero
negated (suc n) = negsuc n

module _ (d : Digits) where
  -- The digits of an `int(s)`, of which at most 4300 are read, with `_` between two of them.
  int_digits : Bool → ℕ → ℕ → String → Option ℕ
  int_digits after_digit count n String.[] = if after_digit && leb count 4300 then some n else none
  int_digits after_digit count n (String.◌∷◌ c s) =
      let digit = d.is_decimal c in
      let rest =
        int_digits digit (if digit then suc count else count)
          (if digit then n * 10 + d.value c else n) s in
      if digit || after_digit && nat_eq (code c) 95 then rest else none

  signed : String → Option ℤ
  unfolding int_digits negated
  signed String.[] = none
  signed (String.◌∷◌ c s) =
      let plain = int_digits false 0 0 (String.◌∷◌ c s) in
      let rest = int_digits false 0 0 s in
      if nat_eq (code c) 45
      then elim rest [ none ↦ none | some n ↦ some (negated n) ]
      else elim (if nat_eq (code c) 43 then rest else plain) [ none ↦ none | some n ↦ some (pos n) ]

  -- `int(s)` of any text; `none` is a ValueError.
  unfoldable pub int_of : String → Option ℤ
  unfolding signed
  int_of s = signed (strip s)

-- The digits of ASCII.
unfoldable pub ascii_digits : Digits
ascii_digits = record {
  is_decimal = λ c. not (ltb (code c) 48) && ltb (code c) 58;
  value = λ c. code c % 16;
}

decimal_tests : (decimal 0 ≡ "0") × (decimal 65535 ≡ "65535") × (number ascii_digits "00443" ≡ 443)
unfolding decimal number ascii_digits
decimal_tests = (refl, refl, refl)

-- A table gives the digits that `str` writes their values.
ReadsDigit : Digits → ℕ → Type 0
ReadsDigit d n = (m : ℕ) (s : String) → read d m (String.◌∷◌ (digit n) s) ≡ read d (m * 10 + n) s

pub ReadsAscii : Digits → Type 0
ReadsAscii d = (n : ℕ) → n < 10 → ReadsDigit d n

module _ (d : Digits) (reads : ReadsAscii d) where
  read-write : (fuel n : ℕ) (out : String) → n < fuel → read d 0 (write fuel n out) ≡ read d n out
  unfolding write ReadsAscii ReadsDigit
  read-write zero n out h = absurd (omega arith)
  read-write (suc fuel) n out h = elim (Bool-cases (ltb n 10)) [
    | inl small ↦
        rw small (reads n (ltb→lt n 10 small) 0 out ∙ ap (λ k. read d k out) (omega arith))
    | inr large ↦
        let ten : 9 < n = omega (arith, ltb-false→le n 10 large) in
        rw large (
          read-write fuel (n / 10) (String.◌∷◌ (digit (n % 10)) out) (omega arith)
          ∙ reads (n % 10) (omega arith) (n / 10) out
          ∙ ap (λ k. read d k out) (omega arith))
  ]

  -- What `str` writes, `int` reads back.
  pub number-decimal : (n : ℕ) → number d (decimal n) ≡ n
  unfolding number decimal read
  number-decimal n = read-write (suc n) n "" (omega arith)

pub ascii_digits-ReadsAscii : ReadsAscii ascii_digits
unfolding ReadsAscii ReadsDigit read digit ascii_digits
ascii_digits-ReadsAscii zero h m s = refl
ascii_digits-ReadsAscii (suc zero) h m s = refl
ascii_digits-ReadsAscii (suc (suc zero)) h m s = refl
ascii_digits-ReadsAscii (suc (suc (suc zero))) h m s = refl
ascii_digits-ReadsAscii (suc (suc (suc (suc zero)))) h m s = refl
ascii_digits-ReadsAscii (suc (suc (suc (suc (suc zero))))) h m s = refl
ascii_digits-ReadsAscii (suc (suc (suc (suc (suc (suc zero)))))) h m s = refl
ascii_digits-ReadsAscii (suc (suc (suc (suc (suc (suc (suc zero))))))) h m s = refl
ascii_digits-ReadsAscii (suc (suc (suc (suc (suc (suc (suc (suc zero)))))))) h m s = refl
ascii_digits-ReadsAscii (suc (suc (suc (suc (suc (suc (suc (suc (suc n))))))))) h m s =
    ap (λ (k : ℕ). read ascii_digits (m * 10 + k) s) (omega arith)
