-- ===== src/Shared/Fallible.antt =====
-- Fallible code and stored files.
use Prim.Native.String.{String}
use mathlib.Core.Path.{◌≡◌, refl}
use mathlib.Core.Logic.{◌⊎◌, inl, inr}

-- The exceptions that the modelled code raises itself or lets through.
pub data Error : Type 0 where
  value_error key_error : String → Error
  json_error : Error

pub data Result {ℓ} (A : Type ℓ) : Type ℓ where
  ok : A → Result A
  err : Error → Result A

-- An exception ends the chain.
infixl 5 ◌>>=◌
abbrev pub ◌>>=◌ {ℓ κ} : {A : Type ℓ} {B : Type κ} → Result A → (A → Result B) → Result B
err raised >>= _ = err raised
ok value >>= next = next value

-- A JSON file of the application's data directory: absent, not readable as JSON, or with a content.
pub data File {ℓ} (A : Type ℓ) : Type ℓ where
  missing malformed : File A
  contents : A → File A

-- `_load` of a store that lets a JSON error through.
unfoldable pub load_or_raise {ℓ} : {A : Type ℓ} → A → File A → Result A
load_or_raise empty missing = ok empty
load_or_raise empty malformed = err json_error
load_or_raise empty (contents a) = ok a

-- `_load` of a store that falls back on a default after a JSON error.
unfoldable pub load_or_default {ℓ} : {A : Type ℓ} → A → File A → A
load_or_default empty missing = empty
load_or_default empty malformed = empty
load_or_default empty (contents a) = a

pub Result-cases {ℓ} :
    {A : Type ℓ} (r : Result A) → ((a : A) × (r ≡ ok a)) ⊎ ((e : Error) × (r ≡ err e))
Result-cases (ok a) = inl (a, refl)
Result-cases (err e) = inr (e, refl)

-- Where a chain succeeded, its first step did, and so did the rest of it from there.
pub steps_of_ok {ℓ κ} :
    {A : Type ℓ} {B : Type κ} {last : B} (first : Result A) (rest : A → Result B)
    → (first >>= rest) ≡ ok last
    → (mid : A) × (rest mid ≡ ok last) × (first ≡ ok mid)
steps_of_ok (err e) rest h = cc
steps_of_ok (ok mid) rest h = (mid, h, refl)
