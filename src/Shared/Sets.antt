-- ===== src/Shared/Sets.antt =====
-- Python's `set` as a list without repetition, over any type with a Boolean equality.
use Prim.Native.Nat.{ℕ, ◌+◌}
use Prim.Native.String.{String}
use mathlib.Core.Path.{◌≡◌, refl}
use mathlib.Core.Logic.{◌↔◌, inl, inr}
use mathlib.Core.Bool.{Bool, true, not, ◌||◌, ◌&&◌}
use mathlib.Core.List.{List, [], ◌∷◌, ◌++◌}
use native.Mathlib.Omega.{arith}
use text.Mathlib.Text.{◌==◌ as str_eq}
use text.Mathlib.TextEquality.{eq_iff}
use t_log.Shared.Tests.{if◌then◌else◌, nat_eq, Bool-cases}
use t_log.Shared.Int.{ℤ, pos_part, neg_part, eq_of_parts}
use t_log.Shared.Lists.{any, keep, any-append}

pub record Eq {ℓ} (A : Type ℓ) : Type ℓ where
  pub beq : A → A → Bool
  pub beq_iff : (a b : A) → (beq a b ≡ true) ↔ (a ≡ b)

pub nat_eq_iff : (a b : ℕ) → (nat_eq a b ≡ true) ↔ (a ≡ b)
nat_eq_iff a b = ground arith

instance abbrev pub eq_nat : Eq ℕ
eq_nat = record { beq = nat_eq; beq_iff = nat_eq_iff }

abbrev pub int_eq : ℤ → ℤ → Bool
int_eq a b = nat_eq (pos_part a + neg_part b) (pos_part b + neg_part a)

pub int_eq_iff : (a b : ℤ) → (int_eq a b ≡ true) ↔ (a ≡ b)
int_eq_iff a b = (λ h. eq_of_parts a b (ground (arith, h)), λ h. rw h (ground arith))

instance abbrev pub eq_int : Eq ℤ
eq_int = record { beq = int_eq; beq_iff = int_eq_iff }

instance abbrev pub eq_string : Eq String
eq_string = record { beq = str_eq; beq_iff = eq_iff }

module _ {ℓ} {A : Type ℓ} ⦃e : Eq A⦄ where
  -- `a in s`
  unfoldable pub member : A → List A → Bool
  member a s = any (λ x. e.beq x a) s

  -- `s.add(a)`
  unfoldable pub add : A → List A → List A
  add a s = if member a s then s else s ++ a ∷ []

  -- `s.discard(a)`
  unfoldable pub discard : A → List A → List A
  discard a s = keep (λ x. not (e.beq x a)) s

  -- `s.update(xs)`, `s | xs`, and `set(xs)` from the empty set
  unfoldable pub update : List A → List A → List A
  update s [] = s
  update s (x ∷ xs) = update (add x s) xs

  -- `s & t`, as a test
  unfoldable pub meets : List A → List A → Bool
  meets s t = any (λ x. member x t) s

  pub beq_refl : (a : A) → e.beq a a ≡ true
  beq_refl a = (e.beq_iff a a).1 refl

  pub beq_comm : (a b : A) → e.beq a b ≡ e.beq b a
  beq_comm a b = ground (arith, e.beq_iff a b, e.beq_iff b a)

  pub member-append : (a : A) (s t : List A) → member a (s ++ t) ≡ (member a s || member a t)
  unfolding member
  member-append a s t = any-append (λ x. e.beq x a) s t

  pub any-beq : (a b : A) (s : List A) → e.beq a b ≡ true → member b s ≡ member a s
  any-beq a b s h = rw ((e.beq_iff a b).0 h)

  pub member-add : (a b : A) (s : List A) → member b (add a s) ≡ (e.beq a b || member b s)
  unfolding add member
  member-add a b s = elim (Bool-cases (member a s)) [
    | inl old ↦ ground (arith, any-beq a b s)
    | inr new ↦ ground (arith, member-append b s (a ∷ []))
  ]

  pub member-discard :
      (a b : A) (s : List A) → member b (discard a s) ≡ (not (e.beq a b) && member b s)
  unfolding discard member
  member-discard a b [] = ground arith
  member-discard a b (x ∷ s) =
      ground (arith, member-discard a b s, e.beq_iff x a, e.beq_iff x b, e.beq_iff a b)

  pub member-update : (a : A) (s xs : List A) → member a (update s xs) ≡ (member a s || member a xs)
  unfolding update member
  member-update a s [] = ground arith
  member-update a s (x ∷ xs) = ground (arith, member-update a (add x s) xs, member-add x a s)

  -- `s - t`
  pub member-minus :
      (a : A) (s t : List A)
      → member a (keep (λ x. not (member x t)) s) ≡ (member a s && not (member a t))
  unfolding member
  member-minus a [] t = refl
  member-minus a (x ∷ s) t = ground (arith, member-minus a s t, any-beq x a t)

  -- `s & t` is not empty exactly when some element lies in both.
  pub meets-true : (a : A) (s t : List A) → member a s ≡ true → member a t ≡ true → meets s t ≡ true
  unfolding meets member
  meets-true a [] t h k = h
  meets-true a (x ∷ s) t h k = ground (arith, meets-true a s t, any-beq x a t)

pub ruleset set_laws = (member-add, member-discard, member-update)
