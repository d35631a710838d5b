-- ===== src/Shared/Dict.antt =====
-- Python's `dict` with string keys: an association list in insertion order. `d[k] = v` replaces a
-- value in place and adds a new key at the end.
use Prim.Native.String.{String}
use Prim.Native.Nat.{◌+◌}
use mathlib.Core.Path.{◌≡◌, refl}
use mathlib.Core.Bool.{Bool, false, not}
use mathlib.Core.Option.{Option, none, some}
use mathlib.Core.List.{List, [], ◌∷◌, ◌++◌}
use native.Mathlib.Omega.{arith}
use text.Mathlib.Text.{◌==◌}
use text.Mathlib.TextEquality.{eq_iff}
use t_log.Shared.Tests.{if◌then◌else◌, is_some, Bool-cases}
use mathlib.Core.Logic.{inl, inr}
use t_log.Shared.Lists.{length, any, keep, All}

abbrev pub Dict {ℓ} : Type ℓ → Type ℓ
Dict V = List (String × V)

module _ {ℓ} {V : Type ℓ} where
  -- `d.get(k)`
  unfoldable pub get : String → Dict V → Option V
  get k [] = none
  get k ((j, v) ∷ d) = if j == k then some v else get k d

  -- `d[k] = v`
  unfoldable pub put : String → V → Dict V → Dict V
  put k v [] = (k, v) ∷ []
  put k v ((j, w) ∷ d) = if j == k then (j, v) ∷ d else (j, w) ∷ put k v d

  -- `del d[k]`, `d.pop(k, None)`
  unfoldable pub remove : String → Dict V → Dict V
  remove k d = keep (λ e. not (e.0 == k)) d

  -- `k in d`
  abbrev pub has : String → Dict V → Bool
  has k d = is_some (get k d)

  -- `d.keys()`
  unfoldable pub keys : Dict V → List String
  keys [] = []
  keys ((j, v) ∷ d) = j ∷ keys d

  -- `d.values()`
  unfoldable pub values : Dict V → List V
  values [] = []
  values ((j, v) ∷ d) = v ∷ values d

  pub get-put :
      (k j : String) (v : V) (d : Dict V) → get j (put k v d) ≡ (if k == j then some v else get j d)
  unfolding get put
  get-put k j v [] = refl
  get-put k j v ((i, w) ∷ d) = ground (arith, eq_iff k j, eq_iff i k, eq_iff i j, get-put k j v d)

  pub get-remove :
      (k j : String) (d : Dict V) → get j (remove k d) ≡ (if k == j then none else get j d)
  unfolding get remove
  get-remove k j [] = ground arith
  get-remove k j ((i, w) ∷ d) = ground (arith, eq_iff k j, eq_iff i k, eq_iff i j, get-remove k j d)

  pub keys-put :
      (k : String) (v : V) (d : Dict V)
      → keys (put k v d) ≡ (if has k d then keys d else keys d ++ k ∷ [])
  unfolding get put keys
  keys-put k v [] = refl
  keys-put k v ((i, w) ∷ d) = ground (arith, keys-put k v d)

  pub length-put :
      (k : String) (v : V) (d : Dict V)
      → length (put k v d) ≡ (if has k d then length d else length d + 1)
  unfolding get put
  length-put k v [] = refl
  length-put k v ((i, w) ∷ d) = ground (arith, length-put k v d)

  pub has-keys : (k : String) (d : Dict V) → has k d ≡ any (λ j. j == k) (keys d)
  unfolding get keys
  has-keys k [] = refl
  has-keys k ((i, w) ∷ d) = ground (arith, has-keys k d)

pub ruleset dict_laws = (get-put, get-remove)

-- No key stands twice: what a Python dict is by construction, and what the operations keep.
module _ {ℓ} {V : Type ℓ} where
  abbrev pub IsUnique : Dict V → Type 0
  IsUnique [] = Unit
  IsUnique ((j, v) ∷ d) = (has j d ≡ false) × IsUnique d

  pub put-IsUnique : (k : String) (v : V) (d : Dict V) → IsUnique d → IsUnique (put k v d)
  unfolding get put
  put-IsUnique k v [] h = (refl, tt)
  put-IsUnique k v ((j, w) ∷ d) (h, hs) =
      ground (arith, put-IsUnique k v d hs, get-put k j v d, eq_iff j k, eq_iff k j)

  pub remove-IsUnique : (k : String) (d : Dict V) → IsUnique d → IsUnique (remove k d)
  unfolding remove
  remove-IsUnique k [] h = tt
  remove-IsUnique k ((j, w) ∷ d) (h, hs) = ground (arith, remove-IsUnique k d hs, get-remove k j d)

  pub length-remove :
      (k : String) (d : Dict V)
      → IsUnique d
      → length (remove k d) + (if has k d then 1 else 0) ≡ length d
  unfolding get remove
  length-remove k [] h = omega arith
  length-remove k ((j, w) ∷ d) (h, hs) = ground (arith, length-remove k d hs, eq_iff j k)

  -- A fact about every key is kept by a write whose key has it, or was there already.
  pub put-All {κ} :
      (N : String → Type κ) (k : String) (v : V) (d : Dict V)
      → All (λ (e : String × V). N e.0) d
      → (has k d ≡ false → N k)
      → All (λ (e : String × V). N e.0) (put k v d)
  unfolding get put
  put-All N k v [] h n = (n refl, tt)
  put-All N k v ((j, w) ∷ d) (h, hs) n = elim (Bool-cases (j == k)) [
    | inl e ↦ rw e (h, hs)
    | inr e ↦ rw e (h, put-All N k v d hs (rw e at n))
  ]

abbrev pub Distinct : List String → Type 0
Distinct [] = Unit
Distinct (k ∷ ks) = (any (λ j. j == k) ks ≡ false) × Distinct ks

module _ {ℓ} {V : Type ℓ} where
  -- `d.update(o)`
  unfoldable pub put_all : Dict V → Dict V → Dict V
  put_all d [] = d
  put_all d ((k, v) ∷ o) = put_all (put k v d) o

  abbrev pub or_else : Option V → Option V → Option V
  or_else none p = p
  or_else (some v) p = some v

  -- A value of `o` wins over one of `d`.
  pub get-put_all :
      (j : String) (d o : Dict V) → IsUnique o → get j (put_all d o) ≡ or_else (get j o) (get j d)
  unfolding put_all get
  get-put_all j d [] h = refl
  get-put_all j d ((k, v) ∷ o) (h, hs) =
      ground (arith, get-put_all j (put k v d) o hs, get-put k j v d, eq_iff k j)

  pub put_all-IsUnique : (d o : Dict V) → IsUnique d → IsUnique (put_all d o)
  unfolding put_all
  put_all-IsUnique d [] h = h
  put_all-IsUnique d ((k, v) ∷ o) h = put_all-IsUnique (put k v d) o (put-IsUnique k v d h)

  -- `{k: d[k] for k in ks if k in d}`
  unfoldable pub pick : List String → Dict V → Dict V
  pick [] d = []
  pick (k ∷ ks) d = let rest = pick ks d in elim (get k d) [ none ↦ rest | some v ↦ (k, v) ∷ rest ]

  pub get-pick :
      (j : String) (ks : List String) (d : Dict V)
      → get j (pick ks d) ≡ (if any (λ k. k == j) ks then get j d else none)
  unfolding pick get
  get-pick j [] d = refl
  get-pick j (k ∷ ks) d = ground (arith, get-pick j ks d, eq_iff k j)

  pub pick-IsUnique : (ks : List String) (d : Dict V) → Distinct ks → IsUnique (pick ks d)
  unfolding pick
  pick-IsUnique [] d h = tt
  pick-IsUnique (k ∷ ks) d (h, hs) = ground (arith, pick-IsUnique ks d hs, get-pick k ks d)
