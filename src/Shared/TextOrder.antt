-- ===== src/Shared/TextOrder.antt =====
-- The order of texts by code points, which `sorted` uses for text, is total and transitive.
use Prim.Native.String.{String, compare as compare_text, then}
use Prim.Native.String.compare
use Prim.Native.Nat.{ℕ, Ordering, compare as compare_ℕ}
use Prim.Native.Char.{Char, code}
use mathlib.Core.Path.{◌≡◌, ap, ◌∙◌}
use mathlib.Core.Bool.{Bool, true, false, ◌||◌, ◌&&◌}
use native.Mathlib.Omega.{arith}
use t_log.Shared.Sort.{text_le}
use t_log.Shared.Tests.{ltb, nat_eq}

abbrev not_gt : Ordering → Bool
not_gt Ordering.gt = false
not_gt _ = true

not_gt-then :
    (m n : ℕ) (r : Ordering) → not_gt (then (compare_ℕ m n) r) ≡ (ltb m n || nat_eq m n && not_gt r)
not_gt-then m n r = ground arith

text_le_cons :
    (c d : Char) (s t : String)
    → text_le (String.◌∷◌ c s) (String.◌∷◌ d t)
      ≡ (ltb (code c) (code d) || nat_eq (code c) (code d) && text_le s t)
text_le_cons c d s t =
    ap not_gt (compare.cons-cons c d s t) ∙ not_gt-then (code c) (code d) (compare_text s t)

pub text_le_total : (a b : String) → text_le a b ≡ false → text_le b a ≡ true
text_le_total String.[] String.[] h = ap not_gt compare.nil-nil
text_le_total String.[] (String.◌∷◌ d t) h = absurd (cc (ap not_gt (compare.nil-cons d t), h))
text_le_total (String.◌∷◌ c s) String.[] h = ap not_gt (compare.nil-cons c s)
text_le_total (String.◌∷◌ c s) (String.◌∷◌ d t) h =
    ground (arith, text_le_cons c d s t, text_le_cons d c t s, text_le_total s t, h)

pub text_le_trans : (a b c : String) → text_le a b ≡ true → text_le b c ≡ true → text_le a c ≡ true
text_le_trans String.[] b String.[] h k = ap not_gt compare.nil-nil
text_le_trans String.[] b (String.◌∷◌ e u) h k = ap not_gt (compare.nil-cons e u)
text_le_trans (String.◌∷◌ c s) String.[] u h k = absurd (cc (ap not_gt (compare.cons-nil c s), h))
text_le_trans (String.◌∷◌ c s) (String.◌∷◌ d t) String.[] h k =
    absurd (cc (ap not_gt (compare.cons-nil d t), k))
text_le_trans (String.◌∷◌ c s) (String.◌∷◌ d t) (String.◌∷◌ e u) h k = ground (
  arith,
  text_le_cons c d s t,
  text_le_cons d e t u,
  text_le_cons c e s u,
  text_le_trans s t u,
  h,
  k,
)
