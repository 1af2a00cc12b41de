-- ===== src/Prelude/Texts.antt =====
-- Go's order on strings, by bytes: for valid UTF-8 it is the order by code points of `compare`.
use Prim.Native.Char.{code}
use Prim.Native.Nat.{ℕ, Ordering, compare as compare_ℕ}
use Prim.Native.String.compare
use Prim.Native.String.{String, [], ◌∷◌, compare, then}
use mathlib.Core.Bool.{Bool, true, false}
use mathlib.Core.Logic.{◌⊎◌, inl, inr}
use mathlib.Core.Path.{◌≡◌, refl, sym, ◌∙◌, ap, ap₂}
use native.Mathlib.Omega.{arith}
use text.Mathlib.Text.{is_lt}
use text.Mathlib.TextEquality.{path_by_compare}
use text.Mathlib.TextPositions.{compare_refl}

-- s < t
abbrev pub lt_str : String → String → Bool
lt_str s t = is_lt (compare s t)

flip : Ordering → Ordering
flip Ordering.lt = Ordering.gt
flip Ordering.eq = Ordering.eq
flip Ordering.gt = Ordering.lt

compare_ℕ-flip : (m n : ℕ) → compare_ℕ m n ≡ flip (compare_ℕ n m)
unfolding flip
compare_ℕ-flip m n = ground arith

then-flip : (a b : Ordering) → then (flip a) (flip b) ≡ flip (then a b)
unfolding flip
then-flip a b = ground arith

compare-flip : (s t : String) → compare s t ≡ flip (compare t s)
unfolding flip
compare-flip [] [] = ground arith
compare-flip [] (d ∷ t) = compare.nil-cons d t ∙ ap flip (sym (compare.cons-nil d t))
compare-flip (c ∷ s) [] = compare.cons-nil c s ∙ ap flip (sym (compare.nil-cons c s))
compare-flip (c ∷ s) (d ∷ t) =
    compare.cons-cons c d s t
    ∙ ap₂ then (compare_ℕ-flip (code c) (code d)) (compare-flip s t)
    ∙ then-flip (compare_ℕ (code d) (code c)) (compare t s)
    ∙ ap flip (sym (compare.cons-cons d c t s))

then_trans :
    (x y z : ℕ) (a b c : Ordering)
    → (is_lt a ≡ true → is_lt b ≡ true → is_lt c ≡ true)
    → is_lt (then (compare_ℕ x y) a) ≡ true
    → is_lt (then (compare_ℕ y z) b) ≡ true
    → is_lt (then (compare_ℕ x z) c) ≡ true
then_trans x y z a b c f p q = ground arith

pub lt_str_irrefl : (s : String) → lt_str s s ≡ false
lt_str_irrefl s = ap is_lt (compare_refl s)

pub lt_str_trans : (s t u : String) → lt_str s t ≡ true → lt_str t u ≡ true → lt_str s u ≡ true
lt_str_trans [] [] u p q = q
lt_str_trans [] (d ∷ t) [] p q = cc (q, ap is_lt (compare.cons-nil d t))
lt_str_trans [] (d ∷ t) (e ∷ u) p q = ap is_lt (compare.nil-cons e u)
lt_str_trans (c ∷ s) [] u p q = cc (p, ap is_lt (compare.cons-nil c s))
lt_str_trans (c ∷ s) (d ∷ t) [] p q = cc (q, ap is_lt (compare.cons-nil d t))
lt_str_trans (c ∷ s) (d ∷ t) (e ∷ u) p q =
    ap is_lt (compare.cons-cons c e s u)
    ∙ then_trans (code c) (code d) (code e) (compare s t) (compare t u) (compare s u)
        (lt_str_trans s t u) (sym (ap is_lt (compare.cons-cons c d s t)) ∙ p)
        (sym (ap is_lt (compare.cons-cons d e t u)) ∙ q)

lt-or-eq-or-gt : (o : Ordering) → (is_lt o ≡ true) ⊎ ((o ≡ Ordering.eq) ⊎ (is_lt (flip o) ≡ true))
unfolding flip
lt-or-eq-or-gt Ordering.lt = inl refl
lt-or-eq-or-gt Ordering.eq = inr (inl refl)
lt-or-eq-or-gt Ordering.gt = inr (inr refl)

-- Of two different strings one is the smaller.
pub lt_str-total : (s t : String) → (lt_str s t ≡ true) ⊎ ((s ≡ t) ⊎ (lt_str t s ≡ true))
lt_str-total s t = elim (lt-or-eq-or-gt (compare s t)) [
  | inl p ↦ inl p
  | inr (inl e) ↦ inr (inl (path_by_compare s t e))
  | inr (inr q) ↦ inr (inr (ap is_lt (compare-flip t s) ∙ q))
]
