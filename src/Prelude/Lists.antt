-- ===== src/Prelude/Lists.antt =====
-- Lists measured and cut by native numbers, and predicates on all or some elements.
use Prim.Native.Nat.{ℕ, zero, suc, ◌+◌, ◌-◌, ◌≤◌}
use Prim.Native.Nat.add
use mathlib.Core.Path.{subst, ◌≡◌, refl, sym, ◌∙◌}
use mathlib.Core.Logic.{◌⊎◌, inl, inr}
use mathlib.Core.List.{map, List, [], ◌∷◌, ◌++◌}
use mathlib.Core.Option.{Option, none, some}
use native.Mathlib.Omega.{arith}

module _ {ℓ} {A : Type ℓ} where
  abbrev pub length : List A → ℕ
  length [] = 0
  length (x ∷ xs) = suc (length xs)

  abbrev pub take : ℕ → List A → List A
  take zero xs = []
  take (suc n) [] = []
  take (suc n) (x ∷ xs) = x ∷ take n xs

  abbrev pub drop : ℕ → List A → List A
  drop zero xs = xs
  drop (suc n) [] = []
  drop (suc n) (x ∷ xs) = drop n xs

  abbrev pub get_elem? : List A → ℕ → Option A
  get_elem? [] i = none
  get_elem? (x ∷ xs) zero = some x
  get_elem? (x ∷ xs) (suc i) = get_elem? xs i

  pub length-append : (xs ys : List A) → length (xs ++ ys) ≡ length xs + length ys
  length-append [] ys = omega arith
  length-append (x ∷ xs) ys = omega (arith, length-append xs ys)

  pub length-drop : (n : ℕ) (xs : List A) → length (drop n xs) ≡ length xs - n
  length-drop zero xs = omega arith
  length-drop (suc n) [] = omega arith
  length-drop (suc n) (x ∷ xs) = omega (arith, length-drop n xs)

  pub drop-append : (n : ℕ) (xs ys : List A) → n ≤ length xs → drop n (xs ++ ys) ≡ drop n xs ++ ys
  drop-append zero xs ys h = refl
  drop-append (suc n) [] ys h = absurd (omega arith)
  drop-append (suc n) (x ∷ xs) ys h = drop-append n xs ys (omega arith)

  drop-nil : (n : ℕ) → drop n [] ≡ []
  drop-nil zero = refl
  drop-nil (suc n) = refl

  pub drop-drop : (m n : ℕ) (xs : List A) → drop m (drop n xs) ≡ drop (n + m) xs
  drop-drop m zero xs = rw add.zero
  drop-drop m (suc n) [] = drop-nil m ∙ sym (drop-nil (suc n + m))
  drop-drop m (suc n) (x ∷ xs) = rw add.suc (drop-drop m n xs)

  -- Every element has the property; some element has it.
  abbrev pub All : (A → Type 0) → List A → Type 0
  All P [] = Unit
  All P (x ∷ xs) = P x × All P xs

  abbrev pub Any : (A → Type 0) → List A → Type 0
  Any P [] = ⊥
  Any P (x ∷ xs) = P x ⊎ Any P xs

  pub All-imp : (P Q : A → Type 0) (l : List A) → ((a : A) → P a → Q a) → All P l → All Q l
  All-imp P Q [] f h = tt
  All-imp P Q (a ∷ l) f h = (f a h.0, All-imp P Q l f h.1)

  pub Any-imp : (P Q : A → Type 0) (l : List A) → ((a : A) → P a → Q a) → Any P l → Any Q l
  Any-imp P Q [] f h = h
  Any-imp P Q (a ∷ l) f (inl p) = inl (f a p)
  Any-imp P Q (a ∷ l) f (inr q) = inr (Any-imp P Q l f q)

  pub take-All : (P : A → Type 0) (n : ℕ) (l : List A) → All P l → All P (take n l)
  take-All P zero l h = tt
  take-All P (suc n) [] h = tt
  take-All P (suc n) (a ∷ l) h = (h.0, take-All P n l h.1)

  pub append-All : (P : A → Type 0) (l m : List A) → All P l → All P m → All P (l ++ m)
  append-All P [] m h k = k
  append-All P (a ∷ l) m h k = (h.0, append-All P l m h.1 k)

  pub All-zip : (P Q : A → Type 0) (l : List A) → All P l → All Q l → All (λ a. P a × Q a) l
  All-zip P Q [] h k = tt
  All-zip P Q (a ∷ l) h k = ((h.0, k.0), All-zip P Q l h.1 k.1)

  pub Any-zip : (P Q : A → Type 0) (l : List A) → Any P l → All Q l → Any (λ a. P a × Q a) l
  Any-zip P Q [] h k = h
  Any-zip P Q (a ∷ l) (inl p) k = inl (p, k.0)
  Any-zip P Q (a ∷ l) (inr q) k = inr (Any-zip P Q l q k.1)

module _ {A : Type 0} where
  -- Every element is an element.
  pub All-self : (l : List A) → All (λ a. Any (λ b. a ≡ b) l) l
  All-self [] = tt
  All-self (a ∷ l) = (inl refl, All-imp _ _ l (λ b h. inr h) (All-self l))

module _ {A : Type 0} (P : A → Type 0) (a : A) where
  pub All-pick : (l : List A) → All P l → Any (λ b. a ≡ b) l → P a
  All-pick [] h q = elim q [ ]
  All-pick (b ∷ l) h (inl e) = subst P (sym e) h.0
  All-pick (b ∷ l) h (inr q) = All-pick l h.1 q

module _ {A B : Type 0} where
  pub map-All : (P : B → Type 0) (f : A → B) (l : List A) → All (λ a. P (f a)) l → All P (map f l)
  map-All P f [] h = tt
  map-All P f (a ∷ l) h = (h.0, map-All P f l h.1)

module _ {A : Type 0} where
  pub length-take : (n : ℕ) (l : List A) → length (take n l) ≤ n
  length-take zero l = omega arith
  length-take (suc n) [] = omega arith
  length-take (suc n) (a ∷ l) = omega (arith, length-take n l)
