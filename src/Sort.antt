-- ===== src/Sort.antt =====
-- `sort.Slice` and `sort.Strings` for a comparison that is a strict total order: then the sorted
-- slice is determined, and insertion sort computes it.
use ironwork.Prelude.{
  ◌≡◌, inl, inr, Bool, true, false, List, [], ◌∷◌, if◌then◌else◌, Bool-cases, All, All-imp, Any,
  ◌⊎◌,
}
use mathlib.Core.List.{Perm}
use mathlib.Core.List.Perm

module _ {ℓ} {A : Type ℓ} where
  unfoldable pub place : (A → A → Bool) → A → List A → List A
  place less a [] = a ∷ []
  place less a (b ∷ l) = if less b a then b ∷ place less a l else a ∷ b ∷ l

  unfoldable pub sort : (A → A → Bool) → List A → List A
  unfolding place
  sort less [] = []
  sort less (a ∷ l) = place less a (sort less l)

  -- No element is smaller than one that stands before it.
  abbrev pub IsSorted : (A → A → Bool) → List A → Type 0
  IsSorted less [] = Unit
  IsSorted less (a ∷ l) = All (λ b. less b a ≡ false) l × IsSorted less l

module _ {ℓ} {A : Type ℓ} where
  place-perm : (less : A → A → Bool) (a : A) (l : List A) → Perm (place less a l) (a ∷ l)
  unfolding place
  place-perm less a [] = Perm.refl _
  place-perm less a (b ∷ l) = elim (Bool-cases (less b a)) [
    | inl e ↦ rw e (Perm.trans (Perm.cons b (place-perm less a l)) (Perm.swap a b l))
    | inr e ↦ rw e (Perm.refl _)
  ]

  -- Sorting keeps the elements, each as often as it stood.
  pub sort-perm : (less : A → A → Bool) (l : List A) → Perm (sort less l) l
  unfolding sort
  sort-perm less [] = Perm.refl _
  sort-perm less (a ∷ l) =
      Perm.trans (place-perm less a (sort less l)) (Perm.cons a (sort-perm less l))

  pub place-All :
      (P : A → Type 0) (less : A → A → Bool) (a : A) (l : List A)
      → P a
      → All P l
      → All P (place less a l)
  unfolding place
  place-All P less a [] p h = (p, tt)
  place-All P less a (b ∷ l) p h = elim (Bool-cases (less b a)) [
    | inl e ↦ rw e (h.0, place-All P less a l p h.1)
    | inr e ↦ rw e (p, h)
  ]

  pub sort-All : (P : A → Type 0) (less : A → A → Bool) (l : List A) → All P l → All P (sort less l)
  unfolding sort
  sort-All P less [] h = tt
  sort-All P less (a ∷ l) h = place-All P less a (sort less l) h.0 (sort-All P less l h.1)

-- What the sorting rests on: the comparison is asymmetric, and a comparison that fails is transitive.
pub record IsWeakOrder {ℓ} {A : Type ℓ} (less : A → A → Bool) : Type ℓ where
  pub asym : (a b : A) → less a b ≡ true → less b a ≡ false
  pub co_trans : (a b c : A) → less b a ≡ false → less c b ≡ false → less c a ≡ false

module _ {ℓ} {A : Type ℓ} {less : A → A → Bool} (o : IsWeakOrder less) where
  place-IsSorted : (a : A) (l : List A) → IsSorted less l → IsSorted less (place less a l)
  unfolding place
  place-IsSorted a [] h = (tt, tt)
  place-IsSorted a (b ∷ l) h = elim (Bool-cases (less b a)) [
    | inl e ↦
        rw e (place-All (λ c. less c b ≡ false) less a l (o.asym b a e) h.0, place-IsSorted a l h.1)
    | inr e ↦ rw e (
      (
        e,
        All-imp (λ c. less c b ≡ false) (λ c. less c a ≡ false) l (λ c p. o.co_trans a b c e p) h.0,
      ),
      h,
    )
  ]

  pub sort-IsSorted : (l : List A) → IsSorted less (sort less l)
  unfolding sort
  sort-IsSorted [] = tt
  sort-IsSorted (a ∷ l) = place-IsSorted a (sort less l) (sort-IsSorted l)

module _ {ℓ} {A : Type ℓ} (P : A → Type 0) (less : A → A → Bool) where
  All-place : (a : A) (l : List A) → All P (place less a l) → P a × All P l
  unfolding place
  All-place a [] h = h
  All-place a (b ∷ l) h = elim (Bool-cases (less b a)) [
    | inl e ↦ let h' = simp e at h in let r = All-place a l h'.1 in (r.0, (h'.0, r.1))
    | inr e ↦ let h' = simp e at h in (h'.0, h'.1)
  ]

  -- What holds of the sorted elements holds of the elements.
  pub All-sort : (l : List A) → All P (sort less l) → All P l
  unfolding sort
  All-sort [] h = tt
  All-sort (a ∷ l) h = let r = All-place a (sort less l) h in (r.0, All-sort l r.1)

  place-Any : (a : A) (l : List A) → P a ⊎ Any P l → Any P (place less a l)
  unfolding place
  place-Any a [] h = h
  place-Any a (b ∷ l) h = elim (Bool-cases (less b a)) [
    | inl e ↦ rw e (elim h [
      | inl p ↦ inr (place-Any a l (inl p))
      | inr (inl p) ↦ inl p
      | inr (inr p) ↦ inr (place-Any a l (inr p))
    ])
    | inr e ↦ rw e h
  ]

  -- What holds of one of the elements holds of one of the sorted ones.
  pub sort-Any : (l : List A) → Any P l → Any P (sort less l)
  unfolding sort
  sort-Any [] h = h
  sort-Any (a ∷ l) (inl p) = place-Any a (sort less l) (inl p)
  sort-Any (a ∷ l) (inr h) = place-Any a (sort less l) (inr (sort-Any l h))
