-- ===== src/Dict.antt =====
-- Go's `map[string]V` as an association list. A map's iteration order is not specified: it is the
-- order of the list here, and what is proved holds for every list.
use ironwork.Prelude.{
  ◌+◌, String, ◌≡◌, refl, ◌∙◌, subst, All, Any, Option, none, some, Bool-cases, inl, inr, List, [],
  ◌∷◌, arith, str_eq, eq_iff, if◌then◌else◌, length,
}

module _ {ℓ} {V : Type ℓ} where
  -- m[k], with `ok`
  unfoldable pub lookup : String → List (String × V) → Option V
  lookup k [] = none
  lookup k ((j, v) ∷ m) = if str_eq j k then some v else lookup k m

  -- m[k] = v
  unfoldable pub insert : String → V → List (String × V) → List (String × V)
  insert k v [] = (k, v) ∷ []
  insert k v ((j, w) ∷ m) = if str_eq j k then (k, v) ∷ m else (j, w) ∷ insert k v m

  -- delete(m, k)
  unfoldable pub delete : String → List (String × V) → List (String × V)
  delete k [] = []
  delete k ((j, w) ∷ m) = let rest = delete k m in if str_eq j k then rest else (j, w) ∷ rest

  -- No key stands twice.
  abbrev pub IsMap : List (String × V) → Type ℓ
  IsMap [] = Unit
  IsMap ((k, v) ∷ m) = (lookup k m ≡ none) × IsMap m

  pub lookup-insert :
      (k j : String) (v : V) (m : List (String × V))
      → lookup j (insert k v m) ≡ (if str_eq k j then some v else lookup j m)
  unfolding lookup insert
  lookup-insert k j v [] = refl
  lookup-insert k j v ((i, w) ∷ m) =
      ground (arith, eq_iff i k, eq_iff k j, eq_iff i j, lookup-insert k j v m)

  pub lookup-delete :
      (k j : String) (m : List (String × V))
      → lookup j (delete k m) ≡ (if str_eq k j then none else lookup j m)
  unfolding lookup delete
  lookup-delete k j [] = ground arith
  lookup-delete k j ((i, w) ∷ m) =
      ground (arith, eq_iff i k, eq_iff k j, eq_iff i j, lookup-delete k j m)

  pub insert-IsMap : (k : String) (v : V) (m : List (String × V)) → IsMap m → IsMap (insert k v m)
  unfolding insert lookup
  insert-IsMap k v [] h = (refl, tt)
  insert-IsMap k v ((i, w) ∷ m) h = elim (Bool-cases (str_eq i k)) [
    | inl e ↦ rw e (rw ((eq_iff i k).0 e) at h.0, h.1)
    | inr n ↦ rw n (
      rw (lookup-insert k i v m) (ground (arith, eq_iff i k, eq_iff k i)),
      insert-IsMap k v m h.1,
    )
  ]

  pub delete-IsMap : (k : String) (m : List (String × V)) → IsMap m → IsMap (delete k m)
  unfolding delete
  delete-IsMap k [] h = tt
  delete-IsMap k ((i, w) ∷ m) h = elim (Bool-cases (str_eq i k)) [
    | inl e ↦ rw e (delete-IsMap k m h.1)
    | inr n ↦ rw n (rw (lookup-delete k i m) (ground arith), delete-IsMap k m h.1)
  ]

  pub length-insert_new :
      (k : String) (v : V) (m : List (String × V))
      → lookup k m ≡ none
      → length (insert k v m) ≡ length m + 1
  unfolding lookup insert
  length-insert_new k v [] h = omega arith
  length-insert_new k v ((i, w) ∷ m) h = ground (arith, length-insert_new k v m)

  pub length-insert_old :
      (k : String) (v w : V) (m : List (String × V))
      → lookup k m ≡ some w
      → length (insert k v m) ≡ length m
  unfolding lookup insert
  length-insert_old k v w [] h = cc
  length-insert_old k v w ((i, x) ∷ m) h = ground (arith, length-insert_old k v w m)

  pub delete_absent : (k : String) (m : List (String × V)) → lookup k m ≡ none → delete k m ≡ m
  unfolding lookup delete
  delete_absent k [] h = refl
  delete_absent k ((i, w) ∷ m) h = ground (arith, delete_absent k m)

  pub length-delete :
      (k : String) (w : V) (m : List (String × V))
      → IsMap m
      → lookup k m ≡ some w
      → length (delete k m) + 1 ≡ length m
  unfolding lookup delete
  length-delete k w [] d h = cc
  length-delete k w ((i, x) ∷ m) d h = elim (Bool-cases (str_eq i k)) [
    | inl e ↦ rw e (rw (delete_absent k m (ground (arith, eq_iff i k, d.0))) (omega arith))
    | inr n ↦ rw n (omega (arith, length-delete k w m d.1 (ground arith)))
  ]

  copy_loop : List (String × V) → List (String × V) → List (String × V)
  copy_loop out [] = out
  copy_loop out ((k, v) ∷ m) = copy_loop (insert k v out) m

  -- `out := make(map[string]V, len(m)); for k, v := range m { out[k] = v }`
  unfoldable pub copy : List (String × V) → List (String × V)
  unfolding copy_loop
  copy m = copy_loop [] m

  lookup-copy_loop :
      (j : String) (out m : List (String × V))
      → IsMap m
      → lookup j (copy_loop out m) ≡ elim (lookup j m) [ none ↦ lookup j out | some v ↦ some v ]
  unfolding copy_loop lookup
  lookup-copy_loop j out [] h = refl
  lookup-copy_loop j out ((k, v) ∷ m) h =
      lookup-copy_loop j (insert k v out) m h.1
      ∙ ground (arith, lookup-insert k j v out, eq_iff k j, h.0)

  -- A copy has the same entries.
  pub lookup-copy : (j : String) (m : List (String × V)) → IsMap m → lookup j (copy m) ≡ lookup j m
  unfolding copy lookup
  lookup-copy j m h = lookup-copy_loop j [] m h ∙ ground arith

  copy_loop-IsMap : (out m : List (String × V)) → IsMap out → IsMap (copy_loop out m)
  unfolding copy_loop
  copy_loop-IsMap out [] h = h
  copy_loop-IsMap out ((k, v) ∷ m) h = copy_loop-IsMap (insert k v out) m (insert-IsMap k v out h)

  pub copy-IsMap : (m : List (String × V)) → IsMap (copy m)
  unfolding copy
  copy-IsMap m = copy_loop-IsMap [] m tt

module _ {V : Type 0} where
  -- What holds of all entries holds of the one that a lookup finds.
  pub lookup-All :
      (P : String × V → Type 0) (k : String) (v : V) (m : List (String × V))
      → All P m
      → lookup k m ≡ some v
      → P (k, v)
  unfolding lookup
  lookup-All P k v [] h e = cc
  lookup-All P k v ((j, w) ∷ m) h e = elim (Bool-cases (str_eq j k)) [
    | inl y ↦ subst P (ground (arith, eq_iff j k)) h.0
    | inr n ↦ lookup-All P k v m h.1 (ground arith)
  ]

  pub lookup_of_Any :
      (p : String × V) (m : List (String × V))
      → IsMap m
      → Any (λ r. p ≡ r) m
      → lookup p.0 m ≡ some p.1
  unfolding lookup
  lookup_of_Any p [] d a = elim a [ ]
  lookup_of_Any p ((j, w) ∷ m) d (inl e) = ground (arith, eq_iff j p.0)
  lookup_of_Any p ((j, w) ∷ m) d (inr a) =
      ground (arith, eq_iff j p.0, d.0, lookup_of_Any p m d.1 a)

  pub delete-All :
      (P : String × V → Type 0) (k : String) (m : List (String × V)) → All P m → All P (delete k m)
  unfolding delete
  delete-All P k [] h = tt
  delete-All P k ((j, w) ∷ m) h = elim (Bool-cases (str_eq j k)) [
    | inl y ↦ simp y (delete-All P k m h.1)
    | inr n ↦ simp n (h.0, delete-All P k m h.1)
  ]

  pub insert-All :
      (P : String × V → Type 0) (k : String) (v : V) (m : List (String × V))
      → P (k, v)
      → All P m
      → All P (insert k v m)
  unfolding insert
  insert-All P k v [] p h = (p, tt)
  insert-All P k v ((j, w) ∷ m) p h = elim (Bool-cases (str_eq j k)) [
    | inl y ↦ rw y (p, h.1)
    | inr n ↦ rw n (h.0, insert-All P k v m p h.1)
  ]
