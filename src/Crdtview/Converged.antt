-- ===== src/Crdtview/Converged.antt =====
-- The verdict of the dashboard.
use ironwork.Prelude.{
  ◌≡◌, refl, subst, ◌↔◌, String, Bool, true, Option, none, some, List, [], ◌∷◌, All, arith,
  Bool-cases, inl, inr,
}
use ironwork.Dict.{lookup}
use ironwork.Statesvc.{CrdtState}
use ironwork.Crdtview.{Answer, states_of, agree, converged, fetch}

module _ {V : Type 0} where
  abbrev pub Both : (V → V → Type 0) → Option V → Option V → Type 0
  Both R none none = Unit
  Both R (some a) (some b) = R a b
  Both R _ _ = ⊥

  -- Two maps have the same keys, with related values.
  abbrev pub SameMap : (V → V → Type 0) → List (String × V) → List (String × V) → Type 0
  SameMap R m n = (k : String) → Both R (lookup k m) (lookup k n)

-- Two messages are the same up to the order of their maps.
abbrev pub Same : CrdtState → CrdtState → Type 0
Same a b =
    SameMap (SameMap (λ v w. v ≡ w)) a.by_status b.by_status
    × SameMap (SameMap (λ v w. v ≡ w)) a.by_worker b.by_worker
    × SameMap (λ e f. e ≡ f) a.recent b.recent

-- `proto.Equal` compares messages field by field, and maps by their entries.
abbrev pub Compares : (CrdtState → CrdtState → Bool) → Type 0
Compares equal = (a b : CrdtState) → (equal a b ≡ true) ↔ Same a b

abbrev pub IsAnswer : CrdtState → Option CrdtState → Type 0
IsAnswer first o = (st : CrdtState) × (o ≡ some st) × Same first st

-- All the replicas answer, with one state.
abbrev pub HaveState : List (Option CrdtState) → Type 0
HaveState [] = Unit
HaveState (a ∷ states) = (first : CrdtState) × (a ≡ some first) × All (IsAnswer first) states

module _ (equal : CrdtState → CrdtState → Bool) (e : Compares equal) where
  agree→All :
      (first : CrdtState) (states : List (Option CrdtState))
      → agree equal first states ≡ true
      → All (IsAnswer first) states
  unfolding agree
  agree→All first [] h = tt
  agree→All first (none ∷ states) h = absurd (ground (arith, h))
  agree→All first (some st ∷ states) h = elim (Bool-cases (equal first st)) [
    | inl y ↦ ((st, refl, (e first st).0 y), agree→All first states (ground (arith, h)))
    | inr n ↦ absurd (ground (arith, h))
  ]

  All→agree :
      (first : CrdtState) (states : List (Option CrdtState))
      → All (IsAnswer first) states
      → agree equal first states ≡ true
  unfolding agree
  All→agree first [] h = refl
  All→agree first (none ∷ states) ((st, p, q), h) = cc p
  All→agree first (some st ∷ states) ((st', p, q), h) =
      let y : equal first st' ≡ true = (e first st').1 q in
      let same : st ≡ st' = cc p in rw (same, y) (All→agree first states h)

  -- The dashboard says that the replicas have converged exactly when every one of them has answered
  -- and all their states are the same, up to the order of their maps.
  pub fetch-converged :
      (members : List (String × Answer))
      → ((fetch equal members).converged ≡ true) ↔ HaveState (states_of members)
  unfolding fetch converged
  fetch-converged members = go (states_of members)
    where
      back : (a b : CrdtState) → some a ≡ some b → b ≡ a
      back a b p = cc p

      go : (states : List (Option CrdtState)) → (converged equal states ≡ true) ↔ HaveState states
      go [] = (λ h. tt, λ h. refl)
      go (none ∷ states) = (λ h. absurd (ground (arith, h)), λ (st, p, q). absurd (cc p))
      go (some first ∷ states) = (
        λ h. (first, refl, agree→All first states h),
        λ (st, p, q).
            All→agree first states (subst (λ o. All (IsAnswer o) states) (back first st p) q),
      )
