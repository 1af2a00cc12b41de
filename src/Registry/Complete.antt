-- ===== src/Registry/Complete.antt =====
-- Who is among the available workers, and who among the dead.
use ironwork.Prelude.{
  ◌+◌, ◌≤◌, ◌<◌, ℕ, ◌≡◌, refl, String, Bool, true, inl, inr, List, [], ◌∷◌, map, Any, Bool-cases,
  some, ap, ◌∙◌, arith, str_eq, ◌↔◌, Any-imp, All-pick, not, lt_str,
}
use ironwork.Dict.{lookup, lookup-All}
use ironwork.Sort.{sort-Any}
use ironwork.Registry.{
  WorkerState, Registry, collect, is_available, to_cand, cands, better, available, dead,
  seen_within,
}
use ironwork.Registry.Liveness.{IsRegistry, IsNamed, available-IsNamed, dead-IsNamed}

module _ {A B : Type 0} (P : B → Type 0) (f : A → B) where
  map-Any : (l : List A) → Any (λ a. P (f a)) l → Any P (map f l)
  map-Any [] h = h
  map-Any (a ∷ l) (inl p) = inl p
  map-Any (a ∷ l) (inr h) = inr (map-Any l h)

module _ (p : WorkerState → Bool) (k : String) (w : WorkerState) (y : p w ≡ true) where
  collect-Any :
      (m : List (String × WorkerState)) → lookup k m ≡ some w → Any (λ v. w ≡ v) (collect p m)
  unfolding collect lookup
  collect-Any [] e = absurd (cc e)
  collect-Any ((j, v) ∷ m) e = elim (Bool-cases (str_eq j k)) [
    | inl q ↦ let same : v ≡ w = ground (arith, e, q) in rw (same, y) (inl refl)
    | inr n ↦
        let ih = collect-Any m (ground (arith, e, n)) in
        elim (Bool-cases (p v)) [ inl t ↦ simp t (inr ih) | inr f ↦ simp f ih ]
  ]

-- The available workers are exactly those of the table that were heard from within the stale time
-- and have a free slot.
pub available_iff :
    (now : ℕ) (r : Registry) (name : String)
    → IsRegistry r
    → Any (λ other. name ≡ other) (available now r) ↔ IsNamed (is_available r.stale_ttl now) r name
unfolding available cands
available_iff now r name h = (
  (λ a. All-pick _ name (available now r) (available-IsNamed now r h) a),
  (λ (w, e, y).
      let keyed : name ≡ w.instance_name = lookup-All _ name w r.workers h.keyed e in
      map-Any _ _ _ (
        sort-Any _ better _ (
          map-Any _ to_cand _ (
            Any-imp _ _ _ (λ v q. keyed ∙ ap (λ (u : WorkerState). u.instance_name) q)
              (collect-Any _ name w y r.workers e))))),
)

-- The workers presumed dead are exactly those of the table that were not heard from within the dead
-- time.
pub dead_iff :
    (now : ℕ) (r : Registry) (name : String)
    → IsRegistry r
    → Any (λ other. name ≡ other) (dead now r)
      ↔ IsNamed (λ w. not (seen_within r.dead_ttl now w)) r name
unfolding dead
dead_iff now r name h = (
  (λ a. All-pick _ name (dead now r) (dead-IsNamed now r h) a),
  (λ (w, e, y).
      let keyed : name ≡ w.instance_name = lookup-All _ name w r.workers h.keyed e in
      sort-Any _ lt_str _ (
        map-Any _ _ _ (
          Any-imp _ _ _ (λ v q. keyed ∙ ap (λ (u : WorkerState). u.instance_name) q)
            (collect-Any _ name w y r.workers e)))),
)

abbrev pub Has : String → List String → Type 0
Has name l = Any (λ other. name ≡ other) l

-- The worker is in the table, was heard from within the stale time, and has a free slot.
abbrev pub IsFit : ℕ → Registry → String → Type 0
IsFit now reg name =
    (w : WorkerState) × (lookup name reg.workers ≡ some w)
    × (now ≤ w.last_seen + reg.stale_ttl)
    × (w.inflight < w.capacity)

pub IsNamed-IsFit :
    (now : ℕ) (reg : Registry) (name : String)
    → IsNamed (is_available reg.stale_ttl now) reg name ↔ IsFit now reg name
IsNamed-IsFit now reg name =
    ((λ (w, e, y). (w, e, ground arith, ground arith)), (λ (w, e, a, b). (w, e, ground arith)))
