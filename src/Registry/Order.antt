-- ===== src/Registry/Order.antt =====
-- The order in which a scheduler offers a job to the workers.
use ironwork.Prelude.{
  ◌≢◌, sym, Bool, ◌-◌, ◌<◌, ◌⊎◌, ◌↔◌, String, List, [], ◌∷◌, All, All-imp, All-zip, map-All, map,
  some, ltb, lt_str, Bool-cases, ap, ℕ, ◌≡◌, true, false, inl, inr, arith, lt_str_irrefl,
  lt_str_trans, lt_str-total,
}
use ironwork.Dict.{lookup}
use ironwork.Sort.{sort, IsSorted, sort-IsSorted, sort-All, place, place-All}
use ironwork.Registry.{
  collect, Registry, WorkerState, Cand, better, cands, to_cand, is_available, available,
}
use ironwork.Registry.Liveness.{IsRegistry, collect-found}
use ironwork.Registry.Complete.{available_iff, Has, IsFit, IsNamed-IsFit}

better-asym : (a b : Cand) → better a b ≡ true → better b a ≡ false
better-asym a b p = ground (arith, lt_str_trans a.name b.name a.name, lt_str_irrefl a.name)

better-co_trans : (a b c : Cand) → better b a ≡ false → better c b ≡ false → better c a ≡ false
better-co_trans a b c p q = elim (lt_str-total a.name b.name) [
  | inl l ↦ ground (arith, lt_str_trans c.name a.name b.name)
  | inr (inl e) ↦ ground arith
  | inr (inr l) ↦ ground arith
]

-- The worker `a` may stand before `b`: in the table, it has more free slots, or as many and a name that
-- is no later.
abbrev pub Precedes : Registry → String → String → Type 0
Precedes r a b =
    (v w : WorkerState) × (lookup a r.workers ≡ some v)
    × (lookup b r.workers ≡ some w)
    × ((w.capacity - w.inflight < v.capacity - v.inflight)
        ⊎ ((v.capacity - v.inflight ≡ w.capacity - w.inflight) × (lt_str b a ≡ false)))

abbrev pub InOrder : Registry → List String → Type 0
InOrder r [] = Unit
InOrder r (a ∷ names) = All (Precedes r a) names × InOrder r names

-- The candidate is a worker of the table, with its free slots.
abbrev IsCand : Registry → Cand → Type 0
IsCand r c =
    (v : WorkerState) × (lookup c.name r.workers ≡ some v) × (c.free ≡ v.capacity - v.inflight)

IsCand-Precedes :
    (r : Registry) (c d : Cand)
    → IsCand r c
    → (better d c ≡ false) × IsCand r d
    → Precedes r c.name d.name
IsCand-Precedes r c d (v, e, f) (n, (w, g, h)) = (v, w, e, g, order)
  where
    order :
        (w.capacity - w.inflight < v.capacity - v.inflight)
        ⊎ ((v.capacity - v.inflight ≡ w.capacity - w.inflight) × (lt_str d.name c.name ≡ false))
    order = elim (Bool-cases (ltb d.free c.free)) [
      | inl y ↦ inl (ground (arith, f, h))
      | inr x ↦ inr (ground (arith, f, h), ground arith)
    ]

InOrder-map :
    (r : Registry) (l : List Cand)
    → IsSorted better l
    → All (IsCand r) l
    → InOrder r (map (λ (c : Cand). c.name) l)
InOrder-map r [] s h = tt
InOrder-map r (c ∷ l) s h = (
  map-All _ _ l (All-imp _ _ l (λ d. IsCand-Precedes r c d h.0) (All-zip _ _ l s.0 h.1)),
  InOrder-map r l s.1 h.1,
)

cands-IsCand : (now : ℕ) (r : Registry) → IsRegistry r → All (IsCand r) (cands now r)
unfolding cands
cands-IsCand now r h = map-All _ to_cand _ (
    All-imp _ _ _
      (λ w (v, e, y, same). (v, e, ap (λ (u : WorkerState). u.capacity - u.inflight) same))
      (collect-found (is_available r.stale_ttl now) r h))

-- No name stands twice.
abbrev pub Once : List String → Type 0
Once [] = Unit
Once (a ∷ names) = All (λ b. b ≢ a) names × Once names

-- No two candidates have one name.
abbrev Distinct : List Cand → Type 0
Distinct [] = Unit
Distinct (c ∷ l) = All (λ (d : Cand). d.name ≢ c.name) l × Distinct l

place-Distinct :
    (c : Cand) (l : List Cand)
    → All (λ (d : Cand). d.name ≢ c.name) l
    → Distinct l
    → Distinct (place better c l)
unfolding place
place-Distinct c [] h k = (tt, tt)
place-Distinct c (d ∷ l) h k = elim (Bool-cases (better d c)) [
  | inl y ↦ rw y (place-All _ better c l (λ e. h.0 (sym e)) k.0, place-Distinct c l h.1 k.1)
  | inr n ↦ rw n (h, k)
]

sort-Distinct : (l : List Cand) → Distinct l → Distinct (sort better l)
unfolding sort
sort-Distinct [] h = tt
sort-Distinct (c ∷ l) h =
    place-Distinct c (sort better l) (sort-All _ better l h.0) (sort-Distinct l h.1)

collect-Distinct :
    (p : WorkerState → Bool) (r : Registry) (m : List (String × WorkerState))
    → IsRegistry (record r { workers = m })
    → Distinct (map to_cand (collect p m))
unfolding collect
collect-Distinct p r [] h = tt
collect-Distinct p r ((k, w) ∷ m) h =
    let i : IsRegistry (record r { workers = m }) = record {
      map_like = h.map_like.1;
      keyed = h.keyed.1;
    } in
    let ih = collect-Distinct p r m i in
    let others : All (λ (d : Cand). d.name ≢ w.instance_name) (map to_cand (collect p m)) =
      map-All _ to_cand _ (
        All-imp _ _ _ (λ u (v, e, y, same) q. clash u.instance_name v e q)
          (collect-found p (record r { workers = m }) i)) in
    elim (Bool-cases (p w)) [ inl y ↦ simp y (others, ih) | inr n ↦ simp n ih ]
  where
    clash : (name : String) (v : WorkerState) → lookup name m ≡ some v → name ≢ w.instance_name
    clash name v e q = absurd (cc (e, q, h.keyed.0, h.map_like.0))

names-Distinct : (l : List Cand) → Distinct l → Once (map (λ (c : Cand). c.name) l)
names-Distinct [] h = tt
names-Distinct (c ∷ l) h = (map-All _ _ l h.0, names-Distinct l h.1)

-- A scheduler offers a job to the workers that were heard from within the stale time and have a free
-- slot, to each once, and to no others: the ones with more free slots first, and by name where these are as many; its
-- registry has one entry for a worker.
pub available_ranked :
    (now : ℕ) (r : Registry)
    → IsRegistry r
    → InOrder r (available now r)
      × Once (available now r)
      × ((name : String) → Has name (available now r) ↔ IsFit now r name)
unfolding available cands
available_ranked now r h = (
  InOrder-map r (sort better (cands now r))
      (sort-IsSorted (record { asym = better-asym; co_trans = better-co_trans }) (cands now r))
      (sort-All _ better _ (cands-IsCand now r h)),
  names-Distinct (sort better (cands now r))
      (sort-Distinct (cands now r) (collect-Distinct (is_available r.stale_ttl now) r r.workers h)),
  (λ name.
      let a = available_iff now r name h in
      let f = IsNamed-IsFit now r name in
      unfold available in ((λ m. f.0 (a.0 m)), (λ m. a.1 (f.1 m)))),
)
