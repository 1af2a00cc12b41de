-- ===== src/Dispatch/Registered.antt =====
-- The scheduler's dispatcher, whose candidate provider is the registry's `Available`.
use ironwork.Prelude.{
  ℕ, ◌≡◌, sym, ◌∙◌, subst, ◌↔◌, inl, inr, String, lt_str, some, List, [], ◌∷◌, map, Any-imp, str_eq,
  Bool-cases, Option-cases, eq_iff, arith, All-pick, All-self,
}
use ironwork.Dict.{lookup}
use ironwork.Sort.{sort, sort-Any, sort-All}
use ironwork.Rpc.{Result}
use ironwork.Registry.{Registry, available, is_available}
use ironwork.Registry.Liveness.{IsRegistry, IsNamed}
use ironwork.Registry.Complete.{available_iff, IsFit, IsNamed-IsFit}
pub use ironwork.Registry.Complete.{Has}
use ironwork.Dispatch.{Dispatcher, new, known, eligible, dispatch, pair_of}
use ironwork.Dispatch.Offers.{Accepts, offer_places}

-- `reg.Available`, of the time and the registry
abbrev pub available_now : ℕ × Registry → List String
available_now (now, reg) = available now reg

lookup-pair_of :
    (name : String) (l : List String) → Has name l → lookup name (map pair_of l) ≡ some name
unfolding lookup
lookup-pair_of name [] h = elim h [ ]
lookup-pair_of name (n ∷ l) (inl e) = ground (arith, eq_iff n name)
lookup-pair_of name (n ∷ l) (inr h) = ground (arith, eq_iff n name, lookup-pair_of name l h)

pair_of-lookup :
    (name v : String) (l : List String)
    → lookup name (map pair_of l) ≡ some v
    → (name ≡ v) × Has name l
unfolding lookup
pair_of-lookup name v [] e = absurd (cc e)
pair_of-lookup name v (n ∷ l) e = elim (Bool-cases (str_eq n name)) [
  | inl y ↦ let q = (eq_iff n name).0 y in (ground (arith, e, y, q), inl (sym q))
  | inr x ↦ let ih = pair_of-lookup name v l (ground (arith, e, x)) in (ih.0, inr ih.1)
]

known-Has :
    (l names : List String) (name : String)
    → lookup name (map pair_of l) ≡ some name
    → Has name names
    → Has name (known (map pair_of l) names)
unfolding known
known-Has l [] name e h = h
known-Has l (n ∷ names) name e (inl q) =
    let f : lookup n (map pair_of l) ≡ some n =
      subst (λ k. lookup k (map pair_of l) ≡ some k) q e in
    rw f (inl q)
known-Has l (n ∷ names) name e (inr h) =
    let ih = known-Has l names name e h in
    elim (Option-cases (lookup n (map pair_of l))) [ inl x ↦ rw x ih | inr (v, x) ↦ rw x (inr ih) ]

Has-known :
    (l names : List String) (name : String)
    → Has name (known (map pair_of l) names)
    → Has name l × Has name names
unfolding known
Has-known l [] name h = elim h [ ]
Has-known l (n ∷ names) name h = elim (Option-cases (lookup n (map pair_of l))) [
  | inl x ↦ let ih = Has-known l names name (simp x at h) in (ih.0, inr ih.1)
  | inr (v, x) ↦ elim (simp x at h) [
    | inl q ↦
        let r = pair_of-lookup n v l x in
        let e : name ≡ n = q ∙ sym r.0 in (subst (λ k. Has k l) (sym e) r.1, inl e)
    | inr q ↦ let ih = Has-known l names name q in (ih.0, inr ih.1)
  ]
]

sort_iff : (name : String) (l : List String) → Has name (sort lt_str l) ↔ Has name l
sort_iff name l = (
  (λ h. All-pick (λ n. Has n l) name (sort lt_str l) (sort-All _ lt_str l (All-self l)) h),
  (λ h. sort-Any _ lt_str l h),
)

-- The scheduler's dispatcher, of the configured workers.
abbrev pub IsNew : List String → Dispatcher (ℕ × Registry) → Type 0
IsNew names d = new names (some available_now) ≡ some d

IsNew-fields :
    (names : List String) (d : Dispatcher (ℕ × Registry))
    → IsNew names d
    → (d.by_name ≡ map pair_of (sort lt_str names)) × (d.candidates ≡ some available_now)
unfolding new
IsNew-fields [] d e = absurd (cc e)
IsNew-fields (n ∷ names) d e = (cc e, cc e)

-- The workers that a scheduler offers a job to are those that are configured, were heard from within
-- the stale time, and have a free slot, for the dispatcher that New makes of the configured workers and
-- of a registry that has one entry for a worker.
pub eligible_iff :
    (names : List String) (d : Dispatcher (ℕ × Registry)) (now : ℕ) (reg : Registry) (name : String)
    → IsNew names d
    → IsRegistry reg
    → Has name (eligible (now, reg) d).0 ↔ Has name names × IsFit now reg name
unfolding eligible
eligible_iff names d now reg name e h =
    let (b, c) = IsNew-fields names d e in
    let s = sort_iff name names in
    let a = available_iff now reg name h in
    let f = IsNamed-IsFit now reg name in
    rw (b, c)
      (
        (λ q.
            let r = Has-known (sort lt_str names) (available now reg) name q in
            (s.0 r.0, f.0 (a.0 r.1))),
        (λ (m, y).
            known-Has (sort lt_str names) (available now reg) name
              (lookup-pair_of name (sort lt_str names) (s.1 m)) (a.1 (f.1 y))),
      )

module _ {S : Type 0} (execute_job : String → S → Result String × S) where
  -- A job is placed if some configured worker that was heard from within the stale time and has a
  -- free slot takes jobs, for the dispatcher that New makes of the configured workers and of a
  -- registry that has one entry for a worker.
  pub dispatch_reaches :
      (names : List String) (d : Dispatcher (ℕ × Registry)) (now : ℕ) (reg : Registry) (s : S)
      (name : String)
      → IsNew names d
      → IsRegistry reg
      → Has name names
      → IsNamed (is_available reg.stale_ttl now) reg name
      → Accepts execute_job name
      → (taker : String) × ((dispatch execute_job (now, reg) d s).0.0 ≡ some taker)
  unfolding dispatch
  dispatch_reaches names d now reg s name e h m y a =
      offer_places execute_job (eligible (now, reg) d).0 s (
        Any-imp _ _ _ (λ other q. subst (Accepts execute_job) q a)
          ((eligible_iff names d now reg name e h).1 (m, (IsNamed-IsFit now reg name).0 y)))
