-- ===== src/Observer/Aggregate.antt =====
-- What the cluster's status says of its parts.
use ironwork.Prelude.{
  ◌≡◌, refl, ◌⊎◌, ◌↔◌, String, Option, none, some, List, [], ◌∷◌, ◌++◌, All, inl, inr, arith,
}
use ironwork.Sort.{sort-All, All-sort}
use ironwork.Observer.{
  ServingStatus, serving, not_serving, ComponentHealth, component_health, check_all, check_db,
  by_name, overall, cluster_check,
}

overall-All :
    (l : List ComponentHealth) → All (λ c. c.status ≡ serving) l → overall serving l ≡ serving
unfolding overall
overall-All [] h = refl
overall-All (c ∷ l) h = rw h.0 (overall-All l h.1)

overall_failed : (l : List ComponentHealth) → overall not_serving l ≡ not_serving
unfolding overall
overall_failed [] = refl
overall_failed (c ∷ l) = elim (cases c.status) [
  | inl e ↦ rw e (overall_failed l)
  | inr e ↦ rw e (overall_failed l)
]
  where
    cases : (s : ServingStatus) → (s ≡ serving) ⊎ (s ≡ not_serving)
    cases serving = inl refl
    cases not_serving = inr refl

status_cases : (s : ServingStatus) → (s ≡ serving) ⊎ (s ≡ not_serving)
status_cases serving = inl refl
status_cases not_serving = inr refl

All-overall :
    (l : List ComponentHealth) → overall serving l ≡ serving → All (λ c. c.status ≡ serving) l
unfolding overall
All-overall [] h = tt
All-overall (c ∷ l) h = elim (status_cases c.status) [
  | inl e ↦ (e, All-overall l (simp e at h))
  | inr e ↦ cc (overall_failed l, simp e at h)
]

-- The database answers, where there is one.
abbrev pub DbServes : Option (Option String) → Type 0
DbServes none = Unit
DbServes (some ping) = ping ≡ none

check_serving :
    (name : String) (answer : Option String)
    → ((component_health name answer).status ≡ serving) ↔ (answer ≡ none)
check_serving name none = (λ h. refl, λ h. refl)
check_serving name (some text) = ground arith

check_all-All :
    (check : String → Option String) (targets : List (String × String))
    (db : Option (Option String))
    → All (λ (t : String × String). check t.1 ≡ none) targets
    → DbServes db
    → All (λ c. c.status ≡ serving) (check_all check targets ++ check_db db)
unfolding check_all
check_all-All check [] none h k = tt
check_all-All check [] (some ping) h k = ((check_serving _ ping).1 k, tt)
check_all-All check ((name, addr) ∷ targets) db h k =
    ((check_serving name (check addr)).1 h.0, check_all-All check targets db h.1 k)

All-check_all :
    (check : String → Option String) (targets : List (String × String))
    (db : Option (Option String))
    → All (λ c. c.status ≡ serving) (check_all check targets ++ check_db db)
    → All (λ (t : String × String). check t.1 ≡ none) targets × DbServes db
unfolding check_all
All-check_all check [] none h = (tt, tt)
All-check_all check [] (some ping) h = (tt, (check_serving "postgres-primary" ping).0 h.0)
All-check_all check ((name, addr) ∷ targets) db h =
    let r = All-check_all check targets db h.1 in
    (((check_serving name (check addr)).0 h.0, r.0), r.1)

-- The cluster is reported as serving exactly when every target answers its check and the database,
-- where there is one, answers its ping.
pub cluster_check-serving :
    (check : String → Option String) (targets : List (String × String))
    (db : Option (Option String))
    → ((cluster_check check targets db).0 ≡ serving)
      ↔ (All (λ (t : String × String). check t.1 ≡ none) targets × DbServes db)
unfolding cluster_check
cluster_check-serving check targets db = (
  λ h. All-check_all check targets db (All-sort _ by_name _ (All-overall _ h)),
  λ h. overall-All _ (sort-All _ by_name _ (check_all-All check targets db h.0 h.1)),
)
