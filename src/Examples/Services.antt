-- ===== src/Examples/Services.antt =====
-- Inputs for the theorems on the router, the dispatcher, the registry, the gateway and the views.
use ironwork.Prelude.{
  Bool-cases, ℤ, ℕ, ◌≡◌, ◌≢◌, ◌↔◌, refl, inl, inr, String, Bool, true, false, Option, none, some,
  List, [], ◌∷◌, arith, ◌==◌, eq_iff, str_eq, if◌then◌else◌, Option-cases, All,
}
use ironwork.Dict.{lookup, lookup-All}
use ironwork.Rpc.{failed_precondition, unavailable, Result, ok, err}
use ironwork.Leader.{Cluster}
use ironwork.Dispatch.{Dispatcher}
use ironwork.Registry.{Registry, WorkerState, available}
use ironwork.Registry.Order.{Once, available_ranked, InOrder}
use ironwork.Registry.Complete.{Has, IsFit}
use ironwork.Registry.Liveness.{IsRegistry}
use ironwork.Leader.Status.{NodeStatus, raft_status}
use ironwork.Scheduler.State.{ClusterState, get_cluster_state}
use ironwork.Crdt.Lww.{LwwEntry}
use ironwork.Statesvc.{CrdtState}
use ironwork.Crdtview.{Answer, fetch, states_of}
use ironwork.Crdtview.Converged.{Compares, HaveState, fetch-converged, Both, SameMap, Same}

-- Three schedulers of which the second leads.
abbrev answer_of : Bool → Result ℕ
answer_of true = ok 7
answer_of false = err failed_precondition

abbrev schedulers : Cluster (Unit {0}) ℕ
schedulers = record { ask = λ j s. (answer_of (j == 1), s); is_done = λ s. false }

follower : (j : ℕ) → j ≢ 1 → answer_of (j == 1) ≡ err failed_precondition
follower j ne = ground arith

abbrev dispatcher : Dispatcher Unit
dispatcher = record {
  workers = "w1" ∷ "w2" ∷ [];
  by_name = ("w1", "w1") ∷ ("w2", "w2") ∷ [];
  candidates = none;
  next = 3;
}

abbrev picky : String → Unit {0} → Result String × Unit {0}
picky w s = (if str_eq w "w1" then ok w else err unavailable, s)

abbrev worker_at : String → ℕ → WorkerState
worker_at name last_seen = record {
  instance_name = name;
  capacity = 4;
  inflight = 1;
  last_seen = last_seen;
  alive = false;
}

abbrev table : Registry
table = record {
  workers = ("w1", worker_at "w1" 90) ∷ ("w2", worker_at "w2" 10) ∷ [];
  stale_ttl = 20;
  dead_ttl = 50;
}

table-IsRegistry : IsRegistry table
unfolding lookup
table-IsRegistry = record { map_like = (refl, (refl, tt)); keyed = (refl, (refl, tt)) }

available_ranked_example :
    InOrder table (available 100 table)
    × Once (available 100 table)
    × ((name : String) → Has name (available 100 table) ↔ IsFit 100 table name)
available_ranked_example = available_ranked 100 table table-IsRegistry

abbrev naming : String → ClusterState
naming leader' =
    get_cluster_state "s1"
      (record {
        state = "Follower";
        leader_id = leader';
        term = 2;
        last_log_index = 4;
        applied_index = 4;
        peers = [];
        placement_count = 0;
        recent_placements = [];
      })
      100 table

abbrev views : String → Option ClusterState
views name = if str_eq name "s3" then none else some (naming "s2")

abbrev nodes : List NodeStatus
nodes = raft_status views ("s1" ∷ "s2" ∷ "s3" ∷ [])

abbrev leader : String
leader = "s2"

leader_named : leader ≢ ""
leader_named e = ground (arith, (eq_iff leader "").1 e)

abbrev check : String → Option String
check addr = if str_eq addr "down:1" then some "refused" else none

String-discrete : Discrete String
String-discrete s t = elim (Bool-cases (str_eq s t)) [
  | inl y ↦ yes ((eq_iff s t).0 y)
  | inr n ↦ no (λ e. ground (arith, (eq_iff s t).1 e))
]

ℕ-discrete : Discrete ℕ
ℕ-discrete m n = elim (Bool-cases (m == n)) [
  | inl y ↦ yes (ground arith)
  | inr x ↦ no (λ e. ground arith)
]

ℤ-discrete : Discrete ℤ
ℤ-discrete = hlevel ℕ-discrete

LwwEntry-discrete : Discrete LwwEntry
LwwEntry-discrete = hlevel (String-discrete, ℤ-discrete)

Both-dec :
    {V : Type 0} (R : V → V → Type 0)
    → ((a b : V) → Dec (R a b))
    → (o p : Option V) → Dec (Both R o p)
Both-dec R d none none = yes tt
Both-dec R d none (some b) = no (λ h. h)
Both-dec R d (some a) none = no (λ h. h)
Both-dec R d (some a) (some b) = d a b

All-dec : {A : Type 0} (P : A → Type 0) → ((a : A) → Dec (P a)) → (l : List A) → Dec (All P l)
All-dec P d [] = yes tt
All-dec P d (a ∷ l) = elim (d a) [
  | yes p ↦ elim (All-dec P d l) [ yes q ↦ yes (p, q) | no n ↦ no (λ h. n h.1) ]
  | no n ↦ no (λ h. n h.0)
]

All-intro : {A : Type 0} (P : A → Type 0) → ((a : A) → P a) → (l : List A) → All P l
All-intro P f [] = tt
All-intro P f (a ∷ l) = (f a, All-intro P f l)

module _ {V : Type 0} (R : V → V → Type 0) (d : (a b : V) → Dec (R a b))
    (m n : List (String × V)) where
  abbrev AgreeAt : String × V → Type 0
  AgreeAt e = Both R (lookup e.0 m) (lookup e.0 n)

  SameMap-of : All AgreeAt m → All AgreeAt n → SameMap R m n
  SameMap-of h k key = elim (Option-cases (lookup key m)) [
    | inr (v, e) ↦ lookup-All AgreeAt key v m h e
    | inl none_m ↦ elim (Option-cases (lookup key n)) [
      | inr (v, e) ↦ lookup-All AgreeAt key v n k e
      | inl none_n ↦ rw (none_m, none_n) tt
    ]
  ]

  SameMap-dec : Dec (SameMap R m n)
  SameMap-dec = elim (All-dec AgreeAt (λ e. Both-dec R d _ _) m) [
    | no x ↦ no (λ s. x (All-intro AgreeAt (λ e. s e.0) m))
    | yes h ↦ elim (All-dec AgreeAt (λ e. Both-dec R d _ _) n) [
      | no x ↦ no (λ s. x (All-intro AgreeAt (λ e. s e.0) n))
      | yes k ↦ yes (SameMap-of h k)
    ]
  ]

Shards-dec : (a b : List (String × List (String × ℕ))) → Dec (SameMap (SameMap (λ v w. v ≡ w)) a b)
Shards-dec = SameMap-dec (SameMap (λ v w. v ≡ w)) (SameMap-dec (λ v w. v ≡ w) ℕ-discrete)

Same-dec : (a b : CrdtState) → Dec (Same a b)
Same-dec a b = elim (Shards-dec a.by_status b.by_status) [
  | no n ↦ no (λ h. n h.0)
  | yes p ↦ elim (Shards-dec a.by_worker b.by_worker) [
    | no n ↦ no (λ h. n h.1)
    | yes q ↦ elim (SameMap-dec (λ e f. e ≡ f) LwwEntry-discrete a.recent b.recent) [
      | no n ↦ no (λ h. n h.2)
      | yes r ↦ yes (p, q, r)
    ]
  ]
]

abbrev holds : {A : Type 0} → Dec A → Bool
holds (yes a) = true
holds (no n) = false

abbrev same : CrdtState → CrdtState → Bool
same a b = holds (Same-dec a b)

holds_iff : {A : Type 0} (d : Dec A) → (holds d ≡ true) ↔ A
holds_iff (yes a) = (λ h. a, λ h. refl)
holds_iff (no n) = (λ h. cc h, λ a. absurd (n a))

same-Compares : Compares same
same-Compares a b = holds_iff (Same-dec a b)

abbrev view : Answer
view = some (record { by_status = []; by_worker = []; recent = [] }, true)

fetch-converged_example :
    ((fetch same (("s1", view) ∷ ("s2", none) ∷ [])).converged ≡ true)
    ↔ HaveState (states_of (("s1", view) ∷ ("s2", none) ∷ []))
fetch-converged_example = fetch-converged same same-Compares (("s1", view) ∷ ("s2", none) ∷ [])
