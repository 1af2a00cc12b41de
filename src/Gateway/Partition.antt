-- ===== src/Gateway/Partition.antt =====
-- The partition controls, from the gateway through crdtview to the replicas' gossip loops.
use ironwork.Prelude.{
  ◌≡◌, refl, String, Bool, true, false, List, [], ◌∷◌, All, Any, All-pick, Bool-cases, inl, inr,
  eq_iff, arith,
}
use ironwork.Statesvc.{set_gossip as switch}
use ironwork.Statesvc.Cluster.Rounds.{
  Call, dropped, unanswered, answered, Replicas, set, next_call, later_calls, tick, ticks,
}
use ironwork.Crdtview.{set_gossip}
use ironwork.Gateway.{handle_set_gossip}

-- A call of `SetGossip`, which may be lost before or after the replica serves it: whether the gateway
-- has an answer, and the replicas after it.
abbrev switch_under : Call → Bool → String → Replicas → Bool × Replicas
switch_under dropped enabled name at = (false, at)
switch_under unanswered enabled name at = (false, set at name (switch (at name) enabled).1)
switch_under answered enabled name at = (true, set at name (switch (at name) enabled).1)

abbrev pub call_switch : Bool → String → List Call × Replicas → Bool × (List Call × Replicas)
call_switch enabled name (calls, at) =
    let (served, at') = switch_under (next_call calls) enabled name at in
    (served, (later_calls calls, at'))

switch_under-keeps :
    (c : Call) (enabled : Bool) (name k : String) (at : Replicas)
    → (at k).gossip_on ≡ enabled
    → ((switch_under c enabled name at).1 k).gossip_on ≡ enabled
unfolding switch
switch_under-keeps dropped enabled name k at h = h
switch_under-keeps unanswered enabled name k at h = ground (arith, h)
switch_under-keeps answered enabled name k at h = ground (arith, h)

set_gossip-keeps :
    (enabled : Bool) (names : List String) (k : String) (calls : List Call) (at : Replicas)
    → (at k).gossip_on ≡ enabled
    → ((set_gossip call_switch enabled names (calls, at)).1.1 k).gossip_on ≡ enabled
unfolding set_gossip
set_gossip-keeps enabled [] k calls at h = h
set_gossip-keeps enabled (name ∷ names) k calls at h =
    set_gossip-keeps enabled names k (later_calls calls) _
      (switch_under-keeps (next_call calls) enabled name k at h)

answered-switches :
    (c : Call) (enabled : Bool) (name : String) (at : Replicas)
    → (switch_under c enabled name at).0 ≡ true
    → ((switch_under c enabled name at).1 name).gossip_on ≡ enabled
unfolding switch
answered-switches dropped enabled name at h = absurd (cc h)
answered-switches unanswered enabled name at h = absurd (cc h)
answered-switches answered enabled name at h = ground (arith, eq_iff name name)

-- The replica's gossip is on or off, as it was asked.
abbrev Switched : Bool → Replicas → String → Type 0
Switched enabled at name = (at name).gossip_on ≡ enabled

set_gossip-Switched :
    (enabled : Bool) (names : List String) (calls : List Call) (at : Replicas)
    → (set_gossip call_switch enabled names (calls, at)).0 ≡ []
    → All (Switched enabled (set_gossip call_switch enabled names (calls, at)).1.1) names
unfolding set_gossip
set_gossip-Switched enabled [] calls at e = tt
set_gossip-Switched enabled (name ∷ names) calls at e =
    let done = switch_under (next_call calls) enabled name at in
    elim (Bool-cases done.0) [
      | inl y ↦ (
        set_gossip-keeps enabled names name (later_calls calls) done.1
            (answered-switches (next_call calls) enabled name at y),
        set_gossip-Switched enabled names (later_calls calls) done.1 (simp y at e),
      )
      | inr n ↦ absurd (cc (simp n at e))
    ]

ticks_off :
    (names members : List String) (rest : List (String × List Call)) (at : Replicas)
    → All (Switched false at) members
    → All (λ (r : String × List Call). Any (λ name. r.0 ≡ name) members) rest
    → ticks names rest at ≡ at
unfolding ticks tick
ticks_off names members [] at off h = refl
ticks_off names members ((i, calls) ∷ rest) at off h =
    let o : (at i).gossip_on ≡ false = All-pick (Switched false at) i members off h.0 in
    rw o (ticks_off names members rest at off h.1)

none_failed :
    (enabled : Bool) (failed : List String)
    → (handle_set_gossip enabled failed).0 ≡ 200
    → failed ≡ []
unfolding handle_set_gossip
none_failed enabled [] e = refl
none_failed enabled (name ∷ failed) e = absurd (ground (arith, e))

-- Once the gateway has answered 200 to `POST /crdt/partition`, the ticks of the gossip loops of the
-- replicas that it switched which begin after it, in any order and however many, leave every replica as
-- it is. A tick that has begun before is not spoken of.
pub partition_stops :
    (members names : List String) (calls : List Call) (at : Replicas)
    (rest : List (String × List Call))
    → (handle_set_gossip false (set_gossip call_switch false members (calls, at)).0).0 ≡ 200
    → All (λ (r : String × List Call). Any (λ name. r.0 ≡ name) members) rest
    → ticks names rest (set_gossip call_switch false members (calls, at)).1.1
      ≡ (set_gossip call_switch false members (calls, at)).1.1
partition_stops members names calls at rest ok h =
    ticks_off names members rest _
      (set_gossip-Switched false members calls at
        (none_failed false (set_gossip call_switch false members (calls, at)).0 ok))
      h
