-- ===== src/Statesvc/Cluster/Rounds.antt =====
-- A tick of `RunGossip`, peer after peer, over a network that may lose a request or an answer. It is
-- a sequence of the cluster's steps; a call of `SetGossip` comes between two ticks, not within one.
use ironwork.Prelude.{
  subst, sym, length, ◌<◌, ◌≤◌, ◌^◌, String, not, ◌≡◌, refl, inl, some, List, [], ◌∷◌, str_eq,
  Bool-cases, inr, if◌then◌else◌,
}
use ironwork.Rpc.{Result, ok, err}
use ironwork.Statesvc.{Server, CrdtState, snapshot_locked, sync_state, take_answer, peer_names}
use ironwork.Statesvc.Wellformed.{shard_at}
use ironwork.Statesvc.Cluster.Counts.{own_shard_exact}
use ironwork.Statesvc.Cluster.{
  In, Cluster, Reach, next, push, sync, answer, send_answer, Log, reports, Table, table_of,
}

-- What becomes of a call of `SyncState`: the request is lost, its answer is lost, or it is answered.
pub data Call : Type 0 where
  dropped unanswered answered : Call

abbrev pub Replicas : Type 0
Replicas = String → Server

abbrev pub set : Replicas → String → Server → Replicas
set at i s = λ k. if str_eq i k then s else at k

-- What `RunGossip` does with the answer of a peer; after an error it goes on to the next.
abbrev pub merge_answer : Replicas → String → Result CrdtState → Replicas
merge_answer at i (ok m) = set at i (take_answer (at i) (ok m))
merge_answer at i (err code) = at

abbrev pub deliver : Call → Replicas → String → String → Replicas
deliver dropped at i p = at
deliver unanswered at i p = set at p (sync_state (at p) (some (snapshot_locked (at i)))).1
deliver answered at i p =
    let (r, peer) = sync_state (at p) (some (snapshot_locked (at i))) in
    merge_answer (set at p peer) i r

-- The call for the next peer; once the list has ended, calls are answered.
abbrev pub next_call : List Call → Call
next_call [] = answered
next_call (c ∷ calls) = c

abbrev pub later_calls : List Call → List Call
later_calls [] = []
later_calls (c ∷ calls) = calls

-- `for _, p := range clients`
unfoldable pub visit : String → List String → List Call → Replicas → Replicas
visit i [] calls at = at
visit i (p ∷ peers) calls at = visit i peers (later_calls calls) (deliver (next_call calls) at i p)

-- A tick of `RunGossip` of replica `i`, configured with `names`; gossip is tested once.
unfoldable pub tick : String → List String → List Call → Replicas → Replicas
tick i names calls at = if not (at i).gossip_on then at else visit i (peer_names i names) calls at

-- A reachable cluster whose replicas are these.
record Reached (log : Log) (at : Replicas) : Type 0 where
  cluster : Cluster
  reach : Reach cluster
  is_at : cluster.at ≡ at
  is_log : cluster.log ≡ log

-- An answer of `SyncState` has gone to the network.
abbrev Sent : Result CrdtState → List CrdtState → Type 0
Sent (ok m) net = In m net
Sent (err code) net = Unit

send_answer-Sent : (r : Result CrdtState) (net : List CrdtState) → Sent r (send_answer r net)
send_answer-Sent (ok m) net = inl refl
send_answer-Sent (err code) net = tt

merge_answer-Reached :
    (c : Cluster) (i : String) (r : Result CrdtState)
    → Reach c
    → Sent r c.net
    → Reached c.log (merge_answer c.at i r)
merge_answer-Reached c i (ok m) h sent = record {
  cluster = _;
  reach = next h (answer i m sent);
  is_at = refl;
  is_log = refl;
}
merge_answer-Reached c i (err code) h sent = record {
  cluster = c;
  reach = h;
  is_at = refl;
  is_log = refl;
}

deliver-Reached :
    (call : Call) (c : Cluster) (i p : String) → Reach c → Reached c.log (deliver call c.at i p)
deliver-Reached dropped c i p h = record { cluster = c; reach = h; is_at = refl; is_log = refl }
deliver-Reached unanswered c i p h = record {
  cluster = _;
  reach = next (next h (push i)) (sync p (snapshot_locked (c.at i)) (inl refl));
  is_at = refl;
  is_log = refl;
}
deliver-Reached answered c i p h =
    merge_answer-Reached _ i (sync_state (c.at p) (some (snapshot_locked (c.at i)))).0
      (next (next h (push i)) (sync p (snapshot_locked (c.at i)) (inl refl)))
      (send_answer-Sent _ (snapshot_locked (c.at i) ∷ c.net))

visit-Reached :
    (i : String) (peers : List String) (calls : List Call) (log : Log) (at : Replicas)
    → Reached log at
    → Reached log (visit i peers calls at)
unfolding visit
visit-Reached i [] calls log at h = h
visit-Reached i (p ∷ peers) calls log at h =
    visit-Reached i peers (later_calls calls) log (deliver (next_call calls) at i p) (
      subst (λ a. Reached log (deliver (next_call calls) a i p)) h.is_at
        (subst (λ l. Reached l (deliver (next_call calls) h.cluster.at i p)) h.is_log
          (deliver-Reached (next_call calls) h.cluster i p h.reach)))

tick-Reached :
    (i : String) (names : List String) (calls : List Call) (log : Log) (at : Replicas)
    → Reached log at
    → Reached log (tick i names calls at)
unfolding tick
tick-Reached i names calls log at h = elim (Bool-cases (at i).gossip_on) [
  | inl on ↦ simp on (visit-Reached i (peer_names i names) calls log at h)
  | inr off ↦ simp off h
]

-- Ticks of any replicas, in any order.
unfoldable pub ticks : List String → List (String × List Call) → Replicas → Replicas
ticks names [] at = at
ticks names ((i, calls) ∷ rest) at = ticks names rest (tick i names calls at)

ticks-Reached :
    (names : List String) (rest : List (String × List Call)) (log : Log) (at : Replicas)
    → Reached log at
    → Reached log (ticks names rest at)
unfolding ticks
ticks-Reached names [] log at h = h
ticks-Reached names ((i, calls) ∷ rest) log at h =
    ticks-Reached names rest log (tick i names calls at) (tick-Reached i names calls log at h)

-- Whatever the replicas' gossip loops do from a reachable cluster, in any order and with any calls or
-- answers lost, the replicas stay those of a reachable cluster with the same reports; so that with
-- fewer than 2^64 reports each replica's own shard is still the number of reports that it accepted,
-- and no copy of it is larger.
pub ticks_exact :
    (c : Cluster) (names : List String) (rest : List (String × List Call)) (t : Table)
    (i j key : String)
    → Reach c
    → length c.log < 2 ^ 64
    → (shard_at key i (table_of t (ticks names rest c.at i)) ≡ reports t i key c.log)
      × (shard_at key i (table_of t (ticks names rest c.at j)) ≤ reports t i key c.log)
ticks_exact c names rest t i j key r small =
    let h =
      ticks-Reached names rest c.log c.at
        (record { cluster = c; reach = r; is_at = refl; is_log = refl }) in
    let e =
      own_shard_exact h.cluster t i j key h.reach
        (subst (λ l. length l < 2 ^ 64) (sym h.is_log) small) in
    rw (← h.is_at, ← h.is_log) e
