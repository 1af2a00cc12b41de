-- ===== src/Statereport/Restart.antt =====
-- A replica that restarts: it begins with no counts, as `New` makes it.
use Prim.Native.Nat.{max}
use ironwork.Prelude.{
  ◌≤◌, ◌<◌, ◌^◌, ◌≡◌, ◌≢◌, refl, sym, ◌∙◌, length, String, ℤ, Bool, true, Option, none, some, List,
  [], ◌∷◌, str_eq, eq_iff, arith, Bool-cases, inl, inr,
}
use ironwork.Dict.{lookup}
use ironwork.Store.Rows.{Uuid}
use ironwork.Statesvc.{Server, new, report_job_event, gossip_peer}
use ironwork.Statesvc.Wellformed.{IsServer, shard_at, new-IsServer, report-IsServer}
use ironwork.Statesvc.Gossip.{gossip_peer-shards}
use ironwork.Statesvc.Cluster.{Table, status, worker, table_of}
use ironwork.Statesvc.Cluster.Honest.{shard_at-report, replica-report}
use ironwork.Statereport.{request_of, report, report_all}
use ironwork.Statereport.Counted.{IsSendable, arrived, report_all-counted}

module _ (uuid_text : Uuid → String) (name : String) where
  -- What reports leave alone: whether the replica gossips, and the shards of the others.
  record Reported (s s' : Server) : Type 0 where
    valid : IsServer s'
    gossip : s'.gossip_on ≡ s.gossip_on
    replica : s'.replica ≡ s.replica
    others :
        (t : Table) (key q : String)
        → s.replica ≢ q
        → shard_at key q (table_of t s') ≡ shard_at key q (table_of t s)

  gossip_on-report :
      (a : Option ℤ) (event : Uuid × Bool) (s : Server)
      → (report uuid_text name a event s).gossip_on ≡ s.gossip_on
  unfolding report report_job_event
  gossip_on-report none event s = refl
  gossip_on-report (some now) event s = ground arith

  report-Reported :
      (a : Option ℤ) (event : Uuid × Bool) (s : Server)
      → IsServer s
      → Reported s (report uuid_text name a event s)
  unfolding report
  report-Reported none event s h = record {
    valid = h;
    gossip = refl;
    replica = refl;
    others = λ t key q n. refl;
  }
  report-Reported (some now) event s h =
      let req = request_of uuid_text name event in
      record {
        valid = report-IsServer now s req h;
        gossip = gossip_on-report (some now) event s;
        replica = replica-report now s req;
        others =
            λ t key q n. shard_at-report t now s req key q ∙ ground (arith, eq_iff s.replica q, n);
      }

  report_all-Reported :
      (events : List (Option ℤ × (Uuid × Bool))) (s : Server)
      → IsServer s
      → Reported s (report_all uuid_text name events s)
  unfolding report_all
  report_all-Reported [] s h = record {
    valid = h;
    gossip = refl;
    replica = refl;
    others = λ t key q n. refl;
  }
  report_all-Reported ((a, event) ∷ events) s h =
      let one = report-Reported a event s h in
      let rest = report_all-Reported events (report uuid_text name a event s) one.valid in
      record {
        valid = rest.valid;
        gossip = rest.gossip ∙ one.gossip;
        replica = rest.replica ∙ one.replica;
        others =
            λ t key q n. rest.others t key q (λ e. n (sym one.replica ∙ e)) ∙ one.others t key q n;
      }

  new-shard : (t : Table) (replica key q : String) → shard_at key q (table_of t (new replica)) ≡ 0
  unfolding lookup
  new-shard status replica key q = refl
  new-shard worker replica key q = refl

  merged-shard :
      (t : Table) (s peer : Server) (key q : String)
      → IsServer s
      → IsServer peer
      → s.gossip_on ≡ true
      → peer.gossip_on ≡ true
      → shard_at key q (table_of t (gossip_peer s peer).0)
        ≡ max (shard_at key q (table_of t s)) (shard_at key q (table_of t peer))
  merged-shard status s peer key q h k on on' = (gossip_peer-shards s peer key q h k on on').0
  merged-shard worker s peer key q h k on on' = (gossip_peer-shards s peer key q h k on on').2

  -- A replica that restarts, takes reports of a worker and then makes its first exchange has every
  -- shard that the peer had: it catches up, and if no more reports with a key have reached it than the
  -- peer's copy of its own shard counts, none of them is counted. The peer keeps the invariant and takes
  -- part; the worker has a name, every job's id is some text, and the reports fit 64 bits.
  pub restart_forgets :
      (t : Table) (replica key q : String) (events : List (Option ℤ × (Uuid × Bool)))
      (peer : Server)
      → IsSendable uuid_text name
      → length events < 2 ^ 64
      → IsServer peer
      → peer.gossip_on ≡ true
      → arrived uuid_text name t key events ≤ shard_at key replica (table_of t peer)
      → shard_at key q
          (table_of t (gossip_peer (report_all uuid_text name events (new replica)) peer).0)
        ≡ shard_at key q (table_of t peer)
  restart_forgets t replica key q events peer h lt v on le =
      let s = report_all uuid_text name events (new replica) in
      let r = report_all-Reported events (new replica) (new-IsServer replica) in
      let both = merged-shard t s peer key q r.valid v r.gossip on in
      elim (Bool-cases (str_eq replica q)) [
        | inl y ↦
            let own =
              report_all-counted uuid_text name t key events (new replica) h
                (omega (arith, new-shard t replica key replica, lt)) in
            both ∙ ground (arith, own, new-shard t replica key replica, (eq_iff replica q).0 y, le)
        | inr n ↦
            let ne : replica ≢ q = λ e. cc ((eq_iff replica q).1 e, n) in
            both ∙ omega (arith, r.others t key q ne, new-shard t replica key q)
      ]
