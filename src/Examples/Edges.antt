-- ===== src/Examples/Edges.antt =====
-- Inputs for the theorems on heartbeats, dispatch, the Raft node and the configuration.
use ironwork.Prelude.{
  str_eq, if◌then◌else◌, Option, some, ℕ, ◌*◌, ◌≡◌, ◌≢◌, ◌↔◌, refl, inl, inr, String, true, none,
  some, List, [], ◌∷◌, All, Any, arith, str_eq, eq_iff, if◌then◌else◌, ◌≤◌, pos,
}
use ironwork.Dict.{lookup, IsMap, insert}
use ironwork.Rpc.{Result, ok}
use ironwork.Registry.{Registry, new, available, dead, is_available, record_heartbeat}
use ironwork.Registry.Liveness.{IsRegistry, IsNamed, record_heartbeat-IsRegistry}
use ironwork.Heartbeat.{second, Loop, Arrivals, Tick, Registries, run}
use ironwork.Heartbeat.Fanout.{Once}
use ironwork.Heartbeat.Silence.{IsBefore, silent_dead}
use ironwork.Heartbeat.Tolerance.{Registers, Hears, available_one_lost, dead_three_lost}
use ironwork.Dispatch
use ironwork.Dispatch.{Dispatcher, eligible, dispatch}
use ironwork.Registry.Complete.{IsFit}
use ironwork.Dispatch.Registered.{available_now, IsNew, eligible_iff, dispatch_reaches, Has}
use ironwork.Sort.{sort, place}
use ironwork.Config.{Targets, parse_targets, split}
use ironwork.Config.Targets.{IsTarget, parse_targets-print, print_targets}
use ironwork.Config.Malformed.{IsMalformed}
use ironwork.Raftnode.{Raft, Node, leader, taken, bootstrapped, apply_placement, info}
use ironwork.Config.Load.{load_refuses, load, get_string}
use ironwork.Examples.Crdts.{Blob, placed, damaged, blobs}
use ironwork.Fsm.{init}
use ironwork.Raftnode.Recorded.{apply_placement-info}

abbrev worker_loop : Loop
worker_loop = record { instance_name = "w1"; capacity = 4; targets = "s1" ∷ "s2" ∷ [] }

abbrev fresh : Registries
fresh t = new (5 * second) (8 * second)

abbrev at_start : Arrivals
at_start t = some 0

abbrev lost : Arrivals
lost t = if str_eq t "s1" then none else some (3 * second)

abbrev beats_sent : List Tick
beats_sent =
    record { inflight = 1; arrivals = lost }
    ∷ record { inflight = 3; arrivals = λ t. some (4 * second) }
    ∷ record { inflight = 2; arrivals = lost }
    ∷ []

once : Once "s1" worker_loop.targets
once = inl (refl, ((λ e. ground (arith, (eq_iff "s1" "s2").1 e)), tt))

fresh-IsRegistry : (t : String) → IsRegistry (fresh t)
fresh-IsRegistry t = record { map_like = tt; keyed = tt }

Registers-s1 : Registers worker_loop "s1" 0 at_start (fresh "s1") 0
Registers-s1 = record {
  named = refl;
  once = once;
  valid = fresh-IsRegistry "s1";
  room = omega arith;
  arrives = refl;
  started = omega arith;
}

Hears-s1 :
    (most read : ℕ)
    → 1 ≤ most
    → 4 * second ≤ read
    → Hears worker_loop "s1" 0 most read 1 0 beats_sent
Hears-s1 most read le past = (
  omega arith,
  (omega (arith, le), (omega arith, (omega arith, past, (omega arith, (omega (arith, le), tt))))),
)

available_one_lost_example :
    Any
      (λ other. "w1" ≡ other)
      (available (9 * second) (run worker_loop at_start beats_sent fresh "s1"))
available_one_lost_example =
    available_one_lost worker_loop "s1" 0 (9 * second) at_start 0 beats_sent fresh Registers-s1
      (omega arith) (Hears-s1 1 (9 * second) (omega arith) (omega arith)) refl (omega arith)

dead_three_lost_example :
    All (λ other. "w1" ≢ other) (dead (8 * second) (run worker_loop at_start beats_sent fresh "s1"))
dead_three_lost_example =
    dead_three_lost worker_loop "s1" 0 (8 * second) at_start 0 beats_sent fresh Registers-s1
      (omega arith) (Hears-s1 3 (8 * second) (omega arith) (omega arith)) refl (omega arith)

-- The last beat reaches "s1" four seconds after the start.
silent_dead_example :
    Any
      (λ other. "w1" ≡ other)
      (dead (13 * second) (run worker_loop at_start beats_sent fresh "s1"))
    × ¬ (
        Any
          (λ other. "w1" ≡ other)
          (available (13 * second) (run worker_loop at_start beats_sent fresh "s1")))
silent_dead_example =
    silent_dead worker_loop "s1" (4 * second) at_start 0 (13 * second) beats_sent fresh refl once
      (fresh-IsRegistry "s1") (refl, refl) refl (omega arith) before (omega arith)
  where
    before : All (IsBefore worker_loop "s1" (4 * second)) beats_sent
    before = ((λ at e. absurd (cc e)), ((λ at e. ground (arith, e)), ((λ at e. absurd (cc e)), tt)))

abbrev d_of : Dispatcher (ℕ × Registry)
d_of = record {
  workers = "w1" ∷ "w2" ∷ [];
  by_name = ("w1", "w1") ∷ ("w2", "w2") ∷ [];
  candidates = some available_now;
  next = 0;
}

abbrev heard_s1 : Registry
heard_s1 = record_heartbeat 7 (new 20 50) "w1" 4 1

heard_s1-IsRegistry : IsRegistry heard_s1
heard_s1-IsRegistry =
    record_heartbeat-IsRegistry 7 (new 20 50) "w1" 4 1 (record { map_like = tt; keyed = tt })

d_of-IsNew : IsNew ("w2" ∷ "w1" ∷ []) d_of
d_of-IsNew = unfold Dispatch.new sort place in refl

eligible_iff_example :
    Has "w1" (eligible (9, heard_s1) d_of).0 ↔ Has "w1" ("w2" ∷ "w1" ∷ []) × IsFit 9 heard_s1 "w1"
eligible_iff_example =
    eligible_iff ("w2" ∷ "w1" ∷ []) d_of 9 heard_s1 "w1" d_of-IsNew heard_s1-IsRegistry

abbrev takes : String → Unit {0} → Result String × Unit {0}
takes w s = (ok w, s)

heard_s1-IsNamed : IsNamed (is_available heard_s1.stale_ttl 9) heard_s1 "w1"
heard_s1-IsNamed = unfold record_heartbeat lookup insert in (_, refl, refl)

dispatch_reaches_example :
    (taker : String) × ((dispatch takes (9, heard_s1) d_of tt).0.0 ≡ some taker)
dispatch_reaches_example =
    dispatch_reaches takes ("w2" ∷ "w1" ∷ []) d_of 9 heard_s1 tt "w1" d_of-IsNew heard_s1-IsRegistry
      (inr (inl refl)) heard_s1-IsNamed (λ s. ("w1", refl))

abbrev peers : Targets
peers = ("s", "h") ∷ ("t", "i") ∷ []

peers-IsTarget : All IsTarget peers
peers-IsTarget = (
  record {
    name = (refl, (λ e. omega (arith, e)), tt);
    no_equals = ((λ e. omega (arith, e)), tt);
    named = refl;
    addr = (refl, (λ e. omega (arith, e)), tt);
    addressed = refl;
  },
  (
    record {
      name = (refl, (λ e. omega (arith, e)), tt);
      no_equals = ((λ e. omega (arith, e)), tt);
      named = refl;
      addr = (refl, (λ e. omega (arith, e)), tt);
      addressed = refl;
    },
    tt,
  ),
)

peers-IsMap : IsMap peers
peers-IsMap = unfold lookup in (refl, (refl, tt))

parse_targets-print_example : parse_targets (print_targets peers) ≡ some peers
parse_targets-print_example = parse_targets-print peers peers-IsTarget peers-IsMap

-- The workers are given a name without an address.
abbrev no_address : String → Option String
no_address key = if str_eq key "workers" then some "w1=" else none

load_refuses_example :
    (load "gateway" no_address (λ text. pos 4) ≡ none)
    ↔ Any
        (λ key. Any IsMalformed (split (get_string "gateway" no_address (λ text. pos 4) key)))
        ("targets" ∷ "workers" ∷ "schedulers" ∷ "raft_peers" ∷ "statemanagers" ∷ [])
load_refuses_example = load_refuses "gateway" no_address (λ text. pos 4)

-- A member that leads a group of one.
abbrev solo : Raft Blob (List Blob)
solo = record {
  state = λ r. leader;
  leader_with_id = λ r. "s1";
  stats = λ r. ("term", "2") ∷ [];
  get_configuration = λ r. some (("s1", "a:1") ∷ []);
  apply_entry = λ entry r. (taken [] (damaged ∷ []), entry ∷ r);
  bootstrap_cluster = λ servers r. (bootstrapped, r);
  leadership_transfer = λ r. (true, r);
  stop = λ r. (true, r);
}

abbrev solo_node : Node (List Blob)
solo_node = record { raft = []; fsm = init; id = "s1" }

apply_placement-info_example :
    ((apply_placement solo blobs 5 "job" "w1" solo_node).0 ≡ true)
    × Any
        (λ p. record { job_id = "job"; worker = "w1"; at = 5 } ≡ p)
        (info solo (apply_placement solo blobs 5 "job" "w1" solo_node).1).recent_placements
apply_placement-info_example =
    apply_placement-info solo blobs 5 "job" "w1" solo_node
      (placed (record { job_id = "job"; worker = "w1"; at = 5 })) [] (damaged ∷ []) refl refl
      (omega arith)
