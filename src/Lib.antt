-- ===== src/Lib.antt =====
-- Ironwork, a distributed job scheduler: its services as functions on explicit state, and what
-- makes them correct.
--
-- A gateway (internal/gatewayhttp) takes jobs over HTTP and routes them to the scheduler that leads
-- a Raft group (internal/leaderclient). The scheduler (internal/schedulersvc) writes a job and its
-- dispatch command in one transaction (internal/store). The leader's relay (internal/outbox) drains
-- the commands, offers each job to the workers (internal/dispatch, with the candidates of
-- internal/registry) and logs the placement (internal/raftnode). A worker (internal/workersvc) runs
-- jobs under a cap, and reports to every scheduler (internal/heartbeat). The reaper
-- (internal/reaper) takes the jobs of a dead worker back and enqueues them again. The statemanager
-- replicas (internal/statesvc) count outcomes in CRDTs (internal/crdt), which internal/crdtview
-- shows side by side; internal/observersvc aggregates health.
--
-- The files:
--   Prelude, Dict, Sort: shared tests, lists, texts, integers; Go's maps as association lists, and
--     sort.Slice.
--   Crdt: GCounter and LWWMap of internal/crdt/crdt.go. Statesvc: internal/statesvc/statesvc.go,
--     and in Statesvc/Cluster all replicas over a network that may lose, delay, reorder and repeat,
--     and the ticks of their gossip loops.
--   Store: internal/store/store.go and outbox.go, a statement or a transaction a step on two
--     tables.
--   Relay: internal/outbox/relay.go. Reaper: internal/reaper/reaper.go. Registry:
--     internal/registry/registry.go. Dispatch: internal/dispatch/dispatch.go.
--   Scheduler: internal/schedulersvc, its three services; Scheduler/Wire:
--     internal/protoconv/protoconv.go. Leader: internal/leaderclient/leaderclient.go. Rpc: the gRPC
--     codes that the services answer with.
--   Worker: internal/workersvc/workersvc.go. Statereport: internal/statereport/statereport.go.
--     Heartbeat: internal/heartbeat/heartbeat.go, with the times of cmd/scheduler/main.go. Fsm:
--     internal/raftnode/fsm.go. Raftnode: internal/raftnode/raftnode.go. Config:
--     internal/config/config.go.
--   Observer: internal/observersvc/observersvc.go. Crdtview: internal/crdtview/crdtview.go.
--     Gateway: internal/gatewayhttp/gatewayhttp.go, the rendering in Render, the handlers of jobs
--     and health in Jobs and Health, and in Requests, Reads, Submission and Partition a request on
--     its way through the services.
--   Process: cmd/scheduler/main.go, a scheduler of all these parts and the events that reach it.
--   Connections: the gRPC connections that New makes and Close closes; the module Clients of a part
--     has that part's, and Observer/Targets those of the health checks.
--   Recovery: a worker's crash, through Reaper, Relay and Dispatch.
--   Journey: a job from its submission to its end, through Scheduler, Relay and Worker.
--   Examples: concrete inputs.
--
-- A database call is served, is refused, or does its work and loses the answer, as a list of faults
-- says; what other processes do between two calls is a list of actions; an interleaving of a
-- worker's calls is a list of moves; a heartbeat and a call between replicas is lost or arrives, as
-- a list of ticks or of calls says. What workers, schedulers and replicas answer, hashicorp/raft,
-- encoding/json, proto.Equal, uuid.Parse, whether grpc.NewClient takes an address, and what viper
-- reads are parameters. An integer of w bits keeps its wrap-around where it can be reached. A uuid
-- is a number from a counter, a time a number of nanoseconds.
--
-- The only fuel is that of the pruning loop of Crdt/Lww, the number of entries: each round deletes
-- one. The source's own bounds are constants of the model: 50 commands in a drain, 30 attempts to
-- dispatch, 3 to execute, 16 recent placements, 3 rounds of the router.
--
-- Not modelled: two schedulers' relays at work at the same time, as at a change of leader; a change of
-- the gossip switch within a tick of a gossip loop; timers, TLS, logs, what travels over a connection, and process set-up (cmd but for
-- the scheduler's, internal/app, healthsvc, logging, tlsutil, and the transport of
-- internal/raftnode), the gateway's routing table, the generated code (gen), and the texts of
-- errors.
pub mod Prelude
pub mod Dict
pub mod Sort
pub mod Crdt
pub mod Rpc
pub mod Statesvc
pub mod Store
pub mod Relay
pub mod Fsm
pub mod Registry
pub mod Worker
pub mod Reaper
pub mod Leader
pub mod Scheduler
pub mod Dispatch
pub mod Observer
pub mod Crdtview
pub mod Gateway
pub mod Examples
pub mod Config
pub mod Journey
pub mod Recovery
pub mod Process
pub mod Connections
pub mod Statereport
pub mod Heartbeat
pub mod Raftnode
