-- ===== src/Connections/Closed.antt =====
-- Every way in which the services connect, and close.
use ironwork.Prelude.{
  ℕ, ◌<◌, ◌≡◌, refl, ap, ◌∙◌, String, Bool, true, Option, none, some, List, [], ◌∷◌, ◌==◌, map,
  lt_str, All, All-imp, inl, inr, Bool-cases, arith,
}
use ironwork.Dict.{lookup}
use ironwork.Sort.{sort}
use ironwork.Connections.{Net, remove, remove_all, address, name_of}
use ironwork.Connections.Leaks.{IsNet, Opened, connect_all-Opened, remove_absent}
use ironwork.Leader.Clients as Router
use ironwork.Dispatch.Clients as Dispatcher
use ironwork.Heartbeat.Clients as Loop
use ironwork.Crdtview.Clients as Dashboard
use ironwork.Statereport.Clients as Reporter
use ironwork.Statesvc.Clients.{Dialing, dial_peers, gossip_connections}
use ironwork.Observer.Targets.{check_target}

-- Closing the newest connection.
remove_new : (c : ℕ) (live : List ℕ) → All (λ d. d < c) live → remove c (c ∷ live) ≡ live
unfolding remove
remove_new c live h = let self : c == c ≡ true = ground arith in rw self (remove_absent c live h)

module _ (takes : String → Bool) (peers : List (String × String)) (live : List ℕ) where
  -- Whatever becomes of the loop, its deferred calls close what it has opened.
  dial_peers-closes :
      (names : List String) (d : Dialing)
      → IsNet d.net
      → remove_all d.deferred d.net.live ≡ live
      → let (ok, d') = dial_peers takes peers names d in remove_all d'.deferred d'.net.live ≡ live
  unfolding dial_peers remove_all
  dial_peers-closes [] d v h = h
  dial_peers-closes (n ∷ names) d v h = elim (Bool-cases (takes (address (lookup n peers)))) [
    | inl y ↦ rw y (
        dial_peers-closes names _
          (omega arith, All-imp _ _ d.net.live (λ c lt. omega (arith, lt)) v)
          (ap (remove_all d.deferred) (remove_new d.net.next d.net.live v) ∙ h))
    | inr x ↦ rw x h
  ]

-- What the reporter's New has done, of its result and of the connections before.
abbrev pub Reports : Net → Option ℕ × Net → Type 0
Reports net (none, net') = net'.live ≡ net.live
Reports net (some c, net') = (Reporter.hang_up c net').live ≡ net.live

module _ (takes answers : String → Bool) (net : Net) (v : IsNet net) where
  dial-Reports : (addr : String) → Reports net (Reporter.dial takes addr net)
  unfolding Reporter.dial Reporter.hang_up
  dial-Reports addr = elim (Bool-cases (takes addr)) [
    | inl y ↦ rw y (remove_new net.next net.live v)
    | inr x ↦ rw x refl
  ]

  check_target-closes : (addr : String) → (check_target takes answers addr net).1.live ≡ net.live
  unfolding check_target
  check_target-closes addr = elim (Bool-cases (takes addr)) [
    | inl y ↦ rw y (remove_new net.next net.live v)
    | inr x ↦ rw x refl
  ]

  gossip-closes :
      (peers : List (String × String)) (replica : String)
      → (gossip_connections takes peers replica net).1.live ≡ net.live
  unfolding gossip_connections
  gossip-closes peers replica =
      dial_peers-closes takes peers net.live _ (record { clients = []; deferred = []; net = net }) v
        (unfold remove_all in refl)

-- The routers, dispatchers, heartbeat loops and dashboards that New returns have a client with an open
-- connection for each configured name, in the order of the names; a New that fails leaves the
-- connections of the process as they were, and so does one that succeeds, followed by Close. A
-- reporter's Close closes its connection, RunGossip has closed those to its peers whenever it
-- returns, and the check of a target its one. An open connection has a number below the counter.
pub connections_closed :
    (takes answers : String → Bool) (configured : List (String × String)) (replica addr : String)
    (net : Net)
    → IsNet net
    → let names = sort lt_str (map name_of configured) in
      Opened Router.close names net (Router.dial takes configured net)
      × Opened Dispatcher.close names net (Dispatcher.dial takes configured net)
      × Opened Loop.close names net (Loop.dial takes configured net)
      × Opened Dashboard.close names net (Dashboard.dial takes configured net)
      × Reports net (Reporter.dial takes addr net)
      × ((gossip_connections takes configured replica net).1.live ≡ net.live)
      × ((check_target takes answers addr net).1.live ≡ net.live)
unfolding Router.dial Router.close Dispatcher.dial Dispatcher.close Loop.dial Loop.close
    Dashboard.dial Dashboard.close
connections_closed takes answers [] replica addr net v = (
  refl,
  refl,
  refl,
  refl,
  dial-Reports takes answers net v addr,
  gossip-closes takes answers net v [] replica,
  check_target-closes takes answers net v addr,
)
connections_closed takes answers (s ∷ configured) replica addr net v =
    let all = connect_all-Opened takes (s ∷ configured) net v in
    (
      all,
      all,
      all,
      all,
      dial-Reports takes answers net v addr,
      gossip-closes takes answers net v (s ∷ configured) replica,
      check_target-closes takes answers net v addr,
    )
