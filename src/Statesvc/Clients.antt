-- ===== src/Statesvc/Clients.antt =====
-- internal/statesvc/statesvc.go: the connections of RunGossip, which its deferred calls close, the
-- newest first. What the loop does between is that of Statesvc/Cluster/Rounds.
use ironwork.Prelude.{ℕ, String, Bool, true, false, Option, none, some, List, [], ◌∷◌, ◌++◌, map}
use ironwork.Dict.{lookup}
use ironwork.Statesvc.{peer_names}
use ironwork.Connections.{Net, Member, new_client, address, remove_all, name_of}

-- The peers whose clients have been made, and the deferred calls.
pub record Dialing : Type 0 where
  pub clients : List Member
  pub deferred : List Member
  pub net : Net

-- What one answer of `grpc.NewClient` makes of the loop; `false` is an error.
abbrev pub dialed : String → Dialing → Option ℕ × Net → (Dialing → Bool × Dialing) → Bool × Dialing
dialed name d (none, net) later = (false, record d { net = net })
dialed name d (some c, net) later =
    let m : Member = record { name = name; conn = c } in
    later (record { clients = d.clients ++ m ∷ []; deferred = m ∷ d.deferred; net = net })

module _ (takes : String → Bool) (peers : List (String × String)) where
  unfoldable pub dial_peers : List String → Dialing → Bool × Dialing
  dial_peers [] d = (true, d)
  dial_peers (name ∷ names) d =
      dialed name d (new_client takes (address (lookup name peers)) d.net)
        (λ d'. dial_peers names d')

  -- The connections once `RunGossip` has returned, of the replica's name, and whether it has run the
  -- loop.
  unfoldable pub gossip_connections : String → Net → Bool × Net
  gossip_connections replica net =
      let (ok, d) =
        dial_peers (peer_names replica (map name_of peers))
          (record { clients = []; deferred = []; net = net }) in
      (ok, record d.net { live = remove_all d.deferred d.net.live })
