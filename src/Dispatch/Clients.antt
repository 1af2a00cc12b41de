-- ===== src/Dispatch/Clients.antt =====
-- internal/dispatch/dispatch.go: the connections of the dispatcher.
use ironwork.Prelude.{String, Bool, Option, none, List, [], ◌∷◌}
use ironwork.Connections.{Net, Member, connect_all, close_all}

-- New, of the addresses of the workers by name: the clients; `none` is an error
unfoldable pub dial : (String → Bool) → List (String × String) → Net → Option (List Member) × Net
dial takes [] net = (none, net)
dial takes (s ∷ rest) net = connect_all takes (s ∷ rest) net

-- (*Dispatcher).Close
unfoldable pub close : List Member → Net → Net
close members net = close_all members net
