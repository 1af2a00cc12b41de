-- ===== src/Statereport/Clients.antt =====
-- internal/statereport/statereport.go: the connection of the reporter.
use ironwork.Prelude.{ℕ, String, Bool, Option}
use ironwork.Connections.{Net, new_client, close}

-- New, of the address of the replica: the connection; `none` is an error
unfoldable pub dial : (String → Bool) → String → Net → Option ℕ × Net
dial takes addr net = new_client takes addr net

-- (*Client).Close
unfoldable pub hang_up : ℕ → Net → Net
hang_up c net = close c net
