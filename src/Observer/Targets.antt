-- ===== src/Observer/Targets.antt =====
-- internal/observersvc/observersvc.go: the check of one target. What the target answers is a
-- parameter.
use ironwork.Prelude.{ℕ, String, Bool, false, Option, none, some}
use ironwork.Connections.{Net, new_client, close}

-- What the checker does once `grpc.NewClient` has answered: the call, and the deferred close.
abbrev pub checked : Bool → Option ℕ × Net → Bool × Net
checked answers (none, net) = (false, net)
checked answers (some c, net) = (answers, close c net)

-- GRPCTargetChecker: whether there was no error
unfoldable pub check_target : (String → Bool) → (String → Bool) → String → Net → Bool × Net
check_target takes answers addr net = checked (answers addr) (new_client takes addr net)
