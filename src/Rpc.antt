-- ===== src/Rpc.antt =====
-- google.golang.org/grpc's `status` and `codes`, as the services use them: the codes that the source
-- names. The text of a status is not modelled.
pub data Code : Type 0 where
  invalid_argument not_found failed_precondition resource_exhausted unavailable : Code
  deadline_exceeded internal unimplemented unknown : Code

-- The result of a call: a response, or an error with its code.
pub data Result {ℓ} (A : Type ℓ) : Type ℓ where
  ok : A → Result A
  err : Code → Result A
