-- ===== src/Worker/Runs.antt =====
-- How long a job may hold its slot.
use native.Mathlib.Nat.{mod-eq_of_lt}
use Prim.Native.Nat.{min}
use ironwork.Prelude.{
  false, ◌≢◌, refl, ℕ, zero, suc, ◌*◌, ◌%◌, ◌^◌, ◌<◌, ◌≤◌, ◌≡◌, Option, none, some, [], ◌∷◌, ltb,
  leb, ℤ, pos, negsuc, arith, if◌then◌else◌,
}
use ironwork.Store.Rows.{Payload}
use ironwork.Worker.{Body, max_sleep, sleep_of, execute_body, execute_decoded, execute}

sleep_of-bound : (d : ℕ) → sleep_of d ≤ max_sleep
unfolding sleep_of
sleep_of-bound d = go (d * 1000000 % 2 ^ 64)
  where
    go :
        (ns : ℕ)
        → (if leb (2 ^ 63) ns then 0 else if ltb max_sleep ns then max_sleep else ns) ≤ max_sleep
    go ns = ground arith

sleep_of-exact : (d : ℕ) → d * 1000000 < 2 ^ 63 → sleep_of d ≡ min (d * 1000000) (60 * 1000000000)
unfolding sleep_of
sleep_of-exact d lt = rw (mod-eq_of_lt small) (ground arith)
  where
    small : d * 1000000 < 2 ^ 64
    small = omega (arith, lt)

execute_body-bound : (body : Body) → (execute_body body).0 ≤ max_sleep
unfolding execute_body
execute_body-bound body = go body.duration_ms
  where
    go : (d : ℤ) → (execute_body (record { duration_ms = d; fail = body.fail })).0 ≤ max_sleep
    go (negsuc n) = omega arith
    go (pos zero) = omega arith
    go (pos (suc n)) = sleep_of-bound (suc n)

execute_decoded-bound : (o : Option Body) → (execute_decoded o).0 ≤ max_sleep
execute_decoded-bound none = omega arith
execute_decoded-bound (some body) = execute_body-bound body

-- Whatever the payload says, an execution sleeps for a minute at most; and one whose payload gives a
-- positive number of milliseconds, of which an int64 holds the nanoseconds, sleeps for all of them, up
-- to the minute.
pub execute-bounds :
    (decode : Payload → Option Body) (other payload : Payload) (body : Body) (d : ℕ)
    → payload ≢ []
    → decode payload ≡ some body
    → body.duration_ms ≡ pos (suc d)
    → suc d * 1000000 < 2 ^ 63
    → ((execute decode other).0 ≤ 60 * 1000000000)
      × ((execute decode payload).0 ≡ min (suc d * 1000000) (60 * 1000000000))
unfolding execute execute_body
execute-bounds decode other [] body d ne e at lt = absurd (ne refl)
execute-bounds decode other (c ∷ payload) body d ne e at lt =
    (bound other, rw (e, at) (sleep_of-exact (suc d) lt))
  where
    bound : (p : Payload) → (execute decode p).0 ≤ max_sleep
    bound [] = execute_body-bound (record { duration_ms = pos 0; fail = false })
    bound (b ∷ bytes) = execute_decoded-bound (decode (b ∷ bytes))
