-- ===== src/Dispatch.antt =====
-- internal/dispatch/dispatch.go: whom a job is offered to, and who takes it. How a worker answers
-- `ExecuteJob` is a parameter, with a state of its own; the deadlines of the calls are in its answers.
pub mod Clients
pub mod Offers
pub mod Registered
use ironwork.Prelude.{
  ℕ, zero, suc, ◌+◌, ◌%◌, ◌^◌, String, Bool, Option, none, some, List, [], ◌∷◌, get_elem?, length,
  map, lt_str, if◌then◌else◌,
}
use ironwork.Dict.{lookup}
use ironwork.Sort.{sort}
use ironwork.Rpc.{Code, Result, ok, err}

-- A dispatcher whose candidate provider, where there is one, reads an `R`. The connections are not
-- modelled, and a worker is its name.
pub record Dispatcher (R : Type 0) : Type 0 where
  pub workers : List String
  pub by_name : List (String × String)
  pub candidates : Option (R → List String)
  pub next : ℕ  -- atomic.Uint64

abbrev pair_of : String → String × String
pair_of name = (name, name)

-- New, of the names of the configured workers; `none` is an error
unfoldable pub new : {R : Type 0} → List String → Option (R → List String) → Option (Dispatcher R)
new [] candidates = none
new (name ∷ names) candidates = some (record {
  workers = sort lt_str (name ∷ names);
  by_name = map pair_of (sort lt_str (name ∷ names));
  candidates = candidates;
  next = 0;
})

abbrev pub cons_found : {A : Type 0} → Option A → List A → List A
cons_found none rest = rest
cons_found (some a) rest = a ∷ rest

-- `d.workers[(start+uint64(i))%uint64(len(d.workers))]`, for `n` values of `i` from this one on
unfoldable pub rotate : List String → ℕ → ℕ → ℕ → List String
rotate workers start i zero = []
rotate workers start i (suc n) =
    cons_found (get_elem? workers ((start + i) % 2 ^ 64 % length workers))
      (rotate workers start (suc i) n)

unfoldable pub known : List (String × String) → List String → List String
known by_name [] = []
known by_name (name ∷ names) = cons_found (lookup name by_name) (known by_name names)

module _ {R : Type 0} where
  abbrev eligible_by : Option (R → List String) → R → Dispatcher R → List String × Dispatcher R
  eligible_by none r d =
      (rotate d.workers d.next 0 (length d.workers), record d { next = (d.next + 1) % 2 ^ 64 })
  eligible_by (some provider) r d = (known d.by_name (provider r), d)

  -- (*Dispatcher).eligible
  unfoldable pub eligible : R → Dispatcher R → List String × Dispatcher R
  eligible r d = eligible_by d.candidates r d

module _ {S : Type 0} (execute_job : String → S → Result String × S) where
  -- What one answer makes of the loop, `rest` being what the later workers make of it.
  abbrev pub taken : Result String → S → Option String × S → Option String × S
  taken (ok instance_name) s rest = (some instance_name, s)
  taken (err e) s rest = rest

  -- The loop over the eligible workers; `none` is an error.
  unfoldable pub offer : List String → S → Option String × S
  offer [] s = (none, s)
  offer (w ∷ workers) s =
      let (r, s') = execute_job w s in let rest = offer workers s' in taken r s' rest

  -- (*Dispatcher).Dispatch
  unfoldable pub dispatch : {R : Type 0} → R → Dispatcher R → S → (Option String × Dispatcher R) × S
  dispatch r d s =
      let (workers, d') = eligible r d in let (taker, s') = offer workers s in ((taker, d'), s')
