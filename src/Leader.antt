-- ===== src/Leader.antt =====
-- internal/leaderclient/leaderclient.go: how the gateway finds the scheduler that leads. What the
-- schedulers answer is a parameter, with a state of its own.
pub mod Clients
pub mod Finds
pub mod Exact
pub mod Status
use ironwork.Prelude.{
  ℕ, zero, suc, ◌+◌, ◌%◌, Bool, true, false, Option, none, some, if◌then◌else◌, String, List, [],
  ◌∷◌, map, lt_str,
}
use ironwork.Sort.{sort}
use ironwork.Rpc.{
  Code, failed_precondition, unavailable, deadline_exceeded, unknown, Result, ok, err,
}

abbrev name_of : String × String → String
name_of (name, addr) = name

-- New, of the addresses of the schedulers by name: the members; `none` is an error
unfoldable new : List (String × String) → Option (List String)
new [] = none
new (s ∷ schedulers) = some (sort lt_str (map name_of (s ∷ schedulers)))

-- The rounds after the first; `retryRounds` is 3.
abbrev later_rounds : ℕ
later_rounds = 2

abbrev pub retryable : Code → Bool
retryable failed_precondition = true
retryable unavailable = true
retryable deadline_exceeded = true
retryable _ = false

-- What `route` returns: a response; an error; or the zero value with a nil error, if it has asked
-- nobody.
pub data Routed (A : Type 0) : Type 0 where
  routed : A → Routed A
  failed : Code → Routed A
  nothing : Routed A

abbrev pub last_error : {A : Type 0} → Option Code → Routed A
last_error none = nothing
last_error (some c) = failed c

-- The schedulers: how member `idx` answers, and whether the caller's context is done after a round.
pub record Cluster (S A : Type 0) : Type 0 where
  pub ask : ℕ → S → Result A × S
  pub is_done : S → Bool

-- A pass over the members ends with the routed result and the leader to cache, or goes on with the
-- last error.
pub data Pass (A : Type 0) : Type 0 where
  served : ℕ → A → Pass A
  refused : Code → Pass A
  declined : Option Code → Pass A

module _ {S A : Type 0} (c : Cluster S A) (start members : ℕ) where
  abbrev pub index : ℕ → ℕ
  index i = (start + i) % members

  -- What one answer makes of the pass, `rest` being what the members after it make of it.
  abbrev pub heard : ℕ → Option Code → Result A → S → (Option Code → Pass A × S) → Pass A × S
  heard idx last (ok a) s rest = (served idx a, s)
  heard idx last (err e) s rest = if retryable e then rest (some e) else (refused e, s)

  -- The loop over the members, from the `i`-th on, `n` of them.
  unfoldable pub pass : ℕ → ℕ → Option Code → S → Pass A × S
  pass zero i last s = (declined last, s)
  pass (suc n) i last s =
      let (r, s') = c.ask (index i) s in
      heard (index i) last r s' (λ last'. pass n (suc i) last' s')

  abbrev pub after_pass :
      ℕ → ℕ → Pass A × S → (Option Code → S → (Routed A × ℕ) × S) → (Routed A × ℕ) × S
  after_pass n leader (served idx a, s) next = ((routed a, idx), s)
  after_pass n leader (refused e, s) next = ((failed e, leader), s)
  after_pass zero leader (declined last, s) next = ((last_error last, leader), s)
  after_pass (suc n) leader (declined last, s) next =
      if c.is_done s then ((last_error last, leader), s) else next last s

  -- The rounds, `n` of them after this one: the routed result and the cached leader.
  unfoldable pub rounds : ℕ → Option Code → S → (Routed A × ℕ) × S
  rounds zero last s =
      after_pass zero start (pass members 0 last s) (λ last' s'. ((last_error last', start), s'))
  rounds (suc n) last s =
      after_pass (suc n) start (pass members 0 last s) (λ last' s'. rounds n last' s')

-- `route`, from the cached leader `start`
abbrev pub route : {S A : Type 0} → Cluster S A → ℕ → ℕ → S → (Routed A × ℕ) × S
route c start members s = rounds c start members later_rounds none s

-- What a caller takes for the router's answer; a router that has members never returns `nothing`.
abbrev pub result_of : {A : Type 0} → Routed A → Result A
result_of (routed a) = ok a
result_of (failed code) = err code
result_of nothing = err unknown
