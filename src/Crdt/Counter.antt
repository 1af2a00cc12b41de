-- ===== src/Crdt/Counter.antt =====
-- `GCounter` of internal/crdt/crdt.go: one uint64 shard for each replica.
pub mod Laws
pub mod Value
use ironwork.Prelude.{
  ℕ, ◌+◌, ◌%◌, ◌^◌, String, Option, none, some, List, [], ◌∷◌, ltb, if◌then◌else◌,
}
use ironwork.Dict.{lookup, insert, copy}

abbrev pub u64 : ℕ → ℕ
u64 n = n % 2 ^ 64

abbrev pub GCounter : Type 0
GCounter = List (String × ℕ)

-- NewGCounter
abbrev pub new : GCounter
new = []

abbrev pub or_zero : Option ℕ → ℕ
or_zero none = 0
or_zero (some v) = v

-- c[replica], 0 where the key is missing
abbrev pub shard : String → GCounter → ℕ
shard replica c = or_zero (lookup replica c)

-- (GCounter).Inc
unfoldable pub inc : String → GCounter → GCounter
inc replica c = insert replica (u64 (shard replica c + 1)) c

unfoldable pub sum_loop : ℕ → GCounter → ℕ
sum_loop sum [] = sum
sum_loop sum ((replica, v) ∷ c) = sum_loop (u64 (sum + v)) c

-- (GCounter).Value
unfoldable pub value : GCounter → ℕ
unfolding sum_loop
value c = sum_loop 0 c

-- One round of the loop of `Merge`.
unfoldable pub merge_shard : GCounter → String → ℕ → GCounter
merge_shard c replica v = if ltb (shard replica c) v then insert replica v c else c

-- (GCounter).Merge
unfoldable pub merge : GCounter → GCounter → GCounter
merge c [] = c
merge c ((replica, v) ∷ other) = merge (merge_shard c replica v) other

-- (GCounter).Clone
unfoldable pub clone : GCounter → GCounter
clone c = copy c
