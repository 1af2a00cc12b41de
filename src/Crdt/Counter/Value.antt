-- ===== src/Crdt/Counter/Value.antt =====
-- `Value`, by the shards.
use ironwork.Prelude.{
  ℕ, ◌+◌, ◌^◌, ◌≤◌, ◌<◌, String, ◌≡◌, refl, sym, ◌∙◌, ap, [], ◌∷◌, Bool-cases, inl, inr, arith,
  str_eq, eq_iff,
}
use ironwork.Dict.{lookup, insert, delete, IsMap, delete-IsMap, lookup-delete, delete_absent}
use ironwork.Crdt.Counter.Laws.{shard-merge, merge-IsMap}
use ironwork.Crdt.Counter.{GCounter, u64, shard, inc, sum_loop, value, merge_shard, merge}

-- The sum without wrap-around.
unfoldable pub total : GCounter → ℕ
total [] = 0
total ((k, v) ∷ c) = v + total c

sum_loop-total : (sum : ℕ) (c : GCounter) → sum < 2 ^ 64 → sum_loop sum c ≡ u64 (sum + total c)
unfolding sum_loop total
sum_loop-total sum [] h = omega arith
sum_loop-total sum ((k, v) ∷ c) h = omega (arith, sum_loop-total (u64 (sum + v)) c (omega arith))

value-total : (c : GCounter) → value c ≡ u64 (total c)
unfolding value
value-total c = omega (arith, sum_loop-total 0 c (omega arith))

total-insert : (k : String) (v : ℕ) (c : GCounter) → total (insert k v c) + shard k c ≡ total c + v
unfolding total insert lookup
total-insert k v [] = omega arith
total-insert k v ((i, w) ∷ c) = ground (arith, total-insert k v c)

total-merge_shard-ge : (c : GCounter) (k : String) (v : ℕ) → total c ≤ total (merge_shard c k v)
unfolding merge_shard
total-merge_shard-ge c k v = ground (arith, total-insert k v c)

total-merge_shard-le : (c : GCounter) (k : String) (v : ℕ) → total (merge_shard c k v) ≤ total c + v
unfolding merge_shard
total-merge_shard-le c k v = ground (arith, total-insert k v c)

-- A merge loses nothing of its own counter, and counts nothing that neither counter has.
total-merge_bounds :
    (c other : GCounter)
    → (total c ≤ total (merge c other)) × (total (merge c other) ≤ total c + total other)
unfolding merge total
total-merge_bounds c [] = omega arith
total-merge_bounds c ((k, v) ∷ other) = omega (
  arith,
  total-merge_bounds (merge_shard c k v) other,
  total-merge_shard-ge c k v,
  total-merge_shard-le c k v,
)

total-delete : (k : String) (c : GCounter) → IsMap c → total (delete k c) + shard k c ≡ total c
unfolding total delete lookup
total-delete k [] h = omega arith
total-delete k ((i, w) ∷ c) h = elim (Bool-cases (str_eq i k)) [
  | inl y ↦ rw y (rw (delete_absent k c (ground (arith, eq_iff i k, h.0))) (omega arith))
  | inr n ↦ rw n (omega (arith, total-delete k c h.1))
]

total_of_none : (c : GCounter) → IsMap c → ((j : String) → shard j c ≡ 0) → total c ≡ 0
unfolding total lookup
total_of_none [] h z = refl
total_of_none ((k, v) ∷ c) h z = omega (arith, head, total_of_none c h.1 tail)
  where
    head : v ≡ 0
    head = ground (arith, z k, eq_iff k k)

    tail : (j : String) → shard j c ≡ 0
    tail j = ground (arith, z j, eq_iff k j, h.0)

-- Counters with the same shards have the same sum, whatever the order of their entries.
total_of_shards :
    (a b : GCounter)
    → IsMap a
    → IsMap b
    → ((j : String) → shard j a ≡ shard j b)
    → total a ≡ total b
unfolding total lookup
total_of_shards [] b ha hb same = sym (total_of_none b hb (λ j. sym (same j)))
total_of_shards ((k, v) ∷ a) b ha hb same = omega (
  arith,
  head,
  total-delete k b hb,
  total_of_shards a (delete k b) ha.1 (delete-IsMap k b hb) rest,
)
  where
    head : v ≡ shard k b
    head = ground (arith, same k, eq_iff k k)

    rest : (j : String) → shard j a ≡ shard j (delete k b)
    rest j = ground (arith, same j, eq_iff k j, ha.0, lookup-delete k j b)

-- One increment adds one to the value, modulo 2^64.
pub value-inc :
    (replica : String) (c : GCounter)
    → shard replica c < 2 ^ 64
    → value (inc replica c) ≡ u64 (value c + 1)
unfolding inc
value-inc replica c h = omega (
  arith,
  value-total c,
  value-total (insert replica (u64 (shard replica c + 1)) c),
  total-insert replica (u64 (shard replica c + 1)) c,
)

-- Merging in either order gives the same shards, and so the same value.
value-merge_comm : (a b : GCounter) → IsMap a → IsMap b → value (merge a b) ≡ value (merge b a)
value-merge_comm a b ha hb =
    value-total (merge a b)
    ∙ ap u64 (
        total_of_shards (merge a b) (merge b a) (merge-IsMap a b ha) (merge-IsMap b a hb)
          (λ j. omega (arith, shard-merge j a b hb, shard-merge j b a ha)))
    ∙ sym (value-total (merge b a))

-- While the sums fit 64 bits, a merge is at least each of the two values and at most their sum.
pub value-merge_bounds :
    (a b : GCounter)
    → IsMap a
    → IsMap b
    → total a + total b < 2 ^ 64
    → (value a ≤ value (merge a b))
      × (value b ≤ value (merge a b))
      × (value (merge a b) ≤ value a + value b)
value-merge_bounds a b ha hb fits = omega (
  arith,
  value-total a,
  value-total b,
  value-total (merge a b),
  value-total (merge b a),
  value-merge_comm a b ha hb,
  total-merge_bounds a b,
  total-merge_bounds b a,
)

-- Counters with the same shards have the same value.
pub value_of_shards :
    (a b : GCounter)
    → IsMap a
    → IsMap b
    → ((j : String) → shard j a ≡ shard j b)
    → value a ≡ value b
value_of_shards a b ha hb same =
    value-total a ∙ ap u64 (total_of_shards a b ha hb same) ∙ sym (value-total b)
