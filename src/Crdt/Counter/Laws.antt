-- ===== src/Crdt/Counter/Laws.antt =====
-- Laws of `GCounter`, stated by its shards.
use Prim.Native.Nat.{max}
use ironwork.Prelude.{
  ℕ, ◌+◌, String, ◌≡◌, ◌∙◌, [], ◌∷◌, ltb, Bool-cases, inl, inr, arith, str_eq, eq_iff,
  if◌then◌else◌,
}
use ironwork.Dict.{lookup, insert, IsMap, lookup-insert, insert-IsMap}
use ironwork.Crdt.Counter.{GCounter, u64, shard, inc, merge_shard, merge}

shard-insert :
    (k j : String) (v : ℕ) (c : GCounter)
    → shard j (insert k v c) ≡ (if str_eq k j then v else shard j c)
shard-insert k j v c = rw lookup-insert (ground arith)

pub shard-inc :
    (k j : String) (c : GCounter)
    → shard j (inc k c) ≡ (if str_eq k j then u64 (shard k c + 1) else shard j c)
unfolding inc
shard-inc k j c = shard-insert k j (u64 (shard k c + 1)) c

shard-merge_shard :
    (k j : String) (v : ℕ) (c : GCounter)
    → shard j (merge_shard c k v) ≡ (if str_eq k j then max (shard j c) v else shard j c)
unfolding merge_shard
shard-merge_shard k j v c = ground (arith, shard-insert k j v c, eq_iff k j)

-- The pointwise maximum.
pub shard-merge :
    (j : String) (c other : GCounter)
    → IsMap other
    → shard j (merge c other) ≡ max (shard j c) (shard j other)
unfolding merge lookup
shard-merge j c [] h = omega arith
shard-merge j c ((k, v) ∷ other) h =
    shard-merge j (merge_shard c k v) other h.1
    ∙ ground (arith, shard-merge_shard k j v c, eq_iff k j, h.0)

merge_shard-IsMap : (c : GCounter) (k : String) (v : ℕ) → IsMap c → IsMap (merge_shard c k v)
unfolding merge_shard
merge_shard-IsMap c k v h = elim (Bool-cases (ltb (shard k c) v)) [
  | inl e ↦ rw e (insert-IsMap k v c h)
  | inr e ↦ rw e h
]

pub merge-IsMap : (c other : GCounter) → IsMap c → IsMap (merge c other)
unfolding merge
merge-IsMap c [] h = h
merge-IsMap c ((k, v) ∷ other) h = merge-IsMap (merge_shard c k v) other (merge_shard-IsMap c k v h)

pub inc-IsMap : (k : String) (c : GCounter) → IsMap c → IsMap (inc k c)
unfolding inc
inc-IsMap k c h = insert-IsMap k (u64 (shard k c + 1)) c h

-- Merging is commutative, associative and idempotent, shard by shard.
pub merge_semilattice :
    (a b c : GCounter)
    → IsMap a
    → IsMap b
    → IsMap c
    → (j : String)
    → (shard j (merge a b) ≡ shard j (merge b a))
      × (shard j (merge (merge a b) c) ≡ shard j (merge a (merge b c)))
      × (shard j (merge a a) ≡ shard j a)
merge_semilattice a b c ha hb hc j = omega (
  arith,
  shard-merge j a b hb,
  shard-merge j b a ha,
  shard-merge j (merge a b) c hc,
  shard-merge j a (merge b c) (merge-IsMap b c hb),
  shard-merge j b c hc,
  shard-merge j a a ha,
)
