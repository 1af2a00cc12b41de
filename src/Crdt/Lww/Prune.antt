-- ===== src/Crdt/Lww/Prune.antt =====
-- What `prune` keeps.
use Prim.Native.Nat.{min}
use ironwork.Prelude.{
  ℕ, zero, suc, ◌≤◌, String, ◌≡◌, refl, ◌∙◌, ◌⊎◌, none, some, false, [], ◌∷◌, ltb, length, All, Any,
  Bool-cases, inl, inr, arith, str_eq, eq_iff, ltb→lt, ge→ltb,
}
use ironwork.Dict.{
  lookup, delete, IsMap, lookup-delete, delete-IsMap, length-delete, lookup-All, lookup_of_Any,
}
use ironwork.Crdt.Lww.{LwwEntry, Entries, wins, find_oldest, prune_loop}
use ironwork.Crdt.Lww.Order.{wins_irrefl, wins-co_trans, wins-asym}

-- The entry that the scan of `prune` ends with: it beats no entry of the map.
record IsOldest (q : String × LwwEntry) (m : Entries) : Type 0 where
  present : lookup q.0 m ≡ some q.1
  beats_none : (k : String) (e : LwwEntry) → lookup k m ≡ some e → wins q.1 e ≡ false

abbrev Scanned : String × LwwEntry → Entries → String × LwwEntry → Type 0
Scanned p m q =
    (wins q.1 p.1 ≡ false) × All (λ r. wins q.1 r.1 ≡ false) m × ((q ≡ p) ⊎ Any (λ r. q ≡ r) m)

find_oldest-Scanned :
    (p : String × LwwEntry) (m : Entries)
    → (q : String × LwwEntry) × (find_oldest (some p) m ≡ some q) × Scanned p m q
unfolding find_oldest
find_oldest-Scanned p [] = (p, refl, (wins_irrefl p.1, tt, inl refl))
find_oldest-Scanned (k0, e0) ((k, e) ∷ m) = elim (Bool-cases (wins e0 e)) [
  | inl t ↦
      let (q, found, s) = find_oldest-Scanned (k, e) m in
      (q, rw t found, (wins-co_trans q.1 e e0 s.0 (wins-asym e0 e t), (s.0, s.1), inr s.2))
  | inr f ↦
      let (q, found, s) = find_oldest-Scanned (k0, e0) m in
      (
        q,
        rw f found,
        (
          s.0,
          (wins-co_trans q.1 e0 e s.0 f, s.1),
          elim s.2 [ inl a ↦ inl a | inr b ↦ inr (inr b) ],
        ),
      )
]

find_oldest-IsOldest :
    (p : String × LwwEntry) (m : Entries)
    → IsMap (p ∷ m)
    → (q : String × LwwEntry) × (find_oldest none (p ∷ m) ≡ some q) × IsOldest q (p ∷ m)
unfolding find_oldest
find_oldest-IsOldest (k0, e0) m d =
    let (q, found, s) = find_oldest-Scanned (k0, e0) m in
    (
      q,
      found,
      record {
        present = lookup_of_Any q ((k0, e0) ∷ m) d s.2;
        beats_none =
            λ k e h. lookup-All (λ r. wins q.1 r.1 ≡ false) k e ((k0, e0) ∷ m) (s.0, s.1) h;
      },
    )

-- What pruning promises of the map `m` and what is left of it, `r`.
pub record KeepsNewest (m r : Entries) : Type 0 where
  pub sub : (k : String) (e : LwwEntry) → lookup k r ≡ some e → lookup k m ≡ some e
  pub newest :
      (j k : String) (d e : LwwEntry)
      → lookup j m ≡ some d
      → lookup j r ≡ none
      → lookup k r ≡ some e
      → wins d e ≡ false
  pub is_map : IsMap r

KeepsNewest-refl : (m : Entries) → IsMap m → KeepsNewest m m
KeepsNewest-refl m h = record { sub = λ k e p. p; newest = λ j k d e p q r. cc; is_map = h }

KeepsNewest-delete :
    (q : String × LwwEntry) (m r : Entries)
    → IsOldest q m
    → KeepsNewest (delete q.0 m) r
    → KeepsNewest m r
KeepsNewest-delete q m r o h = record {
  sub = sub;
  newest = λ j k d e p n s. elim (Bool-cases (str_eq q.0 j)) [
    | inl y ↦
        let same : q.1 ≡ d = ground (arith, o.present, eq_iff q.0 j) in
        rw (← same) (o.beats_none k e (sub k e s))
    | inr x ↦ h.newest j k d e (lookup-delete q.0 j m ∙ rw x p) n s
  ];
  is_map = h.is_map;
}
  where
    sub : (k : String) (e : LwwEntry) → lookup k r ≡ some e → lookup k m ≡ some e
    sub k e p = ground (arith, h.sub k e p, lookup-delete q.0 k m)

pub prune_loop-KeepsNewest :
    (fuel limit : ℕ) (m : Entries) → IsMap m → KeepsNewest m (prune_loop fuel limit m)
unfolding prune_loop
prune_loop-KeepsNewest zero limit m h = KeepsNewest-refl m h
prune_loop-KeepsNewest (suc fuel) limit [] h =
    rw (ge→ltb limit 0 (omega arith)) (KeepsNewest-refl [] h)
prune_loop-KeepsNewest (suc fuel) limit (p ∷ m) h = elim (Bool-cases (ltb limit (length (p ∷ m)))) [
  | inl t ↦
      let (q, found, o) = find_oldest-IsOldest p m h in
      rw (t, found)
        (KeepsNewest-delete q (p ∷ m) _ o
          (prune_loop-KeepsNewest fuel limit (delete q.0 (p ∷ m)) (delete-IsMap q.0 (p ∷ m) h)))
  | inr f ↦ rw f (KeepsNewest-refl (p ∷ m) h)
]

pub length-prune_loop :
    (fuel limit : ℕ) (m : Entries)
    → IsMap m
    → length m ≤ fuel
    → length (prune_loop fuel limit m) ≡ min limit (length m)
unfolding prune_loop
length-prune_loop zero limit m h l = omega arith
length-prune_loop (suc fuel) limit [] h l = ground arith
length-prune_loop (suc fuel) limit (p ∷ m) h l = elim (Bool-cases (ltb limit (length (p ∷ m)))) [
  | inl t ↦
      let (q, found, o) = find_oldest-IsOldest p m h in
      let shorter = length-delete q.0 q.1 (p ∷ m) h o.present in
      rw (t, found)
        (omega (
          arith,
          length-prune_loop fuel limit (delete q.0 (p ∷ m)) (delete-IsMap q.0 (p ∷ m) h)
              (omega (arith, shorter)),
          shorter,
          ltb→lt limit (length (p ∷ m)) t,
        ))
  | inr f ↦ rw f (ground arith)
]

prune_loop-more :
    (fuel limit : ℕ) (m : Entries)
    → IsMap m
    → length m ≤ fuel
    → prune_loop fuel limit m ≡ prune_loop (suc fuel) limit m
unfolding prune_loop
prune_loop-more zero limit [] h l = rw (ge→ltb limit 0 (omega arith)) refl
prune_loop-more zero limit (p ∷ m) h l = absurd (omega arith)
prune_loop-more (suc fuel) limit [] h l = rw (ge→ltb limit 0 (omega arith)) refl
prune_loop-more (suc fuel) limit (p ∷ m) h l = elim (Bool-cases (ltb limit (length (p ∷ m)))) [
  | inl t ↦
      let (q, found, o) = find_oldest-IsOldest p m h in
      let shorter = length-delete q.0 q.1 (p ∷ m) h o.present in
      rw (t, found)
        (prune_loop-more fuel limit (delete q.0 (p ∷ m)) (delete-IsMap q.0 (p ∷ m) h)
          (omega (arith, shorter)))
  | inr f ↦ rw f refl
]

-- The loop of `prune` ends by its own test: after a round for every entry the entries are within the
-- limit, and a further round changes nothing.
pub prune_loop_ends :
    (fuel limit : ℕ) (m : Entries)
    → IsMap m
    → length m ≤ fuel
    → (prune_loop fuel limit m ≡ prune_loop (suc fuel) limit m)
      × (ltb limit (length (prune_loop fuel limit m)) ≡ false)
prune_loop_ends fuel limit m h l = (
  prune_loop-more fuel limit m h l,
  ge→ltb limit (length (prune_loop fuel limit m))
      (omega (arith, length-prune_loop fuel limit m h l)),
)
