-- ===== src/Crdt/Lww/Window.antt =====
-- The bounded window as a client sees it: `Merge` and `Set`, pruning included.
use ironwork.Prelude.{
  ltb, subst, ℕ, ◌≤◌, String, ◌≡◌, refl, sym, ◌∙◌, ap, zero, suc, ge→ltb, Option, none, some, true,
  false, Bool-cases, inl, inr, arith, str_eq, eq_iff, length, if◌then◌else◌,
}
use ironwork.Dict.{lookup, insert, IsMap, lookup-insert, insert-IsMap}
use ironwork.Crdt.Lww.{
  LwwEntry, LwwMap, Entries, wins, loses, set, merge, merge_loop, prune, prune_loop,
}
use ironwork.Crdt.Lww.Merge.{later, lookup-merge_loop, merge_loop-IsMap, StampsAgree, later_comm}
use ironwork.Crdt.Lww.Prune.{prune_loop-KeepsNewest, length-prune_loop}

-- `r` is the window of the newest entries of a map whose entry at `k` is `v k`: every entry of `r`
-- is one of `v`, and where an entry of `v` is not in `r`, there are `limit` that it does not win against.
pub record IsWindow (limit : ℕ) (v : String → Option LwwEntry) (r : Entries) : Type 0 where
  pub bounded : length r ≤ limit
  pub sub : (k : String) (e : LwwEntry) → lookup k r ≡ some e → v k ≡ some e
  pub newest :
      (j k : String) (d e : LwwEntry)
      → v j ≡ some d
      → lookup j r ≡ none
      → lookup k r ≡ some e
      → wins d e ≡ false
  pub full : (j : String) (d : LwwEntry) → v j ≡ some d → lookup j r ≡ none → length r ≡ limit
  pub is_map : IsMap r

prune_loop_fits : (fuel limit : ℕ) (m : Entries) → length m ≤ limit → prune_loop fuel limit m ≡ m
unfolding prune_loop
prune_loop_fits zero limit m h = refl
prune_loop_fits (suc fuel) limit m h = rw (ge→ltb limit (length m) h)

prune-IsWindow :
    (m : LwwMap) (v : String → Option LwwEntry)
    → IsMap m.entries
    → ((k : String) → lookup k m.entries ≡ v k)
    → IsWindow m.limit v (prune m).entries
unfolding prune
prune-IsWindow m v h at_key =
    let kept = prune_loop-KeepsNewest (length m.entries) m.limit m.entries h in
    record {
      bounded =
          omega (arith, length-prune_loop (length m.entries) m.limit m.entries h (omega arith));
      sub = λ k e p. sym (at_key k) ∙ kept.sub k e p;
      newest = λ j k d e p. kept.newest j k d e (at_key j ∙ p);
      full = λ j d p n. length-cut j d (at_key j ∙ p) n;
      is_map = kept.is_map;
    }
  where
    length-cut :
        (j : String) (d : LwwEntry)
        → lookup j m.entries ≡ some d
        → lookup j (prune_loop (length m.entries) m.limit m.entries) ≡ none
        → length (prune_loop (length m.entries) m.limit m.entries) ≡ m.limit
    length-cut j d p n = elim (Bool-cases (ltb m.limit (length m.entries))) [
      | inl y ↦
          ground (arith, length-prune_loop (length m.entries) m.limit m.entries h (omega arith), y)
      | inr x ↦
          let same : prune_loop (length m.entries) m.limit m.entries ≡ m.entries =
            prune_loop_fits (length m.entries) m.limit m.entries (ground (arith, x)) in
          let q : lookup j m.entries ≡ none = subst (λ l. lookup j l ≡ none) same n in
          absurd (cc (p, q))
    ]

pub merge-IsWindow :
    (m : LwwMap) (other : Entries)
    → IsMap m.entries
    → IsMap other
    → IsWindow m.limit (λ k. later (lookup k m.entries) (lookup k other)) (merge m other).entries
unfolding merge
merge-IsWindow m other h g =
    prune-IsWindow (record m { entries = merge_loop m.entries other })
      (λ k. later (lookup k m.entries) (lookup k other)) (merge_loop-IsMap m.entries other h)
      (λ k. lookup-merge_loop k m.entries other g)

abbrev set_at : Entries → String → LwwEntry → String → Option LwwEntry
set_at m key e k = if str_eq key k then later (lookup k m) (some e) else lookup k m

-- Recording an entry leaves the window of the newest entries, the new one counted only if it wins
-- against the one recorded before under its key.
pub set-IsWindow :
    (m : LwwMap) (key : String) (e : LwwEntry)
    → IsMap m.entries
    → length m.entries ≤ m.limit
    → IsWindow m.limit
        (λ k. if str_eq key k then later (lookup k m.entries) (some e) else lookup k m.entries)
        (set m key e).entries
unfolding set
set-IsWindow m key e h room = elim (Bool-cases (loses e (lookup key m.entries))) [
  | inl l ↦ rw l (record {
    bounded = room;
    sub = λ k x p. sym (at_lost l k) ∙ p;
    newest = λ j k d x p n s. cc (at_lost l j);
    full = λ j d p n. cc (at_lost l j);
    is_map = h;
  })
  | inr w ↦ rw w (
      prune-IsWindow (record m { entries = insert key e m.entries }) (set_at m.entries key e)
        (insert-IsMap key e m.entries h) (λ k. at_won w k))
]
  where
    at_lost :
        loses e (lookup key m.entries) ≡ true
        → (k : String) → lookup k m.entries ≡ set_at m.entries key e k
    at_lost l k = unfold later in ground (arith, eq_iff key k)

    at_won :
        loses e (lookup key m.entries) ≡ false
        → (k : String) → lookup k (insert key e m.entries) ≡ set_at m.entries key e k
    at_won w k = unfold later in ground (arith, eq_iff key k, lookup-insert key k e m.entries)

-- Pruning changes nothing while the entries fit.
prune_fits : (m : LwwMap) → length m.entries ≤ m.limit → prune m ≡ m
unfolding prune
prune_fits m h =
    ap (λ (es : Entries). record m { entries = es })
      (prune_loop_fits (length m.entries) m.limit m.entries h)

-- Two replicas that merge each other's entries agree at every key, where the merged entries fit the
-- limit of both and entries of one stamp are the same.
pub merge_converges :
    (a b : LwwMap)
    → IsMap a.entries
    → IsMap b.entries
    → length (merge_loop a.entries b.entries) ≤ a.limit
    → length (merge_loop b.entries a.entries) ≤ b.limit
    → ((k : String) → StampsAgree (lookup k a.entries) (lookup k b.entries))
    → (k : String) → lookup k (merge a b.entries).entries ≡ lookup k (merge b a.entries).entries
unfolding merge
merge_converges a b ha hb fa fb agree k =
    rw
      (
        prune_fits (record a { entries = merge_loop a.entries b.entries }) fa,
        prune_fits (record b { entries = merge_loop b.entries a.entries }) fb,
      )
      (lookup-merge_loop k a.entries b.entries hb
        ∙ later_comm (lookup k a.entries) (lookup k b.entries) (agree k)
        ∙ sym (lookup-merge_loop k b.entries a.entries ha))
