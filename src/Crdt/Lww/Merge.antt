-- ===== src/Crdt/Lww/Merge.antt =====
-- What `Merge` and `Set` compute, by key, before the pruning.
use ironwork.Prelude.{
  String, ◌≡◌, refl, ◌∙◌, ap, Option, none, some, [], ◌∷◌, Bool-cases, inl, inr, arith, str_eq,
  eq_iff, if◌then◌else◌,
}
use ironwork.Dict.{lookup, IsMap, lookup-insert, insert-IsMap}
use ironwork.Crdt.Lww.{LwwEntry, Entries, wins, loses, merge_entry, merge_loop}
use ironwork.Crdt.Lww.Order.{SameStamp, wins-asym, wins_trans, wins-co_trans, tie-SameStamp}

-- The later of two optional entries; the first where they tie.
unfoldable pub later : Option LwwEntry → Option LwwEntry → Option LwwEntry
later none b = b
later (some a) none = some a
later (some a) (some b) = if wins b a then some b else some a

lookup-merge_entry :
    (m : Entries) (key j : String) (e : LwwEntry)
    → lookup j (merge_entry m key e)
      ≡ (if str_eq key j then later (lookup j m) (some e) else lookup j m)
unfolding merge_entry later
lookup-merge_entry m key j e = ground (arith, lookup-insert key j e m, eq_iff key j)

pub lookup-merge_loop :
    (j : String) (m other : Entries)
    → IsMap other
    → lookup j (merge_loop m other) ≡ later (lookup j m) (lookup j other)
unfolding merge_loop lookup later
lookup-merge_loop j m [] h = ground arith
lookup-merge_loop j m ((k, e) ∷ other) h =
    lookup-merge_loop j (merge_entry m k e) other h.1
    ∙ unfold later in ground (arith, lookup-merge_entry m k j e, eq_iff k j, h.0)

merge_entry-IsMap :
    (m : Entries) (key : String) (e : LwwEntry) → IsMap m → IsMap (merge_entry m key e)
unfolding merge_entry
merge_entry-IsMap m key e h = elim (Bool-cases (loses e (lookup key m))) [
  | inl l ↦ rw l h
  | inr w ↦ rw w (insert-IsMap key e m h)
]

pub merge_loop-IsMap : (m other : Entries) → IsMap m → IsMap (merge_loop m other)
unfolding merge_loop
merge_loop-IsMap m [] h = h
merge_loop-IsMap m ((k, e) ∷ other) h =
    merge_loop-IsMap (merge_entry m k e) other (merge_entry-IsMap m k e h)

later_idem : (a : Option LwwEntry) → later a a ≡ a
unfolding later
later_idem none = refl
later_idem (some a) = ground arith

later_assoc : (a b c : Option LwwEntry) → later (later a b) c ≡ later a (later b c)
unfolding later
later_assoc none b c = refl
later_assoc (some a) none c = refl
later_assoc (some a) (some b) none = ground arith
later_assoc (some a) (some b) (some c) = ground (arith, wins_trans c b a, wins-co_trans c b a)

-- Two entries of one stamp are one entry.
abbrev pub StampsAgree : Option LwwEntry → Option LwwEntry → Type 0
StampsAgree (some a) (some b) = SameStamp a b → a ≡ b
StampsAgree _ _ = Unit

pub later_comm : (a b : Option LwwEntry) → StampsAgree a b → later a b ≡ later b a
unfolding later
later_comm none none h = refl
later_comm none (some b) h = refl
later_comm (some a) none h = refl
later_comm (some a) (some b) h = elim (Bool-cases (wins a b)) [
  | inl t ↦ ground (arith, wins-asym a b t)
  | inr f ↦ elim (Bool-cases (wins b a)) [
    | inl t ↦ ground arith
    | inr g ↦ rw (f, g) (ap some (h (tie-SameStamp a b f g)))
  ]
]
