-- ===== src/Crdt/Lww.antt =====
-- `LWWEntry`, `wins` and `LWWMap` of internal/crdt/crdt.go. `m` is mutated in place by the source;
-- a method here returns the new map.
pub mod Order
pub mod Merge
pub mod Prune
pub mod Window
use ironwork.Prelude.{
  ℕ, zero, suc, String, ℤ, ltb_ℤ, eqb_ℤ, lt_str, Bool, Option, none, some, List, [], ◌∷◌, ltb,
  length, not, ◌&&◌, if◌then◌else◌,
}
use ironwork.Dict.{lookup, insert, delete, copy}

pub record LwwEntry : Type 0 where
  pub status : String
  pub worker : String
  pub ts_unix_ms : ℤ  -- int64
  pub replica : String

-- Whether `a` should replace `b`.
unfoldable pub wins : LwwEntry → LwwEntry → Bool
wins a b =
    if not (eqb_ℤ a.ts_unix_ms b.ts_unix_ms)
    then ltb_ℤ b.ts_unix_ms a.ts_unix_ms
    else lt_str b.replica a.replica

abbrev pub Entries : Type 0
Entries = List (String × LwwEntry)

pub record LwwMap : Type 0 where
  pub entries : Entries
  pub limit : ℕ

-- NewLWWMap
abbrev pub new : ℕ → LwwMap
new limit = record { entries = []; limit = limit }

-- The loop of `prune` over the entries; `none` is `first`.
unfoldable pub find_oldest : Option (String × LwwEntry) → Entries → Option (String × LwwEntry)
find_oldest oldest [] = oldest
find_oldest none ((k, e) ∷ m) = find_oldest (some (k, e)) m
find_oldest (some (oldest_key, oldest)) ((k, e) ∷ m) =
    find_oldest (if wins oldest e then some (k, e) else some (oldest_key, oldest)) m

abbrev delete_oldest : Option (String × LwwEntry) → Entries → Entries
delete_oldest none m = delete "" m
delete_oldest (some (oldest_key, oldest)) m = delete oldest_key m

-- `for len(m.entries) > m.limit`. Each round deletes one entry, so the number of entries is fuel
-- enough.
unfoldable pub prune_loop : ℕ → ℕ → Entries → Entries
prune_loop zero limit m = m
prune_loop (suc fuel) limit m =
    let rest = prune_loop fuel limit (delete_oldest (find_oldest none m) m) in
    if ltb limit (length m) then rest else m

unfoldable pub prune : LwwMap → LwwMap
prune m = record m { entries = prune_loop (length m.entries) m.limit m.entries }

-- `cur, ok := m.entries[key]; ok && !wins(e, cur)`
abbrev pub loses : LwwEntry → Option LwwEntry → Bool
loses e none = Bool.false
loses e (some cur) = not (wins e cur)

-- (*LWWMap).Set
unfoldable pub set : LwwMap → String → LwwEntry → LwwMap
set m key e =
    if loses e (lookup key m.entries)
    then m
    else prune (record m { entries = insert key e m.entries })

-- One round of the loop of `Merge`.
unfoldable pub merge_entry : Entries → String → LwwEntry → Entries
merge_entry m key e = if loses e (lookup key m) then m else insert key e m

unfoldable pub merge_loop : Entries → Entries → Entries
merge_loop m [] = m
merge_loop m ((key, e) ∷ other) = merge_loop (merge_entry m key e) other

-- (*LWWMap).Merge
unfoldable pub merge : LwwMap → Entries → LwwMap
merge m other = prune (record m { entries = merge_loop m.entries other })

-- (*LWWMap).Entries
unfoldable pub entries_of : LwwMap → Entries
entries_of m = copy m.entries
