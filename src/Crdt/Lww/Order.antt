-- ===== src/Crdt/Lww/Order.antt =====
-- The order `wins` on entries, and the stamps by which entries tie.
use ironwork.Prelude.{
  ◌≡◌, ◌∙◌, Bool-cases, ℤ, ltb_ℤ, eqb_ℤ, true, false, inl, inr, arith, lt_str_irrefl, lt_str_trans,
  lt_str-total,
}
use ironwork.Crdt.Lww.{LwwEntry, wins}

ltb_ℤ-trans : (a b c : ℤ) → ltb_ℤ a b ≡ true → ltb_ℤ b c ≡ true → ltb_ℤ a c ≡ true
ltb_ℤ-trans a b c p q = ground arith

eqb_ℤ-eq : (a b : ℤ) → eqb_ℤ a b ≡ true → a ≡ b
eqb_ℤ-eq a b h = ground arith

pub wins_irrefl : (a : LwwEntry) → wins a a ≡ false
unfolding wins
wins_irrefl a = ground (arith, lt_str_irrefl a.replica)

pub wins_trans : (a b c : LwwEntry) → wins a b ≡ true → wins b c ≡ true → wins a c ≡ true
unfolding wins
wins_trans a b c p q = ground (arith, lt_str_trans c.replica b.replica a.replica)

pub wins-asym : (a b : LwwEntry) → wins a b ≡ true → wins b a ≡ false
wins-asym a b p = ground (arith, wins_trans a b a p, wins_irrefl a)

-- The stamp of an entry: when and by which replica it was observed.
abbrev pub SameStamp : LwwEntry → LwwEntry → Type 0
SameStamp a b = (a.ts_unix_ms ≡ b.ts_unix_ms) × (a.replica ≡ b.replica)

pub tie-SameStamp : (a b : LwwEntry) → wins a b ≡ false → wins b a ≡ false → SameStamp a b
unfolding wins
tie-SameStamp a b p q = elim (lt_str-total a.replica b.replica) [
  | inl l ↦ ground arith
  | inr (inl e) ↦ ground arith
  | inr (inr l) ↦ ground arith
]

wins-cong : (a a' b : LwwEntry) → SameStamp a a' → wins a b ≡ wins a' b
unfolding wins
wins-cong a a' b h = ground arith

pub wins-co_trans : (a b c : LwwEntry) → wins a b ≡ false → wins b c ≡ false → wins a c ≡ false
wins-co_trans a b c p q = elim (Bool-cases (wins b a)) [
  | inl t ↦ ground (arith, wins_trans b a c t)
  | inr f ↦ wins-cong a b c (tie-SameStamp a b p f) ∙ q
]
