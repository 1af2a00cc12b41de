-- ===== src/Raftnode/Bootstrap.antt =====
-- The configuration that a member proposes when it bootstraps the group.
use mathlib.Core.Path.{ap₂}
use ironwork.Prelude.{
  ◌≡◌, ◌≢◌, refl, sym, ap, ◌∙◌, inl, inr, String, true, lt_str, [], ◌∷◌, All, Any, All-pick,
  All-imp, All-self, lt_str_irrefl, Bool-cases, none, some, str_eq, eq_iff, lt_str_trans,
  lt_str-total, arith,
}
use ironwork.Dict.{lookup, IsMap, lookup_of_Any}
use ironwork.Sort.{sort, place, place-All, sort-Any, sort-All}
use ironwork.Raftnode.{by_id, servers_of, Servers}

-- The servers stand in the order of their ids, which are different.
abbrev IsRanked : Servers → Type 0
IsRanked [] = Unit
IsRanked (s ∷ l) = All (λ (u : String × String). lt_str s.0 u.0 ≡ true) l × IsRanked l

abbrev Has : String × String → Servers → Type 0
Has s l = Any (λ u. s ≡ u) l

-- Two ranked lists of the same servers are equal.
ranked_unique :
    (l m : Servers)
    → IsRanked l
    → IsRanked m
    → ((s : String × String) → Has s l → Has s m)
    → ((s : String × String) → Has s m → Has s l)
    → l ≡ m
ranked_unique [] [] h k f g = refl
ranked_unique [] (u ∷ m) h k f g = elim (g u (inl refl)) [ ]
ranked_unique (s ∷ l) [] h k f g = elim (f s (inl refl)) [ ]
ranked_unique (s ∷ l) (u ∷ m) h k f g = ap₂ (◌∷◌) heads (ranked_unique l m h.1 k.1 down up)
  where
    heads : s ≡ u
    heads = elim (f s (inl refl)) [
      | inl e ↦ e
      | inr q ↦ elim (g u (inl refl)) [
        | inl e ↦ sym e
        | inr r ↦ absurd (
            ground (
              arith,
              All-pick _ s m k.0 q,
              All-pick _ u l h.0 r,
              lt_str_trans s.0 u.0 s.0,
              lt_str_irrefl s.0,
            ))
      ]
    ]

    down : (v : String × String) → Has v l → Has v m
    down v q = elim (f v (inr q)) [
      | inl e ↦ absurd (
          ground (
            arith,
            All-pick _ v l h.0 q,
            ap (λ (x : String × String). x.0) (e ∙ sym heads),
            lt_str_irrefl s.0,
          ))
      | inr r ↦ r
    ]

    up : (v : String × String) → Has v m → Has v l
    up v q = elim (g v (inr q)) [
      | inl e ↦ absurd (
          ground (
            arith,
            All-pick _ v m k.0 q,
            ap (λ (x : String × String). x.0) (e ∙ heads),
            lt_str_irrefl u.0,
          ))
      | inr r ↦ r
    ]

place-IsRanked :
    (s : String × String) (l : Servers)
    → All (λ (u : String × String). s.0 ≢ u.0) l
    → IsRanked l
    → IsRanked (place by_id s l)
unfolding place
place-IsRanked s [] n h = (tt, tt)
place-IsRanked s (u ∷ l) n h = elim (Bool-cases (lt_str u.0 s.0)) [
  | inl y ↦ rw y (place-All _ by_id s l y h.0, place-IsRanked s l n.1 h.1)
  | inr x ↦
      let lt : lt_str s.0 u.0 ≡ true = elim (lt_str-total s.0 u.0) [
        | inl a ↦ a
        | inr (inl e) ↦ absurd (n.0 e)
        | inr (inr b) ↦ absurd (cc (b, x))
      ] in
      rw x ((lt, All-imp _ _ l (λ v a. lt_str_trans s.0 u.0 v.0 lt a) h.0), h)
]

absent-All :
    (k : String) (m : Servers) → lookup k m ≡ none → All (λ (u : String × String). k ≢ u.0) m
unfolding lookup
absent-All k [] e = tt
absent-All k ((j, w) ∷ m) e = (ground (arith, e, eq_iff j k), absent-All k m (ground (arith, e)))

sort-IsRanked : (m : Servers) → IsMap m → IsRanked (sort by_id m)
unfolding sort
sort-IsRanked [] d = tt
sort-IsRanked (s ∷ m) d =
    place-IsRanked s (sort by_id m) (sort-All _ by_id m (absent-All s.0 m d.0))
      (sort-IsRanked m d.1)

lookup-Has : (k v : String) (m : Servers) → lookup k m ≡ some v → Has (k, v) m
unfolding lookup
lookup-Has k v [] e = absurd (cc e)
lookup-Has k v ((j, w) ∷ m) e = elim (Bool-cases (str_eq j k)) [
  | inl y ↦ inl (ground (arith, e, y, eq_iff j k))
  | inr n ↦ inr (lookup-Has k v m (ground (arith, e, n)))
]

moved :
    (p q : Servers)
    → IsMap p
    → ((k : String) → lookup k p ≡ lookup k q)
    → (s : String × String) → Has s (sort by_id p)
    → Has s (sort by_id q)
moved p q d e s h =
    let old = All-pick (λ v. Has v p) s (sort by_id p) (sort-All _ by_id p (All-self p)) h in
    sort-Any _ by_id q (lookup-Has s.0 s.1 q (sym (e s.0) ∙ lookup_of_Any s p d old))

-- Members whose peers have the same addresses propose the same configuration, in whatever order each
-- goes through its map.
pub servers_of-agree :
    (p q : Servers)
    → IsMap p
    → IsMap q
    → ((k : String) → lookup k p ≡ lookup k q)
    → servers_of p ≡ servers_of q
unfolding servers_of
servers_of-agree p q d d' e =
    ranked_unique (sort by_id p) (sort by_id q) (sort-IsRanked p d) (sort-IsRanked q d')
      (moved p q d e) (moved q p d' (λ k. sym (e k)))
