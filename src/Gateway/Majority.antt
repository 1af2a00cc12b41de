-- ===== src/Gateway/Majority.antt =====
-- The leader that the gateway reports, whatever the order in which it visits the tally.
use ironwork.Prelude.{
  ℕ, ◌+◌, ◌/◌, ◌<◌, ◌≤◌, ◌≡◌, ◌≢◌, refl, ◌∙◌, String, Bool, true, false, not, ◌&&◌, Bool-cases, inl,
  inr, List, [], ◌∷◌, length, ltb, arith, str_eq, eq_iff, if◌then◌else◌,
}
use ironwork.Dict.{lookup, insert, IsMap, lookup-insert, insert-IsMap}
use ironwork.Leader.Status.{NodeStatus}
use ironwork.Gateway.{or_zero, votes, elected, majority_leader}

-- The node is reachable and names this leader.
abbrev pub names : String → NodeStatus → Bool
names id n = n.reachable && str_eq n.leader_id id

unfoldable pub count_for : String → List NodeStatus → ℕ
count_for id [] = 0
count_for id (n ∷ nodes) = (if names id n then 1 else 0) + count_for id nodes

unfoldable pub sum : List (String × ℕ) → ℕ
sum [] = 0
sum ((id, count) ∷ tally) = count + sum tally

sum-insert :
    (id : String) (tally : List (String × ℕ))
    → sum (insert id (or_zero (lookup id tally) + 1) tally) ≡ sum tally + 1
unfolding sum insert lookup
sum-insert id [] = omega arith
sum-insert id ((j, c) ∷ tally) = ground (arith, sum-insert id tally)

lookup-le-sum : (id : String) (tally : List (String × ℕ)) → or_zero (lookup id tally) ≤ sum tally
unfolding sum lookup
lookup-le-sum id [] = omega arith
lookup-le-sum id ((j, c) ∷ tally) = ground (arith, lookup-le-sum id tally)

votes-IsMap :
    (tally : List (String × ℕ)) (nodes : List NodeStatus) → IsMap tally → IsMap (votes tally nodes)
unfolding votes
votes-IsMap tally [] h = h
votes-IsMap tally (n ∷ nodes) h = elim (Bool-cases (n.reachable && not (str_eq n.leader_id ""))) [
  | inl y ↦ simp y (
      votes-IsMap (insert n.leader_id (or_zero (lookup n.leader_id tally) + 1) tally) nodes
        (insert-IsMap n.leader_id _ tally h))
  | inr x ↦ simp x (votes-IsMap tally nodes h)
]

sum-votes :
    (tally : List (String × ℕ)) (nodes : List NodeStatus)
    → sum (votes tally nodes) ≤ sum tally + length nodes
unfolding votes
sum-votes tally [] = omega arith
sum-votes tally (n ∷ nodes) = elim (Bool-cases (n.reachable && not (str_eq n.leader_id ""))) [
  | inl y ↦ simp y (
      omega (
        arith,
        sum-votes (insert n.leader_id (or_zero (lookup n.leader_id tally) + 1) tally) nodes,
        sum-insert n.leader_id tally,
      ))
  | inr x ↦ simp x (omega (arith, sum-votes tally nodes))
]

lookup-votes :
    (id : String) (tally : List (String × ℕ)) (nodes : List NodeStatus)
    → id ≢ ""
    → or_zero (lookup id (votes tally nodes)) ≡ or_zero (lookup id tally) + count_for id nodes
unfolding votes count_for
lookup-votes id tally [] ne = omega arith
lookup-votes id tally (n ∷ nodes) ne =
    elim (Bool-cases (n.reachable && not (str_eq n.leader_id ""))) [
      | inl y ↦
          let k = or_zero (lookup n.leader_id tally) + 1 in
          simp y (
            lookup-votes id (insert n.leader_id k tally) nodes ne
            ∙ ground (
              arith,
              lookup-insert n.leader_id id k tally,
              eq_iff n.leader_id id,
              eq_iff n.leader_id "",
            ))
      | inr x ↦ simp x (
          lookup-votes id tally nodes ne
          ∙ ground (arith, eq_iff n.leader_id id, eq_iff n.leader_id ""))
    ]

elected_none :
    (total c : ℕ) (leader : String) (tally : List (String × ℕ))
    → total / 2 < c
    → c + sum tally ≤ total
    → elected total leader tally ≡ leader
unfolding elected sum
elected_none total c leader [] big fits = refl
elected_none total c leader ((j, d) ∷ tally) big fits =
    let small : ltb (total / 2) d ≡ false = ground arith in
    simp small (elected_none total c leader tally big (omega arith))

elected_majority :
    (total : ℕ) (id leader : String) (tally : List (String × ℕ))
    → IsMap tally
    → total / 2 < or_zero (lookup id tally)
    → sum tally ≤ total
    → elected total leader tally ≡ id
unfolding elected sum lookup
elected_majority total id leader [] d big fits = absurd (omega arith)
elected_majority total id leader ((j, c) ∷ tally) d big fits = elim (Bool-cases (str_eq j id)) [
  | inl y ↦
      let big' : total / 2 < c = simp y at big in
      let won : ltb (total / 2) c ≡ true = ground arith in
      simp won (elected_none total c j tally big' fits ∙ (eq_iff j id).0 y)
  | inr n ↦
      elected_majority total id (if ltb (total / 2) c then j else leader) tally d.1 (simp n at big)
        (omega arith)
]

-- If more than half of the schedulers answer and name one leader, the gateway reports that leader.
pub majority_leader-majority :
    (id : String) (nodes : List NodeStatus)
    → id ≢ ""
    → length nodes / 2 < count_for id nodes
    → majority_leader nodes ≡ id
unfolding majority_leader sum lookup
majority_leader-majority id nodes ne big =
    elected_majority (length nodes) id "" (votes [] nodes) (votes-IsMap [] nodes tt)
      (omega (arith, lookup-votes id [] nodes ne, big)) (omega (arith, sum-votes [] nodes))
