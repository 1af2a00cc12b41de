-- ===== src/Leader/Exact.antt =====
-- What the router returns is what the leader answers, when the other members do nothing but send it
-- on.
use ironwork.Prelude.{
  ℕ, zero, suc, ◌+◌, ◌%◌, ◌<◌, ◌≡◌, ◌≢◌, refl, ap, ◌∙◌, true, Bool-cases, Option, inl, inr, ◌==◌,
  arith, none, some,
}
use ironwork.Rpc.{Code, ok, err}
use ironwork.Leader.{retryable, routed, Cluster, served, pass, rounds, route}
use ironwork.Leader.Finds.{offset}

-- Every other member sends the router on, and changes nothing.
abbrev pub SendsOn : {S A : Type 0} → Cluster S A → ℕ → Type 0
SendsOn {S} c l =
    (j : ℕ) → j ≢ l → (s : S) → (e : Code) × (c.ask j s ≡ (err e, s)) × (retryable e ≡ true)

module _ {S A : Type 0} (c : Cluster S A) (start members l : ℕ) (sends_on : SendsOn c l) (a : A)
    (s s' : S) (answers : c.ask l s ≡ (ok a, s')) where
  pass-exact :
      (n i d : ℕ) (last : Option Code)
      → d < n
      → (start + (i + d)) % members ≡ l
      → pass c start members n i last s ≡ (served l a, s')
  unfolding pass
  pass-exact zero i d last lt at = absurd (omega arith)
  pass-exact (suc n) i zero last lt at =
      let e : (start + i) % members ≡ l = ap (λ k. (start + k) % members) (omega arith) ∙ at in
      rw (e, answers) refl
  pass-exact (suc n) i (suc d) last lt at = elim (Bool-cases ((start + i) % members == l)) [
    | inl y ↦ let e : (start + i) % members ≡ l = ground arith in rw (e, answers) refl
    | inr x ↦
        let (e, p, q) = sends_on ((start + i) % members) (ground arith) s in
        rw (p, q)
          (pass-exact n (suc i) d (some e) (omega arith)
            (ap (λ k. (start + k) % members) (omega arith) ∙ at))
  ]

  -- The leader's answer is the router's, and the leader is cached.
  pub route-exact : start < members → l < members → route c start members s ≡ ((routed a, l), s')
  unfolding rounds
  route-exact hs hl =
      let (d, lt, at) = offset c start members l hs hl in
      rw (pass-exact members 0 d none lt at) refl
