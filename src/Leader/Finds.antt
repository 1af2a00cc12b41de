-- ===== src/Leader/Finds.antt =====
-- Whom the router asks, and whom it remembers.
use ironwork.Prelude.{
  ℕ, zero, suc, ◌+◌, ◌-◌, ◌%◌, ◌<◌, ◌≡◌, ◌≢◌, refl, sym, ◌∙◌, ap, true, false, Bool-cases, Option,
  none, some, inl, inr, ◌==◌, leb, arith,
}
use native.Mathlib.Nat.{mod-eq_of_lt, add-mod_right}
use ironwork.Rpc.{Code, ok, err}
use ironwork.Leader.{retryable, routed, Cluster, served, pass, rounds, route}

-- Member `l` serves every request.
abbrev Serves : {S A : Type 0} → Cluster S A → ℕ → Type 0
Serves {S} {A} c l = (s : S) → (a : A) × ((c.ask l s).0 ≡ ok a)

-- Every other member sends the router on.
abbrev Declines : {S A : Type 0} → Cluster S A → ℕ → Type 0
Declines {S} c l =
    (j : ℕ) → j ≢ l → (s : S) → (e : Code) × ((c.ask j s).0 ≡ err e) × (retryable e ≡ true)

module _ {S A : Type 0} (c : Cluster S A) (start members l : ℕ) where
  pass-reaches :
      Serves c l
      → Declines c l
      → (n i d : ℕ) (last : Option Code) (s : S) → d < n
      → (start + (i + d)) % members ≡ l
      → (a : A) × ((pass c start members n i last s).0 ≡ served l a)
  unfolding pass
  pass-reaches sv dc zero i d last s lt at = absurd (omega arith)
  pass-reaches sv dc (suc n) i d last s lt at = elim (Bool-cases ((start + i) % members == l)) [
    | inl y ↦
        let e : (start + i) % members ≡ l = ground arith in
        let (a, p) = sv s in (a, rw e (simp p refl))
    | inr x ↦
        let (e, p, q) = dc ((start + i) % members) (ground arith) s in
        let (a, r) =
          pass-reaches sv dc n (suc i) (d - 1) (some e) (c.ask ((start + i) % members) s).1
            (omega (arith, pos d x at)) (ap (λ k. (start + k) % members) (later d x at) ∙ at) in
        (a, simp (p, q) r)
  ]
    where
      same : i + 0 ≡ i
      same = omega arith

      pos : (d : ℕ) → (start + i) % members == l ≡ false → (start + (i + d)) % members ≡ l → 0 < d
      pos zero x at = absurd (ground (arith, sym (ap (λ k. (start + k) % members) same) ∙ at))
      pos (suc d) x at = omega arith

      later :
          (d : ℕ)
          → (start + i) % members == l ≡ false
          → (start + (i + d)) % members ≡ l
          → suc i + (d - 1) ≡ i + d
      later d x at = omega (arith, pos d x at)

  pub offset :
      start < members → l < members → (d : ℕ) × (d < members) × ((start + (0 + d)) % members ≡ l)
  offset hs hl = elim (Bool-cases (leb start l)) [
    | inl y ↦ (l - start, ground arith, ap (λ k. k % members) (eq y) ∙ mod-eq_of_lt hl)
    | inr n ↦ (
      l + members - start,
      ground arith,
      ap (λ k. k % members) (eq' n) ∙ add-mod_right l members ∙ mod-eq_of_lt hl,
    )
  ]
    where
      eq : leb start l ≡ true → start + (0 + (l - start)) ≡ l
      eq y = ground arith

      eq' : leb start l ≡ false → start + (0 + (l + members - start)) ≡ l + members
      eq' n = ground arith

  -- If a member serves and every other one answers with an error that sends the router on, then the
  -- request is served by it, whichever member was cached, and it is the cached one afterwards.
  pub route_reaches :
      start < members
      → l < members
      → Serves c l
      → Declines c l
      → (s : S) → (a : A) × ((route c start members s).0 ≡ (routed a, l))
  unfolding rounds
  route_reaches hs hl sv dc s =
      let (d, lt, at) = offset hs hl in
      let (a, p) = pass-reaches sv dc members 0 d none s lt at in (a, rw p refl)
