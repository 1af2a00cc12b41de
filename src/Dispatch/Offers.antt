-- ===== src/Dispatch/Offers.antt =====
-- Whom a job is offered to, by the turn.
use native.Mathlib.Nat.{mod-eq_of_lt, mod-lt, add-mod_right, mod-add-mod}
use ironwork.Prelude.{
  ℕ, zero, suc, ◌+◌, ◌-◌, ◌%◌, ◌^◌, ◌<◌, ◌≤◌, ◌≡◌, refl, sym, ap, ◌∙◌, String, Bool-cases, leb,
  Option, none, some, inl, inr, List, [], ◌∷◌, Any, get_elem?, length, arith,
}
use ironwork.Rpc.{Result, ok, err}
use ironwork.Dispatch.{Dispatcher, cons_found, rotate, eligible, taken, offer, dispatch}

-- The worker takes whatever job it is offered.
abbrev pub Accepts : {S : Type 0} → (String → S → Result String × S) → String → Type 0
Accepts {S} execute_job w = (s : S) → (name : String) × ((execute_job w s).0 ≡ ok name)

module _ (P : String → Type 0) where
  position :
      (l : List String)
      → Any P l
      → (k : ℕ) × (w : String) × (k < length l) × (get_elem? l k ≡ some w) × P w
  position [] h = elim h [ ]
  position (w ∷ l) (inl p) = (0, w, omega arith, refl, p)
  position (w ∷ l) (inr q) =
      let (k, v, lt, e, p) = position l q in (suc k, v, omega (arith, lt), e, p)

  cons_found-Any : (o : Option String) (l : List String) → Any P l → Any P (cons_found o l)
  cons_found-Any none l h = h
  cons_found-Any (some v) l h = inr h

  module _ (l : List String) (start k : ℕ) (w : String) (found : get_elem? l k ≡ some w)
      (p : P w) where
    rotate-Any :
        (n i d : ℕ) → d < n → (start + (i + d)) % 2 ^ 64 % length l ≡ k → Any P (rotate l start i n)
    unfolding rotate
    rotate-Any zero i d lt at = absurd (omega arith)
    rotate-Any (suc n) i zero lt at =
        let e : (start + i) % 2 ^ 64 % length l ≡ k =
          ap (λ j. (start + j) % 2 ^ 64 % length l) (omega arith) ∙ at in
        rw (e, found) (inl p)
    rotate-Any (suc n) i (suc d) lt at =
        cons_found-Any (get_elem? l ((start + i) % 2 ^ 64 % length l)) _ (
          rotate-Any n (suc i) d (omega arith)
            (ap (λ j. (start + j) % 2 ^ 64 % length l) (omega arith) ∙ at))

turn :
    (start n k : ℕ)
    → start + n ≤ 2 ^ 64
    → k < n
    → (d : ℕ) × (d < n) × ((start + (0 + d)) % 2 ^ 64 % n ≡ k)
turn start n k fits lt = elim (Bool-cases (leb r k)) [
  | inl y ↦
      let eq : r + (k - r) ≡ k = ground arith in
      let small : k - r < n = ground arith in
      (k - r, small, no_wrap (k - r) small ∙ ap (λ j. j % n) eq ∙ mod-eq_of_lt lt)
  | inr x ↦
      let eq : r + (k + n - r) ≡ k + n = ground arith in
      let small : k + n - r < n = ground arith in
      (
        k + n - r,
        small,
        no_wrap (k + n - r) small ∙ ap (λ j. j % n) eq ∙ add-mod_right k n ∙ mod-eq_of_lt lt,
      )
]
  where
    r : ℕ
    r = start % n

    r-lt : r < n
    r-lt = mod-lt start (omega arith)

    no_wrap : (d : ℕ) → d < n → (start + (0 + d)) % 2 ^ 64 % n ≡ (r + d) % n
    no_wrap d small =
        ap (λ j. j % n) (mod-eq_of_lt (fit d small) ∙ plain d) ∙ sym (mod-add-mod start n d)
      where
        fit : (d : ℕ) → d < n → start + (0 + d) < 2 ^ 64
        fit d small = omega arith

        plain : (d : ℕ) → start + (0 + d) ≡ start + d
        plain d = omega arith

module _ {S : Type 0} (execute_job : String → S → Result String × S) where
  taken_places :
      (r : Result String) (s : S) (rest : Option String × S)
      → (name : String) × (rest.0 ≡ some name)
      → (name : String) × ((taken execute_job r s rest).0 ≡ some name)
  taken_places (ok name) s rest h = (name, refl)
  taken_places (err e) s rest h = h

  pub offer_places :
      (l : List String) (s : S)
      → Any (Accepts execute_job) l
      → (name : String) × ((offer execute_job l s).0 ≡ some name)
  unfolding offer
  offer_places [] s h = elim h [ ]
  offer_places (w ∷ l) s (inl a) = let (name, e) = a s in (name, rw e refl)
  offer_places (w ∷ l) s (inr h) =
      taken_places (execute_job w s).0 _ _ (offer_places l (execute_job w s).1 h)

  -- Without a candidate provider a job is placed whenever some configured worker takes jobs, wherever
  -- the turn stands, so long as the 64-bit turn does not wrap within this round.
  pub dispatch_places :
      {R : Type 0} (r : R) (d : Dispatcher R) (s : S)
      → d.candidates ≡ none
      → d.next + length d.workers ≤ 2 ^ 64
      → Any (Accepts execute_job) d.workers
      → (name : String) × ((dispatch execute_job r d s).0.0 ≡ some name)
  unfolding dispatch eligible
  dispatch_places r d s e fits h =
      let (k, w, lt, found, a) = position (Accepts execute_job) d.workers h in
      let (j, small, at) = turn d.next (length d.workers) k fits lt in
      let all =
        rotate-Any (Accepts execute_job) d.workers d.next k w found a (length d.workers) 0 j small
          at in
      let (name, p) = offer_places (rotate d.workers d.next 0 (length d.workers)) s all in
      (name, rw e p)
