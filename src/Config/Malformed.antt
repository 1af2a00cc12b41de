-- ===== src/Config/Malformed.antt =====
-- Which pairs of a list of peers are malformed.
use Prim.Native.Char.{code}
use Prim.Native.String.{[] as nil_str, ◌∷◌ as cons_str, ◌++◌ as append_str}
use text.Mathlib.TextEquality.{Char-path}
use text.Mathlib.TextLemmas.{nil-append, cons-append}
use ironwork.Prelude.{
  ◌==◌, ◌≡◌, ◌≢◌, refl, ap, String, some, [], ◌∷◌, arith, str_eq, ◌∙◌, ◌↔◌, Any, none, Option-cases,
  Bool-cases, inl, inr, eq_iff, List,
}
use ironwork.Config.{
  split, cut, Targets, checked, add_trimmed, parse_pairs, parse_targets, trim_space,
}
use ironwork.Dict.{insert}
use ironwork.Config.Targets.{NoEquals, cut_pair}

-- A name and an address, of which none is empty, with a "=" between them; the name has none.
abbrev pub IsPair : String → Type 0
IsPair pair =
    (name addr : String) × (pair ≡ append_str name (cons_str "=" addr))
    × NoEquals name
    × (name ≢ "")
    × (addr ≢ "")

-- What is neither blank nor a pair, blanks around it aside.
abbrev pub IsMalformed : String → Type 0
IsMalformed pair = (trim_space pair ≢ "") × ¬ IsPair (trim_space pair)

cut-shape :
    (pair name addr : String)
    → cut pair ≡ some (name, addr)
    → (pair ≡ append_str name (cons_str "=" addr)) × NoEquals name
unfolding cut
cut-shape nil_str name addr e = absurd (cc e)
cut-shape (cons_str c s) name addr e = elim (Bool-cases (code c == b'=')) [
  | inl y ↦
      let q : some (nil_str, s) ≡ some (name, addr) = simp y at e in
      let same : c ≡ "=" = Char-path c "=" (ground arith) in
      let n : nil_str ≡ name = cc q in
      let a : s ≡ addr = cc q in rw (← n, ← a, nil-append, same) (refl, tt)
  | inr x ↦ elim (Option-cases (cut s)) [
    | inl z ↦ absurd (cc (simp (x, z) at e))
    | inr ((m, b), z) ↦
        let q : some (cons_str c m, b) ≡ some (name, addr) = simp (x, z) at e in
        let r = cut-shape s m b z in
        let wrong : code c ≢ b'=' = ground (arith, x) in
        let n : cons_str c m ≡ name = cc q in
        let a : b ≡ addr = cc q in rw (← n, ← a, cons-append) (ap (cons_str c) r.0, (wrong, r.1))
  ]
]

checked_iff : (pair : String) → (checked (cut pair) ≡ none) ↔ ¬ IsPair pair
checked_iff pair = (
  (λ e (name, addr, q, ne, n, a).
      let f : cut pair ≡ some (name, addr) = ap cut q ∙ cut_pair name addr ne in
      absurd (ground (arith, e, f, n, a, eq_iff name "", eq_iff addr ""))),
  (λ no. elim (Option-cases (cut pair)) [
    | inl z ↦ rw z refl
    | inr ((name, addr), z) ↦
        let (q, ne) = cut-shape pair name addr z in
        elim (Bool-cases (str_eq name "")) [
          | inl y ↦ rw (z, y) refl
          | inr x ↦ elim (Bool-cases (str_eq addr "")) [
            | inl y ↦ rw (z, x, y) refl
            | inr w ↦ absurd (
                no (
                  name,
                  addr,
                  q,
                  ne,
                  ground (arith, x, eq_iff name ""),
                  ground (arith, w, eq_iff addr ""),
                ))
          ]
        ]
  ]),
)

refused :
    (targets : Targets) (pairs : List String)
    → (parse_pairs targets pairs ≡ none) ↔ Any IsMalformed pairs
unfolding parse_pairs add_trimmed
refused targets [] = (λ e. cc e, λ h. elim h [ ])
refused targets (pair ∷ pairs) = elim (Bool-cases (str_eq (trim_space pair) "")) [
  | inl y ↦
      let ih = refused targets pairs in
      simp y (
        (λ q. inr (ih.0 q)),
        (λ h. elim h [
          | inl (b, c) ↦ absurd (b ((eq_iff (trim_space pair) "").0 y))
          | inr a ↦ ih.1 a
        ]),
      )
  | inr n ↦
      let bad = checked_iff (trim_space pair) in
      let blank : trim_space pair ≢ "" = ground (arith, n, eq_iff (trim_space pair) "") in
      elim (Option-cases (checked (cut (trim_space pair)))) [
        | inl e ↦ simp (n, e) (λ q. inl (blank, bad.0 e), λ q. refl)
        | inr (t, e) ↦
            let ih = refused (insert t.0 t.1 targets) pairs in
            simp (n, e)
              (
                (λ q. inr (ih.0 q)),
                (λ h. elim h [ inl (b, c) ↦ absurd (cc (e, bad.1 c)) | inr a ↦ ih.1 a ]),
              )
      ]
]

-- A list of peers is refused exactly when one of its pairs is malformed.
pub parse_targets_refuses : (s : String) → (parse_targets s ≡ none) ↔ Any IsMalformed (split s)
unfolding parse_targets
parse_targets_refuses s = refused [] (split s)
