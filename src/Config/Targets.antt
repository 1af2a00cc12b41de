-- ===== src/Config/Targets.antt =====
-- Lists of peers, as text and as read.
use Prim.Native.Char.{Char, code}
use Prim.Native.String.{[] as nil_str, ◌∷◌ as cons_str, ◌++◌ as append_str}
use text.Mathlib.TextLemmas.{nil-append, cons-append, cons≢nil}
use ironwork.Prelude.{
  ◌≡◌, ◌≢◌, refl, ap, String, false, some, [], ◌∷◌, arith, str_eq, subst, sym, ◌∙◌, map, ◌++◌, All,
  none, Bool-cases, inl, inr, eq_iff, List,
}
use ironwork.Config.{
  is_space, split, trim_left, trim_right, cut, Targets, add_trimmed, parse_pairs, parse_targets,
  trim_space,
}
use ironwork.Dict.{lookup, insert, IsMap}
use mathlib.Core.List.{append_assoc, append-nil}

-- No character is a space or a comma.
abbrev pub IsWord : String → Type 0
IsWord nil_str = Unit
IsWord (cons_str c s) = (is_space (code c) ≡ false) × (code c ≢ b',') × IsWord s

abbrev pub NoEquals : String → Type 0
NoEquals nil_str = Unit
NoEquals (cons_str c s) = (code c ≢ b'=') × NoEquals s

-- A target that can be written.
pub record IsTarget (t : String × String) : Type 0 where
  pub name : IsWord t.0
  pub no_equals : NoEquals t.0
  pub named : str_eq t.0 "" ≡ false
  pub addr : IsWord t.1
  pub addressed : str_eq t.1 "" ≡ false

abbrev pub print_pair : String × String → String
print_pair (name, addr) = append_str name (cons_str "=" addr)

unfoldable pub print_from : String × String → Targets → String
print_from t [] = print_pair t
print_from t (u ∷ ts) = append_str (print_pair t) (cons_str "," (print_from u ts))

unfoldable pub print_targets : Targets → String
print_targets [] = ""
print_targets (t ∷ ts) = print_from t ts

IsWord-append : (p q : String) → IsWord p → IsWord q → IsWord (append_str p q)
IsWord-append nil_str q h k = rw nil-append k
IsWord-append (cons_str c p) q h k = rw cons-append (h.0, h.1, IsWord-append p q h.2 k)

IsWord-print_pair : (t : String × String) → IsTarget t → IsWord (print_pair t)
IsWord-print_pair t h = IsWord-append t.0 (cons_str "=" t.1) h.name (refl, (λ e. cc (e)), h.addr)

split_word : (p : String) → IsWord p → split p ≡ p ∷ []
unfolding split
split_word nil_str h = refl
split_word (cons_str c p) h = ground (arith, split_word p h.2, h.1)

split-append :
    (p rest : String) → IsWord p → split (append_str p (cons_str "," rest)) ≡ p ∷ split rest
unfolding split
split-append nil_str rest h = rw nil-append refl
split-append (cons_str c p) rest h = rw cons-append (ground (arith, split-append p rest h.2, h.1))

trim_left_word : (p : String) → IsWord p → trim_left p ≡ p
unfolding trim_left
trim_left_word nil_str h = refl
trim_left_word (cons_str c p) h = rw h.0 refl

trim_right_word : (p : String) → IsWord p → trim_right p ≡ p
unfolding trim_right
trim_right_word nil_str h = refl
trim_right_word (cons_str c p) h = rw h.0 (ap (cons_str c) (trim_right_word p h.2))

pub cut_pair :
    (name addr : String)
    → NoEquals name
    → cut (append_str name (cons_str "=" addr)) ≡ some (name, addr)
unfolding cut
cut_pair nil_str addr h = rw nil-append refl
cut_pair (cons_str c name) addr h = rw cons-append (ground (arith, cut_pair name addr h.1, h.0))

trim_space_word : (p : String) → IsWord p → trim_space p ≡ p
trim_space_word p h = ap trim_right (trim_left_word p h) ∙ trim_right_word p h

print_pair-ne : (t : String × String) → IsTarget t → str_eq (print_pair t) "" ≡ false
print_pair-ne (name, addr) h = elim (Bool-cases (str_eq (print_pair (name, addr)) "")) [
  | inl y ↦ absurd (cons≢nil (sym (shape name) ∙ (eq_iff (print_pair (name, addr)) "").0 y))
  | inr n ↦ n
]
  where
    first : String → Char
    first nil_str = "="
    first (cons_str c p) = c

    later : String → String
    later nil_str = addr
    later (cons_str c p) = append_str p (cons_str "=" addr)

    shape :
        (name : String) → append_str name (cons_str "=" addr) ≡ cons_str (first name) (later name)
    shape nil_str = nil-append _
    shape (cons_str c p) = cons-append c p _

add_printed :
    (targets : Targets) (t : String × String)
    → IsTarget t
    → add_trimmed targets (trim_space (print_pair t)) ≡ some (insert t.0 t.1 targets)
unfolding add_trimmed
add_printed targets t h =
    rw
      (
        trim_space_word (print_pair t) (IsWord-print_pair t h),
        print_pair-ne t h,
        cut_pair t.0 t.1 h.no_equals,
        h.named,
        h.addressed,
      )
      refl

module _ {V : Type 0} where
  lookup_hit : (k : String) (v : V) (m n : List (String × V)) → lookup k (m ++ (k, v) ∷ n) ≢ none
  unfolding lookup
  lookup_hit k v [] n e = ground (arith, e, eq_iff k k)
  lookup_hit k v ((j, w) ∷ m) n e = ground (arith, e, lookup_hit k v m n)

  insert_last :
      (k : String) (v : V) (m n : List (String × V))
      → IsMap (m ++ (k, v) ∷ n)
      → insert k v m ≡ m ++ (k, v) ∷ []
  unfolding insert lookup
  insert_last k v [] n h = refl
  insert_last k v ((j, w) ∷ m) n h = elim (Bool-cases (str_eq j k)) [
    | inl y ↦
        absurd (
          lookup_hit k v m n
            (subst (λ i. lookup i (m ++ (k, v) ∷ n) ≡ none) ((eq_iff j k).0 y) h.0))
    | inr x ↦ rw x (ap (◌∷◌ (j, w)) (insert_last k v m n h.1))
  ]

parse_printed :
    (done ts : Targets)
    → All IsTarget ts
    → IsMap (done ++ ts)
    → parse_pairs done (map print_pair ts) ≡ some (done ++ ts)
unfolding parse_pairs
parse_printed done [] h d = ap some (sym (append-nil done))
parse_printed done (t ∷ ts) h d =
    let e : insert t.0 t.1 done ≡ done ++ t ∷ [] = insert_last t.0 t.1 done ts d in
    let shift : (done ++ t ∷ []) ++ ts ≡ done ++ t ∷ ts = append_assoc done (t ∷ []) ts in
    rw (add_printed done t h.0, e)
      (parse_printed (done ++ t ∷ []) ts h.1 (subst IsMap (sym shift) d) ∙ ap some shift)

split_printed :
    (t : String × String) (ts : Targets)
    → All IsTarget (t ∷ ts)
    → split (print_from t ts) ≡ map print_pair (t ∷ ts)
unfolding print_from
split_printed t [] h = split_word (print_pair t) (IsWord-print_pair t h.0)
split_printed t (u ∷ ts) h =
    split-append (print_pair t) (print_from u ts) (IsWord-print_pair t h.0)
    ∙ ap (◌∷◌ (print_pair t)) (split_printed u ts h.1)

-- Peers with different names, no part of which is empty or holds a space or a comma, and no name a
-- "=", are read back from the list that is written of them.
pub parse_targets-print :
    (ts : Targets) → All IsTarget ts → IsMap ts → parse_targets (print_targets ts) ≡ some ts
unfolding parse_targets print_targets
parse_targets-print [] h d = unfold split parse_pairs add_trimmed trim_left trim_right in refl
parse_targets-print (t ∷ ts) h d = rw (split_printed t ts h) (parse_printed [] (t ∷ ts) h d)
