-- ===== src/Raftnode/Numbers.antt =====
-- The numbers in the library's statistics, which the node reads by `strconv.ParseUint`.
use Prim.Native.Char.{code}
use Prim.Native.String.{[] as nil_str, ◌∷◌ as cons_str}
use ironwork.Prelude.{
  ℕ, ◌+◌, ◌-◌, ◌*◌, ◌^◌, String, Bool, ◌&&◌, leb, ltb, if◌then◌else◌, true, false, ◌≡◌, refl, ◌<◌,
  ◌≤◌, Bool-cases, inl, inr, arith,
}

abbrev pub is_digit : ℕ → Bool
is_digit c = leb b'0' c && leb c b'9'

-- The loop of `ParseUint`; after an overflow it answers the largest number at once.
unfoldable pub digits : ℕ → String → ℕ
digits n nil_str = n
digits n (cons_str c s) =
    let m = n * 10 + (code c - b'0') in
    let rest = digits m s in
    if is_digit (code c) then (if ltb m (2 ^ 64) then rest else 2 ^ 64 - 1) else 0

-- `v, _ := strconv.ParseUint(s, 10, 64)`
unfoldable pub parse_uint : String → ℕ
parse_uint s = digits 0 s

abbrev pub AllDigits : String → Type 0
AllDigits nil_str = Unit
AllDigits (cons_str c s) = (is_digit (code c) ≡ true) × AllDigits s

-- The number that the digits write, after a number that stands before them.
unfoldable pub value : ℕ → String → ℕ
value n nil_str = n
value n (cons_str c s) = value (n * 10 + (code c - b'0')) s

le-value : (n : ℕ) (s : String) → n ≤ value n s
unfolding value
le-value n nil_str = omega arith
le-value n (cons_str c s) = omega (arith, le-value (n * 10 + (code c - b'0')) s)

digits-value :
    (n : ℕ) (s : String)
    → AllDigits s
    → n < 2 ^ 64
    → digits n s ≡ (if ltb (value n s) (2 ^ 64) then value n s else 2 ^ 64 - 1)
unfolding digits value
digits-value n nil_str h lt = ground (arith, lt)
digits-value n (cons_str c s) h lt = elim (Bool-cases (ltb (n * 10 + (code c - b'0')) (2 ^ 64))) [
  | inl y ↦ rw (h.0, y) (digits-value (n * 10 + (code c - b'0')) s h.1 (ground arith))
  | inr x ↦
      let big : ltb (value (n * 10 + (code c - b'0')) s) (2 ^ 64) ≡ false =
        ground (arith, le-value (n * 10 + (code c - b'0')) s, x) in
      rw (h.0, x, big) refl
]

-- Of a text of decimal digits the node reports the number they write, or the largest 64-bit number
-- where it is too large; of no digits it reports 0.
pub parse_uint-value :
    (s : String)
    → AllDigits s
    → parse_uint s ≡ (if ltb (value 0 s) (2 ^ 64) then value 0 s else 2 ^ 64 - 1)
unfolding parse_uint
parse_uint-value s h = digits-value 0 s h (omega arith)
