-- ===== src/Config.antt =====
-- internal/config/config.go: the configuration of a process, with its lists of peers, `name=host:port`
-- after `name=host:port`. What the environment holds for a key is what viper reads.
pub mod Targets
pub mod Malformed
pub mod Load
use Prim.Native.Char.{Char, code}
use Prim.Native.String.{[] as nil_str, ◌∷◌ as cons_str}
use ironwork.Prelude.{
  ℕ, String, Bool, true, false, ◌||◌, ◌&&◌, Option, none, some, List, [], ◌∷◌, leb, ◌==◌, str_eq,
  if◌then◌else◌,
}
use ironwork.Dict.{insert}

-- unicode.IsSpace
abbrev pub is_space : ℕ → Bool
is_space c =
    (leb 9 c && leb c 13)
    || c == 32
    || c == 133
    || c == 160
    || c == 5760
    || (leb 8192 c && leb c 8202)
    || c == 8232
    || c == 8233
    || c == 8239
    || c == 8287
    || c == 12288

abbrev pub extend : Char → List String → List String
extend c [] = cons_str c nil_str ∷ []
extend c (p ∷ parts) = cons_str c p ∷ parts

-- `strings.Split(s, ",")`
unfoldable pub split : String → List String
split nil_str = nil_str ∷ []
split (cons_str c s) =
    let parts = split s in if code c == b',' then nil_str ∷ parts else extend c parts

unfoldable pub trim_left : String → String
trim_left nil_str = nil_str
trim_left (cons_str c s) =
    let rest = trim_left s in if is_space (code c) then rest else cons_str c s

unfoldable pub trim_right : String → String
trim_right nil_str = nil_str
trim_right (cons_str c s) =
    let rest = trim_right s in
    if is_space (code c) && str_eq rest nil_str then nil_str else cons_str c rest

-- `strings.TrimSpace`
abbrev pub trim_space : String → String
trim_space s = trim_right (trim_left s)

abbrev pub put_first : Char → Option (String × String) → Option (String × String)
put_first c none = none
put_first c (some (name, addr)) = some (cons_str c name, addr)

-- `strings.Cut(pair, "=")`; `none` where there is no "="
unfoldable pub cut : String → Option (String × String)
cut nil_str = none
cut (cons_str c s) =
    let rest = cut s in if code c == b'=' then some (nil_str, s) else put_first c rest

-- The name and the address of a pair, `none` where it is malformed.
abbrev pub checked : Option (String × String) → Option (String × String)
checked none = none
checked (some (name, addr)) =
    if str_eq name nil_str || str_eq addr nil_str then none else some (name, addr)

abbrev pub Targets : Type 0
Targets = List (String × String)

-- A round of the loop over the pairs.
abbrev pub add_pair : Option Targets → Option (String × String) → Option Targets
add_pair (some targets) (some (name, addr)) = some (insert name addr targets)
add_pair _ _ = none

unfoldable pub add_trimmed : Targets → String → Option Targets
add_trimmed targets pair =
    if str_eq pair nil_str then some targets else add_pair (some targets) (checked (cut pair))

abbrev pub and_then : Option Targets → (Targets → Option Targets) → Option Targets
and_then none next = none
and_then (some targets) next = next targets

unfoldable pub parse_pairs : Targets → List String → Option Targets
parse_pairs targets [] = some targets
parse_pairs targets (pair ∷ pairs) =
    and_then (add_trimmed targets (trim_space pair)) (λ t. parse_pairs t pairs)

-- `parseTargets`; `none` is an error
unfoldable pub parse_targets : String → Option Targets
parse_targets s = parse_pairs [] (split s)
