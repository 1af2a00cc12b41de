-- ===== src/Connections.antt =====
-- The gRPC connections of a process: the loop by which internal/leaderclient, internal/dispatch,
-- internal/heartbeat and internal/crdtview connect, and the way in which they close. Whether
-- `grpc.NewClient` takes an address is a parameter. A connection is a number, from a counter.
pub mod Leaks
pub mod Closed
use ironwork.Prelude.{
  ℕ, suc, String, Bool, Option, none, some, List, [], ◌∷◌, ◌++◌, ◌==◌, map, lt_str, if◌then◌else◌,
}
use ironwork.Dict.{lookup}
use ironwork.Sort.{sort}

pub record Net : Type 0 where
  pub next : ℕ
  pub live : List ℕ  -- the connections that are not closed, newest first

-- What the packages call `member`, `worker` or `target`: its clients are those of its connection.
pub record Member : Type 0 where
  pub name : String
  pub conn : ℕ

unfoldable pub remove : ℕ → List ℕ → List ℕ
remove c [] = []
remove c (d ∷ live) = let rest = remove c live in if d == c then rest else d ∷ rest

unfoldable pub remove_all : List Member → List ℕ → List ℕ
remove_all [] live = live
remove_all (m ∷ members) live = remove_all members (remove m.conn live)

-- `conn.Close`; the error of closing twice is dropped
abbrev pub close : ℕ → Net → Net
close c net = record net { live = remove c net.live }

-- (*Router).Close
abbrev pub close_all : List Member → Net → Net
close_all members net = record net { live = remove_all members net.live }

abbrev pub name_of : String × String → String
name_of (name, addr) = name

-- What a map of Go holds for a key.
abbrev pub address : Option String → String
address none = ""
address (some addr) = addr

module _ (takes : String → Bool) where
  -- `grpc.NewClient`; `none` is an error
  abbrev pub new_client : String → Net → Option ℕ × Net
  new_client addr net =
      if takes addr
      then (some net.next, record { next = suc net.next; live = net.next ∷ net.live })
      else (none, net)

  -- What one answer of `grpc.NewClient` makes of the loop.
  abbrev pub connected :
      String
      → List Member
      → Option ℕ × Net
      → (List Member → Net → Option (List Member) × Net)
      → Option (List Member) × Net
  connected name members (none, net) later = (none, close_all members net)
  connected name members (some c, net) later =
      later (members ++ record { name = name; conn = c } ∷ []) net

  -- The loop over the names, with the members so far; `none` is an error.
  unfoldable pub connect :
      List (String × String) → List String → List Member → Net → Option (List Member) × Net
  connect configured [] members net = (some members, net)
  connect configured (name ∷ names) members net =
      connected name members (new_client (address (lookup name configured)) net)
        (λ members' net'. connect configured names members' net')

  -- The names in order, and the loop over them.
  abbrev pub connect_all : List (String × String) → Net → Option (List Member) × Net
  connect_all configured net = connect configured (sort lt_str (map name_of configured)) [] net
