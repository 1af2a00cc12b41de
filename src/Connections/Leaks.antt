-- ===== src/Connections/Leaks.antt =====
-- What the loop of `New` and `Close` do to the connections of a process.
use ironwork.Prelude.{
  ℕ, suc, ◌<◌, ◌≤◌, ◌≡◌, refl, ap, ◌∙◌, String, Bool, true, false, Option, none, some, List, [],
  ◌∷◌, ◌++◌, ◌==◌, map, lt_str, All, All-imp, append-All, Any, inl, inr, Bool-cases, arith, subst,
}
use ironwork.Sort.{sort}
use mathlib.Core.List.{append_assoc, append-nil, map-append}
use ironwork.Dict.{lookup}
use ironwork.Connections.{
  Net, Member, remove, remove_all, close_all, address, connect, connect_all, name_of,
}

-- The numbers of the open connections come from the counter.
abbrev pub IsNet : Net → Type 0
IsNet net = All (λ c. c < net.next) net.live

abbrev pub name : Member → String
name m = m.name

-- What `New` has done, of its result and of the connections before: after an error they are as they
-- were; otherwise it returns a client for each of the names, in order, whose connection is open, and
-- `hang_up` leaves the connections as they were.
abbrev pub Opened :
    (List Member → Net → Net) → List String → Net → Option (List Member) × Net → Type 0
Opened hang_up names net (none, net') = net'.live ≡ net.live
Opened hang_up names net (some members, net') =
    (map name members ≡ names)
    × All (λ m. Any (λ c. m.conn ≡ c) net'.live) members
    × ((hang_up members net').live ≡ net.live)

pub remove_absent : (c : ℕ) (live : List ℕ) → All (λ d. d < c) live → remove c live ≡ live
unfolding remove
remove_absent c [] h = refl
remove_absent c (d ∷ live) h =
    let ne : d == c ≡ false = ground (arith, h.0) in rw (ne, remove_absent c live h.1) refl

remove_all-append :
    (l : List Member) (m : Member) (live : List ℕ)
    → remove_all (l ++ m ∷ []) live ≡ remove m.conn (remove_all l live)
unfolding remove_all
remove_all-append [] m live = refl
remove_all-append (k ∷ l) m live = remove_all-append l m (remove k.conn live)

-- Closing older connections passes over a new one.
remove_all-new :
    (l : List Member) (c : ℕ) (live : List ℕ)
    → All (λ (m : Member). m.conn < c) l
    → remove_all l (c ∷ live) ≡ c ∷ remove_all l live
unfolding remove_all remove
remove_all-new [] c live h = refl
remove_all-new (m ∷ l) c live h =
    let ne : c == m.conn ≡ false = ground (arith, h.0) in
    rw ne (remove_all-new l c (remove m.conn live) h.1)

-- The state of the loop, with the members so far.
record Holds (net0 : Net) (members : List Member) (net : Net) : Type 0 where
  grows : net0.next ≤ net.next
  old : All (λ (m : Member). m.conn < net.next) members
  open_ : All (λ (m : Member). Any (λ c. m.conn ≡ c) net.live) members
  closes : remove_all members net.live ≡ net0.live

module _ (takes : String → Bool) (configured : List (String × String)) (net0 : Net)
    (valid : IsNet net0) where
  grown :
      (n : String) (members : List Member) (net : Net)
      → Holds net0 members net
      → Holds net0
          (members ++ record { name = n; conn = net.next } ∷ [])
          (record { next = suc net.next; live = net.next ∷ net.live })
  unfolding remove
  grown n members net h =
      let m : Member = record { name = n; conn = net.next } in
      let self : net.next == net.next ≡ true = ground arith in
      record {
        grows = omega (arith, h.grows);
        old =
            append-All _ members (m ∷ []) (All-imp _ _ members (λ k lt. omega (arith, lt)) h.old)
              (omega arith, tt);
        open_ =
            append-All _ members (m ∷ []) (All-imp _ _ members (λ k a. inr a) h.open_)
              (inl refl, tt);
        closes =
            remove_all-append members m (net.next ∷ net.live)
            ∙ ap (remove net.next) (remove_all-new members net.next net.live h.old)
            ∙ rw (self, h.closes)
                (remove_absent net.next net0.live
                  (All-imp _ _ net0.live (λ c lt. omega (arith, lt, h.grows)) valid));
      }

  connect-Opened :
      (before names : List String) (members : List Member) (net : Net)
      → map name members ≡ before
      → Holds net0 members net
      → Opened close_all (before ++ names) net0 (connect takes configured names members net)
  unfolding connect
  connect-Opened before [] members net e h = rw (append-nil before) (e, h.open_, h.closes)
  connect-Opened before (n ∷ names) members net e h =
      elim (Bool-cases (takes (address (lookup n configured)))) [
        | inl y ↦ rw y (
            subst
              (λ l. Opened close_all l net0 (
                connect takes configured names
                  (members ++ record { name = n; conn = net.next } ∷ [])
                  (record { next = suc net.next; live = net.next ∷ net.live })))
              (append_assoc before (n ∷ []) names)
              (connect-Opened (before ++ n ∷ []) names _ _
                (map-append name members _ ∙ ap (λ l. l ++ n ∷ []) e) (grown n members net h)))
        | inr x ↦ rw x h.closes
      ]

  pub connect_all-Opened :
      Opened close_all
        (sort lt_str (map name_of configured))
        net0
        (connect_all takes configured net0)
  connect_all-Opened =
      connect-Opened [] (sort lt_str (map name_of configured)) [] net0 refl
        (record { grows = omega arith; old = tt; open_ = tt; closes = unfold remove_all in refl })
