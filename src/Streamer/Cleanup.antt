-- ===== src/Streamer/Cleanup.antt =====
-- Lost connections: `_SendItem` and `_RemoveAndCleanupSockFd` of daemon/Streamer.cpp.
use wall_mon.Base.{
  ℕ, ◌≡◌, refl, ◌∙◌, inl, inr, arith, String, true, false, Option, none, some, List, [], ◌∷◌, ◌++◌,
  map, ◌==◌, ==_iff, if◌then◌else◌, Bool-cases, pos, subst, Option-cases,
}
use wall_mon.Base.Results.{>>=-eq-some, some_inj}
use wall_mon.IoLogger
use wall_mon.Wire.{StreamItem}
use wall_mon.Streamer.{
  Streamer, send_all, remove_fd, remove_and_cleanup_sock_fd, after_send_all, send_each, send_item,
}
use wall_mon.Streamer.Delivery.{member, Distinct}

abbrev pub sockets : List (String × ℕ) → List ℕ
sockets m = map (λ e. e.1) m

-- The sockets of `fds` on which `_SendAll` returns less than the length.
unfoldable pub lost : StreamItem → List ℕ → List (List (Option ℕ)) → List (ℕ × List ℕ) → List ℕ
lost item [] answers wire = []
lost item (fd ∷ fds) [] wire = []
lost item (fd ∷ fds) (a ∷ answers) wire =
    elim (send_all fd item.message item.message_length 0 a wire) [
      | none ↦ []
      | some (n, wire') ↦
          let rest : List ℕ = lost item fds answers wire' in
          if n == item.message_length then rest else fd ∷ rest
    ]

-- `m` without the socket `fd`.
abbrev Without : ℕ → List (String × ℕ) → List (String × ℕ) → Type 0
Without fd m m' =
    Distinct (sockets m')
    × ((j : ℕ) → member j (sockets m') ≡ (if fd == j then false else member j (sockets m)))

remove_fd-none :
    (fd : ℕ) (m : List (String × ℕ)) → remove_fd fd m ≡ none → member fd (sockets m) ≡ false
unfolding remove_fd
remove_fd-none fd [] e = refl
remove_fd-none fd ((a, j) ∷ m) e = ground (arith, remove_fd-none fd m)

none-some {ℓ} : {A : Type ℓ} {x : A} → none ≡ some x → ⊥
none-some e = cc

first-gone :
    (fd j i : ℕ) (m : List (String × ℕ))
    → member j (sockets m) ≡ false
    → (fd == j) ≡ true
    → member i (sockets m)
      ≡ (if fd == i then false else (if j == i then true else member i (sockets m)))
first-gone fd j i m new hit = elim (Bool-cases (j == i)) [
  | inl same ↦ rw (same, (==_iff fd j).0 hit) (rw (same, ← (==_iff j i).0 same) new)
  | inr other ↦ rw (other, (==_iff fd j).0 hit) (rw other refl)
]

later-Without :
    (fd : ℕ) (a : String) (j : ℕ) (m k : List (String × ℕ))
    → Distinct (sockets ((a, j) ∷ m))
    → (fd == j) ≡ false
    → Without fd m k
    → Without fd ((a, j) ∷ m) ((a, j) ∷ k)
later-Without fd a j m k d miss w =
    ((w.1 j ∙ rw (miss, d.0) refl, w.0), λ i. rw (w.1 i) (ground arith))

remove_fd-Without :
    (fd : ℕ) (m m' : List (String × ℕ))
    → Distinct (sockets m)
    → remove_fd fd m ≡ some m'
    → Without fd m m'
unfolding remove_fd
remove_fd-Without fd [] m' d e = absurd (cc)
remove_fd-Without fd ((a, j) ∷ m) m' d e = elim (Bool-cases (fd == j)) [
  | inl hit ↦
      subst (Without fd ((a, j) ∷ m)) (some_inj m m' (rw hit at e))
        (d.1, λ i. first-gone fd j i m d.0 hit)
  | inr miss ↦ elim (Option-cases (remove_fd fd m)) [
    | inl gone ↦ absurd (none-some (rw (miss, gone) at e))
    | inr (k, found) ↦
        subst (Without fd ((a, j) ∷ m)) (some_inj ((a, j) ∷ k) m' (rw (miss, found) at e))
          (later-Without fd a j m k d miss (remove_fd-Without fd m k d.1 found))
  ]
]

-- What a failed or an unfinished sending does to the book, at once for all sockets of the item.
abbrev pub Dropped : List ℕ → Streamer → Streamer → Type 0
Dropped ls s t =
    Distinct (sockets t.server_map)
    × ((j : ℕ)
        → member j (sockets t.server_map)
          ≡ (if member j ls then false else member j (sockets s.server_map)))

not-there :
    (fd j : ℕ) (m : List (String × ℕ))
    → member fd (sockets m) ≡ false
    → member j (sockets m) ≡ (if member j (fd ∷ []) then false else member j (sockets m))
not-there fd j m new = elim (Bool-cases (fd == j)) [
  | inl same ↦ rw same (rw (← (==_iff fd j).0 same) new)
  | inr other ↦ rw other refl
]

remove_and_cleanup-Dropped :
    (fd : ℕ) (s : Streamer)
    → Distinct (sockets s.server_map)
    → Dropped (fd ∷ []) s (remove_and_cleanup_sock_fd fd s)
unfolding remove_and_cleanup_sock_fd
remove_and_cleanup-Dropped fd s d = elim (Option-cases (remove_fd fd s.server_map)) [
  | inl gone ↦
      rw (gone, remove_and_cleanup_sock_fd)
        (d, λ j. not-there fd j s.server_map (remove_fd-none fd s.server_map gone))
  | inr (m, found) ↦
      let w = remove_fd-Without fd s.server_map m d found in
      rw (found, remove_and_cleanup_sock_fd) (w.0, λ j. w.1 j ∙ ground arith)
]

wire-remove_and_cleanup : (fd : ℕ) (s : Streamer) → (remove_and_cleanup_sock_fd fd s).wire ≡ s.wire
unfolding remove_and_cleanup_sock_fd
wire-remove_and_cleanup fd s = elim (Option-cases (remove_fd fd s.server_map)) [
  | inl gone ↦ rw (gone, remove_and_cleanup_sock_fd) refl
  | inr (m, found) ↦ rw (found, remove_and_cleanup_sock_fd) refl
]

-- The sockets lost by one `_SendAll`.
abbrev dropped : ℕ → ℕ → ℕ → List ℕ
dropped fd n len = if n == len then [] else fd ∷ []

after_send_all-Dropped :
    (fd n len : ℕ) (s : Streamer)
    → Distinct (sockets s.server_map)
    → Dropped (dropped fd n len) s (after_send_all fd n len s)
      × ((after_send_all fd n len s).wire ≡ s.wire)
unfolding after_send_all
after_send_all-Dropped fd n len s d =
    let s' : Streamer = record s { io_logger = IoLogger.write (pos n) s.io_logger } in
    elim (Bool-cases (n == len)) [
      | inl full ↦ rw (full, after_send_all) ((d, λ j. refl), refl)
      | inr short ↦
          rw (short, after_send_all)
            (remove_and_cleanup-Dropped fd s' d, wire-remove_and_cleanup fd s')
    ]

member-append :
    (j : ℕ) (xs ys : List ℕ) → member j (xs ++ ys) ≡ (if member j xs then true else member j ys)
member-append j [] ys = refl
member-append j (x ∷ xs) ys = ground (arith, member-append j xs ys)

then-Dropped :
    (ks ls : List ℕ) (s t u : Streamer) → Dropped ks s t → Dropped ls t u → Dropped (ks ++ ls) s u
then-Dropped ks ls s t u a b = (b.0, λ j. b.1 j ∙ rw (a.1 j, member-append) (ground arith))

lost-dropped :
    (item : StreamItem) (fd n : ℕ) (fds : List ℕ) (a : List (Option ℕ))
    (answers : List (List (Option ℕ))) (wire wire' : List (ℕ × List ℕ))
    → send_all fd item.message item.message_length 0 a wire ≡ some (n, wire')
    → lost item (fd ∷ fds) (a ∷ answers) wire
      ≡ dropped fd n item.message_length ++ lost item fds answers wire'
unfolding lost
lost-dropped item fd n fds a answers wire wire' e =
    rw (e, lost)
      (elim (Bool-cases (n == item.message_length)) [
        | inl full ↦ rw full refl
        | inr short ↦ rw short refl
      ])

send_each-Dropped :
    (item : StreamItem) (fds : List ℕ) (answers : List (List (Option ℕ))) (s t : Streamer)
    → Distinct (sockets s.server_map)
    → send_each item fds answers s ≡ some t
    → Dropped (lost item fds answers s.wire) s t
unfolding send_each lost
send_each-Dropped item [] answers s t d e =
    subst (λ u. Dropped [] s u) (some_inj s t e) (d, λ j. refl)
send_each-Dropped item (fd ∷ fds) [] s t d e = absurd (none-some e)
send_each-Dropped item (fd ∷ fds) (a ∷ answers) s t d e =
    let ((n, wire), e1, e2) =
      >>=-eq-some (send_all fd item.message item.message_length 0 a s.wire) _ e in
    let s' : Streamer = record s { wire = wire } in
    let u : Streamer = after_send_all fd n item.message_length s' in
    let (k, same) = after_send_all-Dropped fd n item.message_length s' d in
    rw (lost-dropped item fd n fds a answers s.wire wire e1) (
      then-Dropped (dropped fd n item.message_length) (lost item fds answers wire) s u t k
        (rw same at (send_each-Dropped item fds answers u t k.0 e2)))

-- While the sockets in the map are distinct: when `_SendItem` returns, exactly the sockets on which
-- `_SendAll` has returned less than the length of the message are gone from the map, all others are
-- in it as before, and the sockets in it are distinct.
pub send_item-Dropped :
    (item : StreamItem) (answers : List (List (Option ℕ))) (s t : Streamer)
    → Distinct (sockets s.server_map)
    → send_item item answers s ≡ some t
    → Dropped (lost item item.servers_sock_fd answers s.wire) s t
unfolding send_item
send_item-Dropped item answers s t d e = send_each-Dropped item item.servers_sock_fd answers s t d e
