-- ===== src/Streamer/Delivery.antt =====
-- What `_StreamForever` of daemon/Streamer.cpp puts on each socket of composed messages.
use wall_mon.Base.{
  ℕ, ◌+◌, ◌-◌, ◌≡◌, refl, sym, ap, ◌∙◌, inl, inr, arith, Bool, true, false, Option, some, List, [],
  ◌∷◌, ◌++◌, length, ◌==◌, ==_iff, if◌then◌else◌, Bool-cases, append_assoc, append-nil, slice,
  subst,
}
use wall_mon.Wire.{StreamItem, stream_item, put_payload}
use wall_mon.Wire.RoundTrip.{frame, frames, put_payload-composed, take_all, length-frame}
use wall_mon.Streamer.{
  Streamer, send_all, after_send_all, send_each, send_item, stream_items, sockets, close_all,
  stream_forever,
}
use wall_mon.Streamer.Sending.{bytes_on, Answers, AllTaken, send_all-Sent}

abbrev pub member : ℕ → List ℕ → Bool
member j [] = false
member j (fd ∷ fds) = if fd == j then true else member j fds

abbrev pub Distinct : List ℕ → Type 0
Distinct [] = Unit
Distinct (fd ∷ fds) = (member fd fds ≡ false) × Distinct fds

-- Answers without a failure for a message of `len` bytes on each socket.
abbrev pub Answered : ℕ → List ℕ → List (List (Option ℕ)) → Type 0
Answered len [] answers = Unit
Answered len (fd ∷ fds) [] = ⊥
Answered len (fd ∷ fds) (a ∷ answers) = Answers len a × AllTaken a × Answered len fds answers

-- No connection is lost, and each of the sockets `fds`, and no other, gets the bytes `xs` more.
abbrev pub Sends : List ℕ → List ℕ → Streamer → Option Streamer → Type 0
Sends fds xs s o =
    (t : Streamer) × (o ≡ some t)
    × (t.server_map ≡ s.server_map)
    × (t.closed ≡ s.closed)
    × ((j : ℕ) → bytes_on j t.wire ≡ bytes_on j s.wire ++ (if member j fds then xs else []))

-- One more socket than `fds`, which gets the bytes first.
more-Sends :
    (fd : ℕ) (fds xs : List ℕ) (s t : Streamer) (o : Option Streamer)
    → member fd fds ≡ false
    → t.server_map ≡ s.server_map
    → t.closed ≡ s.closed
    → ((j : ℕ) → bytes_on j t.wire ≡ bytes_on j s.wire ++ (if fd == j then xs else []))
    → Sends fds xs t o
    → Sends (fd ∷ fds) xs s o
more-Sends fd fds xs s t o new m c on (u, e, m', c', on') = (
  u,
  e,
  m' ∙ m,
  c' ∙ c,
  λ j.
      on' j
      ∙ rw (on j) (elim (Bool-cases (fd == j)) [
        | inl own ↦ rw (own, ← (==_iff fd j).0 own, new) (append-nil _)
        | inr other ↦ rw (other, append-nil) refl
      ]),
)

send_all-whole :
    (fd : ℕ) (message : List ℕ) (len : ℕ) (answers : List (Option ℕ)) (wire : List (ℕ × List ℕ))
    → len ≡ length message
    → Answers len answers
    → AllTaken answers
    → (w : List (ℕ × List ℕ)) × (send_all fd message len 0 answers wire ≡ some (len, w))
      × ((j : ℕ) → bytes_on j w ≡ bytes_on j wire ++ (if fd == j then message else []))
send_all-whole fd message len answers wire e ok all =
    let z : len ≡ len - 0 = omega arith in
    let (n, w, r, lo, hi, full, on) =
      send_all-Sent fd message len 0 answers wire (omega arith)
        (subst (λ t. Answers t answers) z ok) in
    let all_sent : slice message 0 (n - 0) ≡ message =
      take_all (n - 0) message (omega (arith, full all)) in
    (w, r ∙ ap (λ t. some (t, w)) (full all), λ j. on j ∙ rw all_sent refl)

after_send_all-whole :
    (fd len : ℕ) (s : Streamer)
    → ((after_send_all fd len len s).server_map ≡ s.server_map)
      × ((after_send_all fd len len s).closed ≡ s.closed)
      × ((after_send_all fd len len s).wire ≡ s.wire)
unfolding after_send_all
after_send_all-whole fd len s = ground arith

send_each-Sends :
    (item : StreamItem) (fds : List ℕ) (answers : List (List (Option ℕ))) (s : Streamer)
    → item.message_length ≡ length item.message
    → Distinct fds
    → Answered item.message_length fds answers
    → Sends fds item.message s (send_each item fds answers s)
unfolding send_each
send_each-Sends item [] answers s e d a = (s, refl, refl, refl, λ j. sym (append-nil _))
send_each-Sends item (fd ∷ fds) [] s e d a = absurd a
send_each-Sends item (fd ∷ fds) (a ∷ answers) s e d (ok, all, rest) =
    let (w, r, on) = send_all-whole fd item.message item.message_length a s.wire e ok all in
    let t : Streamer =
      after_send_all fd item.message_length item.message_length (record s { wire = w }) in
    let k = after_send_all-whole fd item.message_length (record s { wire = w }) in
    rw (r, send_each)
      (more-Sends fd fds item.message s t _ d.0 k.0 k.1 (λ j. ap (bytes_on j) k.2 ∙ on j)
        (send_each-Sends item fds answers t e d.1 rest))

-- The items are composed for the messages and the sockets `fds`, with the answers for each.
abbrev pub Composed :
    (ℕ → ℕ)
    → List ℕ
    → List (List ℕ × List (List (Option ℕ)))
    → List (StreamItem × List (List (Option ℕ)))
    → Type 0
Composed junk fds [] [] = Unit
Composed junk fds [] (i ∷ items) = ⊥
Composed junk fds (m ∷ ms) [] = ⊥
Composed junk fds ((m, a) ∷ ms) ((item, b) ∷ items) =
    ((x : StreamItem) × (stream_item junk (length m) ≡ some x)
      × (item ≡ record (put_payload m x) { servers_sock_fd = fds }))
    × (b ≡ a)
    × Composed junk fds ms items

-- For each message, answers without a failure on each socket.
abbrev pub AllAnswered : List ℕ → List (List ℕ × List (List (Option ℕ))) → Type 0
AllAnswered fds [] = Unit
AllAnswered fds ((m, a) ∷ ms) = Answered (4 + length m) fds a × AllAnswered fds ms

-- The messages without the answers.
abbrev pub payloads : List (List ℕ × List (List (Option ℕ))) → List (List ℕ)
payloads [] = []
payloads ((m, a) ∷ ms) = m ∷ payloads ms

then-Sends :
    (fds xs ys : List ℕ) (s t : Streamer) (o : Option Streamer)
    → t.server_map ≡ s.server_map
    → t.closed ≡ s.closed
    → ((j : ℕ) → bytes_on j t.wire ≡ bytes_on j s.wire ++ (if member j fds then xs else []))
    → Sends fds ys t o
    → Sends fds (xs ++ ys) s o
then-Sends fds xs ys s t o m c on (u, e, m', c', on') = (
  u,
  e,
  m' ∙ m,
  c' ∙ c,
  λ j.
      on' j
      ∙ rw (on j, append_assoc)
          (elim (Bool-cases (member j fds)) [ inl own ↦ rw own refl | inr other ↦ rw other refl ]),
)

send_item-Sends :
    (junk : ℕ → ℕ) (fds m : List ℕ) (x : StreamItem) (answers : List (List (Option ℕ)))
    (s : Streamer)
    → Distinct fds
    → Answered (4 + length m) fds answers
    → stream_item junk (length m) ≡ some x
    → Sends fds
        (frame m)
        s
        (send_item (record (put_payload m x) { servers_sock_fd = fds }) answers s)
unfolding send_item
send_item-Sends junk fds m x answers s d a composed =
    let item : StreamItem = record (put_payload m x) { servers_sock_fd = fds } in
    let (whole, sized) = put_payload-composed junk m x composed in
    subst (λ t. Sends fds t s (send_each item fds answers s)) whole
      (send_each-Sends item fds answers s (sized ∙ ap length (sym whole)) d
        (subst (λ n. Answered n fds answers) (sym (sized ∙ length-frame m)) a))

nothing-sent : (bs : List ℕ) (b : Bool) → bs ≡ bs ++ (if b then [] else [])
nothing-sent bs true = sym (append-nil bs)
nothing-sent bs false = sym (append-nil bs)

stream_items-Sends :
    (junk : ℕ → ℕ) (fds : List ℕ) (ms : List (List ℕ × List (List (Option ℕ))))
    (items : List (StreamItem × List (List (Option ℕ)))) (s : Streamer)
    → Distinct fds
    → AllAnswered fds ms
    → Composed junk fds ms items
    → Sends fds (frames (payloads ms)) s (stream_items items s)
unfolding stream_items
stream_items-Sends junk fds [] [] s d a c =
    (s, refl, refl, refl, λ j. nothing-sent (bytes_on j s.wire) (member j fds))
stream_items-Sends junk fds [] (i ∷ items) s d a c = absurd c
stream_items-Sends junk fds (m ∷ ms) [] s d a c = absurd c
stream_items-Sends junk fds ((m, answers) ∷ ms) ((item, b) ∷ items) s d a
      ((x, made, is), same, rest) =
    let (t, e, p, c, on) = send_item-Sends junk fds m x answers s d a.0 made in
    rw (is, same, stream_items, e)
      (then-Sends fds (frame m) (frames (payloads ms)) s t _ p c on
        (stream_items-Sends junk fds ms items t d a.1 rest))

-- The streamer has returned: it has sent each of the sockets `fds`, and no other, the bytes `xs`
-- more, the map is as before, and each socket in it is closed.
abbrev pub Streamed : List ℕ → List ℕ → Streamer → Option Streamer → Type 0
Streamed fds xs s o =
    (t : Streamer) × (o ≡ some t)
    × (t.server_map ≡ s.server_map)
    × (t.closed ≡ s.closed ++ sockets s.server_map)
    × ((j : ℕ) → bytes_on j t.wire ≡ bytes_on j s.wire ++ (if member j fds then xs else []))

-- The streamer takes messages composed for the distinct sockets `fds` from its queue until it is
-- stopped, and every `send` takes some of the bytes left and none fails. Then it returns, has sent
-- each of these sockets, and no other, the frames of all the messages in their order, has closed no
-- socket before, and closes those of the connections in the map, which are those at the start.
pub stream_forever-Sends :
    (junk : ℕ → ℕ) (fds : List ℕ) (ms : List (List ℕ × List (List (Option ℕ))))
    (items : List (StreamItem × List (List (Option ℕ)))) (s : Streamer)
    → Distinct fds
    → AllAnswered fds ms
    → Composed junk fds ms items
    → Streamed fds (frames (payloads ms)) s (stream_forever items s)
unfolding stream_forever close_all
stream_forever-Sends junk fds ms items s d a c =
    let (t, e, m, k, on) = stream_items-Sends junk fds ms items s d a c in
    (close_all t, rw (stream_forever, e) refl, m, rw (k, m) refl, on)
