-- ===== src/Streamer/Setup.antt =====
-- The book that SetupStream of daemon/Streamer.cpp keeps.
use wall_mon.Base.{
  ℕ, ◌≡◌, refl, sym, ap, ◌∙◌, inl, inr, String, false, Option, none, some, str_eq, subst,
  Option-cases,
}
use wall_mon.Base.StrMap.{lookup, insert, lookup-insert, str_eq_refl}
use wall_mon.Base.Results.{some_inj}
use wall_mon.Streamer.{
  Streamer, Resolver, Dialed, no_socket, no_option, not_connected, connected, resolve,
  connect_server, setup_stream,
}

-- What SetupStream for `address` leaves: the book has an entry for it under the descriptor that is
-- returned, or the call returns -1 and has changed nothing; entries of other addresses stay.
abbrev pub Booked : String → Option ℕ → Streamer → Streamer → Type 0
Booked address o s t =
    (lookup address t.server_map ≡ o)
    × ((k : String) → str_eq address k ≡ false → lookup k t.server_map ≡ lookup k s.server_map)

connect_server-Booked :
    (address : String) (d : Dialed) (s : Streamer) {o : Option ℕ} {t : Streamer}
    → lookup address s.server_map ≡ none
    → connect_server address d s ≡ some (o, t)
    → Booked address o s t
unfolding connect_server
connect_server-Booked address no_socket s new e = absurd (cc)
connect_server-Booked address no_option s new e = absurd (cc)
connect_server-Booked address (not_connected fd) s new e =
    subst (λ p. Booked address p.0 s p.1) (some_inj (none, s) _ e) (new, λ k h. refl)
connect_server-Booked address (connected fd) s new e =
    let t : Streamer = record s { server_map = insert address fd s.server_map } in
    subst (λ p. Booked address p.0 s p.1) (some_inj (some fd, t) _ e)
      (
        lookup-insert address address fd s.server_map ∙ rw str_eq_refl refl,
        λ k h. lookup-insert address k fd s.server_map ∙ rw h refl,
      )

pub setup_stream-Booked :
    (r : Resolver) (dial : String → ℕ → Dialed) (address : String) (port : ℕ) (s : Streamer)
    {o : Option ℕ} {t : Streamer}
    → setup_stream r dial address port s ≡ some (o, t)
    → Booked address o s t
unfolding setup_stream
setup_stream-Booked r dial address port s e = elim (Option-cases (lookup address s.server_map)) [
  | inl new ↦ elim (Option-cases (resolve r address)) [
    | inl bad ↦
        subst (λ p. Booked address p.0 s p.1)
          (some_inj (none, s) _ (rw bad at (rw (new, setup_stream) at e))) (new, λ k h. refl)
    | inr (ip, good) ↦
        connect_server-Booked address (dial ip port) s new
          (rw good at (rw (new, setup_stream) at e))
  ]
  | inr (fd, known) ↦
      subst (λ p. Booked address p.0 s p.1)
        (some_inj (some fd, s) _ (rw (known, setup_stream) at e)) (known, λ k h. refl)
]

-- Whatever resolving and connecting answer: when SetupStream returns, the book's entry for the
-- address is what it returns (none for -1), and entries of other addresses are as before. If it
-- returned a descriptor, a second call for the address, with any port and whatever the answers
-- would be, returns the same descriptor and changes nothing.
pub setup_stream-again :
    (r r' : Resolver) (dial dial' : String → ℕ → Dialed) (address : String) (port port' : ℕ)
    (s : Streamer) {o : Option ℕ} {t : Streamer}
    → setup_stream r dial address port s ≡ some (o, t)
    → Booked address o s t
      × ((fd : ℕ) → o ≡ some fd → setup_stream r' dial' address port' t ≡ some (o, t))
unfolding setup_stream
setup_stream-again r r' dial dial' address port port' s {o} {t} e =
    let b = setup_stream-Booked r dial address port s e in
    (b, λ fd h. rw (b.0 ∙ h, setup_stream) (ap (λ x. some (x, t)) (sym h)))
