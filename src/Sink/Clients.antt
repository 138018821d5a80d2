-- ===== src/Sink/Clients.antt =====
-- The book-keeping of connections in server/DataSink.cpp, and what a failed `recv` does.
use wall_mon.Base.{
  ℕ, ◌+◌, ◌-◌, ◌^◌, ◌%◌, ◌<◌, ◌≡◌, refl, ap, subst, ℤ, arith, none, some, List, [], ◌∷◌, length,
  Bool, true, false, pos, negsuc, ◌==◌, inl, inr, Bool-cases, ==_iff,
}
use wall_mon.Base.Results.{>>=-eq-some, some_inj}
use wall_mon.ByteBuffer
use wall_mon.ByteBuffer.{ByteBuffer, pack, bytes_written, defragment}
use wall_mon.ByteBuffer.Invariant.{defragment-eq-pack, pack-IsValid}
use wall_mon.ByteBuffer.Contents.{receive}
use wall_mon.Sink.{
  Sink, Accepted, refused, accepted, Received, failed, bytes, accept_callback,
  delete_and_cleanup_watcher, read_rest, after_recv, read_callback,
}
use wall_mon.Sink.Watchers.{Watcher, find, put, erase, find-put, find-erase}
use wall_mon.Sink.Reader.{read_messages}
use wall_mon.Sink.Framing.Stream.{Open}

-- No watcher is in the map twice.
abbrev pub Distinct : List (ℕ × Watcher) → Type 0
Distinct [] = Unit
Distinct ((j, w) ∷ m) = (find j m ≡ none) × Distinct m

length-put_found :
    (id : ℕ) (w : Watcher) (m : List (ℕ × Watcher)) {v : Watcher}
    → find id m ≡ some v
    → length (put id w m) ≡ length m
unfolding find put
length-put_found id w [] e = absurd (cc)
length-put_found id w ((j, v) ∷ m) {v = u} e = ground (arith, length-put_found id w m {v = u})

length-put_fresh :
    (id : ℕ) (w : Watcher) (m : List (ℕ × Watcher))
    → find id m ≡ none
    → length (put id w m) ≡ length m + 1
unfolding find put
length-put_fresh id w [] e = omega arith
length-put_fresh id w ((j, v) ∷ m) e = ground (arith, length-put_fresh id w m)

erase-fresh : (id : ℕ) (m : List (ℕ × Watcher)) → find id m ≡ none → erase id m ≡ m
unfolding find erase
erase-fresh id [] e = refl
erase-fresh id ((j, v) ∷ m) e = ground (arith, erase-fresh id m)

length-erase :
    (id : ℕ) (m : List (ℕ × Watcher)) {v : Watcher}
    → Distinct m
    → find id m ≡ some v
    → length (erase id m) + 1 ≡ length m
unfolding find erase
length-erase id [] d e = absurd (cc)
length-erase id ((j, v) ∷ m) d e = elim (Bool-cases (j == id)) [
  | inl hit ↦ rw hit (omega (arith, ap length (erase-fresh id m (rw ((==_iff j id).0 hit) at d.0))))
  | inr miss ↦ rw miss (omega (arith, length-erase id m d.1 (rw miss at e)))
]

put-Distinct : (id : ℕ) (w : Watcher) (m : List (ℕ × Watcher)) → Distinct m → Distinct (put id w m)
unfolding put find
put-Distinct id w [] d = (refl, tt)
put-Distinct id w ((j, v) ∷ m) d = ground (arith, put-Distinct id w m, find-put id j w m)

erase-Distinct : (id : ℕ) (m : List (ℕ × Watcher)) → Distinct m → Distinct (erase id m)
unfolding erase find
erase-Distinct id [] d = tt
erase-Distinct id ((j, v) ∷ m) d = ground (arith, erase-Distinct id m, find-erase id j m)

-- The count of clients is that of the watchers but for the accept socket's.
pub record Counted (s : Sink) : Type 0 where
  pub distinct : Distinct s.watchers
  pub counted : s.num_connected_clients + 1 ≡ length s.watchers
  pub small : s.num_connected_clients < 2 ^ 32

-- While the watchers have distinct addresses and one more than the count is their number, an accept
-- callback that returns keeps this so: the new watcher has an address that is not in use, and the
-- count does not reach 2^32.
pub accept_callback-Counted :
    (junk : ℕ → ℕ) (id : ℕ) (error : Bool) (a : Accepted) (s : Sink) {t : Sink}
    → Counted s
    → find id s.watchers ≡ none
    → s.num_connected_clients + 1 < 2 ^ 32
    → accept_callback junk id error a s ≡ some t
    → Counted t
unfolding accept_callback
accept_callback-Counted junk id true a s c new h e = ground arith
accept_callback-Counted junk id false refused s c new h e = ground arith
accept_callback-Counted junk id false (accepted fd address) s {t} c new h e =
    let (b, e1, e2) = >>=-eq-some (ByteBuffer.init junk _) _ e in
    let w : Watcher = record { fd = fd; address = address; buffer = some b } in
    subst Counted (some_inj _ t e2) (record {
      distinct = put-Distinct id w s.watchers c.distinct;
      counted = omega (arith, length-put_fresh id w s.watchers new, c);
      small = omega (arith, h);
    })

read_rest-Counted :
    (junk : ℕ → ℕ) (id : ℕ) (w : Watcher) (n : ℤ) (b : ByteBuffer) (s : Sink) {t : Sink}
    → find id s.watchers ≡ some w
    → Counted s
    → read_rest junk id w n b s ≡ some t
    → Counted t
unfolding read_rest
read_rest-Counted junk id w n b s {t} f c e =
    let (k, e1, e2) = >>=-eq-some (read_messages junk _ _) _ e in
    let w' : Watcher = record w { buffer = some k.buffer } in
    subst Counted (some_inj _ t e2) (record {
      distinct = put-Distinct id w' s.watchers c.distinct;
      counted = omega (arith, length-put_found id w' s.watchers f, c);
      small = c.small;
    })

-- The end of a connection: one client less, if the watcher is a client's.
close-Counted :
    (id : ℕ) (w u : Watcher) (s : Sink) {t : Sink}
    → find id s.watchers ≡ some w
    → Counted s
    → 0 < s.num_connected_clients
    → delete_and_cleanup_watcher id (record s {
      watchers = put id u s.watchers;
      num_connected_clients = (s.num_connected_clients + (2 ^ 32 - 1)) % 2 ^ 32;
    })
      ≡ some t
    → Counted t
unfolding delete_and_cleanup_watcher
close-Counted id w u s {t} f c some_client e =
    let (v, e1, e2) = >>=-eq-some (find id (put id u s.watchers)) _ e in
    let m = put id u s.watchers in
    let d = put-Distinct id u s.watchers c.distinct in
    subst Counted (some_inj _ t e2) (record {
      distinct = erase-Distinct id m d;
      counted = omega (arith, c, length-put_found id u s.watchers f, length-erase id m d e1);
      small = omega arith;
    })

after_recv-Counted :
    (junk : ℕ → ℕ) (id : ℕ) (w : Watcher) (b : ByteBuffer) (r : Received) (s : Sink) {t : Sink}
    → find id s.watchers ≡ some w
    → Counted s
    → 0 < s.num_connected_clients
    → after_recv junk id w b r s ≡ some t
    → Counted t
unfolding after_recv
after_recv-Counted junk id w b failed s f c h e =
    let (b', e1, e2) = >>=-eq-some (bytes_written (negsuc 0) b) _ e in
    read_rest-Counted junk id w (negsuc 0) b' s f c e2
after_recv-Counted junk id w b (bytes []) s f c h e =
    let (b', e1, e2) = >>=-eq-some (receive [] b) _ e in
    close-Counted id w (record w { buffer = some b' }) s f c h e2
after_recv-Counted junk id w b (bytes (x ∷ xs)) s f c h e =
    let (b', e1, e2) = >>=-eq-some (receive (x ∷ xs) b) _ e in
    read_rest-Counted junk id w (pos (length (x ∷ xs))) b' s f c e2

-- While there is a client, the watchers have distinct addresses and one more than the count is
-- their number, a read callback that returns keeps the last two so, whatever `recv` returned, the
-- end of the connection included.
pub read_callback-Counted :
    (junk : ℕ → ℕ) (id : ℕ) (error : Bool) (r : Received) (s : Sink) {t : Sink}
    → Counted s
    → 0 < s.num_connected_clients
    → read_callback junk id error r s ≡ some t
    → Counted t
unfolding read_callback
read_callback-Counted junk id true r s {t} c h e = subst Counted (some_inj s t e) c
read_callback-Counted junk id false r s c h e =
    let (w, e1, e2) = >>=-eq-some (find id s.watchers) _ e in
    let (b, e3, e4) = >>=-eq-some w.buffer _ e2 in
    let (b', e5, e6) = >>=-eq-some (defragment b) _ e4 in
    after_recv-Counted junk id w b' r s e1 c h e6

-- A `recv` that fails on an open connection whose buffer is empty ends the program by an assertion.
pub read_callback-failed :
    (junk : ℕ → ℕ) (id : ℕ) (ms : List (List ℕ)) (future : List ℕ) (s : Sink)
    (o : Open id ms future s)
    → o.buffer.size ≡ 0
    → read_callback junk id false failed s ≡ none
unfolding read_callback after_recv bytes_written
read_callback-failed junk id ms future s o h =
    rw (o.found, read_callback)
      (rw o.held
        (rw (defragment-eq-pack o.buffer o.valid) (ground (arith, pack-IsValid o.buffer o.valid))))
