-- ===== src/Sink/Lifetime.antt =====
-- The server from its start, through any callbacks (server/DataSink.cpp).
use wall_mon.Base.{
  ℕ, ◌+◌, ◌^◌, ◌≤◌, ◌<◌, ◌≡◌, ◌≢◌, refl, sym, ap, ◌∙◌, arith, subst, Bool, true, false, none, some,
  List, [], ◌∷◌, length, ◌==◌, if◌then◌else◌, ℤ, pos, negsuc,
}
use wall_mon.Base.Results.{>>=-eq-some, some_inj}
use wall_mon.ByteBuffer
use wall_mon.ByteBuffer.{ByteBuffer, bytes_written, defragment}
use wall_mon.ByteBuffer.Contents.{receive}
use wall_mon.Sink.{
  Sink, Accepted, refused, accepted, Received, failed, bytes, init, accept_callback,
  delete_and_cleanup_watcher, read_rest, after_recv, read_callback,
}
use wall_mon.Sink.Reader.{read_messages}
use wall_mon.Sink.Watchers.{Watcher, find, put, find-put, find-erase}
use wall_mon.Sink.Clients.{Counted, accept_callback-Counted, read_callback-Counted}

-- One callback of libev. A new watcher has an address that is not in use, and there are fewer than
-- 2^32 - 1 clients. The arguments say what the system answers.
pub data Callback (s : Sink) : Sink → Type 0 where
  accepts :
      (junk : ℕ → ℕ) (id : ℕ) (error : Bool) (a : Accepted) {t : Sink}
      → find id s.watchers ≡ none
      → s.num_connected_clients + 1 < 2 ^ 32
      → accept_callback junk id error a s ≡ some t
      → Callback s t
  reads :
      (junk : ℕ → ℕ) (id : ℕ) (error : Bool) (r : Received) {t : Sink}
      → read_callback junk id error r s ≡ some t
      → Callback s t

pub data Callbacks (s : Sink) : Sink → Type 0 where
  here : Callbacks s s
  next : {t u : Sink} → Callbacks s t → Callback t u → Callbacks s u

-- The accept socket's watcher is there, and the count is right.
pub record Served (root : ℕ) (s : Sink) : Type 0 where
  pub counted : Counted s
  pub watcher : Watcher
  pub found : find root s.watchers ≡ some watcher
  pub bare : watcher.buffer ≡ none

find-some : (id : ℕ) (m : List (ℕ × Watcher)) (w : Watcher) → find id m ≡ some w → 1 ≤ length m
unfolding find
find-some id [] w e = absurd (cc)
find-some id (x ∷ m) w e = omega arith

-- Two watchers under different addresses are two entries.
two-watchers :
    (a b : ℕ) (m : List (ℕ × Watcher)) (v w : Watcher)
    → a ≢ b
    → find a m ≡ some v
    → find b m ≡ some w
    → 2 ≤ length m
unfolding find
two-watchers a b [] v w n e f = absurd (cc)
two-watchers a b ((j, x) ∷ m) v w n e f = ground (arith, find-some a m v, find-some b m w)

-- The watcher under another address is left alone.
read_rest-find :
    (junk : ℕ → ℕ) (id j : ℕ) (w : Watcher) (n : ℤ) (b : ByteBuffer) (s : Sink) {t : Sink}
    → id ≢ j
    → read_rest junk id w n b s ≡ some t
    → find j t.watchers ≡ find j s.watchers
unfolding read_rest
read_rest-find junk id j w n b s {t} other e =
    let (k, e1, e2) = >>=-eq-some (read_messages junk _ _) _ e in
    let w' : Watcher = record w { buffer = some k.buffer } in
    ap (λ x. find j x.watchers) (sym (some_inj _ t e2)) ∙ find-put id j w' s.watchers ∙ ground arith

close-find :
    (id j n : ℕ) (u : Watcher) (s : Sink) {t : Sink}
    → id ≢ j
    → delete_and_cleanup_watcher id
        (record s { watchers = put id u s.watchers; num_connected_clients = n })
      ≡ some t
    → find j t.watchers ≡ find j s.watchers
unfolding delete_and_cleanup_watcher
close-find id j n u s {t} other e =
    let (v, e1, e2) = >>=-eq-some (find id (put id u s.watchers)) _ e in
    ap (λ x. find j x.watchers) (sym (some_inj _ t e2))
    ∙ find-erase id j (put id u s.watchers)
    ∙ ap (λ x. if id == j then none else x) (find-put id j u s.watchers)
    ∙ ground arith

after_recv-find :
    (junk : ℕ → ℕ) (id j : ℕ) (w : Watcher) (b : ByteBuffer) (r : Received) (s : Sink) {t : Sink}
    → id ≢ j
    → after_recv junk id w b r s ≡ some t
    → find j t.watchers ≡ find j s.watchers
unfolding after_recv
after_recv-find junk id j w b failed s other e =
    let (b', e1, e2) = >>=-eq-some (bytes_written (negsuc 0) b) _ e in
    read_rest-find junk id j w (negsuc 0) b' s other e2
after_recv-find junk id j w b (bytes []) s other e =
    let (b', e1, e2) = >>=-eq-some (receive [] b) _ e in
    close-find id j _ (record w { buffer = some b' }) s other e2
after_recv-find junk id j w b (bytes (x ∷ xs)) s other e =
    let (b', e1, e2) = >>=-eq-some (receive (x ∷ xs) b) _ e in
    read_rest-find junk id j w (pos (length (x ∷ xs))) b' s other e2

-- A watcher with a buffer and one without are not under one address.
different :
    (a b : ℕ) (m : List (ℕ × Watcher)) (v w : Watcher) (x : ByteBuffer)
    → find a m ≡ some v
    → v.buffer ≡ some x
    → find b m ≡ some w
    → w.buffer ≡ none
    → a ≢ b
different a b m v w x e full f bare same =
    let one : v ≡ w = some_inj v w (sym e ∙ ap (λ i. find i m) same ∙ f) in
    some-none (sym full ∙ ap (λ u. u.buffer) one ∙ bare)
  where
    some-none : some x ≡ none → ⊥
    some-none e = cc

reads-Served :
    (root : ℕ) (junk : ℕ → ℕ) (id : ℕ) (error : Bool) (r : Received) (s : Sink) {t : Sink}
    → Served root s
    → read_callback junk id error r s ≡ some t
    → Served root t
unfolding read_callback
reads-Served root junk id true r s {t} v e = subst (Served root) (some_inj s t e) v
reads-Served root junk id false r s v e =
    let (w, e1, e2) = >>=-eq-some (find id s.watchers) _ e in
    let (b, e3, e4) = >>=-eq-some w.buffer _ e2 in
    let (b', e5, e6) = >>=-eq-some (defragment b) _ e4 in
    let other = different id root s.watchers w v.watcher b e1 e3 v.found v.bare in
    let two = two-watchers id root s.watchers w v.watcher other e1 v.found in
    record {
      counted =
          read_callback-Counted junk id false r s v.counted (omega (arith, two, v.counted.counted))
            e;
      watcher = v.watcher;
      found = after_recv-find junk id root w b' r s other e6 ∙ v.found;
      bare = v.bare;
    }

accepts-find :
    (junk : ℕ → ℕ) (id j : ℕ) (error : Bool) (a : Accepted) (s : Sink) {t : Sink}
    → id ≢ j
    → accept_callback junk id error a s ≡ some t
    → find j t.watchers ≡ find j s.watchers
unfolding accept_callback
accepts-find junk id j true a s {t} other e = ap (λ x. find j x.watchers) (sym (some_inj s t e))
accepts-find junk id j false refused s {t} other e =
    ap (λ x. find j x.watchers) (sym (some_inj s t e))
accepts-find junk id j false (accepted fd address) s {t} other e =
    let (b, e1, e2) = >>=-eq-some (ByteBuffer.init junk _) _ e in
    let w : Watcher = record { fd = fd; address = address; buffer = some b } in
    ap (λ x. find j x.watchers) (sym (some_inj _ t e2)) ∙ find-put id j w s.watchers ∙ ground arith

Callback-Served : (root : ℕ) {s t : Sink} → Callback s t → Served root s → Served root t
Callback-Served root {s} (accepts junk id error a new few e) v = record {
  counted = accept_callback-Counted junk id error a s v.counted new few e;
  watcher = v.watcher;
  found = accepts-find junk id root error a s other e ∙ v.found;
  bare = v.bare;
}
  where
    other : id ≢ root
    other same = absurd (ground (arith, v.found, new, ap (λ i. find i s.watchers) same))
Callback-Served root {s} (reads junk id error r e) v = reads-Served root junk id error r s v e

init-Served : (root fd : ℕ) → Served root (init root fd)
unfolding init find
init-Served root fd = record {
  counted = record { distinct = (refl, tt); counted = omega arith; small = omega arith };
  watcher = record { fd = fd; address = ""; buffer = none };
  found = ground arith;
  bare = refl;
}

-- Whatever connections come, deliver and end, in any order, as long as no assertion fails, new
-- watchers have new addresses and fewer than 2^32 - 1 clients are connected: after the server's
-- start no two of its watchers have one address, the accept socket's stays, and the number of
-- connected clients, which never wraps, is that of all watchers but this one.
pub Callbacks-Served : (root fd : ℕ) {s : Sink} → Callbacks (init root fd) s → Served root s
Callbacks-Served root fd here = init-Served root fd
Callbacks-Served root fd (next cs c) = Callback-Served root c (Callbacks-Served root fd cs)
