-- ===== src/Sink/Framing/Stream.antt =====
-- A daemon's whole stream through `_ReadCallback` (server/DataSink.cpp), in whatever pieces the
-- socket delivers it.
use mathlib.Core.List.{map-append}
use wall_mon.Base.{
  ℕ, ◌≤◌, ◌<◌, ◌≡◌, refl, sym, ap, ◌∙◌, arith, Option, none, some, List, [], ◌∷◌, ◌++◌, map, length,
  false, append_assoc, append-nil, pos, length-append,
}
use wall_mon.Base.Results.{◌>>=◌}
use wall_mon.ByteBuffer.{ByteBuffer, get_bytes_left, pack}
use wall_mon.ByteBuffer.Invariant.{IsValid, defragment-eq-pack, pack-IsValid}
use wall_mon.ByteBuffer.Contents.{contents, length-contents, contents-pack, receive_lem}
use wall_mon.IoLogger
use wall_mon.Wire.RoundTrip.{frame, frames, length-frame}
use wall_mon.Sink.{Sink, bytes, after_recv, read_rest, read_callback}
use wall_mon.Sink.Watchers.{Watcher, find, put, find-put_self}
use wall_mon.Sink.Reader.{Connection}
use wall_mon.Sink.Framing.Step.{AllSized, item_of, Waits}
use wall_mon.Sink.Framing.Loop.{read_messages-Cut}

-- The connection `id` is open, and the messages `ms` are still to be routed from it: what is in
-- its buffer and what is to come is their encoding.
pub record Open (id : ℕ) (ms : List (List ℕ)) (future : List ℕ) (s : Sink) : Type 0 where
  pub watcher : Watcher
  pub buffer : ByteBuffer
  pub found : find id s.watchers ≡ some watcher
  pub held : watcher.buffer ≡ some buffer
  pub valid : IsValid buffer
  pub big : 4 < buffer.capacity
  pub stream : contents buffer ++ future ≡ frames ms
  pub waits : Waits ms buffer.size
  pub room : buffer.size < buffer.capacity

-- The room that `recv` is given: all free space, since the buffer is defragmented first.
unfoldable pub free : ℕ → Sink → ℕ
free id s = elim (find id s.watchers) [
  | none ↦ 0
  | some w ↦ elim w.buffer [ none ↦ 0 | some b ↦ get_bytes_left b ]
]

free-Open :
    {id : ℕ} (ms : List (List ℕ)) (future : List ℕ) (s : Sink) (o : Open id ms future s)
    → free id s ≡ get_bytes_left o.buffer
unfolding free
free-Open ms future s o = rw (o.found, free) (rw o.held)

AllSized-left : (xs ys : List (List ℕ)) → AllSized (xs ++ ys) → AllSized ys
AllSized-left [] ys a = a
AllSized-left (x ∷ xs) ys a = AllSized-left xs ys a.2

-- At the end of the stream nothing waits.
ended : {id : ℕ} (ms : List (List ℕ)) (s : Sink) → Open id ms [] s → ms ≡ []
ended [] s o = refl
ended (m ∷ ms) s o = absurd (
    omega (
      arith,
      o.waits,
      length-contents o.buffer o.valid,
      ap length (sym (append-nil (contents o.buffer)) ∙ o.stream),
      length-append (frame m) (frames ms),
      length-frame m,
    ))

abbrev pub concat : List (List ℕ) → List ℕ
concat [] = []
concat (p ∷ ps) = p ++ concat ps

module _ (junk : ℕ → ℕ) (id : ℕ) where
  -- What one callback has done.
  record Read (ms : List (List ℕ)) (future : List ℕ) (s : Sink) (o : Option Sink) : Type 0 where
    done : List (List ℕ)
    left : List (List ℕ)
    after : Sink
    returned : o ≡ some after
    split : ms ≡ done ++ left
    routed : after.routed ≡ s.routed ++ map item_of done
    still_open : Open id left future after

  read_rest-Read :
      (ms : List (List ℕ)) (future : List ℕ) (w : Watcher) (n : ℕ) (b : ByteBuffer) (s : Sink)
      → AllSized ms
      → IsValid b
      → 4 < b.capacity
      → contents b ++ future ≡ frames ms
      → Read ms future s (read_rest junk id w (pos n) b s)
  unfolding read_rest
  read_rest-Read ms future w n b s a v g e =
      let c : Connection = record { buffer = b; routed = s.routed } in
      let k =
        read_messages-Cut junk b.size ms future c a (record { valid = v; stream = e; big = g })
          (omega arith) in
      record {
        done = k.done;
        left = k.left;
        after = record s {
          watchers = put id (record w { buffer = some k.after.buffer }) s.watchers;
          io_logger = IoLogger.read (pos n) s.io_logger;
          routed = k.after.routed;
        };
        returned = rw (k.returned, ◌>>=◌);
        split = k.split;
        routed = k.routed;
        still_open = record {
          watcher = record w { buffer = some k.after.buffer };
          buffer = k.after.buffer;
          found = find-put_self id (record w { buffer = some k.after.buffer }) s.watchers;
          held = refl;
          valid = k.streaming.valid;
          big = k.streaming.big;
          stream = k.streaming.stream;
          waits = k.waits;
          room = k.room;
        };
      }

  -- One callback that receives `x ∷ xs`, no more than the room it has.
  read_callback-Read :
      (ms : List (List ℕ)) (x : ℕ) (xs future : List ℕ) (s : Sink)
      → AllSized ms
      → Open id ms ((x ∷ xs) ++ future) s
      → length (x ∷ xs) ≤ free id s
      → Read ms future s (read_callback junk id false (bytes (x ∷ xs)) s)
  unfolding read_callback after_recv read_rest
  read_callback-Read ms x xs future s a o h =
      let b = pack o.buffer in
      let (v, z, g, r) = pack-IsValid o.buffer o.valid in
      let (b', e, v', g', k) = receive_lem (x ∷ xs) b v (omega (arith, free-Open ms _ s o, r)) in
      rw (o.found, read_callback)
        (rw o.held (
          rw (defragment-eq-pack o.buffer o.valid) (
            rw e (
              read_rest-Read ms future o.watcher (length (x ∷ xs)) b' s a v'
                (omega (arith, g', g, o.big))
                (rw (k, append_assoc, contents-pack o.buffer o.valid) o.stream)))))

  -- `recv` delivers the pieces one after the other.
  unfoldable pub feed : List (List ℕ) → Sink → Option Sink
  feed [] s = some s
  feed (p ∷ ps) s = read_callback junk id false (bytes p) s >>= feed ps

  -- Each piece has a byte at least, and is no longer than the room that `recv` is given.
  abbrev pub Fits : List (List ℕ) → Sink → Type 0
  Fits [] s = Unit
  Fits (p ∷ ps) s =
      (0 < length p)
      × (length p ≤ free id s)
      × (elim (read_callback junk id false (bytes p) s) [ none ↦ Unit | some t ↦ Fits ps t ])

  -- What is routed of `ms` when all pieces are in.
  abbrev pub Delivers : List (List ℕ) → Sink → Option Sink → Type 0
  Delivers ms s o =
      (t : Sink) × (o ≡ some t) × (t.routed ≡ s.routed ++ map item_of ms) × Open id [] [] t

  after-Delivers :
      (ms : List (List ℕ)) (s t : Sink) (done left : List (List ℕ)) (o : Option Sink)
      → ms ≡ done ++ left
      → t.routed ≡ s.routed ++ map item_of done
      → Delivers left t o
      → Delivers ms s o
  after-Delivers ms s t done left o e r (u, h, q, p) =
      (u, h, q ∙ rw (r, e, map-append, append_assoc), p)

  -- The messages `ms`, none of them empty and each, with its header, no longer than 2^30 bytes, arrive
  -- on an open connection in any pieces that fit the room which `recv` is given. Then no callback
  -- fails, the router gets exactly these messages in this order, each whole, and the connection stays
  -- open with nothing left in its buffer.
  pub feed-Delivers :
      (ps ms : List (List ℕ)) (s : Sink)
      → AllSized ms
      → Open id ms (concat ps) s
      → Fits ps s
      → Delivers ms s (feed ps s)
  unfolding feed
  feed-Delivers [] ms s a o f =
      let e = ended ms s o in (s, refl, rw e (sym (append-nil s.routed)), rw e at o)
  feed-Delivers ([] ∷ ps) ms s a o f = absurd (omega (arith, f.0))
  feed-Delivers ((x ∷ xs) ∷ ps) ms s a o f =
      let k = read_callback-Read ms x xs (concat ps) s a o f.1 in
      rw (k.returned, feed)
        (after-Delivers ms s k.after k.done k.left _ k.split k.routed (
          feed-Delivers ps k.left k.after (AllSized-left k.done k.left (rw k.split at a))
            k.still_open (rw k.returned at f.2)))
