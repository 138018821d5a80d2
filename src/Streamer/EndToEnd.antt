-- ===== src/Streamer/EndToEnd.antt =====
-- From `_StreamForever` of daemon/Streamer.cpp to `_ReadCallback` of server/DataSink.cpp.
use wall_mon.Base.{
  ℕ, ◌≡◌, refl, sym, ap, ◌∙◌, arith, true, Option, some, List, [], ◌∷◌, ◌++◌, append-nil, subst,
}
use wall_mon.ByteBuffer.Contents.{contents}
use wall_mon.Wire.RoundTrip.{frames}
use wall_mon.Sink.{Sink}
use wall_mon.Sink.Framing.Step.{AllSized, Waits}
use wall_mon.Sink.Framing.Stream.{Open, concat, feed, Fits, Delivers, feed-Delivers}
use wall_mon.Wire.{StreamItem}
use wall_mon.Streamer.{Streamer, stream_forever}
use wall_mon.Streamer.Sending.{bytes_on}
use wall_mon.Streamer.Delivery.{
  member, Distinct, Composed, AllAnswered, payloads, stream_forever-Sends,
}

start-Waits : (ms : List (List ℕ)) → Waits ms 0
start-Waits [] = refl
start-Waits (m ∷ ms) = omega arith

-- An idle connection is open for any messages.
idle-Open : {id : ℕ} (ms : List (List ℕ)) (k : Sink) → Open id [] [] k → Open id ms (frames ms) k
idle-Open ms k o = record {
  watcher = o.watcher;
  buffer = o.buffer;
  found = o.found;
  held = o.held;
  valid = o.valid;
  big = o.big;
  stream = ap (λ t. t ++ frames ms) (sym (append-nil (contents o.buffer)) ∙ o.stream);
  waits = rw o.waits (start-Waits ms);
  room = o.room;
}

-- From end to end: messages that are not empty and, with their headers, no longer than 2^30 bytes are
-- composed for distinct sockets, and no `send` fails. The server's end of a socket `fd` among these,
-- on which nothing has been sent, is an idle connection, to which the bytes on `fd` come in any
-- pieces that fit the room which `recv` is given. Then the streamer returns, no callback of the
-- server fails, and the router gets exactly the messages, each whole and in their order.
pub streamed-Delivers :
    (junk junk' : ℕ → ℕ) (fds : List ℕ) (ms : List (List ℕ × List (List (Option ℕ))))
    (items : List (StreamItem × List (List (Option ℕ)))) (s : Streamer) (fd id : ℕ)
    (ps : List (List ℕ)) (k : Sink)
    → Distinct fds
    → AllAnswered fds ms
    → Composed junk fds ms items
    → AllSized (payloads ms)
    → member fd fds ≡ true
    → bytes_on fd s.wire ≡ []
    → Open id [] [] k
    → ((t : Streamer) → stream_forever items s ≡ some t → concat ps ≡ bytes_on fd t.wire)
    → Fits junk' id ps k
    → (t : Streamer) × (stream_forever items s ≡ some t)
      × Delivers junk' id (payloads ms) k (feed junk' id ps k)
streamed-Delivers junk junk' fds ms items s fd id ps k d a made sized among clean o came f =
    let (t, e, m, c, on) = stream_forever-Sends junk fds ms items s d a made in
    let sent : concat ps ≡ frames (payloads ms) = came t e ∙ on fd ∙ rw (clean, among) refl in
    (
      t,
      e,
      feed-Delivers junk' id ps (payloads ms) k sized
          (subst (λ b. Open id (payloads ms) b k) (sym sent) (idle-Open (payloads ms) k o)) f,
    )
