-- ===== src/Tests/StreamerTests.antt =====
-- daemon/Streamer.cpp, and the way from it to the router.
use wall_mon.Base.{ℕ, ◌≡◌, refl, arith, true, false, Option, none, some, List, [], ◌∷◌, pos, subst}
use wall_mon.Base.Results.{some_inj}
use wall_mon.IoLogger
use wall_mon.ByteBuffer.{
  pack, move, shift_down, get_continuous_bytes_left, get_bytes_left, defragment, bytes_written,
  bytes_read, resize,
}
use wall_mon.ByteBuffer.Contents.{receive}
use wall_mon.Router.{route}
use wall_mon.Wire.{
  StreamItem, network_bytes, host_word, to_int, headed_item, stream_item, put_payload,
}
use wall_mon.Sink.{read_callback, after_recv, read_rest}
use wall_mon.Sink.Watchers.{find, put}
use wall_mon.Sink.Reader.{read_messages, push_routed, grow, take_message, message_length}
use wall_mon.Sink.Framing.Stream.{Open, free, feed, Delivers, concat}
use wall_mon.Streamer.{
  Streamer, Resolver, connected, no_socket, send_all, send_each, send_item, after_send_all,
  stream_items, close_all, stream_forever, setup_stream, resolve, connect_server, remove_fd,
  remove_and_cleanup_sock_fd,
}
use wall_mon.Streamer.Sending.{bytes_on, Sent, send_all-Sent}
use wall_mon.Streamer.Delivery.{Composed, Streamed, stream_forever-Sends}
use wall_mon.Streamer.EndToEnd.{streamed-Delivers}
use wall_mon.Streamer.Cleanup.{lost, Dropped, send_item-Dropped}
use wall_mon.Streamer.Setup.{Booked, setup_stream-again}
use wall_mon.Tests.SinkTests.{zeros, serving, empty_buffer, client}

-- Two servers, with sockets 7 and 8.
abbrev streamer : Streamer
streamer = record {
  server_map = ("a", 7) ∷ ("b", 8) ∷ [];
  io_logger = IoLogger.init 1000;
  wire = [];
  closed = [];
}

-- The kernel takes a message of 5 bytes in two parts, or in one.
abbrev messages : List (List ℕ × List (List (Option ℕ)))
messages = (65 ∷ [], (some 2 ∷ some 3 ∷ []) ∷ (some 5 ∷ []) ∷ []) ∷ []

abbrev pieces : List (List ℕ)
pieces = (0 ∷ 0 ∷ 0 ∷ []) ∷ (1 ∷ 65 ∷ []) ∷ []

serving-Idle : Open 1 [] [] serving
unfolding find
serving-Idle = record {
  watcher = client;
  buffer = empty_buffer;
  found = refl;
  held = refl;
  valid = omega arith;
  big = omega arith;
  stream = refl;
  waits = omega arith;
  room = omega arith;
}

send_all-Sent_example :
    Sent 7
      (1 ∷ 2 ∷ 3 ∷ [])
      3
      0
      (some 2 ∷ none ∷ [])
      []
      (send_all 7 (1 ∷ 2 ∷ 3 ∷ []) 3 0 (some 2 ∷ none ∷ []) [])
send_all-Sent_example =
    send_all-Sent 7 (1 ∷ 2 ∷ 3 ∷ []) 3 0 (some 2 ∷ none ∷ []) [] (omega arith) (omega arith)

-- The item that is composed for the message.
abbrev items : List (StreamItem × List (List (Option ℕ)))
items =
    (
      record (put_payload (65 ∷ []) (headed_item zeros 1)) { servers_sock_fd = 7 ∷ 8 ∷ [] },
      (some 2 ∷ some 3 ∷ []) ∷ (some 5 ∷ []) ∷ [],
    )
    ∷ []

items-Composed : Composed zeros (7 ∷ 8 ∷ []) messages items
unfolding stream_item
items-Composed = ((headed_item zeros 1, refl, refl), refl, tt)

stream_forever-Sends_example :
    Streamed (7 ∷ 8 ∷ []) (0 ∷ 0 ∷ 0 ∷ 1 ∷ 65 ∷ []) streamer (stream_forever items streamer)
unfolding network_bytes
stream_forever-Sends_example =
    stream_forever-Sends zeros (7 ∷ 8 ∷ []) messages items streamer (refl, (refl, tt)) (omega arith)
      items-Composed

streamed-Delivers_example :
    (t : Streamer) × (stream_forever items streamer ≡ some t)
    × Delivers zeros 1 ((65 ∷ []) ∷ []) serving (feed zeros 1 pieces serving)
unfolding free get_bytes_left read_callback after_recv read_rest receive bytes_written bytes_read
    defragment read_messages message_length grow take_message route find put host_word to_int
    IoLogger.read resize pack move shift_down get_continuous_bytes_left push_routed stream_forever
    stream_items close_all send_item send_each send_all after_send_all bytes_on headed_item
    put_payload network_bytes IoLogger.write
streamed-Delivers_example =
    streamed-Delivers zeros zeros (7 ∷ 8 ∷ []) messages items streamer 7 1 pieces serving
      (refl, (refl, tt)) (omega arith) items-Composed (omega arith) refl refl serving-Idle
      (λ t e. subst (λ u. concat pieces ≡ bytes_on 7 u.wire) (some_inj _ t e) refl) (omega arith)

-- The first server's connection breaks.
abbrev item : StreamItem
item = record { message = 1 ∷ 2 ∷ []; message_length = 2; servers_sock_fd = 7 ∷ 8 ∷ [] }

abbrev left : Streamer
left = record {
  server_map = ("b", 8) ∷ [];
  io_logger = IoLogger.write (pos 2) (IoLogger.write (pos 0) (IoLogger.init 1000));
  wire = (8, 1 ∷ 2 ∷ []) ∷ [];
  closed = 7 ∷ [];
}

send_item-Dropped_example : Dropped (7 ∷ []) streamer left
unfolding send_item send_each send_all after_send_all remove_fd remove_and_cleanup_sock_fd lost
send_item-Dropped_example =
    send_item-Dropped item ((none ∷ []) ∷ (some 2 ∷ []) ∷ []) streamer left (refl, (refl, tt)) refl

abbrev names : Resolver
names = record {
  is_valid_ip_address = λ a. true;
  hostname_to_ip_address = λ a. a;
  hostname_to_ip_address_fallback = λ a. a;
  empty = λ a. false;
}

abbrev with_c : Streamer
with_c = record streamer { server_map = ("a", 7) ∷ ("b", 8) ∷ ("c", 9) ∷ [] }

setup_stream-again_example :
    Booked "c" (some 9) streamer with_c
    × ((fd : ℕ)
        → some 9 ≡ some fd
        → setup_stream names (λ a p. no_socket) "c" 2 with_c ≡ some (some 9, with_c))
unfolding setup_stream resolve connect_server
setup_stream-again_example =
    setup_stream-again names names (λ a p. connected 9) (λ a p. no_socket) "c" 1 2 streamer refl
