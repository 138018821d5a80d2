-- ===== src/Tests/SinkTests.antt =====
-- server/DataSink.cpp.
use wall_mon.Base.{ℕ, ◌≡◌, refl, arith, none, some, List, [], ◌∷◌, false}
use wall_mon.ByteBuffer.{
  ByteBuffer, pack, move, shift_down, get_continuous_bytes_left, get_bytes_left, defragment,
  bytes_written, bytes_read, resize,
}
use wall_mon.Sink.Lifetime.{Callbacks, here, next, accepts, reads, Served, Callbacks-Served}
use wall_mon.ByteBuffer
use wall_mon.ByteBuffer.Contents.{receive}
use wall_mon.IoLogger
use wall_mon.Router.{route}
use wall_mon.Wire.{network_bytes, host_word, to_int}
use wall_mon.Sink.{
  Sink, failed, bytes, accepted, init, accept_callback, read_callback, read_rest, after_recv,
  delete_and_cleanup_watcher,
}
use wall_mon.Sink.Watchers.{Watcher, find, put, erase}
use wall_mon.Sink.Reader.{read_messages, push_routed, grow, take_message, message_length}
use wall_mon.Sink.Framing.Loop.{Cut, read_messages-Cut}
use wall_mon.Sink.Framing.Stream.{Open, free, concat, feed, Fits, Delivers, feed-Delivers}
use wall_mon.Sink.Clients.{read_callback-failed}

abbrev pub zeros : ℕ → ℕ
zeros n = 0

abbrev pub empty_buffer : ByteBuffer
empty_buffer = record {
  buffer = 0 ∷ 0 ∷ 0 ∷ 0 ∷ 0 ∷ 0 ∷ [];
  capacity = 6;
  size = 0;
  head = 0;
  tail = 0;
}

abbrev pub client : Watcher
client = record { fd = 5; address = "10.1.255.238"; buffer = some empty_buffer }

-- A server with one connection, under 1, beside the accept socket's watcher, under 0.
abbrev pub serving : Sink
serving = record {
  watchers = (0, record { fd = 3; address = ""; buffer = none }) ∷ (1, client) ∷ [];
  num_connected_clients = 1;
  io_logger = IoLogger.init 1000;
  routed = [];
  closed = [];
}

abbrev messages : List (List ℕ)
messages = (65 ∷ []) ∷ (66 ∷ 67 ∷ 68 ∷ []) ∷ []

-- The frames of `messages`, in three pieces that cut a header, and make the buffer grow.
abbrev pieces : List (List ℕ)
pieces = (0 ∷ 0 ∷ 0 ∷ []) ∷ (1 ∷ 65 ∷ 0 ∷ []) ∷ (0 ∷ 0 ∷ 3 ∷ 66 ∷ 67 ∷ []) ∷ (68 ∷ []) ∷ []

serving-Open : Open 1 messages (concat pieces) serving
unfolding find network_bytes
serving-Open = record {
  watcher = client;
  buffer = empty_buffer;
  found = refl;
  held = refl;
  valid = omega arith;
  big = omega arith;
  stream = refl;
  waits = omega arith;
  room = omega arith;
}

pieces-Fits : Fits zeros 1 pieces serving
unfolding pack move shift_down get_continuous_bytes_left push_routed free get_bytes_left
    read_callback after_recv read_rest receive bytes_written bytes_read defragment read_messages
    message_length grow take_message route find put host_word to_int IoLogger.read resize
pieces-Fits = omega arith

feed-Delivers_example : Delivers zeros 1 messages serving (feed zeros 1 pieces serving)
feed-Delivers_example =
    feed-Delivers zeros 1 pieces messages serving (omega arith) serving-Open pieces-Fits

-- A client connects, and goes.
abbrev once_served : Sink
once_served = record (init 0 3) { closed = 5 ∷ [] }

Reach-once_served : Callbacks (init 0 3) once_served
unfolding init accept_callback ByteBuffer.init read_callback after_recv receive bytes_written
    defragment pack delete_and_cleanup_watcher find put erase
Reach-once_served =
    next (next here (accepts zeros 1 false (accepted 5 "10.1.255.238") refl (omega arith) refl))
      (reads zeros 1 false (bytes []) refl)

Callbacks-Served_example : Served 0 once_served
Callbacks-Served_example = Callbacks-Served 0 3 Reach-once_served

read_callback-failed_example : read_callback zeros 1 false failed serving ≡ none
unfolding find network_bytes serving-Open
read_callback-failed_example =
    read_callback-failed zeros 1 messages (concat pieces) serving serving-Open refl

read_messages-Cut_example :
    Cut messages
      (concat pieces)
      (record { buffer = empty_buffer; routed = [] })
      (read_messages zeros 9 (record { buffer = empty_buffer; routed = [] }))
unfolding network_bytes
read_messages-Cut_example =
    read_messages-Cut zeros 9 messages (concat pieces)
      (record { buffer = empty_buffer; routed = [] }) (omega arith)
      (record { valid = omega arith; stream = refl; big = omega arith }) (omega arith)
