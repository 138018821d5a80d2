-- ===== src/Sink.antt =====
-- server/DataSink.h and server/DataSink.cpp: the connections of the daemons, and the cutting of
-- what arrives into messages. `routed` is what the sink has pushed on the router's queue, the
-- newest last; a push on a full queue waits, which delays the callback and changes no order.
pub mod Reader
pub mod Watchers
pub mod Framing
pub mod Clients
pub mod Lifetime
use wall_mon.Base.{
  ℕ, suc, ◌+◌, ◌-◌, ◌*◌, ◌%◌, ◌^◌, String, Bool, true, false, Option, none, some, List, [], ◌∷◌,
  ◌++◌, length, ltb, leb, ◌==◌, if◌then◌else◌, ℤ, pos, negsuc,
}
use wall_mon.Base.Results.{◌>>=◌}
use wall_mon.ByteBuffer
use wall_mon.ByteBuffer.{ByteBuffer}
use wall_mon.ByteBuffer.Contents.{receive}
use wall_mon.IoLogger
use wall_mon.IoLogger.{IoLogger}
use wall_mon.Router.{RouterItem}
use Reader.{Connection, read_messages}
use Watchers.{Watcher, find, put, erase}

-- `RECEIVE_BUF_START_SIZE`.
abbrev pub receive_buf_start_size : ℕ
receive_buf_start_size = 1024 * 100

pub record Sink : Type 0 where
  pub watchers : List (ℕ × Watcher)
  pub num_connected_clients : ℕ
  pub io_logger : IoLogger
  pub routed : List RouterItem
  pub closed : List ℕ

-- What `accept` and `recv` return.
pub data Accepted : Type 0 where
  refused : Accepted
  accepted : ℕ → String → Accepted

pub data Received : Type 0 where
  failed : Received
  bytes : List ℕ → Received

-- Adding an int to an unsigned int.
abbrev inc : ℕ → ℕ
inc n = (n + 1) % 2 ^ 32

abbrev dec : ℕ → ℕ
dec n = (n + (2 ^ 32 - 1)) % 2 ^ 32

-- The constructor, once the accept socket `sockfd` listens, with its watcher `id`.
unfoldable pub init : ℕ → ℕ → Sink
init id sockfd = record {
  watchers = (id, record { fd = sockfd; address = ""; buffer = none }) ∷ [];
  num_connected_clients = 0;
  io_logger = IoLogger.init (1024 * 1000 * 100);
  routed = [];
  closed = [];
}

-- `id` is the new watcher's address, and `junk` the memory of its buffer.
unfoldable pub accept_callback : (ℕ → ℕ) → ℕ → Bool → Accepted → Sink → Option Sink
accept_callback junk id true a s = some s
accept_callback junk id false refused s = some s
accept_callback junk id false (accepted fd address) s = do
  b ← ByteBuffer.init junk receive_buf_start_size
  some (record s {
    watchers = put id (record { fd = fd; address = address; buffer = some b }) s.watchers;
    num_connected_clients = inc s.num_connected_clients;
  })

-- `none` where its CHECK fails, which ends the program.
unfoldable pub delete_and_cleanup_watcher : ℕ → Sink → Option Sink
delete_and_cleanup_watcher id s = do
  w ← find id s.watchers
  some (record s { watchers = erase id s.watchers; closed = s.closed ++ (w.fd ∷ []) })

-- The callback after `BytesWritten`, for a connection with bytes to look at.
unfoldable pub read_rest : (ℕ → ℕ) → ℕ → Watcher → ℤ → ByteBuffer → Sink → Option Sink
read_rest junk id w n b s = do
  c ← read_messages junk b.size (record { buffer = b; routed = s.routed })
  some (record s {
    watchers = put id (record w { buffer = some c.buffer }) s.watchers;
    io_logger = IoLogger.read n s.io_logger;
    routed = c.routed;
  })

-- `unsigned int numBytesReceived = recv(…)`: a failure is 2^32 - 1, which is -1 as the int that
-- `BytesWritten` and `Read` take, and which no test after it stops.
unfoldable pub after_recv : (ℕ → ℕ) → ℕ → Watcher → ByteBuffer → Received → Sink → Option Sink
after_recv junk id w b failed s = do
  b' ← ByteBuffer.bytes_written (negsuc 0) b
  read_rest junk id w (negsuc 0) b' s
after_recv junk id w b (bytes []) s = do
  b' ← receive [] b
  delete_and_cleanup_watcher id (record s {
    watchers = put id (record w { buffer = some b' }) s.watchers;
    num_connected_clients = dec s.num_connected_clients;
  })
after_recv junk id w b (bytes (x ∷ xs)) s = do
  b' ← receive (x ∷ xs) b
  read_rest junk id w (pos (length (x ∷ xs))) b' s

-- `none` where an assertion fails, or for a watcher that is not there.
unfoldable pub read_callback : (ℕ → ℕ) → ℕ → Bool → Received → Sink → Option Sink
read_callback junk id true r s = some s
read_callback junk id false r s = do
  w ← find id s.watchers
  buffer ← w.buffer
  b ← ByteBuffer.defragment buffer
  after_recv junk id w b r s
