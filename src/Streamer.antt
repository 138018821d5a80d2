-- ===== src/Streamer.antt =====
-- daemon/Streamer.h and daemon/Streamer.cpp: the connections to servers, and the sending of items.
-- What the operating system answers is an argument: for each call of `_SendAll` the list of what
-- its calls of `send` return (`none` is -1), and for SetupStream what resolving and connecting
-- give. `wire` is what has been sent, the newest last, and `closed` the sockets closed. An
-- operation is `none` where it has not returned, or where LOG(FATAL) ends the program.
pub mod Sending
pub mod Delivery
pub mod EndToEnd
pub mod Cleanup
pub mod Setup
use wall_mon.Base.{
  ℕ, suc, ◌+◌, ◌-◌, ◌*◌, String, Bool, true, false, Option, none, some, List, [], ◌∷◌, ◌++◌, length,
  map, slice, ltb, ◌==◌, if◌then◌else◌, pos,
}
use wall_mon.Base.Results.{◌>>=◌}
use wall_mon.Base.StrMap.{lookup, insert}
use wall_mon.IoLogger
use wall_mon.IoLogger.{IoLogger}
use wall_mon.Wire.{StreamItem}

pub record Streamer : Type 0 where
  pub server_map : List (String × ℕ)
  pub io_logger : IoLogger
  pub wire : List (ℕ × List ℕ)
  pub closed : List ℕ

unfoldable pub init : Streamer
init = record {
  server_map = [];
  io_logger = IoLogger.init (1024 * 1000 * 10);
  wire = [];
  closed = [];
}

-- What `System` makes of an address.
pub record Resolver : Type 0 where
  pub is_valid_ip_address : String → Bool
  pub hostname_to_ip_address : String → String
  pub hostname_to_ip_address_fallback : String → String
  pub empty : String → Bool

-- `socket`, `setsockopt` and `connect` for an address.
pub data Dialed : Type 0 where
  no_socket no_option : Dialed
  not_connected : ℕ → Dialed
  connected : ℕ → Dialed

-- The address for `inet_addr`; `none` where SetupStream gives up. An address that is an IP address
-- leaves `serverIpAddress` empty.
unfoldable pub resolve : Resolver → String → Option String
resolve r address =
    let first : String = r.hostname_to_ip_address address in
    let ip : String =
      (if r.empty first then r.hostname_to_ip_address_fallback address else first) in
    if r.is_valid_ip_address address
    then some ""
    else (if r.empty ip then none else (if r.is_valid_ip_address ip then some ip else none))

-- The part of SetupStream from `socket` on. Its result is a descriptor, or `none` for -1.
unfoldable pub connect_server : String → Dialed → Streamer → Option (Option ℕ × Streamer)
connect_server address no_socket s = none
connect_server address no_option s = none
connect_server address (not_connected fd) s = some (none, s)
connect_server address (connected fd) s =
    some (some fd, record s { server_map = insert address fd s.server_map })

-- `dial` is what the operating system answers for an IP address and a port.
unfoldable pub setup_stream :
    Resolver → (String → ℕ → Dialed) → String → ℕ → Streamer → Option (Option ℕ × Streamer)
setup_stream r dial address port s = elim (lookup address s.server_map) [
  | some fd ↦ some (some fd, s)
  | none ↦ elim (resolve r address) [
    | none ↦ some (none, s)
    | some ip ↦ connect_server address (dial ip port) s
  ]
]

unfoldable pub get_num_server_connections : Streamer → ℕ
get_num_server_connections s = length s.server_map

-- The loop of `_SendAll`, `sent` bytes of `len` being out: how many it returns, and the wire.
unfoldable pub send_all :
    ℕ → List ℕ → ℕ → ℕ → List (Option ℕ) → List (ℕ × List ℕ) → Option (ℕ × List (ℕ × List ℕ))
send_all fd message len sent [] wire = none
send_all fd message len sent (none ∷ answers) wire = some (sent, wire)
send_all fd message len sent (some n ∷ answers) wire =
    let wire' : List (ℕ × List ℕ) = wire ++ ((fd, slice message sent n) ∷ []) in
    let rest : Option (ℕ × List (ℕ × List ℕ)) = send_all fd message len (sent + n) answers wire' in
    if ltb (sent + n) len then rest else some (sent + n, wire')

-- The search of `_RemoveAndCleanupSockFd`, which stops at the first entry it finds.
unfoldable pub remove_fd : ℕ → List (String × ℕ) → Option (List (String × ℕ))
remove_fd fd [] = none
remove_fd fd ((a, j) ∷ m) =
    let rest : Option (List (String × ℕ)) = remove_fd fd m in
    if fd == j then some m else elim rest [ none ↦ none | some m' ↦ some ((a, j) ∷ m') ]

unfoldable pub remove_and_cleanup_sock_fd : ℕ → Streamer → Streamer
remove_and_cleanup_sock_fd fd s = elim (remove_fd fd s.server_map) [
  | none ↦ s
  | some m ↦ record s { server_map = m; closed = s.closed ++ (fd ∷ []) }
]

-- `_SendItem` after a `_SendAll` that returned `n`.
unfoldable pub after_send_all : ℕ → ℕ → ℕ → Streamer → Streamer
after_send_all fd n len s =
    let s' : Streamer = record s { io_logger = IoLogger.write (pos n) s.io_logger } in
    if n == len then s' else remove_and_cleanup_sock_fd fd s'

-- The loop of `_SendItem`, with the answers for each of the sockets.
unfoldable pub send_each : StreamItem → List ℕ → List (List (Option ℕ)) → Streamer → Option Streamer
send_each item [] answers s = some s
send_each item (fd ∷ fds) [] s = none
send_each item (fd ∷ fds) (a ∷ answers) s = do
  (n, wire) ← send_all fd item.message item.message_length 0 a s.wire
  send_each item fds answers (after_send_all fd n item.message_length (record s { wire = wire }))

unfoldable pub send_item : StreamItem → List (List (Option ℕ)) → Streamer → Option Streamer
send_item item answers s = send_each item item.servers_sock_fd answers s

-- The loop of `_StreamForever` over the items that it pops until `Stop`.
unfoldable pub stream_items :
    List (StreamItem × List (List (Option ℕ))) → Streamer → Option Streamer
stream_items [] s = some s
stream_items ((item, answers) ∷ items) s = send_item item answers s >>= stream_items items

abbrev pub sockets : List (String × ℕ) → List ℕ
sockets = map (λ e. e.1)

-- All sockets in the map are closed, after the loop.
unfoldable pub close_all : Streamer → Streamer
close_all s = record s { closed = s.closed ++ sockets s.server_map }

unfoldable pub stream_forever :
    List (StreamItem × List (List (Option ℕ))) → Streamer → Option Streamer
stream_forever items s = do t ← stream_items items s; some (close_all t)
