-- ===== src/Wire.antt =====
-- The message format between daemon and server: daemon/StreamItem.h, daemon/StreamItem.cpp, and
-- the header as server/DataSink.cpp reads it. A byte is a number below 256; an int has 4 bytes.
pub mod RoundTrip
use wall_mon.Base.{
  ℕ, suc, ◌+◌, ◌-◌, ◌*◌, ◌/◌, ◌%◌, ◌^◌, List, [], ◌∷◌, length, get_or, write, allocate, ltb,
  if◌then◌else◌, ℤ, pos, negsuc, Option, none, some,
}

-- `sizeof(int)`.
abbrev pub header_size : ℕ
header_size = 4

-- The bytes of `htonl(n)` in memory.
unfoldable pub network_bytes : ℕ → List ℕ
network_bytes n = (n / 2 ^ 24 % 256) ∷ (n / 2 ^ 16 % 256) ∷ (n / 2 ^ 8 % 256) ∷ (n % 256) ∷ []

-- `ntohl(*((unsigned int *) p))` for the bytes at `p`.
unfoldable pub host_word : List ℕ → ℕ
host_word a = get_or a 0 0 * 2 ^ 24 + get_or a 1 0 * 2 ^ 16 + get_or a 2 0 * 2 ^ 8 + get_or a 3 0

-- The unsigned int stored in an int.
unfoldable pub to_int : ℕ → ℤ
to_int w = if ltb w (2 ^ 31) then pos w else negsuc (2 ^ 32 - 1 - w)

pub record StreamItem : Type 0 where
  pub message : List ℕ
  pub message_length : ℕ
  pub servers_sock_fd : List ℕ

-- What the constructor makes: memory for header and payload, and the header in it.
unfoldable pub headed_item : (ℕ → ℕ) → ℕ → StreamItem
unfolding network_bytes
headed_item junk payload_length = record {
  message = write (allocate junk (payload_length + header_size)) 0 (network_bytes payload_length);
  message_length = payload_length + header_size;
  servers_sock_fd = [];
}

-- The constructor; `none` where the sum of the lengths overflows an int.
unfoldable pub stream_item : (ℕ → ℕ) → ℕ → Option StreamItem
stream_item junk payload_length =
    if ltb (payload_length + header_size) (2 ^ 31)
    then some (headed_item junk payload_length)
    else none

-- Serializing into `GetPayloadStartReference()`.
unfoldable pub put_payload : List ℕ → StreamItem → StreamItem
put_payload payload item = record item { message = write item.message header_size payload }
