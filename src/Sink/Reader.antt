-- ===== src/Sink/Reader.antt =====
-- The loop of `_ReadCallback` in server/DataSink.cpp, which cuts the bytes of a connection into
-- messages.
use wall_mon.Base.{
  ℕ, zero, suc, ◌-◌, ◌*◌, ◌^◌, Option, none, some, List, [], ◌∷◌, ◌++◌, drop, ltb, if◌then◌else◌, ℤ,
  pos, ◌-ℤ◌, ltb_ℤ, pos_part,
}
use wall_mon.Base.Results.{◌>>=◌}
use wall_mon.ByteBuffer
use wall_mon.ByteBuffer.{ByteBuffer}
use wall_mon.Router.{RouterItem, route}
use wall_mon.Wire.{header_size, host_word, to_int}

pub record Connection : Type 0 where
  pub buffer : ByteBuffer
  pub routed : List RouterItem

-- The bytes at the read reference: the rest of the allocation.
abbrev read_reference : ByteBuffer → List ℕ
read_reference b = drop b.tail b.buffer

unfoldable pub message_length : ByteBuffer → ℤ
message_length b = to_int (host_word (read_reference b))

unfoldable pub push_routed : Option RouterItem → List RouterItem → List RouterItem
push_routed none items = items
push_routed (some item) items = items ++ (item ∷ [])

-- The branch that takes a whole message out of the buffer.
unfoldable pub take_message : ℤ → Connection → Option Connection
unfolding push_routed
take_message n c = do
  b ← ByteBuffer.bytes_read (pos header_size) c.buffer
  item ← route (read_reference b) n
  b' ← ByteBuffer.bytes_read n b
  some (record { buffer = b'; routed = push_routed item c.routed })

-- The branch that makes room for a message which the buffer cannot hold; `none` where the doubled
-- capacity overflows an int.
unfoldable pub grow : (ℕ → ℕ) → ℤ → Connection → Option Connection
grow junk n c =
    let doubled : ℕ = c.buffer.capacity * 2 in
    do
      b ←
          if ltb doubled (2 ^ 31)
          then (if ltb_ℤ (pos doubled) n
              then ByteBuffer.resize junk (pos_part n) c.buffer
              else ByteBuffer.resize junk doubled c.buffer)
          else none
      some (record c { buffer = b })

-- `while (buf->GetBytesAvailable() > 4)`, with fuel; `none` where an assertion fails, or where the
-- fuel runs out, which is enough if it is the number of bytes in the buffer.
unfoldable pub read_messages : (ℕ → ℕ) → ℕ → Connection → Option Connection
unfolding message_length
read_messages junk zero c = if ltb header_size c.buffer.size then none else some c
read_messages junk (suc fuel) c =
    let b : ByteBuffer = c.buffer in
    let n : ℤ = message_length b in
    let rest : Option Connection = take_message n c >>= read_messages junk fuel in
    if ltb header_size b.size
    then (if ltb_ℤ (pos b.capacity -ℤ pos header_size) n
        then grow junk n c
        else (if ltb_ℤ (pos (b.size - header_size)) n then some c else rest))
    else some c
