-- ===== src/Tests/BufferTests.antt =====
-- lib/ByteBuffer.cpp, daemon/StreamItem.cpp and lib/IoLogger.cpp.
use wall_mon.Base.{ℕ, ◌≡◌, arith, some, [], ◌∷◌, length}
use wall_mon.ByteBuffer.{ByteBuffer, pack, get_continuous_bytes_left}
use wall_mon.ByteBuffer.Invariant.{IsValid}
use wall_mon.ByteBuffer.Contents.{contents, contents-pack, receive, receive_lem}
use wall_mon.Wire.{StreamItem, stream_item, put_payload}
use wall_mon.Wire.RoundTrip.{frame, put_payload-stream_item}

-- Four of eight bytes, in the middle.
abbrev pub middle : ByteBuffer
middle = record {
  buffer = 0 ∷ 0 ∷ 0 ∷ 7 ∷ 8 ∷ 9 ∷ 10 ∷ 0 ∷ [];
  capacity = 8;
  size = 4;
  head = 7;
  tail = 3;
}

pub middle-IsValid : IsValid middle
middle-IsValid = omega arith

abbrev zeros : ℕ → ℕ
zeros n = 0

contents-pack_example : contents (pack middle) ≡ 7 ∷ 8 ∷ 9 ∷ 10 ∷ []
contents-pack_example = contents-pack middle middle-IsValid

receive_lem_example :
    (c : ByteBuffer) × (receive (11 ∷ []) middle ≡ some c)
    × IsValid c
    × (c.capacity ≡ 8)
    × (contents c ≡ 7 ∷ 8 ∷ 9 ∷ 10 ∷ 11 ∷ [])
unfolding get_continuous_bytes_left
receive_lem_example = receive_lem (11 ∷ []) middle middle-IsValid (omega arith)

put_payload-stream_item_example :
    (x : StreamItem) × (stream_item zeros 2 ≡ some x)
    × ((put_payload (65 ∷ 66 ∷ []) x).message ≡ frame (65 ∷ 66 ∷ []))
    × ((put_payload (65 ∷ 66 ∷ []) x).message_length ≡ length (frame (65 ∷ 66 ∷ [])))
put_payload-stream_item_example = put_payload-stream_item zeros (65 ∷ 66 ∷ []) (omega arith)
