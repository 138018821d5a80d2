-- ===== src/ByteBuffer.antt =====
-- lib/ByteBuffer.h and lib/ByteBuffer.cpp: the receive buffer of a client connection.
-- The object is a record. The pointers that GetReadReference and GetWriteReference return are
-- the indices `tail` and `head` into `buffer`. An operation that asserts returns `none` where an
-- assertion fails, and where an index would become negative.
pub mod Invariant
pub mod Contents
use wall_mon.Base.{
  ℕ, zero, suc, ◌+◌, ◌-◌, ◌≤◌, Bool, true, false, ◌&&◌, ◌||◌, Option, none, some, List, get_or, set,
  write, slice, allocate, ltb, leb, ◌==◌, if◌then◌else◌, ℤ, pos, negsuc,
}

pub record ByteBuffer : Type 0 where
  pub buffer : List ℕ
  pub capacity : ℕ
  pub size : ℕ
  pub head : ℕ
  pub tail : ℕ

-- The constructor; `junk` gives the bytes of the memory that `new` returns.
unfoldable pub init : (ℕ → ℕ) → ℕ → Option ByteBuffer
init junk buffer_size =
    if ltb 0 buffer_size
    then some (record {
      buffer = allocate junk buffer_size;
      capacity = buffer_size;
      size = 0;
      head = 0;
      tail = 0;
    })
    else none

-- What `Resize` makes once its assertions have passed.
unfoldable pub move : (ℕ → ℕ) → ℕ → ByteBuffer → ByteBuffer
move junk new_capacity b = record {
  buffer = write (allocate junk new_capacity) 0 (slice b.buffer b.tail b.size);
  capacity = new_capacity;
  size = b.size;
  head = b.size;
  tail = 0;
}

unfoldable pub resize : (ℕ → ℕ) → ℕ → ByteBuffer → Option ByteBuffer
unfolding move
resize junk new_capacity b =
    if leb b.size new_capacity && ltb 0 new_capacity then some (move junk new_capacity b) else none

-- `for (; i < _size; i++) _buffer[i] = _buffer[_tail + i];`, with `left` rounds to go.
unfoldable pub shift_down : ℕ → ℕ → ℕ → List ℕ → List ℕ
shift_down zero i tail a = a
shift_down (suc left) i tail a = shift_down left (suc i) tail (set a i (get_or a (tail + i) 0))

-- What `Defragment` does once its assertion has passed.
unfoldable pub pack : ByteBuffer → ByteBuffer
pack b =
    if b.tail == 0 || b.size == b.capacity
    then b
    else record b { buffer = shift_down b.size 0 b.tail b.buffer; head = b.size; tail = 0 }

unfoldable pub defragment : ByteBuffer → Option ByteBuffer
unfolding pack
defragment b = if b.size + b.tail == b.head then some (pack b) else none

unfoldable pub get_bytes_left : ByteBuffer → ℕ
get_bytes_left b = b.capacity - b.size

unfoldable pub get_continuous_bytes_left : ByteBuffer → ℕ
get_continuous_bytes_left b = b.capacity - b.head

unfoldable pub bytes_written : ℤ → ByteBuffer → Option ByteBuffer
bytes_written (pos n) b =
    if leb n b.capacity then some (record b { size = b.size + n; head = b.head + n }) else none
bytes_written (negsuc n) b =
    if leb (suc n) b.size && leb (suc n) b.head
    then some (record b { size = b.size - suc n; head = b.head - suc n })
    else none

unfoldable pub bytes_read : ℤ → ByteBuffer → Option ByteBuffer
bytes_read (pos n) b =
    if leb n b.size && (leb n b.capacity && leb (b.tail + n) b.head)
    then some (record b { size = b.size - n; tail = b.tail + n })
    else none
bytes_read (negsuc n) b =
    if leb (suc n) b.tail && leb (b.tail - suc n) b.head
    then some (record b { size = b.size + suc n; tail = b.tail - suc n })
    else none
