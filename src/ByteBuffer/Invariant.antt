-- ===== src/ByteBuffer/Invariant.antt =====
-- The representation invariant of lib/ByteBuffer.cpp, and the room that its operations leave.
use wall_mon.Base.{
  ℕ, zero, suc, ◌+◌, ◌-◌, ◌≤◌, ◌<◌, ◌≡◌, refl, ◌∙◌, arith, List, some, length, get_or, set,
  length-set, length-allocate, length-write, slice, allocate, pos,
}
use wall_mon.ByteBuffer.{
  ByteBuffer, init, resize, shift_down, pack, defragment, get_bytes_left, get_continuous_bytes_left,
  bytes_written, bytes_read,
}

pub record IsValid (b : ByteBuffer) : Type 0 where
  pub stored : length b.buffer ≡ b.capacity
  pub span : b.size + b.tail ≡ b.head
  pub fits : b.head ≤ b.capacity
  pub positive : 0 < b.capacity

pub length-shift_down :
    (left i tail : ℕ) (a : List ℕ) → length (shift_down left i tail a) ≡ length a
unfolding shift_down
length-shift_down zero i tail a = refl
length-shift_down (suc left) i tail a =
    length-shift_down left (suc i) tail (set a i (get_or a (tail + i) 0)) ∙ length-set a i _

pub init-IsValid :
    (junk : ℕ → ℕ) (n : ℕ) {b : ByteBuffer} → init junk n ≡ some b → IsValid b × (b.size ≡ 0)
unfolding init
init-IsValid junk n e = ground (arith, length-allocate junk n)

pub resize-IsValid :
    (junk : ℕ → ℕ) (n : ℕ) (b : ByteBuffer) {c : ByteBuffer}
    → resize junk n b ≡ some c
    → IsValid c × (c.capacity ≡ n) × (c.size ≡ b.size)
unfolding resize
resize-IsValid junk n b e =
    ground (
      arith,
      length-write (allocate junk n) 0 (slice b.buffer b.tail b.size),
      length-allocate junk n,
    )

pub pack-IsValid :
    (b : ByteBuffer)
    → IsValid b
    → IsValid (pack b)
      × ((pack b).size ≡ b.size)
      × ((pack b).capacity ≡ b.capacity)
      × (get_continuous_bytes_left (pack b) ≡ get_bytes_left b)
unfolding pack get_continuous_bytes_left get_bytes_left
pack-IsValid b v = ground (arith, length-shift_down b.size 0 b.tail b.buffer)

-- A valid buffer passes the assertion of `Defragment`.
pub defragment-eq-pack : (b : ByteBuffer) → IsValid b → defragment b ≡ some (pack b)
unfolding defragment
defragment-eq-pack b v = ground arith

pub bytes_written-IsValid :
    (n : ℕ) (b : ByteBuffer)
    → IsValid b
    → n ≤ get_continuous_bytes_left b
    → (c : ByteBuffer) × (bytes_written (pos n) b ≡ some c) × IsValid c × (c.size ≡ b.size + n)
unfolding bytes_written get_continuous_bytes_left
bytes_written-IsValid n b v h =
    (record b { size = b.size + n; head = b.head + n }, ground arith, ground arith, refl)

pub bytes_read-IsValid :
    (n : ℕ) (b : ByteBuffer)
    → IsValid b
    → n ≤ b.size
    → (c : ByteBuffer) × (bytes_read (pos n) b ≡ some c) × IsValid c × (c.size ≡ b.size - n)
unfolding bytes_read
bytes_read-IsValid n b v h =
    (record b { size = b.size - n; tail = b.tail + n }, ground arith, ground arith, refl)
