-- ===== src/ByteBuffer/Contents.antt =====
-- The bytes that a buffer of lib/ByteBuffer.cpp holds, oldest first, and what each operation does to them.
use wall_mon.Base.{
  ℕ, zero, suc, ◌+◌, ◌-◌, ◌≤◌, ◌<◌, ◌≡◌, refl, sym, ap, ◌∙◌, arith, List, ◌++◌, append-nil,
  append_assoc, Option, some, length, get_or, set, length-set, length-allocate, length-write,
  length-take, length-drop, slice, write, take, drop, allocate, take-write, drop-write, drop-drop,
  take-set, drop-set, drop-cons, drop-take, take-take, pos, inl, inr, Bool-cases, ◌==◌, ◌||◌,
}
use wall_mon.ByteBuffer.{
  ByteBuffer, resize, shift_down, pack, get_continuous_bytes_left, bytes_written, bytes_read,
}
use wall_mon.ByteBuffer.Invariant.{IsValid}

abbrev pub contents : ByteBuffer → List ℕ
contents b = slice b.buffer b.tail b.size

pub length-contents : (b : ByteBuffer) → IsValid b → length (contents b) ≡ b.size
length-contents b v =
    omega (arith, length-take b.size (drop b.tail b.buffer), length-drop b.tail b.buffer)

-- The in-place loop of `Defragment` moves the bytes from `tail` on down to the start, although
-- source and destination may overlap.
take-shift_down :
    (left i j k tail : ℕ) (a : List ℕ)
    → 0 < tail
    → k ≡ i + left
    → j ≡ tail + i
    → j + left ≤ length a
    → take k (shift_down left i tail a) ≡ take i a ++ take left (drop j a)
unfolding shift_down
take-shift_down zero i j k tail a p ek ej h = rw append-nil (ap (λ t. take t a) (omega arith))
take-shift_down (suc left) i j k tail a p ek ej h = rw (← ej) (
    take-shift_down left (suc i) (suc j) k tail moved p (omega arith) (omega arith)
      (omega (arith, length-set a i v))
    ∙ rw (
      take-set a i v (omega arith),
      drop-set (suc j) a i v (omega arith),
      append_assoc,
      drop-cons j a 0 (omega arith),
    ))
  where
    v : ℕ
    v = get_or a j 0

    moved : List ℕ
    moved = set a i v

-- What `Defragment` does to a valid buffer keeps its contents, although its loop copies within one
-- array.
pub contents-pack : (b : ByteBuffer) → IsValid b → contents (pack b) ≡ contents b
unfolding pack
contents-pack b v = elim (Bool-cases (b.tail == 0 || b.size == b.capacity)) [
  | inl stay ↦ rw (stay, pack)
  | inr move ↦
      rw (move, pack)
        (take-shift_down b.size 0 b.tail b.size b.tail b.buffer (ground arith) (omega arith)
          (omega arith) (omega arith))
]

-- A `Resize` of a valid buffer that passes its assertions keeps the contents.
pub contents-resize :
    (junk : ℕ → ℕ) (n : ℕ) (b : ByteBuffer) {c : ByteBuffer}
    → IsValid b
    → resize junk n b ≡ some c
    → contents c ≡ contents b
unfolding resize
contents-resize junk n b {c} v e = ground (arith, copied)
  where
    fresh : List ℕ
    fresh = allocate junk n

    copied : b.size ≤ n → take b.size (write fresh 0 (contents b)) ≡ contents b
    copied h =
        take-write fresh 0 b.size (contents b) (omega (arith, length-contents b v))
          (omega (arith, length-allocate junk n))

-- `recv` into the write reference, and `BytesWritten` of what it returned.
unfoldable pub receive : List ℕ → ByteBuffer → Option ByteBuffer
receive xs b = bytes_written (pos (length xs)) (record b { buffer = write b.buffer b.head xs })

-- On a valid buffer with room for them behind the head, the write of bytes into the write
-- reference and `BytesWritten` of their number pass the assertions, keep the buffer valid and its
-- capacity, and append the bytes to the contents.
pub receive_lem :
    (xs : List ℕ) (b : ByteBuffer)
    → IsValid b
    → length xs ≤ get_continuous_bytes_left b
    → (c : ByteBuffer) × (receive xs b ≡ some c)
      × IsValid c
      × (c.capacity ≡ b.capacity)
      × (contents c ≡ contents b ++ xs)
unfolding receive bytes_written get_continuous_bytes_left
receive_lem xs b v h = (
  record b { buffer = a; size = b.size + length xs; head = b.head + length xs },
  ground arith,
  ground (arith, length-write b.buffer b.head xs),
  refl,
  rw (drop-write b.tail b.buffer b.size b.head xs (omega arith)) (
      take-write (drop b.tail b.buffer) b.size _ xs refl
        (omega (arith, length-drop b.tail b.buffer))),
)
  where
    a : List ℕ
    a = write b.buffer b.head xs

-- On a valid buffer that holds `n` bytes at least, `BytesRead(n)` passes its assertions, keeps the
-- buffer valid and its capacity, and drops the oldest `n` bytes of the contents.
pub bytes_read_lem :
    (n : ℕ) (b : ByteBuffer)
    → IsValid b
    → n ≤ b.size
    → (c : ByteBuffer) × (bytes_read (pos n) b ≡ some c)
      × IsValid c
      × (c.capacity ≡ b.capacity)
      × (contents c ≡ drop n (contents b))
unfolding bytes_read
bytes_read_lem n b v h = (
  record b { size = b.size - n; tail = b.tail + n },
  ground arith,
  ground arith,
  refl,
  rw (
    drop-take n b.size (b.size - n) (drop b.tail b.buffer) (omega arith),
    drop-drop b.tail b.buffer n _ refl,
  ),
)

-- What the read reference shows is the start of the contents.
pub slice-contents :
    (n : ℕ) (b : ByteBuffer) → n ≤ b.size → slice b.buffer b.tail n ≡ take n (contents b)
slice-contents n b h = sym (take-take n b.size (drop b.tail b.buffer) h)
