-- ===== src/Sink/Framing/Step.antt =====
-- One round of the loop of `_ReadCallback` (server/DataSink.cpp), for a connection on which the frames `ms` arrive: what is in the buffer,
-- followed by what is still to come, is their encoding.
use wall_mon.Base.{
  ℕ, ◌+◌, ◌*◌, ◌^◌, ◌≤◌, ◌<◌, ◌≡◌, refl, sym, ap, ◌∙◌, inl, inr, arith, some, List, [], ◌∷◌, ◌++◌,
  length, lt→ltb, take, drop, split_off, get_or-take, get_or-append, pos, ltb, if◌then◌else◌,
  Bool-cases, append_assoc, length-drop,
}
use wall_mon.Base.Results.{◌>>=◌}
use native.Mathlib.Nat.{add-zero}
use wall_mon.ByteBuffer.{ByteBuffer, resize, move}
use wall_mon.ByteBuffer.Invariant.{IsValid, resize-IsValid}
use wall_mon.ByteBuffer.Contents.{
  contents, length-contents, contents-resize, bytes_read_lem, slice-contents,
}
use wall_mon.Router.{RouterItem, route}
use wall_mon.Wire.{network_bytes, host_word, to_int}
use wall_mon.Wire.RoundTrip.{
  frame, frames, length-network_bytes, host_word-network_bytes, to_int_small,
}
use wall_mon.Sink.Reader.{Connection, message_length, push_routed, take_message, grow}

-- Messages that the router takes and for which no capacity overflows an int: not empty, and with
-- the header no longer than 2^30 bytes.
abbrev pub AllSized : List (List ℕ) → Type 0
AllSized [] = Unit
AllSized (m ∷ ms) = (0 < length m) × (length m + 4 ≤ 2 ^ 30) × AllSized ms

abbrev pub item_of : List ℕ → RouterItem
item_of m = record { message = m; size = length m }

-- Not all of the first frame is there yet.
abbrev pub Waits : List (List ℕ) → ℕ → Type 0
Waits [] size = size ≡ 0
Waits (m ∷ ms) size = size < 4 + length m

pub record Streaming (ms : List (List ℕ)) (future : List ℕ) (c : Connection) : Type 0 where
  pub valid : IsValid c.buffer
  pub stream : contents c.buffer ++ future ≡ frames ms
  pub big : 4 < c.buffer.capacity

host_word-take : (n : ℕ) (a : List ℕ) → 4 ≤ n → host_word (take n a) ≡ host_word a
unfolding host_word
host_word-take n a h =
    omega
      (arith, get_or-take 0 n a 0, get_or-take 1 n a 0, get_or-take 2 n a 0, get_or-take 3 n a 0)

host_word-append : (a b : List ℕ) → 4 ≤ length a → host_word (a ++ b) ≡ host_word a
unfolding host_word
host_word-append a b h = omega (
  arith,
  get_or-append 0 a b 0,
  get_or-append 1 a b 0,
  get_or-append 2 a b 0,
  get_or-append 3 a b 0,
)

-- The header that the loop reads is the length of the first message.
pub message_length-frame :
    (m : List ℕ) (rest future : List ℕ) (b : ByteBuffer)
    → IsValid b
    → 4 ≤ b.size
    → length m < 2 ^ 31
    → contents b ++ future ≡ frame m ++ rest
    → message_length b ≡ pos (length m)
unfolding message_length
message_length-frame m rest future b v h small e = ap to_int word ∙ to_int_small (length m) small
  where
    word : host_word (drop b.tail b.buffer) ≡ length m
    word =
        sym (host_word-take b.size (drop b.tail b.buffer) h)
        ∙ sym (host_word-append (contents b) future (omega (arith, length-contents b v)))
        ∙ ap host_word (e ∙ append_assoc (network_bytes (length m)) m rest)
        ∙ host_word-network_bytes (length m) (m ++ rest) (omega arith)

route-item_of :
    (bytes m : List ℕ)
    → 0 < length m
    → take (length m) bytes ≡ m
    → route bytes (pos (length m)) ≡ some (some (item_of m))
unfolding route
route-item_of bytes m h e = ground (arith, e)

-- A whole message is in the buffer: it goes to the router, and the rest stays.
pub take_message-frame :
    (m : List ℕ) (ms : List (List ℕ)) (future : List ℕ) (c : Connection)
    → 0 < length m
    → length m + 4 ≤ c.buffer.size
    → Streaming (m ∷ ms) future c
    → (c' : Connection) × (take_message (pos (length m)) c ≡ some c')
      × Streaming ms future c'
      × (c'.routed ≡ c.routed ++ (item_of m ∷ []))
      × (c'.buffer.size < c.buffer.size)
unfolding take_message push_routed
take_message-frame m ms future c some_byte fits s =
    let b = c.buffer in
    let hdr = network_bytes (length m) in
    let (b1, e1, v1, p1, k1) = bytes_read_lem 4 b s.valid (omega arith) in
    let l0 = length-contents b s.valid in
    let l1 = length-contents b1 v1 in
    let cut1 =
      split_off 4 (contents b) future hdr (m ++ frames ms)
        (s.stream ∙ append_assoc hdr m (frames ms)) (length-network_bytes (length m))
        (omega arith) in
    let d1 = length-drop 4 (contents b) in
    let d2 = ap length k1 in
    let cut2 =
      split_off (length m) (contents b1) future m (frames ms) (rw k1 cut1.1) refl (omega arith) in
    let (b2, e2, v2, p2, k2) = bytes_read_lem (length m) b1 v1 (omega arith) in
    let l2 = length-contents b2 v2 in
    let d3 = ap length k2 in
    let d4 = length-drop (length m) (contents b1) in
    let shown : take (length m) (drop b1.tail b1.buffer) ≡ m =
      slice-contents (length m) b1 (omega arith) ∙ cut2.0 in
    (
      record { buffer = b2; routed = c.routed ++ (item_of m ∷ []) },
      rw (e1, take_message) (rw (route-item_of (drop b1.tail b1.buffer) m some_byte shown) (rw e2)),
      record { valid = v2; stream = rw k2 cut2.1; big = omega arith },
      refl,
      omega arith,
    )

-- The new capacity.
abbrev grown : ℕ → ℕ → ℕ
grown n capacity = if ltb (capacity * 2) n then n else capacity * 2

grow-resize :
    (junk : ℕ → ℕ) (n : ℕ) (c : Connection)
    → c.buffer.capacity * 2 < 2 ^ 31
    → grow junk (pos n) c
      ≡ (resize junk (grown n c.buffer.capacity) c.buffer >>= λ b. some (record c { buffer = b }))
unfolding grow
grow-resize junk n c h = rw (lt→ltb (c.buffer.capacity * 2) (2 ^ 31) h) (
    simp add-zero (elim (Bool-cases (ltb (c.buffer.capacity * 2) n)) [
      | inl big ↦ rw big
      | inr double ↦ rw double
    ]))

resize-some :
    (junk : ℕ → ℕ) (n : ℕ) (b : ByteBuffer)
    → b.size ≤ n
    → 0 < n
    → resize junk n b ≡ some (move junk n b)
unfolding resize
resize-some junk n b h p = ground arith

-- A message that the buffer cannot hold: the buffer grows, and holds the same bytes.
pub grow-Streaming :
    (junk : ℕ → ℕ) (m : List ℕ) (ms : List (List ℕ)) (future : List ℕ) (c : Connection)
    → Streaming (m ∷ ms) future c
    → c.buffer.capacity * 2 < 2 ^ 31
    → (c' : Connection) × (grow junk (pos (length m)) c ≡ some c')
      × Streaming (m ∷ ms) future c'
      × (c'.routed ≡ c.routed)
      × (c'.buffer.size ≡ c.buffer.size)
      × (c.buffer.capacity < c'.buffer.capacity)
grow-Streaming junk m ms future c s below =
    let b = c.buffer in
    let k : ℕ = grown (length m) b.capacity in
    let e = resize-some junk k b (ground arith) (ground arith) in
    let r = resize-IsValid junk k b e in
    (
      record c { buffer = move junk k b },
      grow-resize junk (length m) c below ∙ rw e,
      record {
        valid = r.0;
        stream = rw (contents-resize junk k b s.valid e) s.stream;
        big = ground arith;
      },
      refl,
      r.2,
      ground (arith, r.1),
    )
