-- ===== src/Wire/RoundTrip.antt =====
-- The header and the message of daemon/StreamItem.cpp, written and read.
use wall_mon.Base.{
  ℕ, zero, suc, sym, ◌+◌, ◌^◌, ◌<◌, ◌≡◌, refl, ◌∙◌, ap, arith, List, [], ◌∷◌, ◌++◌, length, pos,
  take, take-write, length-write, ltb, lt→ltb, Bool-cases, inl, inr, subst, Option, none, some,
  length-allocate, length-append, allocate, write,
}
use wall_mon.Base.Results.{some_inj}
use wall_mon.Wire.{
  StreamItem, header_size, network_bytes, host_word, to_int, headed_item, stream_item, put_payload,
}

-- Any four bytes that begin with a header give its number back.
pub host_word-network_bytes :
    (n : ℕ) (rest : List ℕ) → n < 2 ^ 32 → host_word (network_bytes n ++ rest) ≡ n
unfolding host_word network_bytes
host_word-network_bytes n rest h = omega arith

pub to_int_small : (n : ℕ) → n < 2 ^ 31 → to_int n ≡ pos n
unfolding to_int
to_int_small n h = ground arith

-- A message on the wire.
abbrev pub frame : List ℕ → List ℕ
frame m = network_bytes (length m) ++ m

pub length-network_bytes : (n : ℕ) → length (network_bytes n) ≡ 4
unfolding network_bytes
length-network_bytes n = refl

pub take_all : (n : ℕ) (a : List ℕ) → length a ≡ n → take n a ≡ a
take_all zero [] h = refl
take_all zero (x ∷ a) h = absurd (omega arith)
take_all (suc n) [] h = refl
take_all (suc n) (x ∷ a) h = ap (λ r. x ∷ r) (take_all n a (omega arith))

pub length-frame : (m : List ℕ) → length (frame m) ≡ 4 + length m
length-frame m =
    length-append (network_bytes (length m)) m
    ∙ ap (λ t. t + length m) (length-network_bytes (length m))

-- With the payload serialized into it, the item is the payload's frame.
put_payload-headed_item :
    (junk : ℕ → ℕ) (m : List ℕ)
    → let item = put_payload m (headed_item junk (length m)) in
      (item.message ≡ frame m) × (item.message_length ≡ length (frame m))
unfolding put_payload headed_item
put_payload-headed_item junk m = (
  sym (take_all (4 + length m) (write headed 4 m) (length-write headed 4 m ∙ headed_length))
      ∙ take-write headed 4 (4 + length m) m refl (omega (arith, headed_length))
      ∙ ap (λ t. t ++ m)
          (take-write memory 0 4 (network_bytes (length m))
            (omega (arith, length-network_bytes (length m))) (omega (arith, memory_length))),
  omega (arith, length-frame m),
)
  where
    memory : List ℕ
    memory = allocate junk (length m + header_size)

    memory_length : length memory ≡ 4 + length m
    memory_length = omega (arith, length-allocate junk (length m + header_size))

    headed : List ℕ
    headed = write memory 0 (network_bytes (length m))

    headed_length : length headed ≡ 4 + length m
    headed_length = length-write memory 0 (network_bytes (length m)) ∙ memory_length

stream_item-headed_item :
    (junk : ℕ → ℕ) (n : ℕ) → n + 4 < 2 ^ 31 → stream_item junk n ≡ some (headed_item junk n)
unfolding stream_item
stream_item-headed_item junk n h = rw (lt→ltb (n + 4) (2 ^ 31) h) refl

-- A message whose length is an int together with its header's is composed, and with the payload
-- serialized into it, it is the payload's frame: nothing of the memory's former content is left.
pub put_payload-stream_item :
    (junk : ℕ → ℕ) (m : List ℕ)
    → length m + 4 < 2 ^ 31
    → (x : StreamItem) × (stream_item junk (length m) ≡ some x)
      × ((put_payload m x).message ≡ frame m)
      × ((put_payload m x).message_length ≡ length (frame m))
put_payload-stream_item junk m h =
    let framed = put_payload-headed_item junk m in
    (headed_item junk (length m), stream_item-headed_item junk (length m) h, framed.0, framed.1)

-- Whatever item has been composed for a payload becomes the payload's frame.
pub put_payload-composed :
    (junk : ℕ → ℕ) (m : List ℕ) (x : StreamItem)
    → stream_item junk (length m) ≡ some x
    → ((put_payload m x).message ≡ frame m) × ((put_payload m x).message_length ≡ length (frame m))
unfolding stream_item
put_payload-composed junk m x e = elim (Bool-cases (ltb (length m + 4) (2 ^ 31))) [
  | inl fits ↦
      subst
        (λ y.
          ((put_payload m y).message ≡ frame m)
          × ((put_payload m y).message_length ≡ length (frame m)))
        (some_inj _ x (rw fits at e)) (put_payload-headed_item junk m)
  | inr over ↦ absurd (let clash : ◌≡◌ {A = Option StreamItem} none (some x) = rw over at e in cc)
]

-- The frames of a sequence of messages, one behind the other.
abbrev pub frames : List (List ℕ) → List ℕ
frames [] = []
frames (m ∷ ms) = frame m ++ frames ms
