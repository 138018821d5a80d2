-- ===== src/Sink/Framing/Loop.antt =====
-- The loop of `_ReadCallback` (server/DataSink.cpp) as a whole.
use wall_mon.Base.{
  ℕ, zero, suc, ◌+◌, ◌-◌, ◌≤◌, ◌<◌, ◌≡◌, refl, sym, ap, ◌∙◌, inl, inr, arith, Option, some, List,
  [], ◌∷◌, ◌++◌, ◌^◌, map, length, if◌then◌else◌, pos, ltb_ℤ, ◌-ℤ◌, ltb, Bool-cases, append_assoc,
  append-nil, length-append, ltb→lt, lt→ltb, ltb→ge,
}
use wall_mon.Base.Results.{◌>>=◌}
use wall_mon.ByteBuffer.Contents.{contents, length-contents}
use wall_mon.Wire.RoundTrip.{frames}
use wall_mon.Sink.Reader.{Connection, message_length, take_message, grow, read_messages}
use wall_mon.Sink.Framing.Step.{
  AllSized, item_of, Waits, Streaming, message_length-frame, take_message-frame, grow-Streaming,
}

-- What the loop makes of a connection: it routes the messages `done`, and waits for the others
-- with room in the buffer.
pub record Cut (ms : List (List ℕ)) (future : List ℕ) (c : Connection) (o : Option Connection)
    : Type 0 where
  pub done : List (List ℕ)
  pub left : List (List ℕ)
  pub after : Connection
  pub returned : o ≡ some after
  pub split : ms ≡ done ++ left
  pub routed : after.routed ≡ c.routed ++ map item_of done
  pub streaming : Streaming left future after
  pub waits : Waits left after.buffer.size
  pub room : after.buffer.size < after.buffer.capacity

ltb_ℤ-sub : (a n : ℕ) → 4 < a → ltb_ℤ (pos a -ℤ pos 4) (pos n) ≡ ltb (a - 4) n
ltb_ℤ-sub a n h = ground arith

ltb_ℤ-pos : (a n : ℕ) → ltb_ℤ (pos a) (pos n) ≡ ltb a n
ltb_ℤ-pos a n = ground arith

-- The loop's tests, once the header is known to say `n`.
read_messages-round :
    (junk : ℕ → ℕ) (fuel n : ℕ) (c : Connection)
    → message_length c.buffer ≡ pos n
    → 4 < c.buffer.size
    → 4 < c.buffer.capacity
    → read_messages junk (suc fuel) c ≡ (
        if ltb (c.buffer.capacity - 4) n
        then grow junk (pos n) c
        else (if ltb (c.buffer.size - 4) n
            then some c
            else (take_message (pos n) c >>= read_messages junk fuel)))
unfolding read_messages
read_messages-round junk fuel n c e h k =
    rw (
      e,
      lt→ltb 4 c.buffer.size h,
      ltb_ℤ-sub c.buffer.capacity n k,
      ltb_ℤ-pos (c.buffer.size - 4) n,
    )

-- The loop stops by its own test.
read_messages-stop :
    (junk : ℕ → ℕ) (fuel : ℕ) (c : Connection)
    → c.buffer.size ≤ 4
    → read_messages junk fuel c ≡ some c
unfolding read_messages
read_messages-stop junk zero c h = ground arith
read_messages-stop junk (suc fuel) c h = ground arith

-- Four bytes or fewer are no whole frame of a message that is not empty.
short-Waits :
    (ms : List (List ℕ)) (future : List ℕ) (c : Connection)
    → AllSized ms
    → Streaming ms future c
    → c.buffer.size ≤ 4
    → Waits ms c.buffer.size
short-Waits [] future c a s h = omega (
  arith,
  length-contents c.buffer s.valid,
  length-append (contents c.buffer) future,
  ap length s.stream,
)
short-Waits (m ∷ ms) future c a s h = omega (arith, a.0)

stay-Cut :
    (ms : List (List ℕ)) (future : List ℕ) (c : Connection) (o : Option Connection)
    → o ≡ some c
    → Streaming ms future c
    → Waits ms c.buffer.size
    → c.buffer.size < c.buffer.capacity
    → Cut ms future c o
stay-Cut ms future c o e s w r = record {
  done = [];
  left = ms;
  after = c;
  returned = e;
  split = refl;
  routed = sym (append-nil c.routed);
  streaming = s;
  waits = w;
  room = r;
}

grow-Cut :
    (junk : ℕ → ℕ) (m : List ℕ) (ms : List (List ℕ)) (future : List ℕ) (c : Connection)
    → Streaming (m ∷ ms) future c
    → c.buffer.capacity < length m + 4
    → length m + 4 ≤ 2 ^ 30
    → Cut (m ∷ ms) future c (grow junk (pos (length m)) c)
grow-Cut junk m ms future c s h small =
    let (c', e, s', r, z, k) = grow-Streaming junk m ms future c s (omega (arith, h, small)) in
    record {
      done = [];
      left = m ∷ ms;
      after = c';
      returned = e;
      split = refl;
      routed = r ∙ sym (append-nil c.routed);
      streaming = s';
      waits = omega (arith, s.valid);
      room = omega (arith, s.valid);
    }

take-Cut :
    (m : List ℕ) (ms : List (List ℕ)) (future : List ℕ) (c c' : Connection) (o : Option Connection)
    → c'.routed ≡ c.routed ++ (item_of m ∷ [])
    → Cut ms future c' o
    → Cut (m ∷ ms) future c o
take-Cut m ms future c c' o r k = record {
  done = m ∷ k.done;
  left = k.left;
  after = k.after;
  returned = k.returned;
  split = ap (λ t. m ∷ t) k.split;
  routed = k.routed ∙ rw (r, append_assoc);
  streaming = k.streaming;
  waits = k.waits;
  room = k.room;
}

-- What a valid buffer of more than 4 bytes holds, and then what is still to come, are the frames of
-- messages, none of them empty and each, with its header, no longer than 2^30 bytes. With fuel for each byte held the loop
-- ends without a failed assertion: it has routed a first part of the messages, whole and in order,
-- what is left in the buffer and to come are the frames of the rest, of which no first one is all
-- there, and the buffer has room for more bytes.
pub read_messages-Cut :
    (junk : ℕ → ℕ) (fuel : ℕ) (ms : List (List ℕ)) (future : List ℕ) (c : Connection)
    → AllSized ms
    → Streaming ms future c
    → c.buffer.size ≤ fuel
    → Cut ms future c (read_messages junk fuel c)
read_messages-Cut junk zero ms future c a s h =
    stay-Cut ms future c _ (read_messages-stop junk zero c (omega arith)) s
      (short-Waits ms future c a s (omega arith)) (omega (arith, s.big))
read_messages-Cut junk (suc fuel) [] future c a s h =
    stay-Cut [] future c _ (read_messages-stop junk (suc fuel) c none_left) s
      (short-Waits [] future c a s none_left) (omega (arith, s.big, none_left))
  where
    none_left : c.buffer.size ≤ 4
    none_left = omega (
      arith,
      length-contents c.buffer s.valid,
      length-append (contents c.buffer) future,
      ap length s.stream,
    )
read_messages-Cut junk (suc fuel) (m ∷ ms) future c a s h =
    elim (Bool-cases (ltb 4 c.buffer.size)) [
      | inr few ↦
          let le = ltb→ge 4 c.buffer.size few in
          stay-Cut (m ∷ ms) future c _ (read_messages-stop junk (suc fuel) c le) s
            (short-Waits (m ∷ ms) future c a s le) (omega (arith, s.big, le))
      | inl more ↦
          let lt = ltb→lt 4 c.buffer.size more in
          let e =
            message_length-frame m (frames ms) future c.buffer s.valid (omega arith)
              (omega (arith, a.1)) s.stream in
          rw (read_messages-round junk fuel (length m) c e lt s.big)
            (elim (Bool-cases (ltb (c.buffer.capacity - 4) (length m))) [
              | inl big ↦ rw big (grow-Cut junk m ms future c s (ground arith) a.1)
              | inr fits ↦ rw fits (elim (Bool-cases (ltb (c.buffer.size - 4) (length m))) [
                | inl part ↦
                    rw part (stay-Cut (m ∷ ms) future c _ refl s (ground arith) (ground arith))
                | inr whole ↦ rw whole (
                    let (c', t, s', r, z) = take_message-frame m ms future c a.0 (ground arith) s in
                    rw t (
                      take-Cut m ms future c c' _ r
                        (read_messages-Cut junk fuel ms future c' a.2 s' (omega arith))))
              ])
            ])
    ]
