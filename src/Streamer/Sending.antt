-- ===== src/Streamer/Sending.antt =====
-- What `_SendAll` of daemon/Streamer.cpp puts on the wire.
use wall_mon.Base.{
  ℕ, zero, suc, ◌+◌, ◌-◌, ◌≤◌, ◌<◌, ◌≡◌, refl, sym, ap, ◌∙◌, inl, inr, arith, Option, none, some,
  List, [], ◌∷◌, ◌++◌, slice, take, drop, ltb, ◌==◌, if◌then◌else◌, Bool-cases, ltb→lt, lt→ltb,
  ltb→ge, subst, true, append_assoc, append-nil, drop-drop,
}
use wall_mon.Streamer.{send_all}

-- The bytes that the peer of a socket gets.
unfoldable pub bytes_on : ℕ → List (ℕ × List ℕ) → List ℕ
bytes_on j [] = []
bytes_on j ((fd, xs) ∷ wire) = if fd == j then xs ++ bytes_on j wire else bytes_on j wire

-- What a blocking `send` answers when `left` bytes are to go: a failure, which ends the sending,
-- or how many of them it took, some but not more than all.
abbrev pub Answers : ℕ → List (Option ℕ) → Type 0
Answers left [] = ⊥
Answers left (none ∷ answers) = Unit
Answers left (some n ∷ answers) =
    (0 < n) × (n ≤ left) × (if ltb n left then Answers (left - n) answers else Unit)

-- No failure among them.
abbrev pub AllTaken : List (Option ℕ) → Type 0
AllTaken [] = Unit
AllTaken (none ∷ answers) = ⊥
AllTaken (some n ∷ answers) = AllTaken answers

bytes_on-append :
    (j : ℕ) (v w : List (ℕ × List ℕ)) → bytes_on j (v ++ w) ≡ bytes_on j v ++ bytes_on j w
unfolding bytes_on
bytes_on-append j [] w = refl
bytes_on-append j ((fd, xs) ∷ v) w =
    ground (arith, bytes_on-append j v w, append_assoc xs (bytes_on j v) (bytes_on j w))

take_add {ℓ} :
    {A : Type ℓ} (a b k : ℕ) (xs : List A) → k ≡ a + b → take k xs ≡ take a xs ++ take b (drop a xs)
take_add zero b k xs e = ap (λ n. take n xs) (omega arith)
take_add (suc a) b zero xs e = absurd (omega arith)
take_add (suc a) zero (suc k) [] e = refl
take_add (suc a) (suc b) (suc k) [] e = refl
take_add (suc a) b (suc k) (x ∷ xs) e = ap (λ r. x ∷ r) (take_add a b k xs (omega arith))

-- Two chunks that follow each other.
slice_add :
    (message : List ℕ) (sent a b : ℕ)
    → slice message sent (a + b) ≡ slice message sent a ++ slice message (sent + a) b
slice_add message sent a b =
    take_add a b (a + b) (drop sent message) refl
    ∙ ap (λ t. take a (drop sent message) ++ take b t) (drop-drop sent message a (sent + a) refl)

-- What a call of `_SendAll` that starts behind `sent` bytes comes to.
abbrev pub Sent :
    ℕ
    → List ℕ
    → ℕ
    → ℕ
    → List (Option ℕ)
    → List (ℕ × List ℕ)
    → Option (ℕ × List (ℕ × List ℕ))
    → Type 0
Sent fd message len sent answers wire o =
    (n : ℕ) × (w : List (ℕ × List ℕ)) × (o ≡ some (n, w))
    × (sent ≤ n)
    × (n ≤ len)
    × (AllTaken answers → n ≡ len)
    × ((j : ℕ)
        → bytes_on j w ≡ bytes_on j wire ++ (if fd == j then slice message sent (n - sent) else []))

no-chunk :
    (fd j sent : ℕ) (message bs : List ℕ)
    → bs ≡ bs ++ (if fd == j then slice message sent (sent - sent) else [])
no-chunk fd j sent message bs =
    let z : sent - sent ≡ 0 = omega arith in
    let none_sent : slice message sent (sent - sent) ≡ [] = ap (λ t. slice message sent t) z in
    elim (Bool-cases (fd == j)) [
      | inl own ↦ rw (own, none_sent) (sym (append-nil bs))
      | inr other ↦ rw other (sym (append-nil bs))
    ]

last-chunk :
    (fd j sent n : ℕ) (message : List ℕ) (wire : List (ℕ × List ℕ))
    → bytes_on j (wire ++ ((fd, slice message sent n) ∷ []))
      ≡ bytes_on j wire ++ (if fd == j then slice message sent (sent + n - sent) else [])
unfolding bytes_on
last-chunk fd j sent n message wire =
    bytes_on-append j wire ((fd, slice message sent n) ∷ []) ∙ elim (Bool-cases (fd == j)) [
      | inl own ↦
          rw (own, append-nil) (ap (λ t. bytes_on j wire ++ slice message sent t) (omega arith))
      | inr other ↦ rw other refl
    ]

-- One chunk on the wire, and what follows it.
chunk-Sent :
    (fd : ℕ) (message : List ℕ) (sent n m : ℕ) (wire w : List (ℕ × List ℕ)) (j : ℕ)
    → sent + n ≤ m
    → bytes_on j w
      ≡ bytes_on j (wire ++ ((fd, slice message sent n) ∷ []))
        ++ (if fd == j then slice message (sent + n) (m - (sent + n)) else [])
    → bytes_on j w ≡ bytes_on j wire ++ (if fd == j then slice message sent (m - sent) else [])
unfolding bytes_on
chunk-Sent fd message sent n m wire w j h e =
    e
    ∙ rw (bytes_on-append, append_assoc)
        (elim (Bool-cases (fd == j)) [
          | inl own ↦ rw own (
              rw append-nil (
                ap (λ t. bytes_on j wire ++ t)
                  (sym (slice_add message sent n (m - (sent + n)))
                    ∙ ap (λ t. slice message sent t) (omega arith))))
          | inr other ↦ rw other refl
        ])

-- Each `send` of a blocking socket takes some of the bytes that are left, or fails. Then `_SendAll`
-- returns; the bytes it has sent are the message's first, in order, each once, as many as it
-- returns, on its own socket and no other; and it returns the whole length if no `send` failed.
pub send_all-Sent :
    (fd : ℕ) (message : List ℕ) (len sent : ℕ) (answers : List (Option ℕ))
    (wire : List (ℕ × List ℕ))
    → sent ≤ len
    → Answers (len - sent) answers
    → Sent fd message len sent answers wire (send_all fd message len sent answers wire)
unfolding send_all
send_all-Sent fd message len sent [] wire h a = absurd a
send_all-Sent fd message len sent (none ∷ answers) wire h a = (
  sent,
  wire,
  refl,
  omega arith,
  h,
  (λ f. absurd f),
  λ j. no-chunk fd j sent message (bytes_on j wire),
)
send_all-Sent fd message len sent (some n ∷ answers) wire h a =
    elim (Bool-cases (ltb (sent + n) len)) [
      | inl more ↦
          let (m, w, e, lo, hi, full, on) =
            send_all-Sent fd message len (sent + n) answers
              (wire ++ ((fd, slice message sent n) ∷ [])) (omega (arith, a)) (rest more) in
          rw more
            (m, w, e, omega arith, hi, full, λ j. chunk-Sent fd message sent n m wire w j lo (on j))
      | inr last ↦ rw last (
        sent + n,
        wire ++ ((fd, slice message sent n) ∷ []),
        refl,
        omega arith,
        omega (arith, a),
        (λ f. omega (arith, a, ltb→ge (sent + n) len last)),
        λ j. last-chunk fd j sent n message wire,
      )
    ]
  where
    rest : ltb (sent + n) len ≡ true → Answers (len - (sent + n)) answers
    rest more =
        subst (λ t. Answers t answers) (omega (arith, a))
          (rw (lt→ltb n (len - sent) (omega (arith, a, ltb→lt (sent + n) len more))) at a.2)
