-- ===== src/Queue/Delivery.antt =====
-- Every value that was pushed is delivered once, in order, and `None` comes only after the last one.
use rtn_mq.Prelude.{
  ℕ, ◌≤◌, ◌<◌, ◌≡◌, refl, sym, ap, ◌∙◌, Bool, true, false, none, some, List, [], ◌∷◌, ◌++◌, arith,
  length, length-append, ◌⊎◌, inl, inr,
}
use native.Mathlib.Decide.{dec_lt}
use mathlib.Core.List.{append_assoc, append-nil}
use rtn_mq.Queue.{
  Rtrb, RtrbLaws, Notify, SenderAt, ReceiverAt, Channel, Event, sends, sender_moves, sender_drops,
  receives, receiver_moves, recv_cancelled, receiver_drops, channel, try_send, sender_move,
  drop_sender, recv, receiver_move, cancel_recv, drop_receiver, step, run,
}

module _ {A Ring N : Type 0} (r : Rtrb A Ring) (laws : RtrbLaws r) (n : Notify N) where
  -- A sender that has stored `sender_closed` pushes no more.
  abbrev may_push : SenderAt A → Bool
  may_push SenderAt.closing = false
  may_push SenderAt.gone = false
  may_push _ = true

  record Inv (capacity : ℕ) (s : Channel A Ring N) : Type 0 where
    kept : s.sent ≡ s.received ++ laws.contents s.ring
    sized : laws.capacity s.ring ≡ capacity
    bounded : length (laws.contents s.ring) ≤ capacity
    closed : s.sender_closed ≡ true → may_push s.sender ≡ false
    drained : s.receiver ≡ ReceiverAt.draining → s.sender_closed ≡ true
    finished : s.finished ≡ true → (s.sender_closed ≡ true) × (laws.contents s.ring ≡ [])

  -- A pop after `got`: it fails on the empty ring only, and otherwise takes the oldest value.
  Pops : List A → Ring → Type 0
  Pops got b =
      ((laws.contents b ≡ []) × (r.pop b ≡ none))
      ⊎ ((a : A) × (b' : Ring) × (r.pop b ≡ some (a, b'))
          × (laws.contents b ≡ a ∷ laws.contents b')
          × (got ++ laws.contents b ≡ (got ++ a ∷ []) ++ laws.contents b')
          × (laws.capacity b' ≡ laws.capacity b))

  pop-Pops_at : (got : List A) (b : Ring) (xs : List A) → laws.contents b ≡ xs → Pops got b
  unfolding Pops
  pop-Pops_at got b [] e = inl (e, laws.pop_none b e)
  pop-Pops_at got b (a ∷ xs) e =
      let (b', p, c, k) = laws.pop_some b a xs e in
      let split : laws.contents b ≡ a ∷ laws.contents b' = e ∙ ap (◌∷◌ a) (sym c) in
      inr (
        a,
        b',
        p,
        split,
        ap (◌++◌ got) split ∙ sym (append_assoc got (a ∷ []) (laws.contents b')),
        k,
      )

  pop-Pops : (got : List A) (b : Ring) → Pops got b
  pop-Pops got b = pop-Pops_at got b _ refl

  Pushes : A → Ring → Type 0
  Pushes a b =
      (r.push a b ≡ none)
      ⊎ ((b' : Ring) × (r.push a b ≡ some b')
          × (laws.contents b' ≡ laws.contents b ++ a ∷ [])
          × (laws.capacity b' ≡ laws.capacity b)
          × (length (laws.contents b) < laws.capacity b))

  push-Pushes : (a : A) (b : Ring) → Pushes a b
  unfolding Pushes
  push-Pushes a b = elim (dec_lt (length (laws.contents b)) (laws.capacity b)) [
    | yes h ↦ let (b', p, c, k) = laws.push_room a b h in inr (b', p, c, k, h)
    | no h ↦ inl (laws.push_full a b (omega arith))
  ]

  sender_move-Inv :
      (capacity : ℕ) (p : SenderAt A) (s : Channel A Ring N)
      → s.sender ≡ p
      → Inv capacity s
      → Inv capacity (sender_move r n p s)
  unfolding sender_move Pushes
  sender_move-Inv k SenderAt.idle s e i = i
  sender_move-Inv k (SenderAt.checked a) s e i = ground (
    arith,
    push-Pushes a s.ring,
    i.closed,
    i.drained,
    i.finished,
    append_assoc s.received (laws.contents s.ring) (a ∷ []),
    length-append (laws.contents s.ring) (a ∷ []),
  )
  sender_move-Inv k SenderAt.pushed s e i = ground (arith, i.closed, i.drained, i.finished)
  sender_move-Inv k SenderAt.closing s e i = ground (arith, i.closed, i.drained, i.finished)
  sender_move-Inv k SenderAt.gone s e i = i

  try_send-Inv :
      (capacity : ℕ) (a : A) (p : SenderAt A) (s : Channel A Ring N)
      → s.sender ≡ p
      → Inv capacity s
      → Inv capacity (try_send r n a p s)
  unfolding try_send
  try_send-Inv k a SenderAt.idle s e i = ground (arith, i.closed, i.drained, i.finished)
  try_send-Inv k a _ s e i = i

  drop_sender-Inv :
      (capacity : ℕ) (p : SenderAt A) (s : Channel A Ring N)
      → s.sender ≡ p
      → Inv capacity s
      → Inv capacity (drop_sender r n p s)
  unfolding drop_sender
  drop_sender-Inv k SenderAt.idle s e i = ground (arith, i.closed, i.drained, i.finished)
  drop_sender-Inv k _ s e i = i

  recv-Inv :
      (capacity : ℕ) (p : ReceiverAt) (s : Channel A Ring N)
      → s.receiver ≡ p
      → Inv capacity s
      → Inv capacity (recv r n p s)
  unfolding recv
  recv-Inv k ReceiverAt.idle s e i = ground (arith, i.closed, i.drained, i.finished)
  recv-Inv k _ s e i = i

  cancel_recv-Inv :
      (capacity : ℕ) (p : ReceiverAt) (s : Channel A Ring N)
      → s.receiver ≡ p
      → Inv capacity s
      → Inv capacity (cancel_recv r n p s)
  unfolding cancel_recv
  cancel_recv-Inv k ReceiverAt.waiting s e i = ground (arith, i.closed, i.drained, i.finished)
  cancel_recv-Inv k _ s e i = i

  drop_receiver-Inv :
      (capacity : ℕ) (p : ReceiverAt) (s : Channel A Ring N)
      → s.receiver ≡ p
      → Inv capacity s
      → Inv capacity (drop_receiver r n p s)
  unfolding drop_receiver
  drop_receiver-Inv k ReceiverAt.idle s e i = ground (arith, i.closed, i.drained, i.finished)
  drop_receiver-Inv k _ s e i = i

  receiver_move-Inv :
      (capacity : ℕ) (p : ReceiverAt) (s : Channel A Ring N)
      → s.receiver ≡ p
      → Inv capacity s
      → Inv capacity (receiver_move r n p s)
  unfolding receiver_move Pops
  receiver_move-Inv k ReceiverAt.enabled s e i =
      ground (arith, pop-Pops s.received s.ring, i.closed, i.drained, i.finished)
  receiver_move-Inv k ReceiverAt.draining s e i =
      ground (arith, pop-Pops s.received s.ring, i.closed, i.drained, i.finished)
  receiver_move-Inv k ReceiverAt.idle s e i = i
  receiver_move-Inv k ReceiverAt.gone s e i = i
  receiver_move-Inv k p s e i = ground (arith, i.closed, i.drained, i.finished)

  step-Inv :
      (capacity : ℕ) (e : Event A) (s : Channel A Ring N)
      → Inv capacity s
      → Inv capacity (step r n e s)
  unfolding step
  step-Inv k (sends a) s i = try_send-Inv k a s.sender s refl i
  step-Inv k sender_moves s i = sender_move-Inv k s.sender s refl i
  step-Inv k sender_drops s i = drop_sender-Inv k s.sender s refl i
  step-Inv k receives s i = recv-Inv k s.receiver s refl i
  step-Inv k receiver_moves s i = receiver_move-Inv k s.receiver s refl i
  step-Inv k recv_cancelled s i = cancel_recv-Inv k s.receiver s refl i
  step-Inv k receiver_drops s i = drop_receiver-Inv k s.receiver s refl i

  run-Inv :
      (capacity : ℕ) (es : List (Event A)) (s : Channel A Ring N)
      → Inv capacity s
      → Inv capacity (run r n es s)
  unfolding run
  run-Inv k [] s i = i
  run-Inv k (e ∷ es) s i = run-Inv k es (step r n e s) (step-Inv k e s i)

  channel-Inv : (capacity : ℕ) → Inv capacity (channel r n capacity)
  unfolding channel
  channel-Inv k = let (e, c) = laws.make_empty k in ground arith

  -- After any interleaving of sends, receives, cancellations and drops on a new channel, the values
  -- pushed are the values received followed by those still in the ring, in that order, and the ring is
  -- within its capacity.
  pub sent-eq-received :
      (capacity : ℕ) (es : List (Event A))
      → let s = run r n es (channel r n capacity) in
        (s.sent ≡ s.received ++ laws.contents s.ring) × (length (laws.contents s.ring) ≤ capacity)
  sent-eq-received k es =
      let i = run-Inv k es (channel r n k) (channel-Inv k) in (i.kept, i.bounded)

  -- Once `recv` has returned `None`, every value that was pushed has been received, in order.
  pub finished-received :
      (capacity : ℕ) (es : List (Event A))
      → let s = run r n es (channel r n capacity) in s.finished ≡ true → s.sent ≡ s.received
  finished-received k es f =
      let i = run-Inv k es (channel r n k) (channel-Inv k) in
      let s = run r n es (channel r n k) in
      i.kept ∙ ap (◌++◌ s.received) (i.finished f).1 ∙ append-nil s.received
