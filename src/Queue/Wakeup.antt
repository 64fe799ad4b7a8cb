-- ===== src/Queue/Wakeup.antt =====
-- No wakeup is lost: a parked receiver has something to wait for, or is about to be notified.
use rtn_mq.Prelude.{ℕ, ◌≡◌, refl, Bool, true, false, none, List, [], ◌∷◌, arith, ◌||◌}
use rtn_mq.Queue.{
  Rtrb, RtrbLaws, Notify, NotifyLaws, SenderAt, ReceiverAt, Channel, Event, sends, sender_moves,
  sender_drops, receives, receiver_moves, recv_cancelled, receiver_drops, channel, try_send,
  sender_move, drop_sender, recv, receiver_move, cancel_recv, drop_receiver, step, run,
}

module _ {A : Type 0} where
  -- The sender has pushed, or has stored `sender_closed`, and has still to notify.
  abbrev pub has_pushed : SenderAt A → Bool
  has_pushed SenderAt.pushed = true
  has_pushed _ = false

  abbrev pub is_closing : SenderAt A → Bool
  is_closing SenderAt.closing = true
  is_closing _ = false

-- Between `enable` and the end of the turn; after the failed pop; parked.
abbrev listening : ReceiverAt → Bool
listening ReceiverAt.enabled = true
listening ReceiverAt.empty = true
listening ReceiverAt.waiting = true
listening _ = false

abbrev found_empty : ReceiverAt → Bool
found_empty ReceiverAt.empty = true
found_empty ReceiverAt.waiting = true
found_empty _ = false

abbrev parked : ReceiverAt → Bool
parked ReceiverAt.waiting = true
parked _ = false

module _ {A Ring N : Type 0} (r : Rtrb A Ring) (laws : RtrbLaws r) (n : Notify N)
    (wakes : NotifyLaws n) where
  record Inv (s : Channel A Ring N) : Type 0 where
    armed : listening s.receiver ≡ true → wakes.armed s.ready ≡ true
    empty :
        found_empty s.receiver ≡ true
        → (n.ready s.ready || has_pushed s.sender) ≡ false
        → laws.contents s.ring ≡ []
    open_sender :
        parked s.receiver ≡ true
        → (n.ready s.ready || is_closing s.sender) ≡ false
        → s.sender_closed ≡ false

  pop-empty : (b : Ring) (xs : List A) → laws.contents b ≡ xs → r.pop b ≡ none → xs ≡ []
  pop-empty b [] e h = refl
  pop-empty b (a ∷ xs) e h = let (b', p, c, k) = laws.pop_some b a xs e in cc

  step-Inv : (e : Event A) (s : Channel A Ring N) → Inv s → Inv (step r n e s)
  unfolding step try_send sender_move drop_sender recv receiver_move cancel_recv drop_receiver
  step-Inv (sends a) s i = ground (arith, i.armed, i.empty, i.open_sender)
  step-Inv sender_moves s i = ground (
    arith,
    i.armed,
    i.empty,
    i.open_sender,
    wakes.notify_armed s.ready,
    wakes.notify_ready s.ready,
  )
  step-Inv sender_drops s i = ground (arith, i.armed, i.empty, i.open_sender)
  step-Inv receives s i =
      ground (arith, i.armed, i.empty, i.open_sender, wakes.enable_armed s.ready)
  step-Inv receiver_moves s i =
      ground (
        arith,
        i.armed,
        i.empty,
        i.open_sender,
        wakes.enable_armed s.ready,
        pop-empty s.ring _ refl,
      )
  step-Inv recv_cancelled s i = ground (arith, i.armed, i.empty, i.open_sender)
  step-Inv receiver_drops s i = ground (arith, i.armed, i.empty, i.open_sender)

  run-Inv : (es : List (Event A)) (s : Channel A Ring N) → Inv s → Inv (run r n es s)
  unfolding run
  run-Inv [] s i = i
  run-Inv (e ∷ es) s i = run-Inv es (step r n e s) (step-Inv e s i)

  channel-Inv : (capacity : ℕ) → Inv (channel r n capacity)
  unfolding channel
  channel-Inv k = ground arith

  -- After any interleaving of events on a new channel: if the receiver is parked, no notification
  -- has reached it and the sender is not about to send one, then the ring is empty and the sender
  -- has not been dropped.
  pub parked_receiver :
      (capacity : ℕ) (es : List (Event A))
      → let s = run r n es (channel r n capacity) in
        s.receiver ≡ ReceiverAt.waiting
        → n.ready s.ready ≡ false
        → (has_pushed s.sender || is_closing s.sender) ≡ false
        → (laws.contents s.ring ≡ []) × (s.sender_closed ≡ false)
  parked_receiver k es p q h =
      let i = run-Inv es (channel r n k) (channel-Inv k) in ground (arith, i.empty, i.open_sender)
