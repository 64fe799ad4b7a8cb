-- ===== src/Tests/Queue.antt =====
-- A list as the ring, and a notifier with one waiter and one stored notification.
use rtn_mq.Prelude.{
  ℕ, ◌≤◌, ◌≡◌, refl, Bool, true, false, Option, none, some, List, [], ◌∷◌, ◌++◌, length, ltb,
  if◌then◌else◌, arith,
}
use rtn_mq.Queue.{
  Rtrb, RtrbLaws, Notify, NotifyLaws, Channel, Event, sends, sender_moves, sender_drops, receives,
  receiver_moves, channel, run, try_send, sender_move, drop_sender, recv, receiver_move,
  cancel_recv, drop_receiver,
}
use rtn_mq.Queue.Delivery.{sent-eq-received, finished-received}
use rtn_mq.Queue.Wakeup.{parked_receiver}

pub record ListRing : Type 0 where
  pub items : List ℕ
  pub room : ℕ

unfoldable pub push_item : ℕ → ListRing → Option ListRing
push_item a b =
    if ltb (length b.items) b.room then some (record b { items = b.items ++ a ∷ [] }) else none

unfoldable pub pop_item : List ℕ → ListRing → Option (ℕ × ListRing)
pop_item [] b = none
pop_item (a ∷ rest) b = some (a, record b { items = rest })

unfoldable pub rtrb : Rtrb ℕ ListRing
rtrb = record {
  make = λ n. record { items = []; room = n };
  push = push_item;
  pop = λ b. pop_item b.items b;
}

unfoldable pub rtrb_laws : RtrbLaws rtrb
unfolding rtrb push_item pop_item
rtrb_laws = record {
  contents = λ b. b.items;
  capacity = λ b. b.room;
  make_empty = λ n. (refl, refl);
  push_full = λ a b h. ground arith;
  push_room = λ a b h. (record b { items = b.items ++ a ∷ [] }, ground arith, refl, refl);
  pop_none = λ b h. ground arith;
  pop_some = λ b a rest h. (record b { items = rest }, ground arith, refl, refl);
}

-- Whether the waiter is registered, and whether a notification waits for it.
pub record Waiter : Type 0 where
  pub registered : Bool
  pub notified : Bool

unfoldable pub notify : Notify Waiter
notify = record {
  fresh = record { registered = false; notified = false };
  enable = λ s. record { registered = true; notified = s.notified };
  notify_one = λ s. record s { notified = true };
  ready = λ s. s.notified;
}

pub notify_laws : NotifyLaws notify
unfolding notify
notify_laws = record {
  armed = λ s. s.registered;
  enable_armed = λ s. refl;
  notify_armed = λ s h. h;
  notify_ready = λ s h. refl;
}

abbrev busy : List (Event ℕ)
busy =
    sends 1
    ∷ sender_moves
    ∷ sender_moves
    ∷ receives
    ∷ sends 2
    ∷ receiver_moves
    ∷ sender_moves
    ∷ sends 3
    ∷ []

abbrev closing : List (Event ℕ)
closing =
    sends 1
    ∷ sender_moves
    ∷ sender_moves
    ∷ sender_drops
    ∷ sender_moves
    ∷ receives
    ∷ receiver_moves
    ∷ receives
    ∷ receiver_moves
    ∷ receiver_moves
    ∷ receiver_moves
    ∷ []

abbrev parking : List (Event ℕ)
parking = receives ∷ receiver_moves ∷ receiver_moves ∷ []

after : List (Event ℕ) → Channel ℕ ListRing Waiter
after es = run rtrb notify es (channel rtrb notify 2)

busy_state : ((after busy).sent ≡ 1 ∷ 2 ∷ []) × ((after busy).received ≡ 1 ∷ [])
unfolding after run channel rtrb notify push_item pop_item try_send sender_move drop_sender recv
    receiver_move cancel_recv drop_receiver
busy_state = (refl, refl)

sent-eq-received_example :
    ((after busy).sent ≡ (after busy).received ++ rtrb_laws.contents (after busy).ring)
    × (length (rtrb_laws.contents (after busy).ring) ≤ 2)
unfolding after
sent-eq-received_example = sent-eq-received rtrb rtrb_laws notify 2 busy

finished-received_example : (after closing).sent ≡ (after closing).received
unfolding after run channel rtrb notify push_item pop_item try_send sender_move drop_sender recv
    receiver_move cancel_recv drop_receiver
finished-received_example = finished-received rtrb rtrb_laws notify 2 closing refl

parked_receiver_example :
    (rtrb_laws.contents (after parking).ring ≡ []) × ((after parking).sender_closed ≡ false)
unfolding after run channel rtrb notify push_item pop_item try_send sender_move drop_sender recv
    receiver_move cancel_recv drop_receiver
parked_receiver_example = parked_receiver rtrb rtrb_laws notify notify_laws 2 parking refl refl refl
