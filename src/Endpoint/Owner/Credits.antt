-- ===== src/Endpoint/Owner/Credits.antt =====
-- endpoint/owner.rs: `grant_credits`, which lets peers send one more frame each.
pub mod Present
use rtn_mq.Prelude.{
  ℕ, ◌+◌, ◌%◌, Bool, true, false, not, ◌&&◌, none, some, List, [], ◌∷◌, ◌++◌, length, take, drop,
  if◌then◌else◌,
}
use Prim.Native.Nat.{min}
use rtn_mq.Prelude.Bytes.{Bytes, bytes_key}
use rtn_mq.Prelude.Map.{Map, get, insert, remove, modify, contains_key}
use rtn_mq.Error.{Result, ok, err, is_ok}
use rtn_mq.Buffer.{Budget, reserve, drop_permit, payload_overhead, usize_mod}
use rtn_mq.Message.Topic.{Topic}
use rtn_mq.Message.Topic.Ordering.{topic_key}
use rtn_mq.Wire.Frame.{max_metadata}
use rtn_mq.Wire.Control.{credit}
use rtn_mq.Endpoint.Owner.{Owner, Settings, Outside, LocalSub}
use rtn_mq.Endpoint.Owner.Session.{local_valid, send}

-- The peers of a subscription that ask for a credit and hold none.
unfoldable pub wanting : Topic → LocalSub → Map Bytes ℕ → List (Topic × Bytes)
wanting topic s [] = []
wanting topic s ((peer, n) ∷ demand) =
    let rest = wanting topic s demand in
    if contains_key peer s.confirmed && not (contains_key peer s.grants)
    then (topic, peer) ∷ rest
    else rest

unfoldable pub candidates : Map Topic LocalSub → List (Topic × Bytes)
unfolding wanting
candidates [] = []
candidates ((topic, s) ∷ m) = wanting topic s s.demand ++ candidates m

unfoldable pub rotate_left {ℓ} : {A : Type ℓ} → ℕ → List A → List A
rotate_left n xs = drop n xs ++ take n xs

-- Four budgets are charged besides the metadata of the record; what is reserved goes back if one is full.
-- The order is that of the source: the record, a slot, the bytes, the ticket, the payload.
pub record Accounts : Type 0 where
  pub metadata : Budget
  pub slots : Budget
  pub bytes : Budget
  pub pool : Budget

unfoldable pub charge_pool : ℕ → Accounts → Bool × Accounts
unfolding reserve drop_permit
charge_pool n a = elim (reserve n a.pool) [
  | err e ↦ (false, a)
  | ok (budget, permit) ↦ (true, record a { pool = budget })
]

-- `reserve(n)?` on a budget of the accounts, before the reservations that follow.
unfoldable pub charge :
    ℕ
    → (Accounts → Budget)
    → (Budget → Accounts → Accounts)
    → (Accounts → Bool × Accounts)
    → Accounts
    → Bool × Accounts
unfolding reserve drop_permit
charge n field set next a = elim (reserve n (field a)) [
  | err e ↦ (false, a)
  | ok (budget, permit) ↦
      let (done, b) = next (set budget a) in
      if done then (true, b) else (false, set (drop_permit permit (field b)) b)
]

unfoldable pub charge_grant : ℕ → ℕ → Accounts → Bool × Accounts
unfolding charge charge_pool
charge_grant max_payload bytes =
    let metadata = λ (a : Accounts). a.metadata in
    let set_metadata = λ (b : Budget) (a : Accounts). record a { metadata = b } in
    charge 6144 metadata set_metadata (
      charge 1 (λ a. a.slots) (λ b a. record a { slots = b })
        (charge bytes (λ a. a.bytes) (λ b a. record a { bytes = b })
          (charge 256 metadata set_metadata (charge_pool (max_payload + payload_overhead)))))

unfoldable pub accounts_of : LocalSub → Owner → Accounts
accounts_of s o = record { metadata = o.metadata; slots = s.slots; bytes = s.bytes; pool = o.pool }

module _ (settings : Settings) (out : Outside) where
  -- The grant to one candidate, with its accounts charged.
  unfoldable pub granted : ℕ → Accounts → Bytes → LocalSub → LocalSub
  granted max_payload a peer s = record s {
    slots = a.slots;
    bytes = a.bytes;
    demand = remove peer s.demand;
    grants =
        insert peer
          (record {
            bytes = max_payload + max_metadata + 12;
            permits =
                1 ∷ (max_payload + max_metadata + 12) ∷ 256 ∷ (max_payload + payload_overhead) ∷ [];
            metadata = 6144;
          })
          s.grants;
  }

  unfoldable pub refused : Accounts → LocalSub → LocalSub
  refused a s = record s { slots = a.slots; bytes = a.bytes }

  -- A turn of the loop, for a peer that is connected.
  unfoldable pub grant_one : Topic → Bytes → ℕ → LocalSub → Owner → Owner
  unfolding charge_grant granted refused send accounts_of
  grant_one topic peer max_payload s o =
      let bytes = max_payload + max_metadata + 12 in
      let (done, a) = charge_grant max_payload bytes (accounts_of s o) in
      let o' = record o { metadata = a.metadata; pool = a.pool } in
      if done
      then record o' {
        subscriptions = modify topic (granted max_payload a peer) o.subscriptions;
        peers = modify peer (send out (credit topic s.id bytes)) o.peers;
      }
      else record o' { subscriptions = modify topic (refused a) o.subscriptions }

  -- The source unwraps the subscription. It is there, for any candidates (Credits/Present.antt).
  unfoldable pub grant_turn : Topic × Bytes → Owner → Owner
  unfolding grant_one
  grant_turn (topic, peer) o = elim (get peer o.peers) [
    | none ↦ o
    | some p ↦ elim (get topic o.subscriptions) [
      | none ↦ o
      | some s ↦ grant_one topic peer (min settings.max_payload p.reg.max_payload) s o
    ]
  ]

  unfoldable pub grant_loop : List (Topic × Bytes) → Owner → Owner
  grant_loop [] o = o
  grant_loop (x ∷ xs) o = grant_loop xs (grant_turn x o)

  unfoldable pub rotated_grants : List (Topic × Bytes) → Owner → Owner
  unfolding grant_loop rotate_left
  rotated_grants [] o = o
  rotated_grants (x ∷ xs) o =
      let list = x ∷ xs in
      grant_loop (rotate_left (o.credit_cursor % length list) list)
        (record o { credit_cursor = (o.credit_cursor + 1) % usize_mod })

  unfoldable pub grant_credits : Result ℕ → Owner → Owner
  unfolding rotated_grants candidates
  grant_credits now o =
      if is_ok (local_valid now o) then rotated_grants (candidates o.subscriptions) o else o
