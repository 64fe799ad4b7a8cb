-- ===== src/Buffer/Pool.antt =====
-- buffer.rs: `BufferPool`, and payloads whose clones share the bytes and the permits.
pub mod Residency
use rtn_mq.Prelude.{
  ℕ, zero, suc, ◌+◌, ◌-◌, ◌*◌, ◌≤◌, ◌<◌, ◌≡◌, refl, subst, sym, ap, Bool, List, [], ◌∷◌, ◌++◌,
  arith, ltb, ◌==◌, if◌then◌else◌, any, length,
}
use rtn_mq.Prelude.Bytes.{Bytes}
use rtn_mq.Error.{Result, ok, err, message_too_large, fail_if, ◌>>=◌, ◌>>◌}
use rtn_mq.Buffer.{
  Budget, usize_mod, payload_overhead, new, charge_used, charge_used_iff, raise_peak, reserve,
  sub_used, used-sub_used, drop_permit,
}

-- `home` is the address of the budget, which `owns` compares by `Arc::ptr_eq`.
pub record Permit : Type 0 where
  pub home : ℕ
  pub amount : ℕ

-- `capacity` is that of the vector, which `Bytes` keeps.
pub record Payload : Type 0 where
  pub bytes : Bytes
  pub capacity : ℕ
  pub permits : List Permit

pub record BufferPool : Type 0 where
  pub address : ℕ
  pub budget : Budget
  pub max_payload : ℕ

unfoldable pub new_pool : ℕ → ℕ → ℕ → BufferPool
unfolding new
new_pool address max_bytes max_payload = record {
  address = address;
  budget = new max_bytes;
  max_payload = max_payload;
}

-- `PayloadLease::received`
abbrev pub received : Bytes → ℕ → List Permit → Payload
received bytes capacity permits = record { bytes = bytes; capacity = capacity; permits = permits }

-- `from_vec` charges the capacity of the vector.
unfoldable pub from_vec : BufferPool → Bytes → ℕ → Result (BufferPool × Payload)
unfolding reserve
from_vec pool bytes capacity = do
  fail_if (ltb pool.max_payload (length bytes)) message_too_large
  (budget, n) ← reserve (capacity + payload_overhead) pool.budget
  ok (
    record pool { budget = budget },
    received bytes capacity (record { home = pool.address; amount = n } ∷ []),
  )

-- The copy that `to_vec` makes has its length for its capacity.
unfoldable pub copy_from_slice : BufferPool → Bytes → Result (BufferPool × Payload)
unfolding reserve
copy_from_slice pool bytes = do
  fail_if (ltb pool.max_payload (length bytes)) message_too_large
  (budget, n) ← reserve (length bytes + payload_overhead) pool.budget
  ok (
    record pool { budget = budget },
    received bytes (length bytes) (record { home = pool.address; amount = n } ∷ []),
  )

unfoldable pub owns : BufferPool → Payload → Bool
owns pool payload = any (λ p. p.home == pool.address) payload.permits

-- A payload and the number of its clones that are alive.
pub record Shared : Type 0 where
  pub payload : Payload
  pub clones : ℕ

unfoldable pub clone_lease : Shared → Shared
clone_lease s = record s { clones = s.clones + 1 }

-- The permits of this pool's budget that a payload holds.
abbrev pub charge_of : ℕ → List Permit → ℕ
charge_of address [] = 0
charge_of address (p ∷ ps) = (if p.home == address then p.amount else 0) + charge_of address ps

unfoldable pub drop_one : BufferPool → Permit → BufferPool
unfolding drop_permit
drop_one pool p =
    if p.home == pool.address
    then record pool { budget = drop_permit p.amount pool.budget }
    else pool

-- The permits are dropped one by one, each on its own budget.
unfoldable pub drop_permits : BufferPool → List Permit → BufferPool
drop_permits pool [] = pool
drop_permits pool (p ∷ ps) = drop_permits (drop_one pool p) ps

-- The drop of one clone: the last one drops the payload and with it the permits.
unfoldable pub drop_lease : BufferPool → Shared → BufferPool × List Shared
unfolding drop_permits
drop_lease pool s =
    if s.clones == 1
    then (drop_permits pool s.payload.permits, [])
    else (pool, record s { clones = s.clones - 1 } ∷ [])
