-- ===== src/Buffer/Pool/Residency.antt =====
-- What the payload leases of a pool hold: a step for each copy, adoption, clone and drop of a lease, and
-- for the reservations of endpoint/owner.rs on the budget of the pool: the permit of a grant, which waits
-- for its frame, and becomes a part of the payload that is received or is dropped with the grant.
use rtn_mq.Prelude.{ℕ, ◌+◌, ◌≤◌, ◌<◌, ◌≡◌, List, [], ◌∷◌, ◌++◌, length}
use rtn_mq.Prelude.Bytes.{Bytes}
use rtn_mq.Error.{ok}
use rtn_mq.Buffer.{Budget, payload_overhead, reserve}
use rtn_mq.Buffer.Pool.{
  Permit, Payload, BufferPool, Shared, from_vec, copy_from_slice, clone_lease, charge_of, received,
  drop_one, drop_lease,
}

pub record Store : Type 0 where
  pub pool : BufferPool
  pub shared : List Shared
  -- the permits of grants and tickets
  pub waiting : List Permit

abbrev pub fresh : Payload → Shared
fresh p = record { payload = p; clones = 1 }

pub data Step (s t : Store) : Type 0 where
  copies :
      (bytes : Bytes) (pool : BufferPool) (p : Payload)
      → copy_from_slice s.pool bytes ≡ ok (pool, p)
      → t ≡ record s { pool = pool; shared = fresh p ∷ s.shared }
      → Step s t
  takes :
      (bytes : Bytes) (capacity : ℕ) (pool : BufferPool) (p : Payload)
      → length bytes ≤ capacity
      → from_vec s.pool bytes capacity ≡ ok (pool, p)
      → t ≡ record s { pool = pool; shared = fresh p ∷ s.shared }
      → Step s t
  clones :
      (xs ys : List Shared) (x : Shared)
      → s.shared ≡ xs ++ x ∷ ys
      → t ≡ record s { shared = xs ++ clone_lease x ∷ ys }
      → Step s t
  drops :
      (xs ys : List Shared) (x : Shared)
      → s.shared ≡ xs ++ x ∷ ys
      → t ≡ record s {
        pool = (drop_lease s.pool x).0;
        shared = xs ++ ((drop_lease s.pool x).1 ++ ys);
      }
      → Step s t
  -- the reservation of a grant
  grants :
      (n amount : ℕ) (budget : Budget)
      → reserve n s.pool.budget ≡ ok (budget, amount)
      → t ≡ record s {
        pool = record s.pool { budget = budget };
        waiting = record { home = s.pool.address; amount = amount } ∷ s.waiting;
      }
      → Step s t
  -- a frame within its grant, with the permits that the grant has on other budgets
  receives :
      (xs ys others : List Permit) (p : Permit) (bytes : Bytes) (capacity : ℕ)
      → s.waiting ≡ xs ++ p ∷ ys
      → charge_of s.pool.address others ≡ 0
      → length bytes ≤ capacity
      → capacity + payload_overhead ≤ charge_of s.pool.address (p ∷ [])
      → t ≡ record s {
        shared = fresh (received bytes capacity (p ∷ others)) ∷ s.shared;
        waiting = xs ++ ys;
      }
      → Step s t
  -- a grant that is dropped without a frame
  returns :
      (xs ys : List Permit) (p : Permit)
      → s.waiting ≡ xs ++ p ∷ ys
      → t ≡ record s { pool = drop_one s.pool p; waiting = xs ++ ys }
      → Step s t

pub data Reach (s : Store) : Store → Type 0 where
  here : Reach s s
  next : {t u : Store} → Reach s t → Step t u → Reach s u

-- What the live payloads are charged, and the memory that they keep: the capacity of each, and the
-- overhead.
abbrev pub charges : ℕ → List Shared → ℕ
charges a [] = 0
charges a (x ∷ xs) = charge_of a x.payload.permits + charges a xs

abbrev pub resident : List Shared → ℕ
resident [] = 0
resident (x ∷ xs) = x.payload.capacity + payload_overhead + resident xs

abbrev pub Charged : ℕ → List Shared → Type 0
Charged a [] = Unit {0}
Charged a (x ∷ xs) =
    (0 < x.clones)
    × (x.payload.capacity + payload_overhead ≤ charge_of a x.payload.permits)
    × (length x.payload.bytes ≤ x.payload.capacity)
    × Charged a xs

pub record Inv (address max_bytes : ℕ) (s : Store) : Type 0 where
  pub placed : s.pool.address ≡ address
  pub limited : s.pool.budget.limit ≡ max_bytes
  pub exact : s.pool.budget.used ≡ charges address s.shared + charge_of address s.waiting
  pub within : s.pool.budget.used ≤ max_bytes
  pub charged : Charged address s.shared
