-- ===== src/Tests/Buffer.antt =====
-- A budget and a pool at work.
use rtn_mq.Prelude.{ℕ, ◌≡◌, refl, [], ◌∷◌, ◌≤◌, arith}
use rtn_mq.Error.{err, queue_full}
use rtn_mq.Buffer.{
  Budget, new, checked_add, charge_used, raise_peak, reserve, shrink_to, sub_used, drop_permit,
}
use rtn_mq.Buffer.Ledger.{Ledger, start, Reach, Step, sum, used-eq-sum}
use rtn_mq.Buffer.Pool.{BufferPool, Payload, Permit, drop_lease, drop_permits, drop_one}
use rtn_mq.Buffer.Pool.Residency.{Store}
use rtn_mq.Buffer.Pool.Residency

abbrev budget : ℕ → ℕ → Budget
budget used peak = record { limit = 10; used = used; peak = peak }

-- 4 and 5 are reserved, the second before the first has written its peak; 3 more do not fit; the 5
-- shrinks to 2 and the 4 is dropped.
abbrev two_permits : Ledger
two_permits = record { budget = budget 9 9; permits = 5 ∷ 4 ∷ []; raising = [] }

abbrev dropped : Ledger
dropped = record { budget = budget 2 9; permits = 2 ∷ []; raising = [] }

reaches_two : Reach (start 10) two_permits
unfolding charge_used checked_add new raise_peak
reaches_two =
    Reach.next
      (Reach.next
        (Reach.next (Reach.next Reach.here (Step.charge 4 0 (budget 4 0) refl refl))
          (Step.charge 5 4 (budget 9 0) refl refl))
        (Step.raise [] (4 ∷ []) 9 refl refl))
      (Step.raise [] [] 4 refl refl)

reaches_dropped : Reach (start 10) dropped
unfolding shrink_to drop_permit sub_used
reaches_dropped =
    Reach.next (Reach.next reaches_two (Step.shrink [] (4 ∷ []) 5 2 (budget 6 9) refl refl refl))
      (Step.drop (2 ∷ []) [] 4 refl refl)

reserve_full : reserve 3 (budget 9 9) ≡ err queue_full
unfolding reserve checked_add
reserve_full = refl

used-eq-sum_example : (2 ≡ sum (2 ∷ [])) × (2 ≤ 10) × (9 ≤ 10)
used-eq-sum_example = used-eq-sum 10 (omega arith) {s = dropped} reaches_dropped

-- A payload of three bytes in a vector of five is adopted and cloned; a grant is reserved, and a frame of two
-- bytes received with it, beside a permit of another budget; both clones of the first are dropped.
abbrev abc : Payload
abc = record {
  bytes = 97 ∷ 98 ∷ 99 ∷ [];
  capacity = 5;
  permits = record { home = 7; amount = 261 } ∷ [];
}

abbrev pool : ℕ → ℕ → BufferPool
pool used peak = record {
  address = 7;
  budget = record { limit = 1000; used = used; peak = peak };
  max_payload = 100;
}

abbrev grant : Permit
grant = record { home = 7; amount = 300 }

abbrev elsewhere : Permit
elsewhere = record { home = 8; amount = 1 }

abbrev busy : Store
busy = record {
  pool = pool 561 561;
  shared =
      record {
        payload = record { bytes = 1 ∷ 2 ∷ []; capacity = 2; permits = grant ∷ elsewhere ∷ [] };
        clones = 1;
      }
      ∷ record { payload = abc; clones = 2 }
      ∷ [];
  waiting = [];
}

drop_both :
    (drop_lease
      (drop_lease (pool 561 561) (record { payload = abc; clones = 2 })).0
      (record { payload = abc; clones = 1 }))
    ≡ (pool 300 561, [])
unfolding drop_lease drop_permits drop_one drop_permit sub_used
drop_both = refl
