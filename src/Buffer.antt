-- ===== src/Buffer.antt =====
-- buffer.rs: byte budgets and the permits that hold a part of them. A `usize` has 64 bits.
pub mod Ledger
pub mod Pool
use rtn_mq.Prelude.{
  ℕ, Bool, ◌+◌, ◌-◌, ◌%◌, ◌^◌, ◌≤◌, ◌<◌, ◌≡◌, refl, Option, none, some, arith, ltb, leb,
  if◌then◌else◌,
}
use Prim.Native.Nat.{max}
use rtn_mq.Error.{Result, ok, err, queue_full, ok_or, ◌>>=◌}

abbrev pub usize_mod : ℕ
usize_mod = 2 ^ 64

abbrev pub payload_overhead : ℕ
payload_overhead = 256

unfoldable pub checked_add : ℕ → ℕ → Option ℕ
checked_add a b = if ltb (a + b) usize_mod then some (a + b) else none

abbrev pub filter {ℓ} : {A : Type ℓ} → Option A → (A → Bool) → Option A
filter none p = none
filter (some a) p = if p a then some a else none

-- The notifier `wake` has no state that the accounts depend on.
pub record Budget : Type 0 where
  pub limit : ℕ
  pub used : ℕ
  pub peak : ℕ

unfoldable pub new : ℕ → Budget
new limit = record { limit = limit; used = 0; peak = 0 }

-- The atomic update of `used` in `reserve`: the old value is returned.
unfoldable pub charge_used : ℕ → Budget → Result (ℕ × Budget)
unfolding checked_add
charge_used n b = do
  let fits = filter (checked_add b.used n) (λ v. leb v b.limit)
  v ← ok_or fits queue_full
  ok (b.used, record b { used = v })

-- `peak.fetch_max`, a second atomic step.
unfoldable pub raise_peak : ℕ → Budget → Budget
raise_peak v b = record b { peak = max b.peak v }

-- The permit of `n` is the amount in the result.
unfoldable pub reserve : ℕ → Budget → Result (Budget × ℕ)
unfolding charge_used raise_peak
reserve n b = do (old, b') ← charge_used n b; ok (raise_peak (old + n) b', n)

-- `fetch_sub` wraps.
unfoldable pub sub_used : ℕ → Budget → Budget
sub_used n b = record b { used = (b.used + usize_mod - n) % usize_mod }

-- `none` is the panic of the assertion.
unfoldable pub shrink_to : ℕ → ℕ → Budget → Option (Budget × ℕ)
unfolding sub_used
shrink_to n permit b = if leb n permit then some (sub_used (permit - n) b, n) else none

-- `Drop for Permit`
unfoldable pub drop_permit : ℕ → Budget → Budget
unfolding sub_used
drop_permit permit b = sub_used permit b

-- A reservation succeeds exactly when the sum fits the limit, and then charges exactly `n`.
pub charge_used_iff :
    (n : ℕ) (b : Budget)
    → b.limit < usize_mod
    → charge_used n b ≡ (
        if leb (b.used + n) b.limit
        then ok (b.used, record b { used = b.used + n })
        else err queue_full)
unfolding charge_used
charge_used_iff n b h = ground arith

-- A release of what is charged takes off exactly that much: the subtraction does not wrap.
pub used-sub_used :
    (n : ℕ) (b : Budget) → n ≤ b.used → b.used < usize_mod → (sub_used n b).used ≡ b.used - n
unfolding sub_used
used-sub_used n b h k = omega arith
