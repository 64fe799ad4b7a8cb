-- ===== src/Buffer/Ledger.antt =====
-- buffer.rs under interleaving: threads reserve, shrink and drop permits of one budget. Each atomic
-- operation is a step, so another thread may run between the update of `used` and of `peak`.
use Prim.Native.Nat.{max}
use rtn_mq.Prelude.{
  ℕ, ◌+◌, ◌-◌, ◌≤◌, ◌<◌, ◌≡◌, refl, ap, subst, sym, List, [], ◌∷◌, ◌++◌, some, arith,
}
use rtn_mq.Error.{ok}
use rtn_mq.Buffer.{
  Budget, usize_mod, new, charge_used, charge_used_iff, raise_peak, sub_used, used-sub_used,
  shrink_to, drop_permit,
}

-- The permits that are alive, and the values that a `reserve` has still to write to `peak`.
pub record Ledger : Type 0 where
  pub budget : Budget
  pub permits : List ℕ
  pub raising : List ℕ

abbrev pub start : ℕ → Ledger
start limit = record { budget = new limit; permits = []; raising = [] }

pub data Step (s t : Ledger) : Type 0 where
  charge :
      (n old : ℕ) (b : Budget)
      → charge_used n s.budget ≡ ok (old, b)
      → t ≡ record { budget = b; permits = n ∷ s.permits; raising = (old + n) ∷ s.raising }
      → Step s t
  raise :
      (xs ys : List ℕ) (v : ℕ)
      → s.raising ≡ xs ++ v ∷ ys
      → t ≡ record s { budget = raise_peak v s.budget; raising = xs ++ ys }
      → Step s t
  shrink :
      (xs ys : List ℕ) (p n : ℕ) (b : Budget)
      → s.permits ≡ xs ++ p ∷ ys
      → shrink_to n p s.budget ≡ some (b, n)
      → t ≡ record s { budget = b; permits = xs ++ n ∷ ys }
      → Step s t
  drop :
      (xs ys : List ℕ) (p : ℕ)
      → s.permits ≡ xs ++ p ∷ ys
      → t ≡ record s { budget = drop_permit p s.budget; permits = xs ++ ys }
      → Step s t

pub data Reach (s : Ledger) : Ledger → Type 0 where
  here : Reach s s
  next : {t u : Ledger} → Reach s t → Step t u → Reach s u

abbrev pub sum : List ℕ → ℕ
sum [] = 0
sum (x ∷ xs) = x + sum xs

-- The peak once every pending value is written.
abbrev pub settled_peak : ℕ → List ℕ → ℕ
settled_peak p [] = p
settled_peak p (v ∷ vs) = max v (settled_peak p vs)

pub record Inv (limit : ℕ) (s : Ledger) : Type 0 where
  pub limited : s.budget.limit ≡ limit
  pub exact : s.budget.used ≡ sum s.permits
  pub within : s.budget.used ≤ limit
  pub covered : s.budget.used ≤ settled_peak s.budget.peak s.raising
  pub peaks : settled_peak s.budget.peak s.raising ≤ limit

sum_middle : (xs : List ℕ) (p : ℕ) (ys : List ℕ) → sum (xs ++ p ∷ ys) ≡ p + sum (xs ++ ys)
sum_middle [] p ys = refl
sum_middle (x ∷ xs) p ys = omega (arith, sum_middle xs p ys)

settled_peak_middle :
    (p : ℕ) (xs : List ℕ) (v : ℕ) (ys : List ℕ)
    → settled_peak p (xs ++ v ∷ ys) ≡ max v (settled_peak p (xs ++ ys))
settled_peak_middle p [] v ys = refl
settled_peak_middle p (x ∷ xs) v ys = omega (arith, settled_peak_middle p xs v ys)

settled_peak-max : (p v : ℕ) (xs : List ℕ) → settled_peak (max p v) xs ≡ max v (settled_peak p xs)
settled_peak-max p v [] = omega arith
settled_peak-max p v (x ∷ xs) = omega (arith, settled_peak-max p v xs)

settled_peak-le : (p : ℕ) (xs : List ℕ) → p ≤ settled_peak p xs
settled_peak-le p [] = omega arith
settled_peak-le p (x ∷ xs) = omega (arith, settled_peak-le p xs)

module _ (limit : ℕ) (machine : limit < usize_mod) where
  charge-Inv :
      (s : Ledger) (n old : ℕ) (b : Budget)
      → charge_used n s.budget ≡ ok (old, b)
      → Inv limit s
      → Inv limit (record { budget = b; permits = n ∷ s.permits; raising = (old + n) ∷ s.raising })
  charge-Inv s n old b e v = ground (arith, charge_used_iff n s.budget)

  raise-Inv :
      (s : Ledger) (xs ys : List ℕ) (v : ℕ)
      → s.raising ≡ xs ++ v ∷ ys
      → Inv limit s
      → Inv limit (record s { budget = raise_peak v s.budget; raising = xs ++ ys })
  unfolding raise_peak
  raise-Inv s xs ys v e i = record {
    limited = i.limited;
    exact = i.exact;
    within = i.within;
    covered =
        rw
          (
            settled_peak-max s.budget.peak v (xs ++ ys),
            ← settled_peak_middle s.budget.peak xs v ys,
            ← e,
          )
          i.covered;
    peaks =
        rw
          (
            settled_peak-max s.budget.peak v (xs ++ ys),
            ← settled_peak_middle s.budget.peak xs v ys,
            ← e,
          )
          i.peaks;
  }

  shrink-Inv :
      (s : Ledger) (xs ys : List ℕ) (p n : ℕ) (b : Budget)
      → s.permits ≡ xs ++ p ∷ ys
      → shrink_to n p s.budget ≡ some (b, n)
      → Inv limit s
      → Inv limit (record s { budget = b; permits = xs ++ n ∷ ys })
  unfolding shrink_to sub_used
  shrink-Inv s xs ys p n b e h i =
      ground
        (arith, ap sum e, sum_middle xs p ys, sum_middle xs n ys, used-sub_used (p - n) s.budget)

  drop-Inv :
      (s : Ledger) (xs ys : List ℕ) (p : ℕ)
      → s.permits ≡ xs ++ p ∷ ys
      → Inv limit s
      → Inv limit (record s { budget = drop_permit p s.budget; permits = xs ++ ys })
  unfolding drop_permit sub_used
  drop-Inv s xs ys p e i = ground (arith, ap sum e, sum_middle xs p ys, used-sub_used p s.budget)

  Step-Inv : (s t : Ledger) → Step s t → Inv limit s → Inv limit t
  Step-Inv s t (charge n old b h e) i = subst (Inv limit) (sym e) (charge-Inv s n old b h i)
  Step-Inv s t (raise xs ys v h e) i = subst (Inv limit) (sym e) (raise-Inv s xs ys v h i)
  Step-Inv s t (shrink xs ys p n b h k e) i =
      subst (Inv limit) (sym e) (shrink-Inv s xs ys p n b h k i)
  Step-Inv s t (drop xs ys p h e) i = subst (Inv limit) (sym e) (drop-Inv s xs ys p h i)

  start-Inv : Inv limit (start limit)
  unfolding new
  start-Inv = omega arith

  Reach-Inv : {s : Ledger} → Reach (start limit) s → Inv limit s
  Reach-Inv here = start-Inv
  Reach-Inv (next r st) = Step-Inv _ _ st (Reach-Inv r)

  -- Whatever the interleaving of reservations, shrinks and drops from a new budget whose limit a
  -- `usize` can hold: the charge is exactly the sum of the live permits and within the limit, and so is
  -- the recorded peak.
  pub used-eq-sum :
      {s : Ledger}
      → Reach (start limit) s
      → (s.budget.used ≡ sum s.permits) × (s.budget.used ≤ limit) × (s.budget.peak ≤ limit)
  used-eq-sum {s} r =
      let i = Reach-Inv r in
      (i.exact, i.within, omega (arith, settled_peak-le s.budget.peak s.raising))

  -- Once every reservation has written its peak, the recorded peak is at least what is charged.
  used-le-peak :
      {s : Ledger} → Reach (start limit) s → s.raising ≡ [] → s.budget.used ≤ s.budget.peak
  used-le-peak {s} r e =
      subst (λ xs. s.budget.used ≤ settled_peak s.budget.peak xs) e (Reach-Inv r).covered
