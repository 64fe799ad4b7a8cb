-- ===== src/Prelude/Map/Each.antt =====
-- Predicates on the values of a map, and the order of its keys, under the operations.
use mathlib.Core.Path.{◌≡◌, sym, subst}
use mathlib.Core.Logic.{inl, inr}
use mathlib.Core.Bool.{Bool, true}
use mathlib.Core.Option.{some}
use mathlib.Core.List.{[], ◌∷◌}
use native.Mathlib.Omega.{arith}
use rtn_mq.Prelude.Tests.{Bool-cases}
use rtn_mq.Prelude.Order.{Key}
use rtn_mq.Prelude.Map.{Map, get, insert, remove, modify, retain, update_all, Above, IsSorted}
use rtn_mq.Prelude.Map.Undo.{modify_absent, Above-get, Above-IsSorted, Above-same}

module _ {ℓ κ} {K : Type ℓ} {V : Type κ} where
  abbrev pub Each {μ} : (V → Type μ) → Map K V → Type μ
  Each P [] = Unit
  Each P ((k, v) ∷ m) = P v × Each P m

module _ {ℓ κ μ} {K : Type ℓ} {V : Type κ} (P : V → Type μ) where
  pub Each-update_all :
      (f : K → V → V) (m : Map K V)
      → ((k : K) (v : V) → P v → P (f k v))
      → Each P m
      → Each P (update_all f m)
  unfolding update_all
  Each-update_all f [] h e = e
  Each-update_all f ((k, v) ∷ m) h (p, e) = (h k v p, Each-update_all f m h e)

module _ {ℓ κ μ} {K : Type ℓ} {V : Type κ} ⦃key : Key K⦄ (P : V → Type μ) where
  pub Each-get : (k : K) (m : Map K V) (v : V) → Each P m → get k m ≡ some v → P v
  unfolding get
  Each-get k [] v e h = absurd (ground arith)
  Each-get k ((j, w) ∷ m) v (p, e) h = elim (Bool-cases (key.same j k)) [
    | inl same ↦ let eq : w ≡ v = ground (arith, h, same) in subst P eq p
    | inr other ↦ Each-get k m v e (ground (arith, h, other))
  ]

  pub Each-insert : (k : K) (v : V) (m : Map K V) → P v → Each P m → Each P (insert k v m)
  unfolding insert
  Each-insert k v [] p e = (p, tt)
  Each-insert k v ((j, w) ∷ m) p (q, e) = elim (Bool-cases (key.same j k)) [
    | inl same ↦ rw (insert, same) (p, e)
    | inr other ↦ elim (Bool-cases (key.less k j)) [
      | inl below ↦ rw (insert, other, below) (p, (q, e))
      | inr above ↦ rw (insert, other, above) (q, Each-insert k v m p e)
    ]
  ]

  pub Each-remove : (k : K) (m : Map K V) → Each P m → Each P (remove k m)
  unfolding remove
  Each-remove k [] e = e
  Each-remove k ((j, w) ∷ m) (q, e) = elim (Bool-cases (key.same j k)) [
    | inl same ↦ rw (remove, same) (Each-remove k m e)
    | inr other ↦ rw (remove, other) (q, Each-remove k m e)
  ]

  pub Each-retain : (p : K → V → Bool) (m : Map K V) → Each P m → Each P (retain p m)
  unfolding retain
  Each-retain p [] e = e
  Each-retain p ((j, w) ∷ m) (q, e) = elim (Bool-cases (p j w)) [
    | inl keep ↦ rw (retain, keep) (q, Each-retain p m e)
    | inr gone ↦ rw (retain, gone) (Each-retain p m e)
  ]

  pub Each-update :
      (k : K) (f : V → V) (m : Map K V)
      → ((v : V) → P v → P (f v))
      → Each P m
      → Each P (modify k f m)
  unfolding modify
  Each-update k f [] h e = e
  Each-update k f ((j, w) ∷ m) h (q, e) = elim (Bool-cases (key.same j k)) [
    | inl same ↦ rw (modify, same) (h w q, Each-update k f m h e)
    | inr other ↦ rw (modify, other) (q, Each-update k f m h e)
  ]

  -- An update of one value, in a map with one entry for its key.
  pub Each-modify :
      (k : K) (f : V → V) (m : Map K V) (v : V)
      → IsSorted m
      → get k m ≡ some v
      → P (f v)
      → Each P m
      → Each P (modify k f m)
  unfolding get modify
  Each-modify k f [] v s h p e = e
  Each-modify k f ((j, w) ∷ m) v s h p (q, e) = elim (Bool-cases (key.same j k)) [
    | inl same ↦
        let eq : w ≡ v = ground (arith, h, same) in
        let rest = modify_absent k f m (Above-get k m (Above-same j k m same s)) in
        rw (modify, same, rest) (subst (λ u. P (f u)) (sym eq) p, e)
    | inr other ↦
        rw (modify, other)
          (q, Each-modify k f m v (Above-IsSorted j m s) (ground (arith, h, other)) p e)
  ]

module _ {ℓ κ} {K : Type ℓ} {V : Type κ} ⦃key : Key K⦄ where
  Above-less : (b k : K) (m : Map K V) → key.less b k ≡ true → Above k m → Above b m
  Above-less b k [] h a = tt
  Above-less b k ((j, w) ∷ m) h (i, a) = (key.less_trans b k j h i, a)

  Above-remove : (b k : K) (m : Map K V) → Above b m → Above b (remove k m)
  unfolding remove
  Above-remove b k [] a = a
  Above-remove b k ((j, w) ∷ m) (h, a) = elim (Bool-cases (key.same j k)) [
    | inl same ↦ rw (remove, same) (Above-remove b k m (Above-less b j m h a))
    | inr other ↦ rw (remove, other) (h, Above-remove j k m a)
  ]

  pub remove-IsSorted : (k : K) (m : Map K V) → IsSorted m → IsSorted (remove k m)
  unfolding remove
  remove-IsSorted k [] s = s
  remove-IsSorted k ((j, w) ∷ m) s = elim (Bool-cases (key.same j k)) [
    | inl same ↦ rw (remove, same) (Above-IsSorted j (remove k m) (Above-remove j k m s))
    | inr other ↦ rw (remove, other) (Above-remove j k m s)
  ]

  Above-retain : (b : K) (p : K → V → Bool) (m : Map K V) → Above b m → Above b (retain p m)
  unfolding retain
  Above-retain b p [] a = a
  Above-retain b p ((j, w) ∷ m) (h, a) = elim (Bool-cases (p j w)) [
    | inl keep ↦ rw (retain, keep) (h, Above-retain j p m a)
    | inr gone ↦ rw (retain, gone) (Above-retain b p m (Above-less b j m h a))
  ]

  pub retain-IsSorted : (p : K → V → Bool) (m : Map K V) → IsSorted m → IsSorted (retain p m)
  unfolding retain
  retain-IsSorted p [] s = s
  retain-IsSorted p ((j, w) ∷ m) s = elim (Bool-cases (p j w)) [
    | inl keep ↦ rw (retain, keep) (Above-retain j p m s)
    | inr gone ↦ rw (retain, gone) (Above-IsSorted j (retain p m) (Above-retain j p m s))
  ]

  Above-modify : (b k : K) (f : V → V) (m : Map K V) → Above b m → Above b (modify k f m)
  unfolding modify
  Above-modify b k f [] a = a
  Above-modify b k f ((j, w) ∷ m) (h, a) = (h, Above-modify j k f m a)

  pub modify-IsSorted : (k : K) (f : V → V) (m : Map K V) → IsSorted m → IsSorted (modify k f m)
  unfolding modify
  modify-IsSorted k f [] s = s
  modify-IsSorted k f ((j, w) ∷ m) s = Above-modify j k f m s

  Above-update_all : (b : K) (f : K → V → V) (m : Map K V) → Above b m → Above b (update_all f m)
  unfolding update_all
  Above-update_all b f [] a = a
  Above-update_all b f ((j, w) ∷ m) (h, a) = (h, Above-update_all j f m a)

  pub update_all-IsSorted : (f : K → V → V) (m : Map K V) → IsSorted m → IsSorted (update_all f m)
  unfolding update_all
  update_all-IsSorted f [] s = s
  update_all-IsSorted f ((j, w) ∷ m) s = Above-update_all j f m s
