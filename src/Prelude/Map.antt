-- ===== src/Prelude/Map.antt =====
-- `BTreeMap`: an association list that is kept in the order of its keys.
pub mod Undo
pub mod Each
use Prim.Native.Nat.{◌+◌, ◌≤◌, ◌<◌}
use mathlib.Core.Path.{◌≡◌, refl}
use mathlib.Core.Bool.{Bool, true}
use mathlib.Core.Option.{Option, none, some}
use mathlib.Core.List.{List, [], ◌∷◌}
use native.Mathlib.Omega.{arith}
use rtn_mq.Prelude.Tests.{if◌then◌else◌, is_some}
use rtn_mq.Prelude.Lists.{length}
use rtn_mq.Prelude.Order.{Key, same_refl}

abbrev pub Map {ℓ κ} : Type ℓ → Type κ → Type (ℓ ⊔ κ)
Map K V = List (K × V)

module _ {ℓ κ} {K : Type ℓ} {V : Type κ} where
  abbrev pub keys : Map K V → List K
  keys [] = []
  keys ((k, v) ∷ m) = k ∷ keys m

  abbrev pub values : Map K V → List V
  values [] = []
  values ((k, v) ∷ m) = v ∷ values m

  -- `retain` keeps the entries that pass the test.
  unfoldable pub retain : (K → V → Bool) → Map K V → Map K V
  retain p [] = []
  retain p ((k, v) ∷ m) = let rest = retain p m in if p k v then (k, v) ∷ rest else rest

  -- An update of every value, as a loop over `values_mut` makes it.
  unfoldable pub update_all : (K → V → V) → Map K V → Map K V
  update_all f [] = []
  update_all f ((k, v) ∷ m) = (k, f k v) ∷ update_all f m

  pub length-retain-le : (p : K → V → Bool) (m : Map K V) → length (retain p m) ≤ length m
  unfolding retain
  length-retain-le p [] = omega arith
  length-retain-le p ((k, v) ∷ m) = ground (arith, length-retain-le p m)

  pub length-update_all : (f : K → V → V) (m : Map K V) → length (update_all f m) ≡ length m
  unfolding update_all
  length-update_all f [] = refl
  length-update_all f ((k, v) ∷ m) = omega (arith, length-update_all f m)

module _ {ℓ κ} {K : Type ℓ} {V : Type κ} ⦃key : Key K⦄ where
  unfoldable pub get : K → Map K V → Option V
  get k [] = none
  get k ((j, v) ∷ m) = if key.same j k then some v else get k m

  abbrev pub contains_key : K → Map K V → Bool
  contains_key k m = is_some (get k m)

  unfoldable pub insert : K → V → Map K V → Map K V
  insert k v [] = (k, v) ∷ []
  insert k v ((j, w) ∷ m) =
      let rest = insert k v m in
      if key.same j k
      then (k, v) ∷ m
      else if key.less k j
      then (k, v) ∷ (j, w) ∷ m
      else (j, w) ∷ rest

  unfoldable pub remove : K → Map K V → Map K V
  remove k [] = []
  remove k ((j, v) ∷ m) = let rest = remove k m in if key.same j k then rest else (j, v) ∷ rest

  -- A write through `get_mut`.
  unfoldable pub modify : K → (V → V) → Map K V → Map K V
  modify k f [] = []
  modify k f ((j, v) ∷ m) = (j, if key.same j k then f v else v) ∷ modify k f m

  pub get-insert :
      (k j : K) (v : V) (m : Map K V)
      → get j (insert k v m) ≡ (if key.same k j then some v else get j m)
  unfolding get insert
  get-insert k j v [] = refl
  get-insert k j v ((i, w) ∷ m) =
      ground (arith, get-insert k j v m, key.same_iff k j, key.same_iff i k, key.same_iff i j)

  pub get-remove :
      (k j : K) (m : Map K V) → get j (remove k m) ≡ (if key.same k j then none else get j m)
  unfolding get remove
  get-remove k j [] = ground arith
  get-remove k j ((i, w) ∷ m) =
      ground (arith, get-remove k j m, key.same_iff k j, key.same_iff i k, key.same_iff i j)

  pub get-insert_self : (k : K) (v : V) (m : Map K V) → get k (insert k v m) ≡ some v
  get-insert_self k v m = rw (get-insert k k v m, same_refl k)

  pub get-remove_self : (k : K) (m : Map K V) → get k (remove k m) ≡ none
  get-remove_self k m = rw (get-remove k k m, same_refl k)

  pub length-insert-le : (k : K) (v : V) (m : Map K V) → length (insert k v m) ≤ length m + 1
  unfolding insert
  length-insert-le k v [] = omega arith
  length-insert-le k v ((j, w) ∷ m) = ground (arith, length-insert-le k v m)

  pub length-remove-le : (k : K) (m : Map K V) → length (remove k m) ≤ length m
  unfolding remove
  length-remove-le k [] = omega arith
  length-remove-le k ((j, w) ∷ m) = ground (arith, length-remove-le k m)

  -- A key that is there goes away.
  pub length-remove-lt :
      (k : K) (m : Map K V) {v : V} → get k m ≡ some v → length (remove k m) < length m
  unfolding get remove
  length-remove-lt k [] h = ground arith
  length-remove-lt k ((j, w) ∷ m) {v} h =
      ground (arith, length-remove-lt k m {v = v}, length-remove-le k m)

  pub get-modify :
      (k j : K) (f : V → V) (m : Map K V) (v : V)
      → get j m ≡ some v
      → get j (modify k f m) ≡ some (if key.same k j then f v else v)
  unfolding get modify
  get-modify k j f [] v h = ground arith
  get-modify k j f ((i, w) ∷ m) v h =
      ground (arith, get-modify k j f m v, key.same_iff k j, key.same_iff i k, key.same_iff i j)

  pub modify-absent :
      (k j : K) (f : V → V) (m : Map K V) → get j m ≡ none → get j (modify k f m) ≡ none
  unfolding get modify
  modify-absent k j f [] h = refl
  modify-absent k j f ((i, w) ∷ m) h =
      ground (arith, modify-absent k j f m, key.same_iff k j, key.same_iff i k, key.same_iff i j)

  pub contains-modify :
      (k j : K) (f : V → V) (m : Map K V)
      → contains_key j m ≡ true
      → contains_key j (modify k f m) ≡ true
  unfolding get modify
  contains-modify k j f [] h = h
  contains-modify k j f ((i, w) ∷ m) h = ground (arith, contains-modify k j f m)

  pub length-modify : (k : K) (f : V → V) (m : Map K V) → length (modify k f m) ≡ length m
  unfolding modify
  length-modify k f [] = refl
  length-modify k f ((i, w) ∷ m) = omega (arith, length-modify k f m)

  -- What `retain` keeps, it had; on a test of the key alone nothing else is lost.
  pub get-retain-key :
      (p : K → Bool) (k : K) (m : Map K V)
      → get k (retain (λ j _. p j) m) ≡ (if p k then get k m else none)
  unfolding get retain
  get-retain-key p k [] = ground arith
  get-retain-key p k ((i, w) ∷ m) = ground (arith, get-retain-key p k m, key.same_iff i k)

  -- What passes the test stays.
  pub get-retain :
      (p : K → V → Bool) (k : K) (m : Map K V) (v : V)
      → get k m ≡ some v
      → p k v ≡ true
      → get k (retain p m) ≡ some v
  unfolding get retain
  get-retain p k [] v h t = ground arith
  get-retain p k ((i, w) ∷ m) v h t = ground (arith, get-retain p k m v, key.same_iff i k)

  pub get-update_all :
      (f : K → V → V) (k : K) (m : Map K V) (v : V)
      → get k m ≡ some v
      → get k (update_all f m) ≡ some (f k v)
  unfolding get update_all
  get-update_all f k [] v h = ground arith
  get-update_all f k ((i, w) ∷ m) v h = ground (arith, get-update_all f k m v, key.same_iff i k)

  pub update_all-absent :
      (f : K → V → V) (k : K) (m : Map K V) → get k m ≡ none → get k (update_all f m) ≡ none
  unfolding get update_all
  update_all-absent f k [] h = refl
  update_all-absent f k ((i, w) ∷ m) h = ground (arith, update_all-absent f k m, key.same_iff i k)

  -- The keys in strictly rising order, each above `k`.
  abbrev pub Above : K → Map K V → Type 0
  Above k [] = Unit {0}
  Above k ((j, v) ∷ m) = (key.less k j ≡ true) × Above j m

  abbrev pub IsSorted : Map K V → Type 0
  IsSorted [] = Unit {0}
  IsSorted ((j, v) ∷ m) = Above j m

  insert-Above :
      (b k : K) (v : V) (m : Map K V) → key.less b k ≡ true → Above b m → Above b (insert k v m)
  unfolding insert
  insert-Above b k v [] h a = (h, tt)
  insert-Above b k v ((j, w) ∷ m) h a =
      ground (arith, key.same_iff j k, key.same_iff k j, key.less_total k j, insert-Above j k v m)

  -- An insertion keeps the order.
  pub insert-IsSorted : (k : K) (v : V) (m : Map K V) → IsSorted m → IsSorted (insert k v m)
  unfolding insert
  insert-IsSorted k v [] s = tt
  insert-IsSorted k v ((j, w) ∷ m) s =
      ground (arith, key.same_iff j k, key.same_iff k j, key.less_total k j, insert-Above j k v m)

  -- A key below all the others is not there.
  pub get-Above : (k j : K) (m : Map K V) → key.less k j ≡ true → Above j m → get k m ≡ none
  unfolding get
  get-Above k j [] h a = refl
  get-Above k j ((i, w) ∷ m) h (b, a) =
      let below = key.less_trans k j i h b in
      ground (arith, key.same_iff i k, key.less_irrefl k, get-Above k i m below a)

  -- Over a key that is there an insertion adds nothing.
  pub length-insert-present :
      (k : K) (v : V) (m : Map K V) {w : V}
      → IsSorted m
      → get k m ≡ some w
      → length (insert k v m) ≡ length m
  unfolding get insert
  length-insert-present k v [] s h = ground arith
  length-insert-present k v ((j, u) ∷ []) {w} s h = ground arith
  length-insert-present k v ((j, u) ∷ (i, u') ∷ m) {w} s h =
      ground (arith, get-Above k j ((i, u') ∷ m), length-insert-present k v ((i, u') ∷ m) {w = w})

pub ruleset map_laws = (get-insert, get-remove)
