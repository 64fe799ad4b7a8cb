-- ===== src/Prelude/Map/Undo.antt =====
-- Changes of a map that are taken back.
use mathlib.Core.Path.{◌≡◌, refl, ap, subst, ◌∙◌}
use mathlib.Core.Logic.{inl, inr}
use mathlib.Core.Bool.{true}
use mathlib.Core.Option.{none, some}
use mathlib.Core.List.{[], ◌∷◌}
use native.Mathlib.Omega.{arith}
use rtn_mq.Prelude.Tests.{Bool-cases}
use rtn_mq.Prelude.Order.{Key, same_refl}
use rtn_mq.Prelude.Map.{Map, get, insert, remove, modify, Above, IsSorted, get-Above}

module _ {ℓ κ} {K : Type ℓ} {V : Type κ} ⦃key : Key K⦄ where
  pub remove_absent : (k : K) (m : Map K V) → get k m ≡ none → remove k m ≡ m
  unfolding get remove
  remove_absent k [] h = refl
  remove_absent k ((j, w) ∷ m) h = ground (arith, remove_absent k m)

  pub modify_absent : (k : K) (f : V → V) (m : Map K V) → get k m ≡ none → modify k f m ≡ m
  unfolding get modify
  modify_absent k f [] h = refl
  modify_absent k f ((j, w) ∷ m) h = ground (arith, modify_absent k f m)

  insert-Above : (k : K) (v : V) (m : Map K V) → Above k m → insert k v m ≡ (k, v) ∷ m
  unfolding insert
  insert-Above k v [] a = refl
  insert-Above k v ((j, w) ∷ m) a = ground (arith, key.same_iff j k, key.less_irrefl k)

  pub Above-get : (k : K) (m : Map K V) → Above k m → get k m ≡ none
  unfolding get
  Above-get k [] a = refl
  Above-get k ((j, w) ∷ m) (h, a) =
      ground (arith, key.same_iff j k, key.less_irrefl k, get-Above k j m h a)

  -- An insertion under a new key is taken back by a removal.
  pub remove-insert : (k : K) (v : V) (m : Map K V) → get k m ≡ none → remove k (insert k v m) ≡ m
  unfolding get insert remove
  remove-insert k v [] h = ground (arith, same_refl k)
  remove-insert k v ((j, w) ∷ m) h =
      ground (arith, same_refl k, remove_absent k m, remove-insert k v m)

  pub Above-IsSorted : (k : K) (m : Map K V) → Above k m → IsSorted m
  Above-IsSorted k [] a = tt
  Above-IsSorted k ((j, w) ∷ m) (h, a) = a

  pub Above-same : (j k : K) (m : Map K V) → key.same j k ≡ true → Above j m → Above k m
  Above-same j k m e a = subst (λ i. Above i m) ((key.same_iff j k).0 e) a

  -- A removal is taken back by an insertion of what stood there.
  pub insert-remove :
      (k : K) (v : V) (m : Map K V) → IsSorted m → get k m ≡ some v → insert k v (remove k m) ≡ m
  unfolding get insert remove
  insert-remove k v [] s h = ground arith
  insert-remove k v ((j, w) ∷ m) s h = elim (Bool-cases (key.same j k)) [
    | inl e ↦
        let above = Above-same j k m e s in
        let gone = remove_absent k m (Above-get k m above) in
        let put = insert-Above k v m above in
        let same = (key.same_iff j k).0 e in ground (arith, gone, put, same)
    | inr e ↦
        let rest = insert-remove k v m (Above-IsSorted j m s) in
        let above = get-Above k j m in ground (arith, rest, above)
  ]

  -- An update of a value is taken back by an update that undoes it there.
  pub modify-modify :
      (k : K) (f g : V → V) (m : Map K V) (v : V)
      → IsSorted m
      → get k m ≡ some v
      → g (f v) ≡ v
      → modify k g (modify k f m) ≡ m
  unfolding get modify
  modify-modify k f g [] v s h e = refl
  modify-modify k f g ((j, w) ∷ m) v s h e = elim (Bool-cases (key.same j k)) [
    | inl same ↦
        let none_left = Above-get k m (Above-same j k m same s) in
        let rest : modify k g (modify k f m) ≡ m =
          ap (modify k g) (modify_absent k f m none_left) ∙ modify_absent k g m none_left in
        ground (arith, rest, same)
    | inr other ↦
        let rest = modify-modify k f g m v (Above-IsSorted j m s) in ground (arith, rest, other, e)
  ]

  -- A replacement is taken back by an insertion of what stood there.
  pub insert-insert :
      (k : K) (v w : V) (m : Map K V)
      → IsSorted m
      → get k m ≡ some v
      → insert k v (insert k w m) ≡ m
  unfolding get insert
  insert-insert k v w [] s h = ground arith
  insert-insert k v w ((j, u) ∷ m) s h = elim (Bool-cases (key.same j k)) [
    | inl e ↦ let same = (key.same_iff j k).0 e in ground (arith, same, same_refl k)
    | inr e ↦
        let rest = insert-insert k v w m (Above-IsSorted j m s) in
        let above = get-Above k j m in ground (arith, rest, above)
  ]
