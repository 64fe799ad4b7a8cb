-- ===== src/Endpoint/Owner/Credits/Present.antt =====
-- endpoint/owner.rs: `grant_credits` with the panic of its `unwrap`, which never comes.
use Prim.Native.Nat.{min}
use rtn_mq.Prelude.{
  ℕ, suc, zero, ◌≡◌, refl, true, Option, none, some, List, [], ◌∷◌, ◌++◌, take, drop, arith,
}
use rtn_mq.Prelude.Bytes.{Bytes, bytes_key}
use rtn_mq.Prelude.Map.{Map, get, contains_key, contains-modify}
use rtn_mq.Message.Topic.{Topic}
use rtn_mq.Message.Topic.Ordering.{topic_key}
use rtn_mq.Endpoint.Owner.{Owner, Settings, Outside, LocalSub}
use rtn_mq.Endpoint.Owner.Credits.{
  wanting, candidates, rotate_left, grant_one, grant_turn, grant_loop,
}

-- Each candidate is of a subscription that is there.
abbrev AllPresent : List (Topic × Bytes) → Map Topic LocalSub → Type 0
AllPresent [] m = Unit
AllPresent ((topic, peer) ∷ xs) m = (contains_key topic m ≡ true) × AllPresent xs m

AllPresent-append :
    (xs ys : List (Topic × Bytes)) (m : Map Topic LocalSub)
    → AllPresent xs m
    → AllPresent ys m
    → AllPresent (xs ++ ys) m
AllPresent-append [] ys m a b = b
AllPresent-append ((topic, peer) ∷ xs) ys m (there, a) b = (there, AllPresent-append xs ys m a b)

AllPresent-take :
    (n : ℕ) (xs : List (Topic × Bytes)) (m : Map Topic LocalSub)
    → AllPresent xs m
    → AllPresent (take n xs) m
AllPresent-take zero xs m a = tt
AllPresent-take (suc n) [] m a = tt
AllPresent-take (suc n) ((topic, peer) ∷ xs) m (there, a) = (there, AllPresent-take n xs m a)

AllPresent-drop :
    (n : ℕ) (xs : List (Topic × Bytes)) (m : Map Topic LocalSub)
    → AllPresent xs m
    → AllPresent (drop n xs) m
AllPresent-drop zero xs m a = a
AllPresent-drop (suc n) [] m a = tt
AllPresent-drop (suc n) ((topic, peer) ∷ xs) m (there, a) = AllPresent-drop n xs m a

AllPresent-mono :
    (xs : List (Topic × Bytes)) (m m' : Map Topic LocalSub)
    → ((t : Topic) → contains_key t m ≡ true → contains_key t m' ≡ true)
    → AllPresent xs m
    → AllPresent xs m'
AllPresent-mono [] m m' up a = tt
AllPresent-mono ((topic, peer) ∷ xs) m m' up (there, a) =
    (up topic there, AllPresent-mono xs m m' up a)

wanting-AllPresent :
    (topic : Topic) (s : LocalSub) (demand : Map Bytes ℕ) (m : Map Topic LocalSub)
    → contains_key topic m ≡ true
    → AllPresent (wanting topic s demand) m
unfolding wanting
wanting-AllPresent topic s [] m there = tt
wanting-AllPresent topic s ((peer, n) ∷ demand) m there =
    let rest = wanting-AllPresent topic s demand m there in ground (arith, rest, there)

candidates-AllPresent : (m : Map Topic LocalSub) → AllPresent (candidates m) m
unfolding candidates get
candidates-AllPresent [] = tt
candidates-AllPresent ((topic, s) ∷ m) =
    let all = (topic, s) ∷ m in
    let self = topic_key.same_iff topic topic in
    let here : contains_key topic all ≡ true = grind (arith, self) in
    AllPresent-append (wanting topic s s.demand) (candidates m) all
      (wanting-AllPresent topic s s.demand all here)
      (AllPresent-mono (candidates m) m all (λ t h. ground (arith, h)) (candidates-AllPresent m))

module _ (settings : Settings) (out : Outside) where
  -- `grant_turn` and its loop, with `none` for the panic where the subscription is missing.
  unwrapping_turn : Topic × Bytes → Owner → Option Owner
  unwrapping_turn (topic, peer) o = elim (get peer o.peers) [
    | none ↦ some o
    | some p ↦ elim (get topic o.subscriptions) [
      | none ↦ none
      | some s ↦
          some (grant_one settings out topic peer (min settings.max_payload p.reg.max_payload) s o)
    ]
  ]

  unwrapping_loop : List (Topic × Bytes) → Owner → Option Owner
  unwrapping_loop [] o = some o
  unwrapping_loop (x ∷ xs) o = elim (unwrapping_turn x o) [
    | none ↦ none
    | some o' ↦ unwrapping_loop xs o'
  ]

  grant_turn-keeps :
      (x : Topic × Bytes) (o : Owner) (t : Topic)
      → contains_key t o.subscriptions ≡ true
      → contains_key t (grant_turn settings out x o).subscriptions ≡ true
  unfolding grant_turn grant_one
  grant_turn-keeps (topic, peer) o t h = grind (arith, h, contains-modify)

  unwrapping_turn-eq :
      (topic : Topic) (peer : Bytes) (o : Owner)
      → contains_key topic o.subscriptions ≡ true
      → unwrapping_turn (topic, peer) o ≡ some (grant_turn settings out (topic, peer) o)
  unfolding grant_turn unwrapping_turn
  unwrapping_turn-eq topic peer o h = ground (arith, h)

  unwrapping_loop-eq :
      (xs : List (Topic × Bytes)) (o : Owner)
      → AllPresent xs o.subscriptions
      → unwrapping_loop xs o ≡ some (grant_loop settings out xs o)
  unfolding grant_loop unwrapping_loop
  unwrapping_loop-eq [] o a = refl
  unwrapping_loop-eq ((topic, peer) ∷ xs) o (there, a) =
      let o' = grant_turn settings out (topic, peer) o in
      rw (unwrapping_loop, unwrapping_turn-eq topic peer o there)
        (unwrapping_loop-eq xs o' (
          AllPresent-mono xs o.subscriptions o'.subscriptions (grant_turn-keeps (topic, peer) o) a))

  -- The candidates of an owner, in any rotation, are granted without the panic.
  candidates-unwrapping_loop :
      (n cursor : ℕ) (o : Owner)
      → let xs = rotate_left n (candidates o.subscriptions) in
        let o' = record o { credit_cursor = cursor } in
        unwrapping_loop xs o' ≡ some (grant_loop settings out xs o')
  unfolding rotate_left
  candidates-unwrapping_loop n cursor o =
      let list = candidates o.subscriptions in
      let a = candidates-AllPresent o.subscriptions in
      unwrapping_loop-eq (rotate_left n list) (record o { credit_cursor = cursor })
        (AllPresent-append (drop n list) (take n list) o.subscriptions
          (AllPresent-drop n list o.subscriptions a) (AllPresent-take n list o.subscriptions a))
