-- ===== src/Endpoint/Owner/Once.antt =====
-- endpoint/owner.rs: the record of the messages that the application was handed, and what leaves it alone.
pub mod Quiet
pub mod Commands
pub mod Sweep
pub mod Replay
pub mod Runs
use rtn_mq.Prelude.{
  ℕ, ◌+◌, ◌≡◌, ◌≢◌, refl, ◌∙◌, ◌<◌, false, some, List, [], ◌∷◌, if◌then◌else◌, arith,
}
use rtn_mq.Prelude.Map.{get}
use rtn_mq.Endpoint.Owner.{Owner, Outside, Delivery, Dedup, DedupKey, dedup_key, unwrap_or_zero}
use rtn_mq.Endpoint.Owner.Deliver.{is_fresh}

-- How often the application was handed a message under a subscription.
abbrev pub times : DedupKey → List (DedupKey × Delivery) → ℕ
times key [] = 0
times key ((k, d) ∷ ds) = (if dedup_key.same k key then 1 else 0) + times key ds

abbrev pub handed : DedupKey → Owner → ℕ
handed key o = times key o.delivered

-- The message has a record that asks for no retry, and expires at `expires`.
pub record Held (key : DedupKey) (expires : ℕ) (o : Owner) : Type 0 where
  pub entry : Dedup
  pub there : get key o.dedup ≡ some entry
  pub until : entry.expires ≡ expires
  pub settled : is_fresh entry.state ≡ false

-- Before the message expires, while its application does not ask for a retry.
pub record Calm (key : DedupKey) (expires : ℕ) (out : Outside) : Type 0 where
  pub early : unwrap_or_zero (out.wall 1) < expires
  pub no_retry : out.disposition key ≢ 2

-- Neither the records nor the history of deliveries change.
pub record SameLog (o o' : Owner) : Type 0 where
  pub same_dedup : o'.dedup ≡ o.dedup
  pub same_delivered : o'.delivered ≡ o.delivered

abbrev pub SameLog-refl : (o : Owner) → SameLog o o
SameLog-refl o = record { same_dedup = refl; same_delivered = refl }

pub SameLog-trans : {o p q : Owner} → SameLog o p → SameLog p q → SameLog o q
SameLog-trans a b = record {
  same_dedup = b.same_dedup ∙ a.same_dedup;
  same_delivered = b.same_delivered ∙ a.same_delivered;
}
