-- ===== src/Endpoint/Outcome.antt =====
-- endpoint.rs: `RecipientOutcome`, `PublishOptions` and `Metrics`.
use rtn_mq.Prelude.{ℕ, ◌+◌, ◌%◌, Bool, true, false}
use rtn_mq.Prelude.Bytes.{Bytes}
use rtn_mq.Error.{Error}
use rtn_mq.Cbor.{u64_mod}
use rtn_mq.Message.Envelope.{DeliveryMode}
use rtn_mq.Join.Options.{Duration}

pub data RecipientOutcome : Type 0 where
  pending sent processed permanent_nack cancelled : RecipientOutcome
  rejected failed : Error → RecipientOutcome

unfoldable pub terminal : RecipientOutcome → Bool
terminal pending = false
terminal sent = true
terminal processed = true
terminal permanent_nack = true
terminal cancelled = true
terminal (rejected e) = true
terminal (failed e) = true

-- The format is its UTF-8 bytes.
pub record PublishOptions : Type 0 where
  pub mode : DeliveryMode
  pub lifetime : Duration
  pub format : Bytes

-- The counters that the owner keeps; the other numbers of `Metrics` are read off its state.
pub record Stats : Type 0 where
  pub admitted : ℕ
  pub rejected : ℕ
  pub processed : ℕ
  pub retried : ℕ
  pub expired : ℕ
  pub authorization_failures : ℕ

-- `+= 1` on `u64`, which wraps in a release build.
abbrev pub increment : ℕ → ℕ
increment n = (n + 1) % u64_mod
