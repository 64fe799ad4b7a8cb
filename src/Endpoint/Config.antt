-- ===== src/Endpoint/Config.antt =====
-- endpoint.rs: `Config`, its defaults and its limits.
use rtn_mq.Prelude.{
  ℕ, ◌+◌, ◌*◌, ◌≤◌, ◌<◌, ◌≡◌, Bool, false, ◌&&◌, ◌||◌, Option, none, ltb, ◌==◌, if◌then◌else◌, [],
  ◌∷◌, length, arith,
}
use rtn_mq.Prelude.Bytes.{Bytes}
use rtn_mq.Error.{Result, ok, err, config}
use rtn_mq.Buffer.{usize_mod, payload_overhead, new, reserve, charge_used, raise_peak, checked_add}
use rtn_mq.Buffer.Pool.{received, new_pool, copy_from_slice}
use rtn_mq.Join.Options.{Duration, from_secs, duration_lt}

pub record Config (RelayMode SocketAddr : Type 0) : Type 0 where
  pub relay_mode : RelayMode
  pub relay_only : Bool
  pub bind_addr : Option SocketAddr
  pub max_payload : ℕ
  pub payload_bytes : ℕ
  pub metadata_bytes : ℕ
  pub max_peers : ℕ
  pub max_topics : ℕ
  pub ingress_slots : ℕ
  pub per_peer_messages : ℕ
  pub per_peer_bytes : ℕ
  pub subscription_messages : ℕ
  pub subscription_bytes : ℕ
  pub delivery_window : Duration
  pub retry_interval : Duration
  pub handshake_timeout : Duration

abbrev pub is_zero : Duration → Bool
is_zero d = d.as_secs == 0 && d.nanos == 0

-- `Config::new`; `relay_default` is `RelayMode::Default` of iroh.
unfoldable pub new_config : {R A : Type 0} → R → Config R A
new_config relay_default = record {
  relay_mode = relay_default;
  relay_only = false;
  bind_addr = none;
  max_payload = 1024 * 1024;
  payload_bytes = 128 * 1024 * 1024;
  metadata_bytes = 32 * 1024 * 1024;
  max_peers = 256;
  max_topics = 256;
  ingress_slots = 1024;
  per_peer_messages = 1024;
  per_peer_bytes = 16 * 1024 * 1024;
  subscription_messages = 1024;
  subscription_bytes = 16 * 1024 * 1024;
  delivery_window = from_secs 300;
  retry_interval = from_secs 30;
  handshake_timeout = from_secs 10;
}

-- `is_disabled` tests for `RelayMode::Disabled`. The sums do not overflow: they are evaluated only
-- when `max_payload` is at most 1 MiB.
unfoldable pub validate_config : {R A : Type 0} → (R → Bool) → Config R A → Result (Unit {0})
unfolding duration_lt
validate_config is_disabled c =
    if (c.relay_only && is_disabled c.relay_mode)
      || c.max_payload == 0
      || ltb (1024 * 1024) c.max_payload
      || ltb c.payload_bytes (c.max_payload + payload_overhead)
      || ltb c.metadata_bytes (256 * 1024)
      || c.max_peers == 0
      || ltb 256 c.max_peers
      || c.max_topics == 0
      || ltb 256 c.max_topics
      || c.ingress_slots == 0
      || ltb 65536 c.ingress_slots
      || c.per_peer_messages == 0
      || ltb 65536 c.per_peer_messages
      || c.subscription_messages == 0
      || ltb 65536 c.subscription_messages
      || ltb c.per_peer_bytes (c.max_payload + 16396)
      || ltb c.subscription_bytes (c.max_payload + 16396)
      || c.delivery_window.as_secs == 0
      || duration_lt (from_secs 300) c.delivery_window
      || is_zero c.retry_interval
      || is_zero c.handshake_timeout
    then err (config "invalid endpoint limits")
    else ok tt

-- In a valid configuration the budget of the pool holds the largest payload with its overhead.
validate_config-payload :
    {R A : Type 0} (is_disabled : R → Bool) (c : Config R A)
    → validate_config is_disabled c ≡ ok tt
    → c.max_payload + payload_overhead ≤ c.payload_bytes
unfolding validate_config
validate_config-payload is_disabled c h = ground (arith)

-- In a valid configuration every payload of at most `max_payload` bytes can be copied into the
-- fresh pool, and its permit is its length and the overhead.
pub copy_from_slice-new_pool :
    {R A : Type 0} (is_disabled : R → Bool) (c : Config R A) (address : ℕ) (bytes : Bytes)
    → validate_config is_disabled c ≡ ok tt
    → c.payload_bytes < usize_mod
    → length bytes ≤ c.max_payload
    → let n = length bytes + payload_overhead in
      copy_from_slice (new_pool address c.payload_bytes c.max_payload) bytes
      ≡ ok (
        record {
          address = address;
          budget = record { limit = c.payload_bytes; used = n; peak = n };
          max_payload = c.max_payload;
        },
        received bytes (length bytes) (record { home = address; amount = n } ∷ []),
      )
unfolding copy_from_slice new_pool new reserve charge_used raise_peak checked_add
copy_from_slice-new_pool is_disabled c address bytes valid small fits = do
  let room = validate_config-payload is_disabled c valid
  ground (arith)
