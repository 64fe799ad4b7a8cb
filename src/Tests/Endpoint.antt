-- ===== src/Tests/Endpoint.antt =====
-- The default configuration, and one that its limits refuse.
use rtn_mq.Prelude.{ℕ, ◌*◌, ◌≡◌, refl, Bool, true, false, [], ◌∷◌, arith}
use rtn_mq.Error.{ok, err, config}
use rtn_mq.Buffer.Pool.{received, new_pool, copy_from_slice}
use rtn_mq.Endpoint.Config.{Config, new_config, validate_config, copy_from_slice-new_pool}
use rtn_mq.Join.Options.{duration_lt}

-- The relay mode stands for its own test.
abbrev default_config : Config Bool ℕ
unfolding new_config
default_config = new_config false

default_config_valid : validate_config (λ mode. mode) default_config ≡ ok tt
unfolding validate_config new_config duration_lt
default_config_valid = refl

relay_only_without_relay :
    validate_config (λ mode. mode) (record default_config { relay_mode = true; relay_only = true })
    ≡ err (config "invalid endpoint limits")
unfolding validate_config new_config duration_lt
relay_only_without_relay = refl

copy_from_slice-new_pool_example :
    copy_from_slice (new_pool 3 (128 * 1024 * 1024) (1024 * 1024)) (1 ∷ 2 ∷ [])
    ≡ ok (
      record {
        address = 3;
        budget = record { limit = 128 * 1024 * 1024; used = 258; peak = 258 };
        max_payload = 1024 * 1024;
      },
      received (1 ∷ 2 ∷ []) 2 (record { home = 3; amount = 258 } ∷ []),
    )
unfolding new_config
copy_from_slice-new_pool_example =
    copy_from_slice-new_pool (λ mode. mode) default_config 3 (1 ∷ 2 ∷ []) default_config_valid
      (omega arith) (omega arith)
