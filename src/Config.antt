-- ===== src/Config.antt =====
-- config.go: the timeouts, in nanoseconds. A `time.Duration` is an int64.
pub mod Durations
use gobft.Base.{
  ℤ, pos, ◌+ℤ◌, ◌*ℤ◌, int64, ltb_ℤ, Bool, true, false, Option, none, some, if◌then◌else◌,
}

pub record Config : Type 0 where
  pub timeout_propose : ℤ
  pub timeout_propose_delta : ℤ
  pub timeout_prevote : ℤ
  pub timeout_prevote_delta : ℤ
  pub timeout_precommit : ℤ
  pub timeout_precommit_delta : ℤ
  pub timeout_commit : ℤ
  pub skip_timeout_commit : Bool

unfoldable pub default_config : Config
default_config = record {
  timeout_propose = pos 3_000_000_000;
  timeout_propose_delta = pos 500_000_000;
  timeout_prevote = pos 1_000_000_000;
  timeout_prevote_delta = pos 500_000_000;
  timeout_precommit = pos 1_000_000_000;
  timeout_precommit_delta = pos 500_000_000;
  timeout_commit = pos 1_000_000_000;
  skip_timeout_commit = false;
}

unfoldable pub test_config : Config
test_config = record {
  timeout_propose = pos 40_000_000;
  timeout_propose_delta = pos 1_000_000;
  timeout_prevote = pos 10_000_000;
  timeout_prevote_delta = pos 1_000_000;
  timeout_precommit = pos 10_000_000;
  timeout_precommit_delta = pos 1_000_000;
  timeout_commit = pos 10_000_000;
  skip_timeout_commit = true;
}

-- FetchInterval
abbrev pub fetch_interval : ℤ
fetch_interval = pos 1_000_000_000

abbrev pub watermark : ℤ
watermark = pos 300

-- A base and a delta for each round.
abbrev pub scaled : ℤ → ℤ → ℤ → ℤ
scaled base delta round = int64 (base +ℤ int64 (delta *ℤ round))

unfoldable pub propose : Config → ℤ → ℤ
propose cfg round = scaled cfg.timeout_propose cfg.timeout_propose_delta round

unfoldable pub prevote : Config → ℤ → ℤ
prevote cfg round = scaled cfg.timeout_prevote cfg.timeout_prevote_delta round

unfoldable pub precommit : Config → ℤ → ℤ
precommit cfg round = scaled cfg.timeout_precommit cfg.timeout_precommit_delta round

-- `Config.Commit`: a time, later by `timeout_commit`.
unfoldable pub commit : Config → ℤ → ℤ
commit cfg t = t +ℤ cfg.timeout_commit

-- The duration that an error is about.
pub data ConfigError : Type 0 where
  negative_propose negative_propose_delta negative_prevote negative_prevote_delta : ConfigError
  negative_precommit negative_precommit_delta negative_commit : ConfigError

unfoldable pub validate_config : Config → Option ConfigError
validate_config cfg =
    if ltb_ℤ cfg.timeout_propose (pos 0)
    then some negative_propose
    else if ltb_ℤ cfg.timeout_propose_delta (pos 0)
    then some negative_propose_delta
    else if ltb_ℤ cfg.timeout_prevote (pos 0)
    then some negative_prevote
    else if ltb_ℤ cfg.timeout_prevote_delta (pos 0)
    then some negative_prevote_delta
    else if ltb_ℤ cfg.timeout_precommit (pos 0)
    then some negative_precommit
    else if ltb_ℤ cfg.timeout_precommit_delta (pos 0)
    then some negative_precommit_delta
    else if ltb_ℤ cfg.timeout_commit (pos 0)
    then some negative_commit
    else none
