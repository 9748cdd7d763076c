-- ===== src/Config/Durations.antt =====
-- The timeouts of a round (config.go), as durations that do not overflow.
use gobft.Base.{
  ℕ, ◌+◌, ◌*◌, ◌<◌, ◌≡◌, refl, ◌∙◌, ℤ, pos, negsuc, pos_part, ◌*ℤ◌, int64_pos, int64_add, ap₂,
  ltb_ℤ, false, none, arith,
}
use gobft.Config.{Config, propose, prevote, precommit, scaled, validate_config}

-- A base, and a delta for each round, as numbers.
abbrev pub linear : ℤ → ℤ → ℕ → ℕ
linear base delta r = pos_part base + pos_part delta * r

not_negative : (z : ℤ) → ltb_ℤ z (pos 0) ≡ false → z ≡ pos (pos_part z)
not_negative (pos n) h = refl
not_negative (negsuc n) h = absurd (ground arith)

product : (d r : ℕ) → pos d *ℤ pos r ≡ pos (d * r)
unfolding ◌*ℤ◌
product d r = ground arith

scaled_pos :
    (b d r : ℕ) → b + d * r < 9223372036854775808 → scaled (pos b) (pos d) (pos r) ≡ pos (b + d * r)
scaled_pos b d r fits = rw (product d r, int64_pos (d * r) (omega arith)) (int64_add b (d * r) fits)

scaled-linear :
    (base delta : ℤ) (r : ℕ)
    → ltb_ℤ base (pos 0) ≡ false
    → ltb_ℤ delta (pos 0) ≡ false
    → linear base delta r < 9223372036854775808
    → scaled base delta (pos r) ≡ pos (linear base delta r)
scaled-linear base delta r b d fits =
    ap₂ (λ x y. scaled x y (pos r)) (not_negative base b) (not_negative delta d)
    ∙ scaled_pos (pos_part base) (pos_part delta) r fits

-- Under a configuration that `ValidateBasic` accepts, the timeouts of a round are the base plus the
-- delta times the round, exactly and so never negative, as long as 64 bits hold these numbers.
pub timeouts-linear :
    (cfg : Config) (r : ℕ)
    → validate_config cfg ≡ none
    → linear cfg.timeout_propose cfg.timeout_propose_delta r < 9223372036854775808
    → linear cfg.timeout_prevote cfg.timeout_prevote_delta r < 9223372036854775808
    → linear cfg.timeout_precommit cfg.timeout_precommit_delta r < 9223372036854775808
    → (propose cfg (pos r) ≡ pos (linear cfg.timeout_propose cfg.timeout_propose_delta r))
      × (prevote cfg (pos r) ≡ pos (linear cfg.timeout_prevote cfg.timeout_prevote_delta r))
      × (precommit cfg (pos r) ≡ pos (linear cfg.timeout_precommit cfg.timeout_precommit_delta r))
unfolding validate_config propose prevote precommit
timeouts-linear cfg r ok p q s = (
  scaled-linear cfg.timeout_propose cfg.timeout_propose_delta r (ground arith) (ground arith) p,
  scaled-linear cfg.timeout_prevote cfg.timeout_prevote_delta r (ground arith) (ground arith) q,
  scaled-linear cfg.timeout_precommit cfg.timeout_precommit_delta r (ground arith) (ground arith) s,
)
