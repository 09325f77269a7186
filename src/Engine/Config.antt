-- ===== src/Engine/Config.antt =====
-- src/engine/config.ts, and the two limits that src/engine/service.ts reads by `numEnv`. The
-- environment may set each to another number; the model takes whole ones.
use qrib.Common.{ℕ}

pub record Config : Type 0 where
  pub quote_ttl_sec : ℕ
  pub spread_bps : ℕ
  pub fee_usdc_micros : ℕ
  pub fee_idr : ℕ
  pub max_payment_idr : ℕ
  pub max_daily_idr : ℕ
  pub mock_idr_per_usdc : ℕ
  pub settle_polls : ℕ
  pub required_confirmations : ℕ
  pub confirm_timeout_sec : ℕ

-- The defaults.
abbrev pub engine_config : Config
engine_config = record {
  quote_ttl_sec = 90;
  spread_bps = 50;
  fee_usdc_micros = 20_000;
  fee_idr = 320;
  max_payment_idr = 500_000;
  max_daily_idr = 2_000_000;
  mock_idr_per_usdc = 16_000;
  settle_polls = 3;
  required_confirmations = 12;
  confirm_timeout_sec = 300;
}
