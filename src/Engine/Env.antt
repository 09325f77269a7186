-- ===== src/Engine/Env.antt =====
-- `providersFromEnv` and `manualRef6` of src/engine/service.ts: the providers that the environment
-- asks for.
use Option.{none}
use qrib.Engine.Quote.Display.{format_micros, format_micros-IsWorth}
use qrib.Engine.Common.{is_text}
use qrib.Engine.Providers.{OffRampProvider, PaymentProvider, ChainGateway, Providers}
use qrib.Wallet.Usdc.{Ethereum}
use qrib.Engine.Config.{Config}
use qrib.Common.{
  Text, ℤ, ℕ, if◌then◌else◌, is_fixed, trim, pos, codes, fixed_value, ◌≡◌, trim-solid, ap,
}
use mathlib.Core.Option.{Option, some}
use mathlib.Core.Option
use qrib.Engine.Real.{RealEnv, real_chain_gateway}
use qrib.Engine.Tasks.{db_task_store}
use qrib.Engine.Manual.{manual_off_ramp, manual_qris}
use qrib.Engine.Mock.{mock_off_ramp, mock_qris, mock_chain}

-- The variables read.
pub record Env : Type 0 where
  pub engine_off_ramp : Option Text
  pub engine_payment : Option Text
  pub engine_chain : Option Text
  pub manual_idr_per_usdc : Option Text
  pub real : RealEnv

abbrev rate_of : Text → Option ℤ
rate_of s = if is_fixed 6 s then some (pos (fixed_value 6 s)) else none

-- `manualRef6`; `none` where it throws.
unfoldable pub manual_ref6 : Option Text → Option ℤ
manual_ref6 none = none
manual_ref6 (some raw) = rate_of (trim raw)

module _ (cfg : Config) (eth : Ethereum) (sha256_hex : Text → Text) (env : Env) where
  abbrev off_ramp_from : Option OffRampProvider
  off_ramp_from =
      if is_text (codes "manual") env.engine_off_ramp
      then Option.map (manual_off_ramp db_task_store) (manual_ref6 env.manual_idr_per_usdc)
      else some (mock_off_ramp cfg)

  abbrev payment_from : PaymentProvider
  payment_from =
      if is_text (codes "manual") env.engine_payment then manual_qris db_task_store else mock_qris

  abbrev chain_from : Option ChainGateway
  chain_from =
      if is_text (codes "real") env.engine_chain
      then real_chain_gateway eth env.real
      else some (mock_chain sha256_hex)

  -- `providersFromEnv`; `none` where a constructor throws.
  unfoldable pub providers_from_env : Option Providers
  providers_from_env = Option.bind off_ramp_from λ off_ramp.
      Option.map (λ chain. record { off_ramp = off_ramp; payment = payment_from; chain = chain })
        chain_from

-- A rate that `formatMicros` prints, `manualRef6` reads back.
pub manual_ref6-format_micros : (n : ℕ) → manual_ref6 (some (format_micros (pos n))) ≡ some (pos n)
unfolding manual_ref6
manual_ref6-format_micros n =
    let h = format_micros-IsWorth n in
    rw (trim-solid (format_micros (pos n)) h.solid, h.fixed) (ap (λ (m : ℕ). some (pos m)) h.worth)
