-- ===== src/Engine/Providers.antt =====
-- src/engine/providers.ts: the contracts of the off-ramp, of the merchant settlement and of the
-- chain. A provider may read the clock, let time pass and file an operator task.
use qrib.Common.{ℕ, ℤ, Text, Bool, Option}
use qrib.Db.{Act}

-- What `execute` of an off-ramp returns; `status` is COMPLETED or PENDING.
pub record ConversionReply : Type 0 where
  pub reference : Text
  pub is_completed : Bool
  pub fiat_amount_idr : Option ℤ
  pub rate_executed6 : Option ℤ

pub data SettlementState : Type 0 where
  pending completed failed : SettlementState

pub record OffRampProvider : Type 0 where
  pub name : Text
  pub ref_rate6 : Act ℤ
  -- the payment, the USDC micros, the rupiah expected
  pub execute : Text → ℤ → ℤ → Act ConversionReply

pub record PaymentProvider : Type 0 where
  pub name : Text
  pub create_payment : Text → ℤ → Act Text
  pub get_payment : Text → Act SettlementState

pub record ChainGateway : Type 0 where
  pub name : Text
  pub submit_payment : Text → ℤ → Act Text
  pub confirmations : Text → Act ℕ
  -- `none` where the gateway does not disclose the parties
  pub leg_parties : Option (Text × Text)

-- `Providers` of src/engine/service.ts
pub record Providers : Type 0 where
  pub off_ramp : OffRampProvider
  pub payment : PaymentProvider
  pub chain : ChainGateway
