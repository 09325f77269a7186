-- ===== src/Engine/Faulty.antt =====
-- src/engine/providers.faulty.ts: the scripted failures that the staging suite injects.
use qrib.Db.{Act, pure, raise, provider_failure, provider_timeout}
use qrib.Common.{ℤ, codes, Text, ◌++◌, take, none, true, some, ◌-ℤ◌, pos}
use qrib.Engine.Providers.{
  OffRampProvider, PaymentProvider, ChainGateway, SettlementState, ConversionReply,
}

pub data OffRampFault : Type 0 where
  throws timeout partial : OffRampFault

pub data SettleFault : Type 0 where
  failed timeout pending_forever partial : SettleFault

-- What `execute` answers; a partial delivery is one rupiah short.
unfoldable pub faulty_conversion : OffRampFault → ℤ → Text → ℤ → Act ConversionReply
faulty_conversion OffRampFault.throws ref6 id fiat = raise provider_failure
faulty_conversion OffRampFault.timeout ref6 id fiat = raise provider_timeout
faulty_conversion OffRampFault.partial ref6 id fiat = pure (record {
  reference = codes "conv-" ++ take 8 id;
  is_completed = true;
  fiat_amount_idr = some (fiat -ℤ pos 1);
  rate_executed6 = some ref6;
})

-- `FaultyOffRampProvider`
abbrev pub faulty_off_ramp : OffRampFault → ℤ → OffRampProvider
faulty_off_ramp fault ref6 = record {
  name = codes "faulty-offramp";
  ref_rate6 = pure ref6;
  execute = λ id usdc fiat. faulty_conversion fault ref6 id fiat;
}

unfoldable pub faulty_poll : SettleFault → Act SettlementState
faulty_poll SettleFault.failed = pure SettlementState.failed
faulty_poll SettleFault.timeout = raise provider_timeout
faulty_poll SettleFault.pending_forever = pure SettlementState.pending
faulty_poll SettleFault.partial = pure SettlementState.pending

-- `FaultyQrisProvider`
abbrev pub faulty_qris : SettleFault → PaymentProvider
faulty_qris fault = record {
  name = codes "faulty-qris";
  create_payment = λ id fiat. pure (codes "qris-" ++ take 8 id);
  get_payment = λ ref. faulty_poll fault;
}

-- `FaultyChainGateway`
abbrev pub faulty_chain : ChainGateway
faulty_chain = record {
  name = codes "faulty-chain";
  submit_payment = λ id usdc. raise provider_failure;
  confirmations = λ hash. pure 0;
  leg_parties = none;
}
