-- ===== src/Engine/Mock.antt =====
-- src/engine/providers.mock.ts: the test doubles, which are also the default providers.
use qrib.Engine.Changes.Writes.{Respects}
use qrib.Db.{Change, pure, Runs-pure}
use qrib.Common.{Text, ℤ, codes, pos, ◌*◌, ◌++◌, take, true, some, quot, ◌*ℤ◌}
use qrib.Engine.Providers.{
  PaymentProvider, OffRampProvider, ChainGateway, Providers, SettlementState,
}
use qrib.Engine.Config.{Config}

-- The reference rate: rupiah per USDC in millionths.
abbrev pub mock_rate : Config → ℤ
mock_rate cfg = pos (cfg.mock_idr_per_usdc * 1_000_000)

-- `MockOffRampProvider`
abbrev pub mock_off_ramp : Config → OffRampProvider
mock_off_ramp cfg = record {
  name = codes "mock-offramp";
  ref_rate6 = pure (mock_rate cfg);
  execute = λ id usdc fiat. pure (record {
    reference = codes "conv-" ++ take 8 id;
    is_completed = true;
    fiat_amount_idr = some (quot (usdc *ℤ mock_rate cfg) (pos 1_000_000_000_000));
    rate_executed6 = some (mock_rate cfg);
  });
}

-- `MockQrisProvider`: the first poll settles. Its count of polls is read by nothing.
abbrev pub mock_qris : PaymentProvider
mock_qris = record {
  name = codes "mock-qris";
  create_payment = λ id fiat. pure (codes "qris-" ++ take 8 id);
  get_payment = λ ref. pure SettlementState.completed;
}

module _ (sha256_hex : Text → Text) where
  -- `MockChainGateway`; the hash function is a library's.
  abbrev pub mock_chain : ChainGateway
  mock_chain = record {
    name = codes "mock-chain";
    submit_payment = λ id usdc. pure (codes "0x" ++ take 64 (sha256_hex (codes "mock-tx:" ++ id)));
    confirmations = λ hash. pure 12;
    leg_parties = some (codes "mock-funding", codes "mock-offramp");
  }

  abbrev pub mock_providers : Config → Providers
  mock_providers cfg = record {
    off_ramp = mock_off_ramp cfg;
    payment = mock_qris;
    chain = mock_chain;
  }

  -- The mocks change nothing at all.
  pub mock_providers-Respects : (c : Change) (cfg : Config) → Respects c (mock_providers cfg)
  mock_providers-Respects c cfg = record {
    execute = λ id usdc fiat. Runs-pure _;
    create_payment = λ id fiat. Runs-pure _;
    get_payment = λ ref. Runs-pure _;
    submit_payment = λ id usdc. Runs-pure _;
    confirmations = λ hash. Runs-pure _;
  }
