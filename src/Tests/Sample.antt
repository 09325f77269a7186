-- ===== src/Tests/Sample.antt =====
-- One payment of Rp 32.000, authorized, with its quote and its audit trail; the mock providers.
use qrib.Engine.Config.{engine_config}
use qrib.Engine.Mock.{mock_providers, mock_off_ramp, mock_providers-Respects, mock_qris}
use qrib.Engine.Changes.Writes.{Respects, outside}
use qrib.Engine.Providers.{Providers}
use qrib.Db.{
  QuoteRow, World, Intent, Attempt, Runs-pure, api, Runs-raise, quote_locked, raise,
  provider_timeout, pure,
}
use qrib.States.{State, authorized, quoted, failed}
use qrib.Common.{Text, codes, pos, ℕ, none, ◌∷◌, ◌++◌}
use mathlib.Core.List.{[], List}

abbrev pub payment : Text
payment = codes "p1"

abbrev pub intent_in : State → Intent
intent_in status = record {
  id = payment;
  user_id = none;
  merchant_id = none;
  fiat_amount = pos 32_000;
  status = status;
  state_entered_at = 1000;
  failure_reason = none;
  created_at = 1000;
  updated_at = 1000;
}

abbrev sample_quote : QuoteRow
sample_quote = record {
  payment_id = payment;
  crypto_amount = pos 2_030_051;
  fiat_amount = pos 32_000;
  rate = pos 15_920_000_000;
  spread_bps = 50;
  fee_crypto = pos 20_000;
  fee_fiat = pos 320;
  expires_at = 91_000;
  created_at = 1000;
}

abbrev row : ℕ → State → Attempt
row n s = record {
  payment_id = payment;
  attempt_no = n;
  state = s;
  tx_hash = none;
  actor = api;
  reason = quote_locked;
}

abbrev pub world_in : State → List Attempt → World
world_in status attempts = record {
  merchants = [];
  intents = intent_in status ∷ [];
  quotes = sample_quote ∷ [];
  attempts = attempts;
  chain_txs = [];
  conversions = [];
  settlements = [];
  tasks = [];
  webhook_events = [];
  ledger = [];
  now = 2000;
  uuids = λ n. codes "u" ++ (n ∷ []);
  drawn = 0;
  calls = [];
}

-- The payment waits for its broadcast.
abbrev pub ready : World
ready = world_in authorized (row 1 quoted ∷ row 2 authorized ∷ [])

-- The payment is cancelled.
abbrev pub cancelled : World
cancelled = world_in failed (row 1 quoted ∷ row 2 failed ∷ [])

-- The mocks, with a hash function that returns its argument.
abbrev pub mocks : Providers
mocks = mock_providers (λ s. s) engine_config

pub mocks-Respects : Respects outside mocks
mocks-Respects = mock_providers-Respects (λ s. s) outside engine_config

-- A gateway that never answers a broadcast.
abbrev pub dead_chain : Providers
dead_chain = record {
  off_ramp = mock_off_ramp engine_config;
  payment = mock_qris;
  chain = record {
    name = codes "dead";
    submit_payment = λ id usdc. raise provider_timeout;
    confirmations = λ hash. pure 0;
    leg_parties = none;
  };
}

pub dead_chain-Respects : Respects outside dead_chain
dead_chain-Respects = record {
  execute = λ id usdc fiat. Runs-pure _;
  create_payment = λ id fiat. Runs-pure _;
  get_payment = λ ref. Runs-pure _;
  submit_payment = λ id usdc. Runs-raise _;
  confirmations = λ hash. Runs-pure _;
}
