-- ===== src/Db/Tables.antt =====
-- src/db/schema.ts: one record for the rows of each table, and the database. Money is an integer,
-- a time is in milliseconds, a uuid is a text, and a column that may be null is an `Option`.
use qrib.Common.{ℕ, ℤ, Text, Bool, List, Option}
use qrib.States.{State}

-- `actor` of an audit row.
pub data Actor : Type 0 where
  system api operator : Actor

-- The messages that the engine writes into an audit row; each carries what its template inserts.
pub data Reason : Type 0 where
  prior_to : State → State → Reason
  quote_locked quote_expired cancelled_by_user funding_broadcast off_ramp_started : Reason
  rate_locked : ℤ → Reason
  no_tx_hash broadcast_unknown conversion_unknown resume_without_conversion : Reason
  chain_confirmations : ℕ → Reason
  confirmations_not_reached poll_timed_out settlement_failed settled_via : Text → Reason
  settlement_started conversion_failure_reported settlement_failure_reported : Reason
  partial_conversion short_conversion : ℤ → ℤ → Reason
  refunded_minus : ℤ → Reason
  note : Text → Reason

-- `payment_intents`
pub record Intent : Type 0 where
  pub id : Text
  pub user_id : Option Text
  pub merchant_id : Option Text
  pub fiat_amount : ℤ
  pub status : State
  pub state_entered_at : ℕ
  pub failure_reason : Option Reason
  pub created_at : ℕ
  pub updated_at : ℕ

-- `payment_quotes`
pub record QuoteRow : Type 0 where
  pub payment_id : Text
  pub crypto_amount : ℤ
  pub fiat_amount : ℤ
  pub rate : ℤ
  pub spread_bps : ℕ
  pub fee_crypto : ℤ
  pub fee_fiat : ℤ
  pub expires_at : ℕ
  pub created_at : ℕ

-- `payment_attempts`: the audit trail.
pub record Attempt : Type 0 where
  pub payment_id : Text
  pub attempt_no : ℕ
  pub state : State
  pub tx_hash : Option Text
  pub actor : Actor
  pub reason : Reason

-- `blockchain_transactions`
pub record ChainTx : Type 0 where
  pub payment_id : Text
  pub tx_hash : Text
  pub chain : Text
  pub from_address : Text
  pub to_address : Text
  pub amount : ℤ
  pub confirmations : ℕ

-- `status` of a leg: `conversions` and `fiat_settlements`.
pub data LegStatus : Type 0 where
  pending partial completed : LegStatus

-- `conversions`
pub record Conversion : Type 0 where
  pub id : Text
  pub payment_id : Text
  pub provider : Text
  pub crypto_amount : ℤ
  pub fiat_amount : Option ℤ
  pub rate_executed : Option ℤ
  pub reference : Option Text
  pub status : LegStatus

-- `fiat_settlements`
pub record Settlement : Type 0 where
  pub id : Text
  pub payment_id : Text
  pub provider : Text
  pub fiat_amount : ℤ
  pub reference : Option Text
  pub proof : Option Text
  pub status : LegStatus

-- `kind` of an operator task.
pub data TaskKind : Type 0 where
  conversion fiat_settlement refund : TaskKind

pub data TaskStatus : Type 0 where
  pending completed failed : TaskStatus

-- `payload` of an operator task: the amounts that the two manual providers file.
pub record TaskPayload : Type 0 where
  pub usdc_micros : Option ℤ
  pub expected_fiat_idr : Option ℤ
  pub fiat_amount_idr : Option ℤ

-- `OperatorResult` of src/engine/service.ts, stored in the column `result`.
pub record OperatorResult : Type 0 where
  pub is_completed : Bool
  pub reference : Option Text
  pub fiat_amount_idr : Option Text
  pub rate_executed6 : Option Text
  pub proof : Option Text
  pub note : Option Text

-- `operator_tasks`
pub record Task : Type 0 where
  pub id : Text
  pub payment_id : Text
  pub kind : TaskKind
  pub status : TaskStatus
  pub payload : TaskPayload
  pub result : Option OperatorResult

-- `webhook_events`
pub record WebhookEvent : Type 0 where
  pub provider : Text
  pub event_id : Text
  pub processed : Bool

pub data Account : Type 0 where
  user_crypto provider_conversion merchant_fiat fees spread : Account

pub data Currency : Type 0 where
  idr usdc : Currency

-- `ledger_entries`
pub record LedgerRow : Type 0 where
  pub payment_id : Text
  pub account : Account
  pub debit : ℤ
  pub credit : ℤ
  pub currency : Currency

-- `merchants`
pub record Merchant : Type 0 where
  pub id : Text
  pub merchant_id : Option Text
  pub name : Option Text

-- A call that left the program: a broadcast of a funding transaction, an off-ramp execution, a
-- settlement opened.
pub data Call : Type 0 where
  broadcast : Text → ℤ → Call
  convert : Text → Call
  open_settlement : Text → Call

-- The database, the clock, the uuids that the database will draw (`defaultRandom()`) with the
-- number already drawn, and the calls made so far.
pub record World : Type 0 where
  pub merchants : List Merchant
  pub intents : List Intent
  pub quotes : List QuoteRow
  pub attempts : List Attempt
  pub chain_txs : List ChainTx
  pub conversions : List Conversion
  pub settlements : List Settlement
  pub tasks : List Task
  pub webhook_events : List WebhookEvent
  pub ledger : List LedgerRow
  pub now : ℕ
  pub uuids : ℕ → Text
  pub drawn : ℕ
  pub calls : List Call
