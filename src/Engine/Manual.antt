-- ===== src/Engine/Manual.antt =====
-- src/engine/providers.manual.ts: the two regulated legs as tasks for an operator.
pub mod Refs
pub mod Polls
use qrib.Engine.Providers.{PaymentProvider, OffRampProvider, ConversionReply, SettlementState}
use qrib.Db.{TaskPayload, Act, TaskStatus, pure, ◌>>=◌, TaskKind}
use qrib.Common.{
  Text, ℤ, ◌++◌, ℕ, Bool, Option, none, codes, is_digit, length, drop, ◌||◌, ◌==◌, ◌+◌, some, leb,
  ◌&&◌, if◌then◌else◌, false, all, starts_with,
}
use qrib.Engine.Tasks.{TaskStore}

-- `refOf`
abbrev pub ref_of : Text → Text → Text
ref_of prefix id = prefix ++ (codes "-" ++ id)

-- `[0-9a-f-]`
abbrev pub is_id_char : ℕ → Bool
is_id_char c = is_digit c || (leb b'a' c && leb c b'f') || c == b'-'

abbrev pub is_task_id : Text → Bool
is_task_id id = (length id == 36) && all is_id_char id

-- `taskIdOf`
unfoldable pub task_id_of : Text → Text → Option Text
task_id_of ref prefix =
    let id = drop (length prefix + 1) ref in
    if starts_with ref (prefix ++ codes "-") && is_task_id id then some id else none

abbrev no_payload : TaskPayload
no_payload = record { usdc_micros = none; expected_fiat_idr = none; fiat_amount_idr = none }

-- What the poll makes of the status of its task.
abbrev pub settlement_of : Option TaskStatus → SettlementState
settlement_of (some TaskStatus.completed) = SettlementState.completed
settlement_of (some TaskStatus.failed) = SettlementState.failed
settlement_of _ = SettlementState.pending

module _ (tasks : TaskStore) where
  unfoldable pub file_conversion_task : Text → ℤ → ℤ → Act ConversionReply
  file_conversion_task payment_id usdc fiat = do
    id ←
        tasks.create payment_id TaskKind.conversion
          (record no_payload { usdc_micros = some usdc; expected_fiat_idr = some fiat })
    pure (record {
      reference = ref_of (codes "mconv") id;
      is_completed = false;
      fiat_amount_idr = none;
      rate_executed6 = none;
    })

  -- `ManualOffRampProvider`, with the rate that the operator has set.
  abbrev pub manual_off_ramp : ℤ → OffRampProvider
  manual_off_ramp ref6 = record {
    name = codes "manual-offramp";
    ref_rate6 = pure ref6;
    execute = file_conversion_task;
  }

  unfoldable pub file_settlement_task : Text → ℤ → Act Text
  file_settlement_task payment_id fiat = do
    id ←
        tasks.create payment_id TaskKind.fiat_settlement
          (record no_payload { fiat_amount_idr = some fiat })
    pure (ref_of (codes "mqris") id)

  unfoldable pub poll_task : Option Text → Act SettlementState
  poll_task none = pure SettlementState.pending
  poll_task (some id) = do status ← tasks.status id; pure (settlement_of status)

  -- `ManualQrisSettlementProvider`
  abbrev pub manual_qris : PaymentProvider
  manual_qris = record {
    name = codes "manual-qris";
    create_payment = file_settlement_task;
    get_payment = λ ref. poll_task (task_id_of ref (codes "mqris"));
  }
