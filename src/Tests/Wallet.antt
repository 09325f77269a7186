-- ===== src/Tests/Wallet.antt =====
-- The theorems on amounts, networks and manual legs, at concrete values.
use qrib.Db.{raise, plain_error, pure, ◌>>◌, ◌>>=◌}
use qrib.Common.{codes, Text, pos, some, true, ◌≡◌, fixed_value, ◌↔◌, refl, []}
use qrib.Wallet.Networks.{base_sepolia}
use qrib.Wallet.Usdc.{Ethereum}
use qrib.Engine.Quote.Display.{format_micros}
use qrib.Engine.Real.{real_submit, real_submit-transfers}
use qrib.Engine.Env.{manual_ref6, manual_ref6-format_micros}
use qrib.Engine.Manual.{task_id_of, ref_of, is_task_id, manual_off_ramp, manual_qris}
use qrib.Engine.Manual.Refs.{task_id_of_iff}
use qrib.Engine.Manual.Polls.{manual_providers-Respects, manual_qris-IsDone_iff, IsDone, answers}
use qrib.Engine.Tasks.{db_task_store}
use qrib.Engine.Changes.Writes.{Respects, outside}
use qrib.Engine.Providers.{SettlementState}
use qrib.Tests.Sample.{ready, mocks, mocks-Respects}

-- "1.5" for 1500000.
format_micros_short : format_micros (pos 1_500_000) ≡ codes "1.5"
unfolding format_micros
format_micros_short = refl

format_micros_zero : format_micros (pos 0) ≡ codes "0"
unfolding format_micros
format_micros_zero = refl

manual_ref6_decimal : manual_ref6 (some (codes " 17609.77")) ≡ some (pos 17_609_770_000)
unfolding manual_ref6
manual_ref6_decimal = refl

-- A library whose transfers return at once.
abbrev pub test_net : Ethereum
test_net = record {
  is_address = λ s. true;
  get_address = λ s. s;
  parse_units = λ s n. pos (fixed_value n s);
  format_units = λ value n. [];
  account_of = λ key. key;
  chain_of = λ network. (codes "Base Sepolia", 84_532);
  write_transfer = λ network key to value. pure (codes "0x1");
  wait_receipt = λ network hash. pure tt;
  confirmations = λ network hash. pure 12;
  balance_of = λ network holder. pure (pos 0);
  decimals = λ network. pure 6;
}

real_submit-transfers_example :
    (real_submit test_net base_sepolia (codes "k") (codes "d") (pos 0) ready
      ≡ raise plain_error ready)
    × (real_submit test_net base_sepolia (codes "k") (codes "d") (pos 2_030_051) ready
        ≡ (test_net.write_transfer base_sepolia (codes "k") (codes "d") (pos 2_030_051) >>= λ hash.
              test_net.wait_receipt base_sepolia hash >> pure hash)
            ready)
real_submit-transfers_example =
    real_submit-transfers test_net (λ s h. refl) base_sepolia (codes "k") (codes "d") 2_030_050
      ready

manual_ref6-format_micros_example :
    manual_ref6 (some (format_micros (pos 17_609_770_000))) ≡ some (pos 17_609_770_000)
manual_ref6-format_micros_example = manual_ref6-format_micros 17_609_770_000

abbrev task : Text
task = codes "3f2504e0-4f89-11d3-9a0c-0305e82c3301"

task_id_of_iff_example :
    (task_id_of (codes "mqris-3f2504e0-4f89-11d3-9a0c-0305e82c3301") (codes "mqris") ≡ some task)
    ↔ ((is_task_id task ≡ true)
        × (codes "mqris-3f2504e0-4f89-11d3-9a0c-0305e82c3301" ≡ ref_of (codes "mqris") task))
task_id_of_iff_example =
    task_id_of_iff (codes "mqris-3f2504e0-4f89-11d3-9a0c-0305e82c3301") (codes "mqris") task

manual_providers-Respects_example : Respects outside (record mocks {
  off_ramp = manual_off_ramp db_task_store (pos 16_000_000_000);
  payment = manual_qris db_task_store;
})
manual_providers-Respects_example =
    manual_providers-Respects (pos 16_000_000_000) mocks mocks-Respects

-- Before any task is filed.
manual_qris-IsDone_iff_example :
    ((manual_qris db_task_store).get_payment (ref_of (codes "mqris") task) ready
      ≡ answers SettlementState.completed ready)
    ↔ IsDone (ref_of (codes "mqris") task) ready
manual_qris-IsDone_iff_example = manual_qris-IsDone_iff (ref_of (codes "mqris") task) ready
