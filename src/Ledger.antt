-- ===== src/Ledger.antt =====
-- src/engine/ledger.ts: double-entry posting, balanced per currency.
pub mod Balance
use qrib.Store.{find_intent}
use qrib.Common.{
  ℕ, pos, ◌+ℤ◌, ◌-ℤ◌, text_eq, ◌&&◌, ◌||◌, ◌∷◌, ◌++◌, map, ltb_ℤ, eqb_ℤ, if◌then◌else◌, any, not,
  List, ℤ, Text, Bool, true, false, [],
}
use qrib.Db.{
  Account, Currency, idr, usdc, LedgerRow, World, negative_leg, unbalanced, Act, ⊤, modify,
  raise_if, ◌>>◌, plain_error, or_raise, ◌>>=◌, gets,
}

-- `Entry`
pub record Entry : Type 0 where
  pub account : Account
  pub debit : ℤ
  pub credit : ℤ
  pub currency : Currency

abbrev pub currency_eq : Currency → Currency → Bool
currency_eq idr idr = true
currency_eq idr usdc = false
currency_eq usdc idr = false
currency_eq usdc usdc = true

abbrev has_negative_leg : Entry → Bool
has_negative_leg e = ltb_ℤ e.debit (pos 0) || ltb_ℤ e.credit (pos 0)

-- The value of `byCurrency` at `c` after the loop, from the value before it.
unfoldable pub add_nets : Currency → ℤ → List Entry → ℤ
add_nets c net [] = net
add_nets c net (e ∷ rest) =
    add_nets c (if currency_eq e.currency c then net +ℤ e.debit -ℤ e.credit else net) rest

abbrev is_unbalanced : Currency → List Entry → Bool
is_unbalanced c entries = not (eqb_ℤ (add_nets c (pos 0) entries) (pos 0))

unfoldable pub ledger_row : Text → Entry → LedgerRow
ledger_row payment_id e = record {
  payment_id = payment_id;
  account = e.account;
  debit = e.debit;
  credit = e.credit;
  currency = e.currency;
}

unfoldable pub insert_rows : Text → List Entry → World → World
insert_rows payment_id entries w = record w {
  ledger = w.ledger ++ map (ledger_row payment_id) entries;
}

abbrev is_empty : List Entry → Bool
is_empty [] = true
is_empty (e ∷ rest) = false

-- `postEntries`: every leg is checked before the first row is written. The insert throws for an
-- empty list, and for a payment that is not there: `payment_id` is a foreign key.
unfoldable pub post_entries : Text → List Entry → Act ⊤
post_entries payment_id entries = do
  raise_if (any has_negative_leg entries) negative_leg
  raise_if (is_unbalanced idr entries) unbalanced
  raise_if (is_unbalanced usdc entries) unbalanced
  raise_if (is_empty entries) plain_error
  or_raise (← gets (find_intent payment_id)) plain_error
  modify (insert_rows payment_id entries)

-- One group of `paymentNets`: the sum of debit - credit over the rows of a payment in a currency.
unfoldable pub payment_net : Text → Currency → List LedgerRow → ℤ
payment_net id c [] = pos 0
payment_net id c (row ∷ rows) =
    if text_eq row.payment_id id && currency_eq row.currency c
    then row.debit -ℤ row.credit +ℤ payment_net id c rows
    else payment_net id c rows
