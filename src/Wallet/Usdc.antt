-- ===== src/Wallet/Usdc.antt =====
-- src/wallet/usdc.ts: addresses, amounts and transfers of USDC. The Ethereum library is a parameter.
use qrib.Db.{Act, ⊤, ◌>>=◌, pure, or_raise, plain_error, ◌>>◌, raise_if}
use qrib.Common.{
  Text, ℤ, Bool, ℕ, if◌then◌else◌, [], codes, pos, to_decimal, is_fixed, ◌++◌, trim, negsuc, suc,
  eqb_ℤ,
}
use mathlib.Core.Option.{Option, some, none}
use mathlib.Core.Option
use qrib.Wallet.Networks.{Network}

-- What the source calls of the Ethereum library.
pub record Ethereum : Type 0 where
  pub is_address : Text → Bool
  pub get_address : Text → Text
  pub parse_units : Text → ℕ → ℤ
  pub format_units : ℤ → ℕ → Text
  -- the address of a private key
  pub account_of : Text → Text
  -- the chain's name and id
  pub chain_of : Network → Text × ℕ
  -- a transfer of the token: network, key, recipient, value
  pub write_transfer : Network → Text → Text → ℤ → Act Text
  pub wait_receipt : Network → Text → Act ⊤
  pub confirmations : Network → Text → Act ℕ
  pub balance_of : Network → Text → Act ℤ
  pub decimals : Network → Act ℕ

-- `number.toString()`
abbrev pub int_text : ℤ → Text
int_text (pos n) = to_decimal n
int_text (negsuc n) = codes "-" ++ to_decimal (suc n)

pub record ReceiveInfo : Type 0 where
  pub address : Text
  pub chain : Text
  pub chain_id : ℕ
  pub asset : Text
  pub usdc : Text
  pub warning : Text
  pub uri : Text

pub record SendResult : Type 0 where
  pub hash : Text
  pub explorer : Text

pub record Balance : Type 0 where
  pub balance : Text
  pub raw : Text
  pub decimals : ℕ

module _ (eth : Ethereum) where
  -- `checkedAddress`; `none` where it throws.
  abbrev pub checked_address : Option Text → Option Text
  checked_address none = none
  checked_address (some input) = if eth.is_address input then some (eth.get_address input) else none

  -- `getUsdcBalance`
  unfoldable pub get_usdc_balance : Network → Text → Act Balance
  get_usdc_balance network holder = do
    raw ← eth.balance_of network holder
    decimals ← eth.decimals network
    pure (record {
      balance = eth.format_units raw decimals;
      raw = int_text raw;
      decimals = decimals;
    })

  -- `parseUsdcAmount`; `none` where it throws.
  unfoldable pub parse_usdc_amount : Text → Option ℤ
  parse_usdc_amount input =
      if is_fixed 6 (trim input) then some (eth.parse_units (trim input) 6) else none

  abbrev amount_param : Option ℤ → Text
  amount_param none = []
  amount_param (some value) = codes "&uint256=" ++ int_text value

  abbrev info : Network → Text → Option ℤ → ReceiveInfo
  info network holder amount =
      let (name, id) = eth.chain_of network in
      record {
        address = holder;
        chain = name;
        chain_id = id;
        asset = codes "USDC";
        usdc = network.usdc;
        warning = codes "USDC on " ++ (name ++ codes " only — other assets/chains will be lost");
        uri =
            codes "ethereum:"
            ++ (network.usdc
                ++ (codes "@"
                    ++ (to_decimal id
                        ++ (codes "/transfer?address=" ++ (holder ++ amount_param amount)))));
      }

  -- `receiveInfo`; `none` where it throws.
  abbrev pub receive_info : Network → Text → Option Text → Option ReceiveInfo
  receive_info network holder none = some (info network holder none)
  receive_info network holder (some amount) =
      Option.map (λ value. info network holder (some value)) (parse_usdc_amount amount)

  -- `sendUsdc`
  unfoldable pub send_usdc : Network → Text → Text → Text → Act SendResult
  send_usdc network key to amount = do
    value ← or_raise (parse_usdc_amount amount) plain_error
    raise_if (eqb_ℤ value (pos 0)) plain_error
    hash ← eth.write_transfer network key to value
    eth.wait_receipt network hash
    pure (record { hash = hash; explorer = network.explorer ++ (codes "/tx/" ++ hash) })
