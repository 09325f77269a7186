-- ===== src/Engine/Real.antt =====
-- src/engine/providers.real.ts: the funding leg on a network of the Ethereum kind.
use mathlib.Core.Option
use qrib.Db.{Act, pure, raise, plain_error, ◌>>◌, ◌>>=◌, World, bind_assoc, bind_congr, raise_if}
use qrib.Engine.Providers.{ChainGateway}
use qrib.Common.{
  Text, Option, Bool, ℤ, is_fixed, starts_with, codes, ◌≡◌, ◌&&◌, some, trim, true, length, or_else,
  pos, ◌==◌, [], fixed_value, all, if◌then◌else◌, ℕ, is_hex, none, trim-solid, drop, ap, ◌∙◌, suc,
  refl, ◌++◌, eqb_ℤ, false, arith,
}
use qrib.Wallet.Networks.{Network, network_of, parse_network}
use qrib.Wallet.Usdc.{Ethereum, checked_address, send_usdc, parse_usdc_amount, SendResult}
use qrib.Engine.Quote.Display.{format_micros, format_micros-IsWorth}

-- The variables that the constructor reads.
pub record RealEnv : Type 0 where
  pub engine_network : Option Text
  pub funding_private_key : Option Text
  pub funding_destination : Option Text

-- `^0x[0-9a-fA-F]{64}$`
abbrev pub is_hash : Text → Bool
is_hash s = starts_with s (codes "0x") && (length s == 66) && all is_hex (drop 2 s)

module _ (eth : Ethereum) where
  abbrev sent_as : Network → Text → SendResult
  sent_as network hash = record {
    hash = hash;
    explorer = network.explorer ++ (codes "/tx/" ++ hash);
  }

  unfoldable pub real_submit : Network → Text → Text → ℤ → Act Text
  real_submit network key dest usdc = do
    sent ← send_usdc eth network key dest (format_micros usdc)
    pure sent.hash

  -- A `RealChainGateway` with its fields.
  abbrev pub gateway_on : Network → Text → Text → ChainGateway
  gateway_on network key dest = record {
    name = codes "real-chain";
    submit_payment = λ id usdc. real_submit network key dest usdc;
    confirmations = λ hash. eth.confirmations network hash;
    leg_parties = some (eth.account_of key, dest);
  }

  -- The constructor of `RealChainGateway`; `none` where it throws, or where the name of the network
  -- is one that every object inherits.
  unfoldable pub real_chain_gateway : RealEnv → Option ChainGateway
  real_chain_gateway env =
      let key = trim (or_else env.funding_private_key []) in
      Option.bind (parse_network env.engine_network) λ name.
        Option.bind (if is_hash key then checked_address eth env.funding_destination else none)
          λ dest. Option.map (λ network. gateway_on network key dest) (network_of name)

  -- What is relied on: `parseUnits` scales a decimal by the number of places.
  module _
      (scales : (s : Text)
        → is_fixed 6 s ≡ true
        → eth.parse_units s 6 ≡ pos (fixed_value 6 s)) where
    -- What `formatMicros` writes, `parseUsdcAmount` reads as the same amount.
    pub parse_usdc_amount-format_micros :
        (n : ℕ) → parse_usdc_amount eth (format_micros (pos n)) ≡ some (pos n)
    unfolding parse_usdc_amount
    parse_usdc_amount-format_micros n =
        let h = format_micros-IsWorth n in
        rw (trim-solid (format_micros (pos n)) h.solid, h.fixed)
          (ap some (scales (format_micros (pos n)) h.fixed ∙ ap pos h.worth))

    bind_skip :
        (b : Bool)
        → b ≡ false
        → (k : Act SendResult) (f : SendResult → Act Text) (w : World)
        → ((raise_if b plain_error >> k) >>= f) w ≡ (k >>= f) w
    unfolding ◌>>=◌ ◌>>◌
    bind_skip true h k f w = absurd (ground (arith, h))
    bind_skip false h k f w = refl

    -- A broadcast of the real gateway transfers the very amount that the engine hands it, although
    -- it is printed and parsed on the way; an amount of 0 throws and nothing is sent. It is relied
    -- on that the library's `parseUnits` scales a decimal of at most six places by a million.
    pub real_submit-transfers :
        (network : Network) (key dest : Text) (n : ℕ) (w : World)
        → (real_submit network key dest (pos 0) w ≡ raise plain_error w)
          × (real_submit network key dest (pos (suc n)) w
              ≡ (eth.write_transfer network key dest (pos (suc n)) >>= λ hash.
                    eth.wait_receipt network hash >> pure hash)
                  w)
    unfolding real_submit send_usdc ◌>>=◌ ◌>>◌
    real_submit-transfers network key dest n w = (
      rw (parse_usdc_amount-format_micros 0) refl,
      rw (parse_usdc_amount-format_micros (suc n)) (
          bind_skip (eqb_ℤ (pos (suc n)) (pos 0)) (ground arith) _ (λ sent. pure sent.hash) w
          ∙ bind_assoc (eth.write_transfer network key dest (pos (suc n)))
              (λ hash. eth.wait_receipt network hash >> pure (sent_as network hash))
              (λ sent. pure sent.hash) w
          ∙ bind_congr (eth.write_transfer network key dest (pos (suc n))) _ _
              (λ hash t.
                bind_assoc (eth.wait_receipt network hash) (λ _. pure (sent_as network hash))
                  (λ sent. pure sent.hash) t)
              w),
    )
