-- ===== src/Wallet/Browser.antt =====
-- web/lib/keystore.ts and web/lib/chain.ts: the same envelope and transfer in the browser.
use qrib.Engine.Real.{is_hash}
use qrib.Db.{Act, ◌>>=◌, or_raise, plain_error, ◌>>◌, raise_if, pure}
use qrib.Common.{
  ◌++◌, starts_with, take, length, codes, ◌-◌, ◌&&◌, ◌==◌, drop, all, is_hex, if◌then◌else◌, ◌%◌,
  ltb, not, eqb_ℤ, pos, or_else, none, some, Option, ℕ, Text, Bool, true, trim,
}
use qrib.Wallet.Keystore.{
  KeystoreFile, Kdf, Unlocked, KeystoreError, to_lower_hex, checked_key, Platform, WalletRef,
  wallet_of,
}
use qrib.Wallet.Usdc.{Ethereum, parse_usdc_amount, SendResult}
use qrib.Wallet.Networks.{network_of}

-- What the source calls of the browser's cryptography.
pub record Subtle : Type 0 where
  -- passphrase, salt, iterations
  pub derive : Text → Text → ℕ → Text
  -- key, iv, plain text: the ciphertext with the tag at its end
  pub encrypt : Text → Text → Text → Text
  pub decrypt : Text → Text → Text → Option Text

-- The bytes that `unhex` reads; `none` where it throws.
abbrev pub unhex : Text → Option Text
unhex s = if all is_hex s && (length s % 2 == 0) then some (to_lower_hex s) else none

abbrev pub iterations : ℕ
iterations = 600_000

-- The file that `encryptPrivateKey` writes: the tag is the last 16 bytes.
abbrev pub browser_file : Text → Text → Text → KeystoreFile
browser_file salt iv bytes = record {
  version = 1;
  kdf = Kdf.pbkdf2 iterations salt;
  is_gcm = true;
  iv = iv;
  ciphertext = take (length bytes - 32) bytes;
  tag = drop (length bytes - 32) bytes;
}

module _ (platform : Platform) (subtle : Subtle) where
  abbrev seal_bytes : Text → Text → Text → Option Text → Unlocked Text
  seal_bytes salt iv passphrase none = Unlocked.fault KeystoreError.not_a_file
  seal_bytes salt iv passphrase (some plain) = Unlocked.done (
      platform.stringify
        (browser_file salt iv (subtle.encrypt (subtle.derive passphrase salt iterations) iv plain)))

  -- `encryptPrivateKey` of the browser, with the random salt and iv.
  unfoldable pub browser_encrypt : Text → Text → Text → Text → Unlocked Text
  browser_encrypt salt iv private_key passphrase =
      if ltb (length passphrase) 8
      then Unlocked.fault KeystoreError.short_passphrase
      else seal_bytes salt iv passphrase (unhex (drop 2 private_key))

  abbrev open_iv : Text → Text → Option Text → Unlocked Text
  open_iv key raw none = Unlocked.fault KeystoreError.wrong_passphrase
  open_iv key raw (some iv) = checked_key (subtle.decrypt key iv raw)

  abbrev open_parts : Text → ℕ → Text → Option Text → Option Text → Option Text → Unlocked Text
  open_parts passphrase rounds iv (some c) (some t) (some salt) =
      open_iv (subtle.derive passphrase salt rounds) (c ++ t) (unhex iv)
  open_parts passphrase rounds iv _ _ _ = Unlocked.fault KeystoreError.not_a_file

  abbrev open_pbkdf2 : Text → KeystoreFile → Kdf → Unlocked Text
  open_pbkdf2 passphrase file (Kdf.pbkdf2 rounds salt) =
      if ltb rounds 100_000
      then Unlocked.fault KeystoreError.weak_kdf
      else open_parts passphrase rounds file.iv (unhex file.ciphertext) (unhex file.tag)
          (unhex salt)
  open_pbkdf2 passphrase file _ = Unlocked.fault KeystoreError.unsupported_version

  abbrev open_browser : Text → Option KeystoreFile → Unlocked Text
  open_browser passphrase none = Unlocked.fault KeystoreError.not_a_file
  open_browser passphrase (some file) =
      if not ((file.version == 1) && file.is_gcm)
      then Unlocked.fault KeystoreError.unsupported_version
      else open_pbkdf2 passphrase file file.kdf

  -- `decryptPrivateKey` of the browser.
  unfoldable pub browser_decrypt : Text → Text → Unlocked Text
  browser_decrypt keystore passphrase = open_browser passphrase (platform.parse keystore)

module _ (platform : Platform) (subtle : Subtle) (eth : Ethereum) (salt iv : Text) where
  -- `createWallet` of the browser, with the key that the library generates.
  unfoldable pub browser_create : Text → Text → Unlocked WalletRef
  browser_create private_key passphrase =
      wallet_of (eth.account_of private_key)
        (browser_encrypt platform subtle salt iv private_key passphrase)

  abbrev browser_mnemonic : Text → Option (Text × Option Text) → Unlocked WalletRef
  browser_mnemonic passphrase none = Unlocked.fault KeystoreError.bad_mnemonic
  browser_mnemonic passphrase (some (address, none)) = Unlocked.fault KeystoreError.no_key
  browser_mnemonic passphrase (some (address, some key)) =
      wallet_of address (browser_encrypt platform subtle salt iv (codes "0x" ++ key) passphrase)

  -- `importWallet` of the browser.
  unfoldable pub browser_import : Text → Text → Unlocked WalletRef
  browser_import secret passphrase =
      let input = trim secret in
      if is_hash input
      then wallet_of (eth.account_of input)
          (browser_encrypt platform subtle salt iv input passphrase)
      else browser_mnemonic passphrase (platform.mnemonic_account input)

-- `^0x[0-9a-fA-F]{40}$`
abbrev pub is_recipient : Text → Bool
is_recipient s = starts_with s (codes "0x") && (length s == 42) && all is_hex (drop 2 s)

module _ (eth : Ethereum) where
  -- `sendUsdc` of web/lib/chain.ts; its amounts are parsed as the server's are.
  unfoldable pub browser_send : Option Text → Text → Text → Text → Act SendResult
  browser_send network key to amount = do
    value ← or_raise (parse_usdc_amount eth amount) plain_error
    raise_if (eqb_ℤ value (pos 0)) plain_error
    raise_if (not (is_recipient to)) plain_error
    net ← or_raise (network_of (or_else network (codes "base-sepolia"))) plain_error
    hash ← eth.write_transfer net key to value
    eth.wait_receipt net hash
    pure (record { hash = hash; explorer = net.explorer ++ (codes "/tx/" ++ hash) })
