-- ===== src/Wallet/Keystore.antt =====
-- src/wallet/keystore.ts: a private key under a passphrase. The key derivation, the cipher, the
-- random bytes and the JSON text are the platform's and parameters; bytes are texts of hexadecimal
-- digits, as the file holds them.
use qrib.Engine.Real.{is_hash}
use qrib.Common.{
  codes, is_digit, map, length, trim, ◌||◌, ◌==◌, ◌++◌, ◌&&◌, leb, all, if◌then◌else◌, ◌+◌, ltb,
  not, drop, none, some, Option, ℕ, Text, Bool, true,
}
use qrib.Wallet.Usdc.{Ethereum}

-- `kdf` of `KeystoreFile`
pub data Kdf : Type 0 where
  -- n, r, p and the salt
  scrypt : ℕ → ℕ → ℕ → Text → Kdf
  -- iterations and the salt
  pbkdf2 : ℕ → Text → Kdf
  other_kdf : Kdf

-- `KeystoreFile`
pub record KeystoreFile : Type 0 where
  pub version : ℕ
  pub kdf : Kdf
  -- whether the cipher is "aes-256-gcm"
  pub is_gcm : Bool
  pub iv : Text
  pub ciphertext : Text
  pub tag : Text

-- What the source calls of the platform.
pub record Platform : Type 0 where
  -- passphrase, salt, n, r, p
  pub scrypt_key : Text → Text → ℕ → ℕ → ℕ → Text
  -- passphrase, salt, iterations
  pub pbkdf2_key : Text → Text → ℕ → Text
  -- key, iv, plain text: the ciphertext and the tag
  pub seal : Text → Text → Text → Text × Text
  -- key, iv, ciphertext, tag: `none` where the tag does not fit
  pub open_sealed : Text → Text → Text → Text → Option Text
  pub stringify : KeystoreFile → Text
  pub parse : Text → Option KeystoreFile
  -- the account of a mnemonic: its address and its key's bytes
  pub mnemonic_account : Text → Option (Text × Option Text)

-- What a call throws.
pub data KeystoreError : Type 0 where
  short_passphrase not_a_file unsupported_version weak_kdf wrong_passphrase : KeystoreError
  bad_mnemonic no_key : KeystoreError

pub data Unlocked {ℓ} (A : Type ℓ) : Type ℓ where
  done : A → Unlocked A
  fault : KeystoreError → Unlocked A

abbrev pub is_lower_hex : ℕ → Bool
is_lower_hex c = is_digit c || (leb b'a' c && leb c b'f')

-- `^[0-9a-f]{64}$`
abbrev pub is_raw_key : Text → Bool
is_raw_key s = (length s == 64) && all is_lower_hex s

-- `Buffer.from(s, "hex")` of a whole number of bytes, written in lower case again.
abbrev pub lower : ℕ → ℕ
lower c = if leb b'A' c && leb c b'F' then c + 32 else c

abbrev pub to_lower_hex : Text → Text
to_lower_hex s = map lower s

abbrev pub file_of : Text → Text → Text × Text → KeystoreFile
file_of salt iv sealed = record {
  version = 1;
  kdf = scrypt 16_384 8 1 salt;
  is_gcm = true;
  iv = iv;
  ciphertext = sealed.0;
  tag = sealed.1;
}

abbrev pub checked_key : Option Text → Unlocked Text
checked_key none = fault wrong_passphrase
checked_key (some raw) = if is_raw_key raw then done (codes "0x" ++ raw) else fault wrong_passphrase

module _ (platform : Platform) where
  -- `deriveKey`
  abbrev pub derive_key : Text → Text → Text
  derive_key passphrase salt = platform.scrypt_key passphrase salt 16_384 8 1

  -- `encryptPrivateKey`, with the random salt and iv.
  unfoldable pub encrypt_private_key : Text → Text → Text → Text → Unlocked Text
  encrypt_private_key salt iv private_key passphrase =
      if ltb (length passphrase) 8
      then fault short_passphrase
      else done (
          platform.stringify (
            file_of salt iv
              (platform.seal (derive_key passphrase salt) iv (to_lower_hex (drop 2 private_key)))))

  -- The key that the file's derivation gives.
  abbrev pub file_key : Text → Kdf → Unlocked Text
  file_key passphrase (scrypt n r p salt) = done (platform.scrypt_key passphrase salt n r p)
  file_key passphrase (pbkdf2 iterations salt) =
      if ltb iterations 100_000
      then fault weak_kdf
      else done (platform.pbkdf2_key passphrase salt iterations)
  file_key passphrase other_kdf = fault unsupported_version

  abbrev pub open_with : KeystoreFile → Unlocked Text → Unlocked Text
  open_with file (fault e) = fault e
  open_with file (done key) =
      checked_key (platform.open_sealed key file.iv file.ciphertext file.tag)

  abbrev pub open_file : Text → Option KeystoreFile → Unlocked Text
  open_file passphrase none = fault not_a_file
  open_file passphrase (some file) =
      if not ((file.version == 1) && file.is_gcm)
      then fault unsupported_version
      else open_with file (file_key passphrase file.kdf)

  -- `decryptPrivateKey`
  unfoldable pub decrypt_private_key : Text → Text → Unlocked Text
  decrypt_private_key keystore passphrase = open_file passphrase (platform.parse keystore)

-- `WalletRef`
pub record WalletRef : Type 0 where
  pub address : Text
  pub keystore : Text

abbrev pub wallet_of : Text → Unlocked Text → Unlocked WalletRef
wallet_of address (done keystore) = done (record { address = address; keystore = keystore })
wallet_of address (fault e) = fault e

module _ (platform : Platform) (eth : Ethereum) (salt iv : Text) where
  -- `createWallet`, with the key that the library generates.
  unfoldable pub create_wallet : Text → Text → Unlocked WalletRef
  create_wallet private_key passphrase =
      wallet_of (eth.account_of private_key)
        (encrypt_private_key platform salt iv private_key passphrase)

  abbrev import_mnemonic : Text → Option (Text × Option Text) → Unlocked WalletRef
  import_mnemonic passphrase none = fault bad_mnemonic
  import_mnemonic passphrase (some (address, none)) = fault no_key
  import_mnemonic passphrase (some (address, some key)) =
      wallet_of address (encrypt_private_key platform salt iv (codes "0x" ++ key) passphrase)

  -- `importWallet`
  unfoldable pub import_wallet : Text → Text → Unlocked WalletRef
  import_wallet secret passphrase =
      let input = trim secret in
      if is_hash input
      then wallet_of (eth.account_of input) (encrypt_private_key platform salt iv input passphrase)
      else import_mnemonic passphrase (platform.mnemonic_account input)
