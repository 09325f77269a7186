-- ===== src/Tests/Keys.antt =====
-- The theorems on stored keys, with a cipher and a file format that are easy to run.
use qrib.Common.{
  ◌∷◌, ◌==◌, ◌≡◌, ◌++◌, zeros, codes, take, take-length-append, length, drop, drop-length-append,
  suc, refl, zero, none, some, Option, ℕ, Text, Bool, true, false, [], ◌-◌,
}
use qrib.Wallet.Keystore.{
  Kdf, KeystoreFile, Platform, Unlocked, encrypt_private_key, decrypt_private_key, to_lower_hex,
}
use qrib.Wallet.Browser.{Subtle, browser_encrypt}
use qrib.Wallet.Unlocks.{
  Sound, Agree, decrypt_private_key-encrypt_private_key, decrypt_private_key-browser_encrypt,
}

abbrev pub kdf_salt : Kdf → Text
kdf_salt (Kdf.scrypt n r p salt) = salt
kdf_salt (Kdf.pbkdf2 rounds salt) = salt
kdf_salt Kdf.other_kdf = []

abbrev pub kdf_head : Kdf → Text → Text
kdf_head (Kdf.scrypt n r p salt) s = 0 ∷ n ∷ r ∷ p ∷ s
kdf_head (Kdf.pbkdf2 rounds salt) s = 1 ∷ rounds ∷ 0 ∷ 0 ∷ s
kdf_head Kdf.other_kdf s = 2 ∷ 0 ∷ 0 ∷ 0 ∷ s

abbrev pub kdf_at : ℕ → ℕ → ℕ → ℕ → Text → Kdf
kdf_at zero n r p salt = Kdf.scrypt n r p salt
kdf_at (suc zero) n r p salt = Kdf.pbkdf2 n salt
kdf_at _ n r p salt = Kdf.other_kdf

abbrev pub flag : Bool → ℕ
flag true = 1
flag false = 0

-- The numbers, the lengths of three texts, and the four texts.
abbrev pub write_file : KeystoreFile → Text
write_file f =
    f.version
    ∷ flag f.is_gcm
    ∷ kdf_head f.kdf (
        length (kdf_salt f.kdf)
        ∷ length f.iv
        ∷ length f.ciphertext
        ∷ (kdf_salt f.kdf ++ (f.iv ++ (f.ciphertext ++ f.tag))))

abbrev pub read_file : Text → Option KeystoreFile
read_file (v ∷ g ∷ k ∷ n ∷ r ∷ p ∷ ls ∷ li ∷ lc ∷ s) = some (record {
  version = v;
  kdf = kdf_at k n r p (take ls s);
  is_gcm = g == 1;
  iv = take li (drop ls s);
  ciphertext = take lc (drop li (drop ls s));
  tag = drop lc (drop li (drop ls s));
})
read_file _ = none

abbrev pub the_file : ℕ → Kdf → Bool → Text → Text → Text → KeystoreFile
the_file v kdf g iv c t = record {
  version = v;
  kdf = kdf;
  is_gcm = g;
  iv = iv;
  ciphertext = c;
  tag = t;
}

flag_read : (g : Bool) → (flag g == 1) ≡ g
flag_read true = refl
flag_read false = refl

module _ (v : ℕ) (g : Bool) (iv c t : Text) where
  read_texts :
      (salt : Text)
      → (take (length salt) (salt ++ (iv ++ (c ++ t))) ≡ salt)
        × (drop (length salt) (salt ++ (iv ++ (c ++ t))) ≡ iv ++ (c ++ t))
  read_texts salt =
      (take-length-append salt (iv ++ (c ++ t)), drop-length-append salt (iv ++ (c ++ t)))

  read-write_file :
      (kdf : Kdf)
      → read_file (write_file (the_file v kdf g iv c t)) ≡ some (the_file v kdf g iv c t)
  read-write_file (Kdf.scrypt n r p salt) =
      rw
        (
          flag_read g,
          (read_texts salt).0,
          (read_texts salt).1,
          take-length-append iv (c ++ t),
          drop-length-append iv (c ++ t),
          take-length-append c t,
          drop-length-append c t,
        )
        refl
  read-write_file (Kdf.pbkdf2 rounds salt) =
      rw
        (
          flag_read g,
          (read_texts salt).0,
          (read_texts salt).1,
          take-length-append iv (c ++ t),
          drop-length-append iv (c ++ t),
          take-length-append c t,
          drop-length-append c t,
        )
        refl
  read-write_file Kdf.other_kdf =
      rw
        (
          flag_read g,
          take-length-append iv (c ++ t),
          drop-length-append iv (c ++ t),
          take-length-append c t,
          drop-length-append c t,
        )
        refl

-- The passphrase is the key, the text is its own ciphertext, and the tag is 32 zeros.
abbrev pub desk : Platform
desk = record {
  scrypt_key = λ passphrase salt n r p. passphrase;
  pbkdf2_key = λ passphrase salt rounds. passphrase;
  seal = λ key iv plain. (plain, zeros 32);
  open_sealed = λ key iv c t. some c;
  stringify = write_file;
  parse = read_file;
  mnemonic_account = λ words. none;
}

abbrev pub phone : Subtle
phone = record {
  derive = λ passphrase salt rounds. passphrase;
  encrypt = λ key iv plain. plain ++ zeros 32;
  decrypt = λ key iv bytes. some (take (length bytes - 32) bytes);
}

desk-Sound : Sound desk
desk-Sound = record {
  opens = λ key iv plain. refl;
  parses = λ f. read-write_file f.version f.is_gcm f.iv f.ciphertext f.tag f.kdf;
}

desk-Agree : Agree desk phone
desk-Agree = record {
  derives = λ passphrase salt rounds. refl;
  joins = λ key iv plain. refl;
  tag_length = λ key iv plain. refl;
}

abbrev secret_key : Text
secret_key = codes "0x" ++ (codes "Ab" ++ zeros 62)

abbrev locked : Text
locked = write_file (
    the_file 1 (Kdf.scrypt 16_384 8 1 (codes "5a")) true (codes "1f") (codes "ab" ++ zeros 62)
      (zeros 32))

abbrev pub locked_on_phone : Text
locked_on_phone = write_file (
    the_file 1 (Kdf.pbkdf2 600_000 (codes "5a")) true (codes "1f") (codes "ab" ++ zeros 62)
      (zeros 32))

decrypt_private_key-encrypt_private_key_example :
    decrypt_private_key desk locked (codes "passw0rd")
    ≡ Unlocked.done (codes "0x" ++ to_lower_hex (drop 2 secret_key))
unfolding encrypt_private_key
decrypt_private_key-encrypt_private_key_example =
    decrypt_private_key-encrypt_private_key desk (codes "5a") (codes "1f") secret_key
      (codes "passw0rd") locked desk-Sound refl refl

decrypt_private_key-browser_encrypt_example :
    decrypt_private_key desk locked_on_phone (codes "passw0rd")
    ≡ Unlocked.done (codes "0x" ++ to_lower_hex (drop 2 secret_key))
unfolding browser_encrypt
decrypt_private_key-browser_encrypt_example =
    decrypt_private_key-browser_encrypt desk phone (codes "5a") (codes "1f") secret_key
      (codes "passw0rd") locked_on_phone desk-Sound desk-Agree refl refl
