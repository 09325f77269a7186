-- ===== src/Wallet/Unlocks.antt =====
-- A key stored by src/wallet/keystore.ts is unlocked again.
use qrib.Wallet.Browser.{Subtle, browser_encrypt, unhex, iterations, browser_file}
use qrib.Common.{
  ◌≡◌, drop, codes, ◌++◌, Bool-cases, ltb, length, inl, arith, inr, refl, take, ◌-◌, length-append,
  ap, ◌∙◌, take-length-append, drop-length-append, Option-cases, sym, some, ℕ, Text, true,
}
use qrib.Wallet.Keystore.{
  Platform, KeystoreFile, encrypt_private_key, decrypt_private_key, Unlocked, is_raw_key,
  to_lower_hex, derive_key, file_of,
}

-- What is relied on of the platform: the cipher opens what it sealed under the same key and iv, and
-- the JSON text of a file parses to the file.
pub record Sound (platform : Platform) : Type 0 where
  pub opens :
      (key iv plain : Text)
      → platform.open_sealed key iv (platform.seal key iv plain).0 (platform.seal key iv plain).1
        ≡ some plain
  pub parses : (file : KeystoreFile) → platform.parse (platform.stringify file) ≡ some file

-- A passphrase of eight code units or more unlocks what it locked: the key comes back, in lower case.
pub decrypt_private_key-encrypt_private_key :
    (platform : Platform) (salt iv private_key passphrase keystore : Text)
    → Sound platform
    → is_raw_key (to_lower_hex (drop 2 private_key)) ≡ true
    → encrypt_private_key platform salt iv private_key passphrase ≡ Unlocked.done keystore
    → decrypt_private_key platform keystore passphrase
      ≡ Unlocked.done (codes "0x" ++ to_lower_hex (drop 2 private_key))
unfolding encrypt_private_key decrypt_private_key
decrypt_private_key-encrypt_private_key platform salt iv private_key passphrase keystore sound raw
      e =
    elim (Bool-cases (ltb (length passphrase) 8)) [
      | inl short ↦ absurd (ground (arith, e, short))
      | inr long ↦
          let plain = to_lower_hex (drop 2 private_key) in
          let key = derive_key platform passphrase salt in
          let file = file_of salt iv (platform.seal key iv plain) in
          let same : platform.stringify file ≡ keystore = ground (arith, e, long) in
          rw (← same, sound.parses file, sound.opens key iv plain, raw) refl
    ]

-- What is relied on of the two platforms together: both derive the same key with PBKDF2, and the
-- browser's ciphertext is the server's with the 16 bytes of the tag behind it.
pub record Agree (platform : Platform) (subtle : Subtle) : Type 0 where
  pub derives :
      (passphrase salt : Text) (rounds : ℕ)
      → subtle.derive passphrase salt rounds ≡ platform.pbkdf2_key passphrase salt rounds
  pub joins :
      (key iv plain : Text)
      → subtle.encrypt key iv plain
        ≡ (platform.seal key iv plain).0 ++ (platform.seal key iv plain).1
  pub tag_length : (key iv plain : Text) → length (platform.seal key iv plain).1 ≡ 32

cut_tag :
    (c t : Text)
    → length t ≡ 32
    → (take (length (c ++ t) - 32) (c ++ t) ≡ c) × (drop (length (c ++ t) - 32) (c ++ t) ≡ t)
cut_tag c t long =
    let n : length (c ++ t) - 32 ≡ length c = omega (arith, length-append c t, long) in
    (
      ap (λ (m : ℕ). take m (c ++ t)) n ∙ take-length-append c t,
      ap (λ (m : ℕ). drop m (c ++ t)) n ∙ drop-length-append c t,
    )

-- The server's tools unlock what the browser locked: the key comes back, in lower case.
pub decrypt_private_key-browser_encrypt :
    (platform : Platform) (subtle : Subtle) (salt iv private_key passphrase keystore : Text)
    → Sound platform
    → Agree platform subtle
    → is_raw_key (to_lower_hex (drop 2 private_key)) ≡ true
    → browser_encrypt platform subtle salt iv private_key passphrase ≡ Unlocked.done keystore
    → decrypt_private_key platform keystore passphrase
      ≡ Unlocked.done (codes "0x" ++ to_lower_hex (drop 2 private_key))
unfolding browser_encrypt decrypt_private_key
decrypt_private_key-browser_encrypt platform subtle salt iv private_key passphrase keystore sound
      agree raw e =
    elim (Bool-cases (ltb (length passphrase) 8)) [
      | inl short ↦ absurd (ground (arith, e, short))
      | inr long ↦ elim (Option-cases (unhex (drop 2 private_key))) [
        | inl odd ↦ absurd (ground (arith, e, long, odd))
        | inr (plain, read) ↦
            let key = platform.pbkdf2_key passphrase salt iterations in
            let c = (platform.seal key iv plain).0 in
            let t = (platform.seal key iv plain).1 in
            let bytes : subtle.encrypt (subtle.derive passphrase salt iterations) iv plain
                ≡ c ++ t =
              ap (λ (k : Text). subtle.encrypt k iv plain)
                (agree.derives passphrase salt iterations)
              ∙ agree.joins key iv plain in
            let (front, back) = cut_tag c t (agree.tag_length key iv plain) in
            let same : platform.stringify (browser_file salt iv (c ++ t)) ≡ keystore =
              ap (λ (b : Text). platform.stringify (browser_file salt iv b)) (sym bytes)
              ∙ ground (arith, e, long, read) in
            let lower : plain ≡ to_lower_hex (drop 2 private_key) = ground (arith, read) in
            rw
              (
                ← same,
                sound.parses (browser_file salt iv (c ++ t)),
                front,
                back,
                sound.opens key iv plain,
                lower,
                raw,
              )
              refl
      ]
    ]
