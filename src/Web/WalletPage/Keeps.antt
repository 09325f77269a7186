-- ===== src/Web/WalletPage/Keeps.antt =====
-- What web/app/(app)/wallet/page.tsx keeps of the key, in memory and in the browser's storage.
use qrib.Wallet.Keystore.{Unlocked}
use qrib.Wallet.Browser.{browser_decrypt, browser_create, browser_import}
use qrib.Web.WalletPage.Session.{Browser, WalletSession, waits_for}
use qrib.Web.WalletPage.{
  WalletPage, WalletJob, Device, send_job, check_job, unlock_job, WalletRef, wipe,
}
use qrib.Common.{
  ◌≡◌, ◌∷◌, ◌++◌, ◌∙◌, Bool-cases, arith, text_eq, inl, inr, refl, if◌then◌else◌, none, some,
  Option, Text, Bool, true, false, [],
}

module _ (b : Browser) where
  -- A passphrase opens a stored file to the key, if there is one.
  abbrev pub IsOpened : Option Text → Type 0
  IsOpened none = Unit
  IsOpened (some key) =
      (keystore : Text) × (passphrase : Text) × (browser_decrypt b.platform b.subtle keystore
          passphrase
        ≡ Unlocked.done key)

  abbrev pub Holds : WalletJob → Type 0
  Holds (WalletJob.sending key to amount) = IsOpened (some key)
  Holds _ = Unit

  -- What the storage holds as the keystore: what it held at first, nothing, or the file that creating
  -- or importing a wallet has sealed.
  pub data IsSealed (first : Option Text) : Option Text → Type 0 where
    as_before : IsSealed first first
    removed : IsSealed first none
    created :
        (salt iv new_key passphrase : Text) (ref : WalletRef)
        → browser_create b.platform b.subtle b.eth salt iv new_key passphrase ≡ Unlocked.done ref
        → IsSealed first (some ref.keystore)
    imported :
        (salt iv secret passphrase : Text) (ref : WalletRef)
        → browser_import b.platform b.subtle b.eth salt iv secret passphrase ≡ Unlocked.done ref
        → IsSealed first (some ref.keystore)

  -- The page rests, or is busy with one job; a key is one that was opened.
  pub data IsKept (first : Option Text) : WalletSession → Type 0 where
    resting :
        (page : WalletPage) (device : Device)
        → page.busy ≡ false
        → IsOpened page.key
        → IsSealed first device.keystore_item
        → IsKept first (record { page = page; device = device; jobs = [] })
    waiting :
        (page : WalletPage) (device : Device) (job : WalletJob)
        → page.busy ≡ true
        → IsOpened page.key
        → IsSealed first device.keystore_item
        → Holds job
        → IsKept first (record { page = page; device = device; jobs = job ∷ [] })

  module _ (first : Option Text) where
    -- A change that starts nothing.
    pub changed-IsKept :
        (s : WalletSession) (page : WalletPage) (device : Device)
        → page.busy ≡ s.page.busy
        → IsOpened page.key
        → IsSealed first device.keystore_item
        → IsKept first s
        → IsKept first (record { page = page; device = device; jobs = s.jobs ++ [] })
    changed-IsKept s page device e k o (IsKept.resting page' device' b' k' o') =
        IsKept.resting page device (e ∙ b') k o
    changed-IsKept s page device e k o (IsKept.waiting page' device' job b' k' o' h) =
        IsKept.waiting page device job (e ∙ b') k o h

    pub kept_key : (s : WalletSession) → IsKept first s → IsOpened s.page.key
    kept_key s (IsKept.resting page device b' k o) = k
    kept_key s (IsKept.waiting page device job b' k o h) = k

    pub kept_item : (s : WalletSession) → IsKept first s → IsSealed first s.device.keystore_item
    kept_item s (IsKept.resting page device b' k o) = o
    kept_item s (IsKept.waiting page device job b' k o h) = o

    -- A press on a page that rests starts one job.
    pub begun-IsKept :
        (s : WalletSession) (job : WalletJob)
        → s.page.busy ≡ false
        → Holds job
        → IsKept first s
        → IsKept first (record {
          page = record s.page { busy = true; error = none };
          device = s.device;
          jobs = s.jobs ++ job ∷ [];
        })
    begun-IsKept s job rests h (IsKept.resting page device b' k o) =
        IsKept.waiting _ device job refl k o h
    begun-IsKept s job rests h (IsKept.waiting page device other b' k o h') =
        absurd (ground (arith, rests, b'))

    pub send_job-Holds :
        (key : Option Text) (to amount : Text) → IsOpened key → Holds (send_job key to amount)
    send_job-Holds none to amount k = tt
    send_job-Holds (some key) to amount k = k

    pub unlock_job-Holds : (keystore passphrase : Text) → Holds (unlock_job keystore passphrase)
    unlock_job-Holds keystore passphrase = elim (Bool-cases (text_eq keystore [])) [
      | inl empty ↦ rw empty tt
      | inr full ↦ rw full tt
    ]

    pub check_job-Holds : (address : Text) → Holds (check_job address)
    check_job-Holds address = elim (Bool-cases (text_eq address [])) [
      | inl empty ↦ rw empty tt
      | inr full ↦ rw full tt
    ]

    wiped-IsSealed :
        (g : Bool) (device : Device)
        → IsSealed first device.keystore_item
        → IsSealed first
            (if g
              then record { keystore_item = none; address_item = none }
              else device).keystore_item
    wiped-IsSealed true device o = IsSealed.removed
    wiped-IsSealed false device o = o

    pub wipe-IsKept :
        (s : WalletSession) (g : Bool)
        → IsKept first s
        → IsKept first (record {
          page = (wipe g s.page s.device).page;
          device = (wipe g s.page s.device).device;
          jobs = s.jobs ++ waits_for (wipe g s.page s.device).job;
        })
    wipe-IsKept s g h = elim (Bool-cases s.page.arm_wipe) [
      | inr once ↦ rw once (
          changed-IsKept s (record s.page { arm_wipe = true }) s.device refl (kept_key s h)
            (kept_item s h) h)
      | inl twice ↦ rw twice (
          changed-IsKept s
            (record s.page {
              address = [];
              has_keystore = false;
              key = none;
              balance = none;
              receive = none;
              arm_wipe = false;
            })
            (if g then record { keystore_item = none; address_item = none } else s.device) refl tt
            (wiped-IsSealed g s.device (kept_item s h)) h)
    ]

    pub typed_address-IsSealed :
        (g : Bool) (device : Device) (text : Text)
        → IsSealed first device.keystore_item
        → IsSealed first
            (if g then record device { address_item = some text } else device).keystore_item
    typed_address-IsSealed true device text o = o
    typed_address-IsSealed false device text o = o
