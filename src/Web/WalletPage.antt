-- ===== src/Web/WalletPage.antt =====
-- web/app/(app)/wallet/page.tsx: the page that keeps the key. What its functions wait for ends later,
-- so that a press and its end are two steps; each access to the browser's storage is given a
-- flag that says whether the browser grants it.
pub mod Session
pub mod Keeps
pub mod Moves
pub mod Kept
use qrib.Db.{Fault, Result, ok, err}
use qrib.Wallet.Usdc.{SendResult, ReceiveInfo}
use qrib.Wallet.Keystore.{KeystoreError, WalletRef, Unlocked}
use qrib.Common.{
  trim, not, is_digit, ◌||◌, text_eq, select, ◌==◌, is_some, ◌&&◌, ltb, length, if◌then◌else◌,
  or_else, ◌++◌, codes, none, some, Option, ℕ, Text, Bool, true, false, [],
}

pub data WalletError : Type 0 where
  keystore_failed : KeystoreError → WalletError
  storage_blocked no_keystore key_locked address_missing : WalletError
  transfer_failed : Fault → WalletError
  read_failed : WalletError

-- What the browser's storage holds under `KS_KEY` and `ADDR_KEY`.
pub record Device : Type 0 where
  pub keystore_item : Option Text
  pub address_item : Option Text

-- The state of the page.
pub record WalletPage : Type 0 where
  pub address : Text
  pub has_keystore : Bool
  pub key : Option Text
  pub passphrase : Text
  pub secret : Text
  pub to : Text
  pub send_amount : Text
  pub send_result : Option SendResult
  pub balance : Option Text
  pub receive : Option ReceiveInfo
  pub busy : Bool
  pub error : Option WalletError
  pub copied : Bool
  pub arm_wipe : Bool

-- `stored`
abbrev pub stored : Bool → Option Text → Text
stored is_granted item = if is_granted then or_else item [] else []

-- The first state, from what the storage holds.
abbrev pub opened_page : Bool → Device → WalletPage
opened_page is_granted device = record {
  address = stored is_granted device.address_item;
  has_keystore = not (text_eq (stored is_granted device.keystore_item) []);
  key = none;
  passphrase = [];
  secret = [];
  to = [];
  send_amount = [];
  send_result = none;
  balance = none;
  receive = none;
  busy = false;
  error = none;
  copied = false;
  arm_wipe = false;
}

-- What a run waits for; `stopping` where its function throws at once.
pub data WalletJob : Type 0 where
  creating : Text → WalletJob
  -- secret, passphrase
  importing : Text → Text → WalletJob
  -- keystore, passphrase
  unlocking : Text → Text → WalletJob
  -- key, recipient, amount
  sending : Text → Text → Text → WalletJob
  checking receiving : Text → WalletJob
  stopping : WalletError → WalletJob

pub data WalletEvent : Type 0 where
  type_passphrase type_secret type_to type_amount : Text → WalletEvent
  type_address : Bool → Text → WalletEvent
  press_create press_import press_lock press_send press_check : WalletEvent
  press_unlock press_wipe : Bool → WalletEvent
  -- the clipboard has taken the text; two seconds later
  copied_it copy_over : WalletEvent

-- Whether the page shows the control and it is not disabled.
abbrev pub is_shown : WalletEvent → WalletPage → Bool
is_shown (type_passphrase text) page = not page.has_keystore || not (is_some page.key)
is_shown (type_secret text) page = not page.has_keystore
is_shown (type_to text) page = is_some page.key
is_shown (type_amount text) page = is_some page.key
is_shown (type_address is_granted text) page = true
is_shown press_create page =
    not page.has_keystore && not page.busy && not (ltb (length page.passphrase) 8)
is_shown press_import page =
    not page.has_keystore
    && not page.busy
    && not (text_eq (trim page.secret) [])
    && not (ltb (length page.passphrase) 8)
is_shown press_lock page = page.has_keystore && is_some page.key
is_shown press_send page =
    is_some page.key
    && not page.busy
    && not (text_eq page.to [])
    && not (text_eq page.send_amount [])
is_shown press_check page = not page.busy && not (text_eq page.address [])
is_shown (press_unlock is_granted) page =
    page.has_keystore && not (is_some page.key) && not page.busy && not (text_eq page.passphrase [])
is_shown (press_wipe is_granted) page = page.has_keystore
is_shown copied_it page = is_some page.receive
is_shown copy_over page = page.copied

pub record WalletView : Type 0 where
  pub page : WalletPage
  pub device : Device
  pub job : Option WalletJob

abbrev pub shows : WalletPage → Device → WalletView
shows page device = record { page = page; device = device; job = none }

-- `run`, up to the first await of its function.
abbrev pub begin : WalletJob → WalletPage → Device → WalletView
begin job page device = record {
  page = record page { busy = true; error = none };
  device = device;
  job = some job;
}

abbrev pub unlock_job : Text → Text → WalletJob
unlock_job keystore passphrase =
    if text_eq keystore [] then stopping no_keystore else unlocking keystore passphrase

abbrev pub send_job : Option Text → Text → Text → WalletJob
send_job none to amount = stopping key_locked
send_job (some key) to amount = sending key (trim to) (trim amount)

abbrev pub check_job : Text → WalletJob
check_job address = if text_eq address [] then stopping address_missing else checking address

-- `onWipe`: the second press removes the keystore and forgets the key.
abbrev pub wipe : Bool → WalletPage → Device → WalletView
wipe is_granted page device =
    if not page.arm_wipe
    then shows (record page { arm_wipe = true }) device
    else shows
        (record page {
          address = [];
          has_keystore = false;
          key = none;
          balance = none;
          receive = none;
          arm_wipe = false;
        })
        (if is_granted then record { keystore_item = none; address_item = none } else device)

abbrev is_amount_char : ℕ → Bool
is_amount_char c = is_digit c || (c == b'.')

unfoldable pub handle_wallet_event : WalletEvent → WalletPage → Device → WalletView
handle_wallet_event (type_passphrase text) page device =
    shows (record page { passphrase = text }) device
handle_wallet_event (type_secret text) page device = shows (record page { secret = text }) device
handle_wallet_event (type_to text) page device = shows (record page { to = trim text }) device
handle_wallet_event (type_amount text) page device =
    shows (record page { send_amount = select is_amount_char text }) device
handle_wallet_event (type_address is_granted text) page device =
    shows (record page { address = trim text })
      (if is_granted then record device { address_item = some (trim text) } else device)
handle_wallet_event press_create page device = begin (creating page.passphrase) page device
handle_wallet_event press_import page device =
    begin (importing page.secret page.passphrase) page device
handle_wallet_event press_lock page device =
    shows (record page { key = none; send_result = none }) device
handle_wallet_event press_send page device =
    begin (send_job page.key page.to page.send_amount) page device
handle_wallet_event press_check page device = begin (check_job (trim page.address)) page device
handle_wallet_event (press_unlock is_granted) page device =
    begin (unlock_job (stored is_granted device.keystore_item) page.passphrase) page device
handle_wallet_event (press_wipe is_granted) page device = wipe is_granted page device
handle_wallet_event copied_it page device = shows (record page { copied = true }) device
handle_wallet_event copy_over page device = shows (record page { copied = false }) device

-- The end of `run`.
abbrev pub ended : WalletPage → Device → WalletView
ended page device = shows (record page { busy = false }) device

abbrev pub ended_with : WalletError → WalletPage → Device → WalletView
ended_with e page device = shows (record page { busy = false; error = some e }) device

-- `save`: the address is written before the keystore; `clear` is what the caller does after it.
abbrev pub save :
    (WalletPage → WalletPage) → Bool → Bool → WalletRef → WalletPage → Device → WalletView
save clear true true ref page device =
    ended (clear (record page { address = ref.address; has_keystore = true }))
      (record { keystore_item = some ref.keystore; address_item = some ref.address })
save clear true false ref page device =
    ended_with storage_blocked page (record device { address_item = some ref.address })
save clear false writes_keystore ref page device = ended_with storage_blocked page device

abbrev pub forget_passphrase : WalletPage → WalletPage
forget_passphrase page = record page { passphrase = [] }

abbrev pub forget_both : WalletPage → WalletPage
forget_both page = record page { secret = []; passphrase = [] }

-- The ends of the runs. The two flags say whether the storage takes the address and the keystore.
abbrev pub on_wallet :
    (WalletPage → WalletPage) → Bool → Bool → Unlocked WalletRef → WalletPage → Device → WalletView
on_wallet clear g g' (Unlocked.done ref) page device = save clear g g' ref page device
on_wallet clear g g' (Unlocked.fault e) page device = ended_with (keystore_failed e) page device

abbrev pub on_unlocked : Unlocked Text → WalletPage → Device → WalletView
on_unlocked (Unlocked.done key) page device =
    ended (record page { key = some key; passphrase = [] }) device
on_unlocked (Unlocked.fault e) page device = ended_with (keystore_failed e) page device

abbrev pub on_sent : Result SendResult → WalletPage → Device → WalletView
on_sent (ok result) page device = ended (record page { send_result = some result }) device
on_sent (err e) page device = ended_with (transfer_failed e) page device

-- The balance and its asset, if the server could read them; the address is asked for next.
abbrev pub on_balance : Text → Option (Text × Text) → WalletPage → Device → WalletView
on_balance address none page device = ended_with read_failed page device
on_balance address (some (balance, asset)) page device = record {
  page = record page { balance = some (balance ++ (codes " " ++ asset)) };
  device = device;
  job = some (receiving address);
}

abbrev pub on_receive : Option ReceiveInfo → WalletPage → Device → WalletView
on_receive none page device = ended_with read_failed page device
on_receive (some info) page device = ended (record page { receive = some info }) device
