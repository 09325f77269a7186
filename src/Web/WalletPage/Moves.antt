-- ===== src/Web/WalletPage/Moves.antt =====
-- Every step of web/app/(app)/wallet/page.tsx keeps the key as it should be kept.
use qrib.Web.WalletPage.Keeps.{
  IsKept, IsOpened, IsSealed, Holds, changed-IsKept, kept_key, kept_item, typed_address-IsSealed,
  begun-IsKept, send_job-Holds, check_job-Holds, unlock_job-Holds, wipe-IsKept,
}
use qrib.Web.WalletPage.Session.{Browser, WalletSession, Ends, put_back, after_wallet_event}
use qrib.Web.WalletPage.{
  WalletPage, WalletJob, WalletEvent, WalletView, Device, is_shown, handle_wallet_event, Result,
  WalletRef, on_balance, Unlocked, ReceiveInfo, forget_passphrase, WalletError, ended_with,
  on_receive, forget_both, on_unlocked, on_wallet, save, SendResult, on_sent, stored, ok, err,
}
use qrib.Common.{
  ◌≡◌, arith, subst, sym, trim, refl, none, some, Option, Text, Bool, true, false, [],
}

-- A control that is shown only on a page that rests.
idle_create :
    (page : WalletPage) → is_shown WalletEvent.press_create page ≡ true → page.busy ≡ false
idle_create page e = ground (arith, e)

idle_import :
    (page : WalletPage) → is_shown WalletEvent.press_import page ≡ true → page.busy ≡ false
idle_import page e = ground (arith, e)

idle_send : (page : WalletPage) → is_shown WalletEvent.press_send page ≡ true → page.busy ≡ false
idle_send page e = ground (arith, e)

idle_check : (page : WalletPage) → is_shown WalletEvent.press_check page ≡ true → page.busy ≡ false
idle_check page e = ground (arith, e)

idle_unlock :
    (g : Bool) (page : WalletPage)
    → is_shown (WalletEvent.press_unlock g) page ≡ true
    → page.busy ≡ false
idle_unlock g page e = ground (arith, e)

module _ (b : Browser) (first : Option Text) where
  pub event-IsKept :
      (s : WalletSession) (e : WalletEvent)
      → is_shown e s.page ≡ true
      → IsKept b first s
      → IsKept b first (after_wallet_event e s)
  unfolding handle_wallet_event
  event-IsKept s (WalletEvent.type_passphrase text) on h =
      changed-IsKept b first s _ s.device refl (kept_key b first s h) (kept_item b first s h) h
  event-IsKept s (WalletEvent.type_secret text) on h =
      changed-IsKept b first s _ s.device refl (kept_key b first s h) (kept_item b first s h) h
  event-IsKept s (WalletEvent.type_to text) on h =
      changed-IsKept b first s _ s.device refl (kept_key b first s h) (kept_item b first s h) h
  event-IsKept s (WalletEvent.type_amount text) on h =
      changed-IsKept b first s _ s.device refl (kept_key b first s h) (kept_item b first s h) h
  event-IsKept s (WalletEvent.type_address g text) on h =
      changed-IsKept b first s _ _ refl (kept_key b first s h)
        (typed_address-IsSealed b first g s.device (trim text) (kept_item b first s h)) h
  event-IsKept s WalletEvent.press_create on h =
      begun-IsKept b first s _ (idle_create s.page on) tt h
  event-IsKept s WalletEvent.press_import on h =
      begun-IsKept b first s _ (idle_import s.page on) tt h
  event-IsKept s WalletEvent.press_lock on h =
      changed-IsKept b first s _ s.device refl tt (kept_item b first s h) h
  event-IsKept s WalletEvent.press_send on h =
      begun-IsKept b first s _ (idle_send s.page on)
        (send_job-Holds b first s.page.key s.page.to s.page.send_amount (kept_key b first s h)) h
  event-IsKept s WalletEvent.press_check on h =
      begun-IsKept b first s _ (idle_check s.page on)
        (check_job-Holds b first (trim s.page.address)) h
  event-IsKept s (WalletEvent.press_unlock g) on h =
      begun-IsKept b first s _ (idle_unlock g s.page on)
        (unlock_job-Holds b first (stored g s.device.keystore_item) s.page.passphrase) h
  event-IsKept s (WalletEvent.press_wipe g) on h = wipe-IsKept b first s g h
  event-IsKept s WalletEvent.copied_it on h =
      changed-IsKept b first s _ s.device refl (kept_key b first s h) (kept_item b first s h) h
  event-IsKept s WalletEvent.copy_over on h =
      changed-IsKept b first s _ s.device refl (kept_key b first s h) (kept_item b first s h) h

  module _ (page : WalletPage) (device : Device) (k : IsOpened b page.key)
      (o : IsSealed b first device.keystore_item) where
    with_error : (e : WalletError) → IsKept b first (put_back [] [] (ended_with e page device))
    with_error e = IsKept.resting _ device refl k o

    save-IsKept :
        (clear : WalletPage → WalletPage) (g g' : Bool) (ref : WalletRef)
        → ((p : WalletPage) → (clear p).key ≡ p.key)
        → IsSealed b first (some ref.keystore)
        → IsKept b first (put_back [] [] (save clear g g' ref page device))
    save-IsKept clear true true ref same sealed =
        IsKept.resting _ _ refl (subst (IsOpened b) (sym (same _)) k) sealed
    save-IsKept clear true false ref same sealed = IsKept.resting _ _ refl k o
    save-IsKept clear false g' ref same sealed = IsKept.resting _ _ refl k o

    wallet-IsKept :
        (clear : WalletPage → WalletPage) (g g' : Bool) (r : Unlocked WalletRef)
        → ((p : WalletPage) → (clear p).key ≡ p.key)
        → ((ref : WalletRef) → r ≡ Unlocked.done ref → IsSealed b first (some ref.keystore))
        → IsKept b first (put_back [] [] (on_wallet clear g g' r page device))
    wallet-IsKept clear g g' (Unlocked.done ref) same sealed =
        save-IsKept clear g g' ref same (sealed ref refl)
    wallet-IsKept clear g g' (Unlocked.fault e) same sealed = with_error _

    unlocked-IsKept :
        (r : Unlocked Text)
        → ((key : Text) → r ≡ Unlocked.done key → IsOpened b (some key))
        → IsKept b first (put_back [] [] (on_unlocked r page device))
    unlocked-IsKept (Unlocked.done key) opened = IsKept.resting _ device refl (opened key refl) o
    unlocked-IsKept (Unlocked.fault e) opened = with_error _

    sent-IsKept : (r : Result SendResult) → IsKept b first (put_back [] [] (on_sent r page device))
    sent-IsKept (ok result) = IsKept.resting _ device refl k o
    sent-IsKept (err e) = with_error _

    balance-IsKept :
        (address : Text) (reply : Option (Text × Text))
        → page.busy ≡ true
        → IsKept b first (put_back [] [] (on_balance address reply page device))
    balance-IsKept address none busy = with_error _
    balance-IsKept address (some (balance, asset)) busy = IsKept.waiting _ device _ busy k o tt

    receive-IsKept :
        (reply : Option ReceiveInfo)
        → IsKept b first (put_back [] [] (on_receive reply page device))
    receive-IsKept none = with_error _
    receive-IsKept (some info) = IsKept.resting _ device refl k o

    pub end-IsKept :
        (job : WalletJob) (f : WalletPage → Device → WalletView)
        → Ends b job f
        → page.busy ≡ true
        → Holds b job
        → IsKept b first (put_back [] [] (f page device))
    end-IsKept job f (Ends.creates passphrase salt iv new_key g g') busy h =
        wallet-IsKept forget_passphrase g g' _ (λ p. refl)
          (IsSealed.created salt iv new_key passphrase)
    end-IsKept job f (Ends.imports secret passphrase salt iv g g') busy h =
        wallet-IsKept forget_both g g' _ (λ p. refl) (IsSealed.imported salt iv secret passphrase)
    end-IsKept job f (Ends.unlocks keystore passphrase) busy h =
        unlocked-IsKept _ (λ key e. (keystore, passphrase, e))
    end-IsKept job f (Ends.sends key to amount w) busy h = sent-IsKept _
    end-IsKept job f (Ends.checks address reply) busy h = balance-IsKept address reply busy
    end-IsKept job f (Ends.receives address reply) busy h = receive-IsKept reply
    end-IsKept job f (Ends.stops e) busy h = with_error e
