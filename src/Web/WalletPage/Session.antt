-- ===== src/Web/WalletPage/Session.antt =====
-- web/app/(app)/wallet/page.tsx with its storage, its key functions and its transfers.
use qrib.Db.{World}
use qrib.Wallet.Usdc.{Ethereum, ReceiveInfo}
use qrib.Wallet.Browser.{browser_create, Subtle, browser_import, browser_decrypt, browser_send}
use qrib.Wallet.Keystore.{Platform}
use qrib.Web.WalletPage.{
  WalletPage, WalletJob, WalletEvent, WalletView, Device, is_shown, handle_wallet_event, on_wallet,
  forget_passphrase, forget_both, on_unlocked, on_sent, on_balance, on_receive, WalletError,
  ended_with,
}
use qrib.Common.{◌∷◌, ◌++◌, ◌≡◌, none, some, Option, List, Text, Bool, true, []}

-- The page, what the storage holds, and what the page waits for.
pub record WalletSession : Type 0 where
  pub page : WalletPage
  pub device : Device
  pub jobs : List WalletJob

-- What the page calls of the browser, and `NEXT_PUBLIC_NETWORK`.
pub record Browser : Type 0 where
  pub platform : Platform
  pub subtle : Subtle
  pub eth : Ethereum
  pub network : Option Text

abbrev pub waits_for : Option WalletJob → List WalletJob
waits_for none = []
waits_for (some job) = job ∷ []

abbrev pub after_wallet_event : WalletEvent → WalletSession → WalletSession
after_wallet_event e s =
    let view = handle_wallet_event e s.page s.device in
    record { page = view.page; device = view.device; jobs = s.jobs ++ waits_for view.job }

-- A job ends, or the next one takes its place.
abbrev pub put_back : List WalletJob → List WalletJob → WalletView → WalletSession
put_back before after view = record {
  page = view.page;
  device = view.device;
  jobs = before ++ (waits_for view.job ++ after);
}

-- How a job ends. The random salt, iv and key, and what the storage grants, are the browser's
-- choice; a transfer runs in any state of the world; a read of the server gives any answer.
pub data Ends (b : Browser) : WalletJob → (WalletPage → Device → WalletView) → Type 0 where
  creates :
      (passphrase salt iv new_key : Text) (g g' : Bool)
      → Ends b (WalletJob.creating passphrase) (
          on_wallet forget_passphrase g g'
            (browser_create b.platform b.subtle b.eth salt iv new_key passphrase))
  imports :
      (secret passphrase salt iv : Text) (g g' : Bool)
      → Ends b (WalletJob.importing secret passphrase) (
          on_wallet forget_both g g'
            (browser_import b.platform b.subtle b.eth salt iv secret passphrase))
  unlocks :
      (keystore passphrase : Text)
      → Ends b
          (WalletJob.unlocking keystore passphrase)
          (on_unlocked (browser_decrypt b.platform b.subtle keystore passphrase))
  sends :
      (key to amount : Text) (w : World)
      → Ends b
          (WalletJob.sending key to amount)
          (on_sent (browser_send b.eth b.network key to amount w).0)
  checks :
      (address : Text) (reply : Option (Text × Text))
      → Ends b (WalletJob.checking address) (on_balance address reply)
  receives :
      (address : Text) (reply : Option ReceiveInfo)
      → Ends b (WalletJob.receiving address) (on_receive reply)
  stops : (e : WalletError) → Ends b (WalletJob.stopping e) (ended_with e)

pub data WalletMove (b : Browser) : WalletSession → WalletSession → Type 0 where
  happens :
      (s : WalletSession) (e : WalletEvent)
      → is_shown e s.page ≡ true
      → WalletMove b s (after_wallet_event e s)
  ends :
      (s : WalletSession) (before after : List WalletJob) (job : WalletJob)
      (f : WalletPage → Device → WalletView)
      → s.jobs ≡ before ++ job ∷ after
      → Ends b job f
      → WalletMove b s (put_back before after (f s.page s.device))

-- Any number of steps, the first one first.
pub data WalletMoves (b : Browser) : WalletSession → WalletSession → Type 0 where
  no_more : (s : WalletSession) → WalletMoves b s s
  next : (s t u : WalletSession) → WalletMove b s t → WalletMoves b t u → WalletMoves b s u
