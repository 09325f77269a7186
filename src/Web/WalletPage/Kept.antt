-- ===== src/Web/WalletPage/Kept.antt =====
-- The key under every sequence of steps of web/app/(app)/wallet/page.tsx.
use qrib.Web.WalletPage.{Device, WalletJob, WalletPage, opened_page, WalletView}
use qrib.Web.WalletPage.Session.{Browser, WalletSession, WalletMoves, WalletMove, Ends, put_back}
use qrib.Web.WalletPage.Moves.{event-IsKept, end-IsKept}
use qrib.Web.WalletPage.Keeps.{IsKept, IsSealed, Holds}
use qrib.Common.{
  not_empty, only_one, refl, ◌≡◌, ◌++◌, Option, List, Text, Bool, [], ◌∷◌, subst, sym,
}

module _ (b : Browser) (first : Option Text) where
  Ends-IsKept :
      (s : WalletSession) (before after : List WalletJob) (job : WalletJob)
      (f : WalletPage → Device → WalletView)
      → s.jobs ≡ before ++ job ∷ after
      → Ends b job f
      → IsKept b first s
      → IsKept b first (put_back before after (f s.page s.device))
  Ends-IsKept s before after job f at end (IsKept.resting page device busy k o) =
      absurd (not_empty before after job at)
  Ends-IsKept s before after job f at end (IsKept.waiting page device j busy k o h) =
      let (e, e', same) = only_one before after j job at in
      rw (e, e') (end-IsKept b first page device k o job f end busy (subst (Holds b) (sym same) h))

  moves-IsKept : (s u : WalletSession) → WalletMoves b s u → IsKept b first s → IsKept b first u
  moves-IsKept s u (WalletMoves.no_more s') h = h
  moves-IsKept s u (WalletMoves.next s' t u' (WalletMove.happens s'' e on) rest) h =
      moves-IsKept t u rest (event-IsKept b first s e on h)
  moves-IsKept s u (WalletMoves.next s' t u' (WalletMove.ends s'' before after job f at end) rest)
        h =
      moves-IsKept t u rest (Ends-IsKept s before after job f at end h)

-- Whatever the user does on the page from its opening on, and whatever the browser grants or the
-- calls answer: the page waits for no more than one call at a time and is busy exactly while it
-- waits; a key in memory, and a key that a transfer is signed with, is one that a passphrase has
-- opened a keystore to; and the browser's storage holds as the keystore what it held at first,
-- nothing, or a file that creating or importing a wallet has sealed.
pub opened_page-IsKept :
    (b : Browser) (is_granted : Bool) (device : Device) (u : WalletSession)
    → WalletMoves b (record { page = opened_page is_granted device; device = device; jobs = [] }) u
    → IsKept b device.keystore_item u
opened_page-IsKept b g device u moves =
    moves-IsKept b device.keystore_item _ u moves
      (IsKept.resting (opened_page g device) device refl tt IsSealed.as_before)
