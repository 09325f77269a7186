-- ===== src/Engine/Payment/Permits.antt =====
-- What a review may do (`resolveReview` of src/engine/service.ts): the targets that fit what the
-- trail shows of the funds.
use qrib.States.{state_eq}
use qrib.Engine.Payment.{
  shows_funding, ReviewExit, is_blank, reconciliation_required, exit_refused, State,
  crypto_confirmed, conversion_pending, fiat_settlement_pending, refund_required, refunded, retry,
  give_up, refund_funds,
}
use qrib.Common.{
  any, take, select, ◌≡◌, arith, ◌∷◌, refl, Bool-cases, inl, inr, ◌⊎◌, some, List, Text, Bool, true,
  false, [], ◌↔◌,
}
use qrib.Store.{of_payment, sort_desc, find_intent}
use qrib.Db.{World, Attempt, Intent}

-- The states that a payment reaches only after its funds have left the wallet.
pub data IsAfterFunding : State → Type 0 where
  confirmed : IsAfterFunding crypto_confirmed
  converting : IsAfterFunding conversion_pending
  settling : IsAfterFunding fiat_settlement_pending
  done : IsAfterFunding State.completed
  refund_due : IsAfterFunding refund_required
  paid_back : IsAfterFunding refunded

-- The latest twenty rows of the payment's trail.
abbrev pub recent_rows : Text → World → List Attempt
recent_rows id w =
    take 20 (sort_desc (λ (a : Attempt). a.attempt_no) (select (of_payment id) w.attempts))

abbrev pub HasFunded : List Attempt → Type 0
HasFunded [] = ⊥
HasFunded (a ∷ rest) = IsAfterFunding a.state ⊎ HasFunded rest

-- One of these rows is of a state after funding.
abbrev pub IsFunded : Text → World → Type 0
IsFunded id w = HasFunded (recent_rows id w)

-- A payment may be tried again or given up as long as its funds have not left the wallet, and be
-- refunded once they have.
abbrev pub Fits : ReviewExit → Type 0 → Type 0
Fits retry Funded = ¬ Funded
Fits give_up Funded = ¬ Funded
Fits refund_funds Funded = Funded

-- What a review may do: there is a reason, the payment waits for a review, and the target fits what
-- the trail shows of the funds.
abbrev pub IsPermitted : Text → ReviewExit → Text → World → Type 0
IsPermitted id to reason w =
    (is_blank reason ≡ false)
    × ((intent : Intent) × (find_intent id w ≡ some intent)
        × (intent.status ≡ reconciliation_required)
        × Fits to (IsFunded id w))

pub not_both : (b : Bool) → b ≡ true → b ≡ false → ⊥
not_both b yes_it no_it = ground (arith, yes_it, no_it)

shows_funding-IsAfterFunding : (s : State) → shows_funding s ≡ true → IsAfterFunding s
unfolding state_eq
shows_funding-IsAfterFunding crypto_confirmed e = IsAfterFunding.confirmed
shows_funding-IsAfterFunding conversion_pending e = IsAfterFunding.converting
shows_funding-IsAfterFunding fiat_settlement_pending e = IsAfterFunding.settling
shows_funding-IsAfterFunding State.completed e = IsAfterFunding.done
shows_funding-IsAfterFunding refund_required e = IsAfterFunding.refund_due
shows_funding-IsAfterFunding refunded e = IsAfterFunding.paid_back
shows_funding-IsAfterFunding _ e = absurd (ground (arith, e))

IsAfterFunding-shows_funding : (s : State) → IsAfterFunding s → shows_funding s ≡ true
unfolding state_eq
IsAfterFunding-shows_funding s IsAfterFunding.confirmed = refl
IsAfterFunding-shows_funding s IsAfterFunding.converting = refl
IsAfterFunding-shows_funding s IsAfterFunding.settling = refl
IsAfterFunding-shows_funding s IsAfterFunding.done = refl
IsAfterFunding-shows_funding s IsAfterFunding.refund_due = refl
IsAfterFunding-shows_funding s IsAfterFunding.paid_back = refl

abbrev pub shows_it : Attempt → Bool
shows_it a = shows_funding a.state

any-HasFunded : (rows : List Attempt) → any shows_it rows ≡ true → HasFunded rows
any-HasFunded [] e = absurd (ground (arith, e))
any-HasFunded (a ∷ rest) e = elim (Bool-cases (shows_it a)) [
  | inl here ↦ inl (shows_funding-IsAfterFunding a.state here)
  | inr not_here ↦ inr (any-HasFunded rest (ground (arith, e, not_here)))
]

HasFunded-any : (rows : List Attempt) → HasFunded rows → any shows_it rows ≡ true
HasFunded-any [] h = absurd h
HasFunded-any (a ∷ rest) (inl here) = rw (IsAfterFunding-shows_funding a.state here) refl
HasFunded-any (a ∷ rest) (inr later) = ground (arith, HasFunded-any rest later)

-- The code's two guards refuse exactly what does not fit.
guards_fit :
    {Funded : Type 0} (to : ReviewExit) (b : Bool)
    → (b ≡ true → Funded)
    → (Funded → b ≡ true)
    → (exit_refused b to ≡ false) ↔ Fits to Funded
guards_fit retry true f g = (λ e. absurd (ground (arith, e)), λ h. absurd (h (f refl)))
guards_fit retry false f g = (λ e. λ h. absurd (ground (arith, g h)), λ h. refl)
guards_fit give_up true f g = (λ e. absurd (ground (arith, e)), λ h. absurd (h (f refl)))
guards_fit give_up false f g = (λ e. λ h. absurd (ground (arith, g h)), λ h. refl)
guards_fit refund_funds true f g = (λ e. f refl, λ h. refl)
guards_fit refund_funds false f g =
    (λ e. absurd (ground (arith, e)), λ h. absurd (ground (arith, g h)))

pub exit_refused-Fits :
    (id : Text) (w : World) (to : ReviewExit)
    → (exit_refused (any shows_it (recent_rows id w)) to ≡ false) ↔ Fits to (IsFunded id w)
exit_refused-Fits id w to =
    guards_fit to (any shows_it (recent_rows id w)) (any-HasFunded (recent_rows id w))
      (HasFunded-any (recent_rows id w))
