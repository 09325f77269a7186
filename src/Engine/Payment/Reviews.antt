-- ===== src/Engine/Payment/Reviews.antt =====
-- `resolveReview` of src/engine/service.ts on every branch.
use qrib.Engine.Payment.Permits.{IsPermitted, shows_it, recent_rows, exit_refused-Fits, not_both}
use qrib.Store.Transition.{find_intent-advance, transition-advance}
use mathlib.Core.Option
use qrib.Engine.Common.{known_intent, by_actor}
use qrib.States.{can_transition, state_eq, state_eq→eq, state_eq_refl}
use qrib.Engine.Payment.{
  ReviewExit, is_blank, reconciliation_required, resolve_review, exit_state, exit_refused, State,
}
use qrib.Common.{
  any, ◌≡◌, arith, ◌++◌, ◌∷◌, ◌∙◌, refl, Bool-cases, inl, ap, inr, Option-cases, none, some, Text,
  true, false, [],
}
use qrib.Store.{find_intent, latest_attempts, transition, advance, Opts, moved, audit_row}
use qrib.Db.{ok, err, ◌>>◌, World, Result, Intent, payment_error, operator, note}

-- How a review ends.
abbrev pub Reviews : Text → ReviewExit → Text → World → Result Intent × World → Type 0
Reviews id to reason w (ok i, w') =
    IsPermitted id to reason w
    × (find_intent id w' ≡ some i)
    × (i.status ≡ exit_state to)
    × ((intent : Intent) × (w'.attempts
          ≡ w.attempts
            ++ audit_row intent (exit_state to) (by_actor operator (note reason)) w.attempts ∷ []))
Reviews id to reason w (err e, w') = (w' ≡ w) × ¬ IsPermitted id to reason w

not-IsPermitted :
    (id : Text) (to : ReviewExit) (reason : Text) (w : World) (intent : Intent)
    → find_intent id w ≡ some intent
    → state_eq intent.status reconciliation_required ≡ false
    → ¬ IsPermitted id to reason w
not-IsPermitted id to reason w intent found ne (_, (j, here, status, _)) =
    let same : intent ≡ j = cc in
    let at : intent.status ≡ reconciliation_required =
      ap (λ (i : Intent). i.status) same ∙ status in
    not_both (state_eq intent.status reconciliation_required)
      (ap (λ (s : State). state_eq s reconciliation_required) at
        ∙ state_eq_refl reconciliation_required)
      ne

exit_edge : (to : ReviewExit) → can_transition reconciliation_required (exit_state to) ≡ true
unfolding can_transition state_eq
exit_edge to = ground arith

exit_moves : (to : ReviewExit) → state_eq reconciliation_required (exit_state to) ≡ false
unfolding state_eq
exit_moves to = ground arith

module _ (id : Text) (to : ReviewExit) (reason : Text) (w : World) where
  review-blank :
      is_blank reason ≡ true → resolve_review id to reason w ≡ (err (payment_error 422), w)
  unfolding resolve_review ◌>>◌
  review-blank blank = ground arith

  advance-find :
      (intent : Intent) (opts : Opts)
      → find_intent id w ≡ some intent
      → find_intent id (advance id intent (exit_state to) opts w)
        ≡ some (moved (exit_state to) opts w.now intent)
  advance-find intent opts found =
      find_intent-advance id (exit_state to) opts w intent
      ∙ ap (Option.map (moved (exit_state to) opts w.now)) found

  moved-exit :
      (intent : Intent) (opts : Opts)
      → (moved (exit_state to) opts w.now intent).status ≡ exit_state to
  unfolding moved
  moved-exit intent opts = refl

  trail_row :
      (intent : Intent) (opts : Opts)
      → (advance id intent (exit_state to) opts w).attempts
        ≡ w.attempts ++ audit_row intent (exit_state to) opts w.attempts ∷ []
  unfolding advance
  trail_row intent opts = refl

  module _ (given : is_blank reason ≡ false) where
    review-missing :
        find_intent id w ≡ none → resolve_review id to reason w ≡ (err (payment_error 404), w)
    unfolding resolve_review known_intent ◌>>◌
    review-missing missing = ground arith

    module _ (intent : Intent) (found : find_intent id w ≡ some intent) where
      review-elsewhere :
          state_eq intent.status reconciliation_required ≡ false
          → resolve_review id to reason w ≡ (err (payment_error 409), w)
      unfolding resolve_review known_intent ◌>>◌
      review-elsewhere ne = ground arith

      review-refused :
          state_eq intent.status reconciliation_required ≡ true
          → exit_refused (any shows_it (recent_rows id w)) to ≡ true
          → resolve_review id to reason w ≡ (err (payment_error 409), w)
      unfolding resolve_review known_intent latest_attempts ◌>>◌
      review-refused at refused = rw (given, found, at, refused) refl

      review-moves :
          state_eq intent.status reconciliation_required ≡ true
          → exit_refused (any shows_it (recent_rows id w)) to ≡ false
          → resolve_review id to reason w
            ≡ transition id (exit_state to) (by_actor operator (note reason)) w
      unfolding resolve_review known_intent latest_attempts ◌>>◌
      review-moves at allowed = rw (given, found, at, allowed) refl

      review-Reviews_at :
          state_eq intent.status reconciliation_required ≡ true
          → exit_refused (any shows_it (recent_rows id w)) to ≡ false
          → Reviews id to reason w (resolve_review id to reason w)
      review-Reviews_at at allowed =
          let e = state_eq→eq intent.status reconciliation_required at in
          let opts = by_actor operator (note reason) in
          let edge : can_transition intent.status (exit_state to) ≡ true = rw e (exit_edge to) in
          let other : state_eq intent.status (exit_state to) ≡ false = rw e (exit_moves to) in
          rw
            (
              review-moves at allowed,
              transition-advance id (exit_state to) opts w intent found other edge,
            )
            (
              (given, (intent, found, e, (exit_refused-Fits id w to).0 allowed)),
              advance-find intent opts found,
              moved-exit intent opts,
              (intent, trail_row intent opts),
            )

-- What `resolveReview` does on every branch. It returns exactly where the review is permitted: the
-- payment is then in the state asked for, and one audit row is written that names the operator and the
-- reason. Otherwise it throws, and nothing has changed.
pub resolve_review-Reviews :
    (id : Text) (to : ReviewExit) (reason : Text) (w : World)
    → Reviews id to reason w (resolve_review id to reason w)
resolve_review-Reviews id to reason w = elim (Bool-cases (is_blank reason)) [
  | inl blank ↦ rw (review-blank id to reason w blank) (refl, λ h. not_both _ blank h.0)
  | inr given ↦ elim (Option-cases (find_intent id w)) [
    | inl missing ↦
        rw (review-missing id to reason w given missing)
          (refl, λ h. absurd (ground (arith, missing, h.1.1)))
    | inr (intent, found) ↦ elim (Bool-cases (state_eq intent.status reconciliation_required)) [
      | inr ne ↦
          rw (review-elsewhere id to reason w given intent found ne)
            (refl, λ h. not-IsPermitted id to reason w intent found ne h)
      | inl at ↦ elim (Bool-cases (exit_refused (any shows_it (recent_rows id w)) to)) [
        | inl refused ↦
            rw (review-refused id to reason w given intent found at refused)
              (refl, λ h. not_both _ refused ((exit_refused-Fits id w to).1 h.1.3))
        | inr allowed ↦ review-Reviews_at id to reason w given intent found at allowed
      ]
    ]
  ]
]
