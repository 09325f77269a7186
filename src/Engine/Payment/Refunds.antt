-- ===== src/Engine/Payment/Refunds.antt =====
-- `refund` of src/engine/service.ts on every branch.
use qrib.Store.Transition.{find_intent-advance}
use qrib.Ledger.{insert_rows, post_entries}
use qrib.Ledger.Balance.{IsBalanced, post_entries_outcome}
use qrib.States.{state_eq, can_transition, state_eq→eq}
use qrib.Store.{advance, find_intent, sort_desc, transition_with, moved, Opts}
use qrib.Engine.Payment.{refund, refunded, refund_required, refund_entries, Entry}
use qrib.Common.{
  ◌≡◌, ◌⊎◌, Option-cases, arith, head?, select, inl, inr, ◌∙◌, refl, Bool-cases, ap, none, some,
  List, ℕ, ℤ, Text, true, false,
}
use qrib.Engine.Common.{latest_quote, known_intent, because, quote_of}
use qrib.Db.{
  ok, err, ◌>>◌, ◌>>=◌, World, QuoteRow, Intent, Result, payment_error, refunded_minus, transaction,
  Fault,
}
use mathlib.Core.Option

-- The latest quote is a read.
latest_quote-cases :
    (id : Text) (w : World)
    → ((q : QuoteRow) × (latest_quote id w ≡ (ok q, w)))
      ⊎ (latest_quote id w ≡ (err (payment_error 409), w))
unfolding latest_quote ◌>>=◌
latest_quote-cases id w =
    elim (Option-cases
      (head? (sort_desc (λ (q : QuoteRow). q.created_at) (select (quote_of id) w.quotes)))) [
        | inl missing ↦ inr (ground (arith, missing))
        | inr (q, found) ↦ inl (q, ground (arith, found))
      ]

-- The state after a refund: the ledger has the refund's rows, the trail one row more, and the
-- payment is REFUNDED.
abbrev refunded_state : Text → ℤ → Intent → QuoteRow → World → World
refunded_state id cost intent q w =
    advance id intent refunded (because (refunded_minus cost))
      (insert_rows id (refund_entries q.crypto_amount cost) w)

-- How a refund ends: it has been done before; it is done now, by an accepted posting, from
-- REFUND_REQUIRED; or it has thrown and changed nothing.
abbrev pub Refunds : Text → ℤ → World → Result Intent × World → Type 0
Refunds id cost w (ok i, w') =
    (find_intent id w' ≡ some i)
    × (i.status ≡ refunded)
    × ((w' ≡ w)
        ⊎ ((intent : Intent) × (q : QuoteRow) × (find_intent id w ≡ some intent)
            × (intent.status ≡ refund_required)
            × (latest_quote id w ≡ (ok q, w))
            × IsBalanced (refund_entries q.crypto_amount cost)
            × (w' ≡ refunded_state id cost intent q w)))
Refunds id cost w (err e, w') = w' ≡ w

module _ (id : Text) (cost : ℤ) (w : World) where
  refund-missing : find_intent id w ≡ none → refund id cost w ≡ (err (payment_error 404), w)
  unfolding refund known_intent ◌>>◌
  refund-missing missing = ground arith

  module _ (intent : Intent) (found : find_intent id w ≡ some intent) where
    refund-again : state_eq intent.status refunded ≡ true → refund id cost w ≡ (ok intent, w)
    unfolding refund known_intent ◌>>◌
    refund-again done = ground arith

    module _ (other : state_eq intent.status refunded ≡ false) where
      refund-refused :
          state_eq intent.status refund_required ≡ false
          → refund id cost w ≡ (err (payment_error 409), w)
      unfolding refund known_intent ◌>>◌
      refund-refused ne = ground arith

      refund-unquoted :
          state_eq intent.status refund_required ≡ true
          → latest_quote id w ≡ (err (payment_error 409), w)
          → refund id cost w ≡ (err (payment_error 409), w)
      unfolding refund known_intent ◌>>◌
      refund-unquoted e bad = ground arith

      refund-booked :
          (q : QuoteRow)
          → state_eq intent.status refund_required ≡ true
          → latest_quote id w ≡ (ok q, w)
          → refund id cost w
            ≡ transaction
                (post_entries id (refund_entries q.crypto_amount cost)
                  >> transition_with id refunded (because (refunded_minus cost)))
                w
      unfolding refund known_intent ◌>>◌
      refund-booked q e good = ground arith

      insert_rows-find :
          (entries : List Entry) → find_intent id (insert_rows id entries w) ≡ find_intent id w
      unfolding insert_rows
      insert_rows-find entries = refl

      move_refunded :
          (v : World) (opts : Opts)
          → find_intent id v ≡ some intent
          → state_eq intent.status refund_required ≡ true
          → transition_with id refunded opts v
            ≡ (ok (moved refunded opts v.now intent), advance id intent refunded opts v)
      unfolding transition_with ◌>>◌ can_transition state_eq
      move_refunded v opts here e =
          let at : intent.status ≡ refund_required = state_eq→eq intent.status refund_required e in
          ground (arith, here, at)

      booked-ok :
          (q : QuoteRow)
          → state_eq intent.status refund_required ≡ true
          → (post_entries id (refund_entries q.crypto_amount cost) w
              ≡ (ok tt, insert_rows id (refund_entries q.crypto_amount cost) w))
          → transaction
              (post_entries id (refund_entries q.crypto_amount cost)
                >> transition_with id refunded (because (refunded_minus cost)))
              w
            ≡ (
              ok (moved refunded (because (refunded_minus cost)) w.now intent),
              refunded_state id cost intent q w,
            )
      unfolding transaction ◌>>◌ insert_rows
      booked-ok q e posted =
          let es = refund_entries q.crypto_amount cost in
          let go =
            move_refunded (insert_rows id es w) (because (refunded_minus cost))
              (insert_rows-find es ∙ found) e in
          rw (posted, go) refl

      booked-err :
          (q : QuoteRow) (fault : Fault)
          → (post_entries id (refund_entries q.crypto_amount cost) w ≡ (err fault, w))
          → transaction
              (post_entries id (refund_entries q.crypto_amount cost)
                >> transition_with id refunded (because (refunded_minus cost)))
              w
            ≡ (err fault, w)
      unfolding transaction ◌>>◌
      booked-err q fault failed = rw failed refl

      refunded_state-find :
          (q : QuoteRow)
          → find_intent id (refunded_state id cost intent q w)
            ≡ some (moved refunded (because (refunded_minus cost)) w.now intent)
      unfolding insert_rows
      refunded_state-find q =
          let opts = because (refunded_minus cost) in
          find_intent-advance id refunded opts
            (insert_rows id (refund_entries q.crypto_amount cost) w) intent
          ∙ ap (Option.map (moved refunded opts w.now)) found

      moved-status : (opts : Opts) (now : ℕ) → (moved refunded opts now intent).status ≡ refunded
      unfolding moved
      moved-status opts now = refl

      refund-Refunds_from :
          state_eq intent.status refund_required ≡ true → Refunds id cost w (refund id cost w)
      refund-Refunds_from e = elim (latest_quote-cases id w) [
        | inr bad ↦ rw (refund-unquoted e bad) refl
        | inl (q, good) ↦ elim (post_entries_outcome id (refund_entries q.crypto_amount cost) w) [
          | inl (balanced, stored, posted) ↦
              rw (refund-booked q e good, booked-ok q e posted)
                (
                  refunded_state-find q,
                  moved-status _ _,
                  inr (intent, q, found, state_eq→eq _ _ e, good, balanced, refl),
                )
          | inr (refused, (fault, failed)) ↦
              rw (refund-booked q e good, booked-err q fault failed) refl
        ]
      ]

-- What `refund` does on every branch. It returns a REFUNDED payment, which was so before and nothing
-- has changed, or which was REFUND_REQUIRED and is moved by one transition after the posting of its
-- latest quote at the given cost was accepted. A throw has changed nothing.
pub refund-Refunds : (id : Text) (cost : ℤ) (w : World) → Refunds id cost w (refund id cost w)
refund-Refunds id cost w = elim (Option-cases (find_intent id w)) [
  | inl missing ↦ rw (refund-missing id cost w missing) refl
  | inr (intent, found) ↦ elim (Bool-cases (state_eq intent.status refunded)) [
    | inl done ↦
        rw (refund-again id cost w intent found done)
          (found, state_eq→eq intent.status refunded done, inl refl)
    | inr other ↦ elim (Bool-cases (state_eq intent.status refund_required)) [
      | inl e ↦ refund-Refunds_from id cost w intent found other e
      | inr ne ↦ rw (refund-refused id cost w intent found other ne) refl
    ]
  ]
]
