-- ===== src/Store/Transition.antt =====
-- What `transitionWith` and `transition` of src/engine/store.ts do, on every branch.
use mathlib.Core.Option
use qrib.Common.{
  ◌⊎◌, ap, ◌∙◌, ◌≡◌, refl, Text, true, false, none, some, arith, first-update_where,
  first-update_where_other, ap, Bool-cases, Option-cases, inl, inr, ◌++◌, [], ◌∷◌, ◌∙◌, text_eq,
  text_eq_sound,
}
use qrib.States.{State, state_eq, can_transition, state_eq→eq, state_eq_refl}
use qrib.Db.{◌>>◌, Intent, World, invalid_transition, unknown_payment, ok, err, Result}
use qrib.Store.{Opts, has_id, find_intent, moved, audit_row, advance, transition, transition_with}

module _ (id : Text) (to : State) (opts : Opts) (w : World) where
  pub transition-unknown :
      find_intent id w ≡ none → transition id to opts w ≡ (err (unknown_payment id), w)
  unfolding transition ◌>>◌
  transition-unknown missing = ground arith

  module _ (intent : Intent) (found : find_intent id w ≡ some intent) where
    -- A replay of the present state changes nothing.
    pub transition-replay : intent.status ≡ to → transition id to opts w ≡ (ok intent, w)
    unfolding transition ◌>>◌
    transition-replay same = ground (arith, state_eq_refl to)

    pub transition-invalid :
        state_eq intent.status to ≡ false
        → can_transition intent.status to ≡ false
        → transition id to opts w ≡ (err (invalid_transition intent.status to), w)
    unfolding transition ◌>>◌
    transition-invalid other no_edge = ground arith

    -- A transition along an edge writes the audit row and the new status.
    pub transition-advance :
        state_eq intent.status to ≡ false
        → can_transition intent.status to ≡ true
        → transition id to opts w ≡ (ok (moved to opts w.now intent), advance id intent to opts w)
    unfolding transition ◌>>◌
    transition-advance other edge = ground arith

  pub find_intent-advance :
      (intent : Intent)
      → find_intent id (advance id intent to opts w)
        ≡ Option.map (moved to opts w.now) (find_intent id w)
  unfolding advance moved
  find_intent-advance intent =
      first-update_where (has_id id) (moved to opts w.now) (λ x. refl) w.intents

  pub find_intent-advance_other :
      (intent : Intent) (other : Text)
      → text_eq id other ≡ false
      → find_intent other (advance id intent to opts w) ≡ find_intent other w
  unfolding advance moved
  find_intent-advance_other intent other ne =
      first-update_where_other (has_id id) (has_id other) (moved to opts w.now) (λ x. refl)
        (λ x h. ground (arith, text_eq_sound x.id id h)) w.intents

  -- How a transition ends. On success the store holds the payment returned, which is in the state
  -- asked for, and came there by an edge with a new audit row, or was there before; no other
  -- payment has changed. A throw has changed nothing.
  abbrev pub Settles : Result Intent × World → Type 0
  Settles (ok i, w') =
      (find_intent id w' ≡ some i)
      × (i.status ≡ to)
      × ((other : Text) → text_eq id other ≡ false → find_intent other w' ≡ find_intent other w)
      × ((before : Intent) × (find_intent id w ≡ some before)
          × (((before.status ≡ to) × (w' ≡ w))
              ⊎ ((can_transition before.status to ≡ true)
                  × (w'.attempts ≡ w.attempts ++ audit_row before to opts w.attempts ∷ []))))
  Settles (err e, w') = w' ≡ w

  advance-Settles :
      (intent : Intent)
      → find_intent id w ≡ some intent
      → can_transition intent.status to ≡ true
      → Settles (ok (moved to opts w.now intent), advance id intent to opts w)
  unfolding advance moved
  advance-Settles intent found edge = (
    find_intent-advance intent ∙ ap (Option.map (moved to opts w.now)) found,
    refl,
    λ other ne. find_intent-advance_other intent other ne,
    (intent, found, inr (edge, refl)),
  )

  -- What `transition` does on every branch: success with the audit row, replay, or a throw that
  -- changes nothing.
  pub transition-Settles : Settles (transition id to opts w)
  transition-Settles = elim (Option-cases (find_intent id w)) [
    | inl missing ↦ rw (transition-unknown missing) refl
    | inr (intent, found) ↦ elim (Bool-cases (state_eq intent.status to)) [
      | inl same ↦
          let e = state_eq→eq intent.status to same in
          rw (transition-replay intent found e)
            (found, e, λ _ _. refl, (intent, found, inl (e, refl)))
      | inr other ↦ elim (Bool-cases (can_transition intent.status to)) [
        | inl edge ↦
            rw (transition-advance intent found other edge) (advance-Settles intent found edge)
        | inr none_such ↦ rw (transition-invalid intent found other none_such) refl
      ]
    ]
  ]

-- What `transitionWith` leaves: the state as it was, or the two writes along an edge.
pub transition_with-cases :
    (id : Text) (to : State) (opts : Opts) (w : World)
    → ((transition_with id to opts w).1 ≡ w)
      ⊎ ((intent : Intent) × (find_intent id w ≡ some intent)
          × (can_transition intent.status to ≡ true)
          × ((transition_with id to opts w).1 ≡ advance id intent to opts w))
unfolding transition_with ◌>>◌
transition_with-cases id to opts w = elim (Option-cases (find_intent id w)) [
  | inl missing ↦ inl (ground arith)
  | inr (intent, found) ↦ elim (Bool-cases (state_eq intent.status to)) [
    | inl same ↦ inl (ground arith)
    | inr other ↦ elim (Bool-cases (can_transition intent.status to)) [
      | inl edge ↦ inr (intent, found, edge, ground arith)
      | inr none_such ↦ inl (ground arith)
    ]
  ]
]
