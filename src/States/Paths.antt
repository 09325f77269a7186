-- ===== src/States/Paths.antt =====
-- Paths of the diagram of src/engine/states.ts.
use qrib.Common.{
  ℕ, zero, suc, ◌+◌, ◌≤◌, ◌<◌, ◌≡◌, refl, ◌≢◌, ◌⊎◌, inl, inr, Bool, true, false, arith,
}
use qrib.States.Graph.{
  State, created, quoted, authorized, crypto_submitted, crypto_confirmed, conversion_pending,
  fiat_settlement_pending, refund_required, reconciliation_required, completed, expired, failed,
  refunded, terminal, includes, can_transition,
}

-- A path of edges, with its number of steps.
pub data Route : ℕ → State → State → Type 0 where
  here : {s : State} → Route zero s s
  step : {n : ℕ} {s t u : State} → can_transition s t ≡ true → Route n t u → Route (suc n) s u

-- A path that leaves no state of review: what the program does without a human.
pub data Unreviewed : ℕ → State → State → Type 0 where
  here : {s : State} → Unreviewed zero s s
  step :
      {n : ℕ} {s t u : State}
      → s ≢ reconciliation_required
      → can_transition s t ≡ true
      → Unreviewed n t u
      → Unreviewed (suc n) s u

-- How far a payment has come. Review and the terminal states are last.
abbrev progress : State → ℕ
progress created = 0
progress quoted = 1
progress authorized = 2
progress crypto_submitted = 3
progress crypto_confirmed = 4
progress conversion_pending = 5
progress fiat_settlement_pending = 6
progress refund_required = 7
progress _ = 8

can_transition-progress :
    (s t : State)
    → s ≢ reconciliation_required
    → can_transition s t ≡ true
    → progress s < progress t
unfolding can_transition
can_transition-progress s t h e = ground arith

Unreviewed-progress : {n : ℕ} {s t : State} → Unreviewed n s t → n + progress s ≤ progress t
Unreviewed-progress Unreviewed.here = omega arith
Unreviewed-progress (Unreviewed.step {s} {t} h e p) =
    omega (arith, can_transition-progress s t h e, Unreviewed-progress p)

progress_le : (s : State) → progress s ≤ 8
progress_le s = ground arith

-- A payment that no human reviews makes at most eight transitions, from any state on.
pub Unreviewed-bounded : {n : ℕ} {s t : State} → Unreviewed n s t → n ≤ 8
Unreviewed-bounded {t} p = omega (arith, Unreviewed-progress p, progress_le t)

-- Past the point of no return: the funds have left the wallet.
abbrev pub is_funded : State → Bool
is_funded crypto_confirmed = true
is_funded conversion_pending = true
is_funded fiat_settlement_pending = true
is_funded completed = true
is_funded refund_required = true
is_funded refunded = true
is_funded _ = false

can_transition-is_funded :
    (s t : State)
    → is_funded s ≡ true
    → can_transition s t ≡ true
    → (is_funded t ≡ true) ⊎ (t ≡ reconciliation_required)
unfolding can_transition
can_transition-is_funded s t h e = ground arith

-- After CRYPTO_CONFIRMED a path that no human reviews stays funded or ends in review: it cannot
-- come to FAILED, EXPIRED or AUTHORIZED.
pub funded_stays :
    {n : ℕ} {s t : State}
    → is_funded s ≡ true
    → Unreviewed n s t
    → (is_funded t ≡ true) ⊎ (t ≡ reconciliation_required)
funded_stays h Unreviewed.here = inl h
funded_stays h (Unreviewed.step {s} {t} ne e p) = elim (can_transition-is_funded s t h e) [
  | inl k ↦ funded_stays k p
  | inr r ↦ inr (at_review r p)
]
  where
    at_review :
        {m : ℕ} {a b : State}
        → a ≡ reconciliation_required
        → Unreviewed m a b
        → b ≡ reconciliation_required
    at_review q Unreviewed.here = q
    at_review q (Unreviewed.step k _ _) = absurd (k q)

terminal_no_edge : (s t : State) → includes terminal s ≡ true → can_transition s t ≡ true → ⊥
unfolding can_transition
terminal_no_edge s t h e = ground arith

-- A terminal state is never left.
pub terminal_absorbs : {n : ℕ} {s t : State} → includes terminal s ≡ true → Route n s t → s ≡ t
terminal_absorbs h Route.here = refl
terminal_absorbs h (Route.step {s} {t} e p) = absurd (terminal_no_edge s t h e)

-- From every state some path leads to a terminal state, within two steps.
pub terminal_reachable :
    (s : State) → (n : ℕ) × (t : State) × Route n s t × (includes terminal t ≡ true) × (n ≤ 2)
unfolding can_transition
terminal_reachable created = (1, failed, Route.step refl Route.here, refl, omega arith)
terminal_reachable quoted = (1, failed, Route.step refl Route.here, refl, omega arith)
terminal_reachable authorized = (1, failed, Route.step refl Route.here, refl, omega arith)
terminal_reachable reconciliation_required =
    (1, failed, Route.step refl Route.here, refl, omega arith)
terminal_reachable refund_required = (1, refunded, Route.step refl Route.here, refl, omega arith)
terminal_reachable fiat_settlement_pending =
    (1, completed, Route.step refl Route.here, refl, omega arith)
terminal_reachable conversion_pending = (
  2,
  completed,
  Route.step {t = fiat_settlement_pending} refl (Route.step refl Route.here),
  refl,
  omega arith,
)
terminal_reachable crypto_confirmed = (
  2,
  failed,
  Route.step {t = reconciliation_required} refl (Route.step refl Route.here),
  refl,
  omega arith,
)
terminal_reachable crypto_submitted = (
  2,
  failed,
  Route.step {t = reconciliation_required} refl (Route.step refl Route.here),
  refl,
  omega arith,
)
terminal_reachable completed = (0, completed, Route.here, refl, omega arith)
terminal_reachable expired = (0, expired, Route.here, refl, omega arith)
terminal_reachable failed = (0, failed, Route.here, refl, omega arith)
terminal_reachable refunded = (0, refunded, Route.here, refl, omega arith)
