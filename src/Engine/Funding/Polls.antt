-- ===== src/Engine/Funding/Polls.antt =====
-- `waitConfirmations` of src/engine/service.ts ends, and what it returns.
use qrib.Engine.Funding.{wait_confirmations, poll_ms, sleep, poll_confirmations, confirm_round}
use qrib.Engine.Config.{Config}
use qrib.Engine.Providers.{Providers}
use qrib.Common.{
  ◌+◌, ◌*◌, ◌<◌, ◌≤◌, ◌/◌, suc, if◌then◌else◌, Option, some, Text, ◌≡◌, ◌⊎◌, arith, leb, inl, subst,
  inr, ltb, none, Bool-cases,
}
use qrib.Db.{ok, err, ◌>>◌, ◌>>=◌, World, Result, Act, continue, pure, gets}
use Prim.Native.Nat.{zero, ℕ}

-- What a poll of the chain may be relied on: it answers, and no time is taken back.
abbrev Answered : World → Result ℕ × World → Type 0
Answered w (ok n, w') = w.now ≤ w'.now
Answered w (err e, w') = ⊥

-- What `waitConfirmations` returns: a number that is enough, or null at a time past the deadline.
abbrev pub Polled : ℕ → ℕ → Result (Option ℕ) × World → Type 0
Polled required deadline (ok (some n), w') = required ≤ n
Polled required deadline (ok none, w') = deadline < w'.now
Polled required deadline (err e, w') = ⊥

-- The gateway's contract for one hash.
abbrev pub Answers : Providers → Text → Type 0
Answers p hash = (w : World) → Answered w (p.chain.confirmations hash w)

module _ (cfg : Config) (p : Providers) (hash : Text) (deadline : ℕ) where
  abbrev Done : Result (Option ℕ) × World → Type 0
  Done = Polled cfg.required_confirmations deadline

  abbrev slept : World → World
  slept w = record w { now = w.now + poll_ms }

  after_poll :
      (n : ℕ) (w : World) (again : Act (Option ℕ))
      → (deadline < w.now) ⊎ Done (again (slept w))
      → Done (
          (if leb cfg.required_confirmations n
              then pure (some n)
              else if ltb deadline w.now
              then pure none
              else sleep >> again)
            w)
  unfolding sleep ◌>>◌
  after_poll n w again h = elim (Bool-cases (leb cfg.required_confirmations n)) [
    | inl enough ↦ rw enough (ground (arith, enough))
    | inr short ↦ elim (Bool-cases (ltb deadline w.now)) [
      | inl late ↦ rw (short, late) (ground (arith, late))
      | inr early ↦
          rw (short, early)
            (elim h [ inl late ↦ absurd (ground (arith, early, late)) | inr done ↦ done ])
    ]
  ]

  one_round :
      (out : Result ℕ × World) (w : World) (again : Act (Option ℕ))
      → Answered w out
      → ((w1 : World) → w.now ≤ w1.now → (deadline < w1.now) ⊎ Done (again (slept w1)))
      → Done (
          continue out.0
            (λ n. do
              now ← gets (λ w. w.now)
              if leb cfg.required_confirmations n
                  then pure (some n)
                  else if ltb deadline now
                  then pure none
                  else sleep >> again)
            out.1)
  unfolding ◌>>=◌
  one_round (ok n, w1) w again later h = after_poll n w1 again (h w1 later)
  one_round (err e, w1) w again later h = absurd later

  poll_confirmations-Done :
      (n : ℕ) (w : World)
      → Answers p hash
      → deadline < w.now + n * poll_ms
      → Done (poll_confirmations cfg p (suc n) hash deadline w)
  unfolding poll_confirmations confirm_round ◌>>=◌
  poll_confirmations-Done zero w answers h =
      one_round (p.chain.confirmations hash w) w _ (answers w)
        (λ w1 later. inl (omega (arith, h, later)))
  poll_confirmations-Done (suc n) w answers h =
      one_round (p.chain.confirmations hash w) w _ (answers w)
        (λ w1 later. inr (poll_confirmations-Done n (slept w1) answers (omega (arith, h, later))))

-- Where the gateway answers each poll of the hash and the clock does not turn back,
-- `waitConfirmations` returns: a number of confirmations that is enough, or null once the deadline
-- has passed.
pub wait_confirmations_returns :
    (cfg : Config) (p : Providers) (hash : Text) (w : World)
    → Answers p hash
    → Polled cfg.required_confirmations
        (w.now + cfg.confirm_timeout_sec * 1000)
        (wait_confirmations cfg p hash w)
unfolding wait_confirmations ◌>>=◌
wait_confirmations_returns cfg p hash w answers =
    let t = cfg.confirm_timeout_sec in
    let deadline = w.now + t * 1000 in
    let fuel_eq : suc (t / 2 + 1) ≡ t / 2 + 2 = omega arith in
    subst
      (λ (fuel : ℕ).
        Polled cfg.required_confirmations deadline (poll_confirmations cfg p fuel hash deadline w))
      (fuel_eq) (poll_confirmations-Done cfg p hash deadline (t / 2 + 1) w answers (omega arith))
