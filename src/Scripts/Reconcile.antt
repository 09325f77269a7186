-- ===== src/Scripts/Reconcile.antt =====
-- scripts/reconcile.ts: the runbook, whose exit code the scheduler reads.
use qrib.Engine.Common.{truthy, is_text}
use qrib.Db.{Act, catch, ◌>>=◌, gets, pure, World, ok}
use qrib.Engine.Reconcile.{
  reconcile_payment, reconcile_all, alert_if_needed, Report, Issue, issues_quiet,
}
use qrib.Engine.Reconcile.Sound.{IsSound, reconcile_payment-IsSound_iff}
use qrib.Common.{
  codes, if◌then◌else◌, ◌≡◌, ◌∷◌, ◌&&◌, arith, text_eq, not, refl, or_else, some, Option, List, ℕ,
  Text, Bool, true, false, [], ◌⊎◌, ◌≢◌, inl, inr, subst,
}

module _ (post : Text → Report → Act Bool) (alert_url : Option Text) (now : ℕ) where
  abbrev pub exit_for : List Issue → ℕ
  exit_for [] = 0
  exit_for (issue ∷ rest) = 1

  -- One payment.
  unfoldable pub reconcile_one : Text → Act ℕ
  reconcile_one id = do issues ← gets (reconcile_payment id now); pure (exit_for issues)

  abbrev exit_of_report : Report → Act ℕ
  exit_of_report r =
      if issues_quiet r then pure 0 else do alerted ← alert_if_needed post alert_url r; pure 1

  unfoldable pub reconcile_every : Act ℕ
  reconcile_every = do r ← reconcile_all now; exit_of_report r

  -- `main`, and the exit code 2 where it throws.
  unfoldable pub reconcile_main : Option Text → Act ℕ
  reconcile_main arg =
      catch
        (if truthy arg && not (is_text (codes "--all") arg)
          then reconcile_one (or_else arg [])
          else reconcile_every)
        pure (λ e. pure 2)

  issues_cases :
      (issues : List Issue)
      → ((issues ≡ []) × (exit_for issues ≡ 0)) ⊎ ((issues ≢ []) × (exit_for issues ≡ 1))
  issues_cases [] = inl (refl, refl)
  issues_cases (issue ∷ rest) = inr (λ e. absurd (ground (arith, e)), refl)

  exits_for :
      (id : Text) (w : World)
      → truthy (some id) ≡ true
      → text_eq id (codes "--all") ≡ false
      → reconcile_main (some id) w ≡ (ok (exit_for (reconcile_payment id now w)), w)
  unfolding reconcile_main catch reconcile_one ◌>>=◌
  exits_for id w named single = rw (named, single) refl

  abbrev Exits : Text → World → ℕ → Type 0
  Exits id w n = reconcile_main (some id) w ≡ (ok n, w)

  pub reconcile_main-IsSound :
      (id : Text) (w : World)
      → truthy (some id) ≡ true
      → text_eq id (codes "--all") ≡ false
      → (IsSound id now w × (reconcile_main (some id) w ≡ (ok 0, w)))
        ⊎ (¬ IsSound id now w × (reconcile_main (some id) w ≡ (ok 1, w)))
  reconcile_main-IsSound id w named single =
      let sound = reconcile_payment-IsSound_iff id now w in
      elim (issues_cases (reconcile_payment id now w)) [
        | inl (none_found, code) ↦
            inl (sound.0 none_found, subst (Exits id w) code (exits_for id w named single))
        | inr (some_found, code) ↦
            inr (λ h. some_found (sound.1 h), subst (Exits id w) code (exits_for id w named single))
      ]
