-- ===== src/Engine/Changes/Legs.antt =====
-- The settlement and conversion legs of src/engine/service.ts, for every relation that the writes
-- respect.
use Prim.Native.Nat.{zero}
use qrib.Engine.Conversion.{record_conversion, run_conversion_leg, settle_remainder}
use qrib.Engine.Common.{the_intent}
use qrib.States.{
  completed, State, reconciliation_required, fiat_settlement_pending, refund_required,
}
use qrib.Engine.Providers.{Providers, ConversionReply, SettlementState}
use qrib.Common.{Text, ℤ, ℕ, Option, suc, none, some, refl}
use qrib.Engine.Config.{Config}
use qrib.Engine.Settlement.{
  complete_settlement, settlement_ref, on_status, poll_settlement, enter_settlement,
  begin_settlement,
}
use qrib.Engine.Changes.Writes.{
  Allows, Respects, Runs-known_intent, Runs-draw, Runs-latest_quote, Runs-file_leg, Runs-close_legs,
  Runs-the_intent, Runs-transition, Runs-file_conversion,
}
use qrib.Db.{
  Change, Runs, runs_rules, Runs-bind, Runs-gets, Runs-option_case, Runs-then, pure, ◌>>=◌,
  Runs-pure, Act, Runs-if, Runs-catch, Intent, Runs-raise, Runs-raise_if, Runs-or_raise,
}

module _ {c : Change} (a : Allows c) where
  pub Runs-complete_settlement :
      (id ref : Text) (fiat delivered : ℤ) → Runs c (complete_settlement id ref fiat delivered)
  unfolding complete_settlement
  Runs-complete_settlement id ref fiat delivered =
      search
        (
          runs_rules,
          Runs-known_intent,
          Runs-latest_quote,
          Runs-close_legs a,
          a.posts,
          a.moves id completed,
        )
        depth 12

  module _ (cfg : Config) (p : Providers) (r : Respects c p) where
    pub Runs-settlement_ref : (id : Text) (fiat : ℤ) → Runs c (settlement_ref cfg p id fiat)
    unfolding settlement_ref
    Runs-settlement_ref id fiat = Runs-bind _ _ (Runs-gets _) λ found.
        Runs-option_case _ _ _
          (Runs-then _ _ (a.logs_open id) (
            Runs-bind _ _ (r.create_payment id fiat) λ ref. Runs-bind _ _ (Runs-draw a) λ leg_id.
              Runs-then _ _ (Runs-file_leg a leg_id id p.payment.name fiat ref) (Runs-pure ref)))
          Runs-pure

    Runs-on_status :
        (id ref : Text) (fiat delivered : ℤ) (again : Act Intent)
        → Runs c again
        → (st : SettlementState) → Runs c (on_status cfg p id ref fiat delivered again st)
    unfolding on_status
    Runs-on_status id ref fiat delivered again k SettlementState.completed =
        Runs-complete_settlement id ref fiat delivered
    Runs-on_status id ref fiat delivered again k SettlementState.failed =
        Runs-transition a id refund_required _ refl
    Runs-on_status id ref fiat delivered again k SettlementState.pending = k

    Runs-poll_settlement :
        (n : ℕ) (id ref : Text) (fiat delivered : ℤ)
        → Runs c (poll_settlement cfg p n id ref fiat delivered)
    unfolding poll_settlement
    Runs-poll_settlement zero id ref fiat delivered = Runs-the_intent id
    Runs-poll_settlement (suc n) id ref fiat delivered =
        Runs-catch _ _ _ (r.get_payment ref)
          (Runs-on_status id ref fiat delivered _ (Runs-poll_settlement n id ref fiat delivered))
          (λ e. Runs-if _ _ _ (Runs-transition a id reconciliation_required _ refl) (Runs-raise e))

    Runs-enter_settlement : (id : Text) (s : State) → Runs c (enter_settlement cfg p id s)
    unfolding enter_settlement
    Runs-enter_settlement id s =
        Runs-if _ _ _
          (Runs-then _ _ (Runs-transition a id fiat_settlement_pending _ refl) (Runs-pure tt))
          (Runs-raise_if _ _)

    pub Runs-begin_settlement :
        (id : Text) (fiat delivered : ℤ) → Runs c (begin_settlement cfg p id fiat delivered)
    unfolding begin_settlement
    Runs-begin_settlement id fiat delivered = Runs-bind _ _ (Runs-known_intent id) λ cur.
        Runs-if _ _ _ (Runs-pure cur) (
          Runs-then _ _ (Runs-enter_settlement id cur.status) (
            Runs-bind _ _ (Runs-settlement_ref id fiat)
              λ ref. Runs-poll_settlement cfg.settle_polls id ref fiat delivered))

    -- The payment as it stands, with what a leg has delivered.
    Runs-report :
        (id : Text) (delivered : Option ℤ)
        → Runs {A = Intent × Option ℤ} c (the_intent id >>= λ intent. pure (intent, delivered))
    Runs-report id delivered = Runs-bind _ _ (Runs-the_intent id) (λ intent. Runs-pure _)

    Runs-record_conversion :
        (id : Text) (fiat usdc : ℤ) (reply : ConversionReply)
        → Runs c (record_conversion cfg p id fiat usdc reply)
    unfolding record_conversion
    Runs-record_conversion id fiat usdc reply = Runs-bind _ _ (Runs-draw a) λ leg_id.
        Runs-if _ _ _
          (Runs-then _ _ (Runs-file_conversion a leg_id id _ usdc _ _ _ _) (Runs-report id none))
          (Runs-bind _ _ (Runs-or_raise _ _) λ got. Runs-bind _ _ (Runs-or_raise _ _) λ rate.
            Runs-if _ _ _
              (Runs-then _ _ (Runs-file_conversion a leg_id id _ usdc _ _ _ _) (
                Runs-bind _ _ (Runs-transition a id reconciliation_required _ refl)
                  (λ intent. Runs-pure _)))
              (Runs-then _ _ (Runs-file_conversion a leg_id id _ usdc _ _ _ _)
                (Runs-report id (some got))))

    Runs-run_conversion_leg :
        (id : Text) (fiat usdc : ℤ) → Runs c (run_conversion_leg cfg p id fiat usdc)
    unfolding run_conversion_leg
    Runs-run_conversion_leg id fiat usdc = Runs-bind _ _ (Runs-gets _) λ existing.
        Runs-option_case _ _ _
          (Runs-option_case _ _ _
            (Runs-catch _ _ _ (Runs-then _ _ (a.logs_convert id) (r.execute id usdc fiat))
              (Runs-record_conversion id fiat usdc)
              (λ e.
                Runs-bind _ _ (Runs-transition a id reconciliation_required _ refl)
                  (λ intent. Runs-pure _)))
            (λ leg. Runs-report id none))
          (λ leg.
            Runs-bind _ _ (Runs-the_intent id)
              λ intent. Runs-bind _ _ (Runs-or_raise _ _) (λ got. Runs-pure _))

    pub Runs-settle_remainder :
        (id : Text) (fiat usdc : ℤ) → Runs c (settle_remainder cfg p id fiat usdc)
    unfolding settle_remainder
    Runs-settle_remainder id fiat usdc =
        Runs-bind _ _ (Runs-run_conversion_leg id fiat usdc)
          λ ran. Runs-option_case _ _ _ (Runs-pure _) (Runs-begin_settlement id fiat)
