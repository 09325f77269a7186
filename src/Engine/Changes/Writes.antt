-- ===== src/Engine/Changes/Writes.antt =====
-- The writes of src/engine/service.ts, and the relations on states that they respect.
use qrib.Ledger.{Entry, post_entries}
use qrib.Engine.Webhook.{record_event, mark_processed}
use qrib.Engine.Operator.{mark_task, update_leg, set_proof}
use qrib.Engine.Common.{draw, known_intent, the_intent, latest_quote, log_call}
use qrib.Engine.Funding.{record_chain_tx, sleep, set_tx_hash, has_hash}
use qrib.Engine.Conversion.{file_conversion}
use qrib.Engine.Settlement.{close_legs, file_leg}
use qrib.Store.{transition, get_intent, latest_attempts, Opts, transition_with}
use qrib.Engine.Providers.{Providers}
use qrib.Common.{
  Text, ◌≡◌, Bool, ℤ, ◌∙◌, Bool-cases, Option, false, true, any, List, inl, inr, refl,
}
use qrib.States.{State, created, quoted, authorized, expired, failed, refunded}
use qrib.Db.{
  World, Change, Runs, ChainTx, modify, Runs-bind, TaskStatus, Runs-gets, Runs-modify, LegStatus,
  Runs-then, OperatorResult, Runs-or_raise, Runs-transaction, Runs-pure, convert, open_settlement,
}

-- Payments, audit trail, quotes, books and calls are as before.
abbrev pub Untouched : World → World → Type 0
Untouched s t =
    (t.intents ≡ s.intents)
    × (t.attempts ≡ s.attempts)
    × (t.quotes ≡ s.quotes)
    × (t.ledger ≡ s.ledger)
    × (t.calls ≡ s.calls)

-- The states that `execute` and the operator's completions move a payment to.
abbrev pub is_target : State → Bool
is_target created = false
is_target quoted = false
is_target authorized = false
is_target expired = false
is_target failed = false
is_target refunded = false
is_target _ = true

-- A relation that the writes of the engine respect, all but a broadcast.
pub record Allows (c : Change) : Type 0 where
  pub untouched : (s t : World) → Untouched s t → c.rel s t
  pub moves :
      (id : Text) (to : State) (opts : Opts)
      → is_target to ≡ true
      → Runs c (transition_with id to opts)
  pub posts : (id : Text) (entries : List Entry) → Runs c (post_entries id entries)
  pub hashes : (id hash : Text) (s : World) → c.rel s (set_tx_hash id hash s)
  pub logs_convert : (id : Text) → Runs c (log_call (convert id))
  pub logs_open : (id : Text) → Runs c (log_call (open_settlement id))

-- What is relied on of the providers: their calls respect the relation.
pub record Respects (c : Change) (p : Providers) : Type 0 where
  pub execute : (id : Text) (usdc fiat : ℤ) → Runs c (p.off_ramp.execute id usdc fiat)
  pub create_payment : (id : Text) (fiat : ℤ) → Runs c (p.payment.create_payment id fiat)
  pub get_payment : (ref : Text) → Runs c (p.payment.get_payment ref)
  pub submit_payment : (id : Text) (usdc : ℤ) → Runs c (p.chain.submit_payment id usdc)
  pub confirmations : (hash : Text) → Runs c (p.chain.confirmations hash)

pub Untouched-trans : (s t u : World) → Untouched s t → Untouched t u → Untouched s u
Untouched-trans s t u h k = (k.0 ∙ h.0, k.1 ∙ h.1, k.2 ∙ h.2, k.3 ∙ h.3, k.4 ∙ h.4)

pub Untouched-refl : (s : World) → Untouched s s
Untouched-refl s = (refl, refl, refl, refl, refl)

-- The documented reach of a provider: the task queue, the clock and the draw of uuids.
abbrev pub outside : Change
outside = record { rel = Untouched; rel_refl = Untouched-refl; rel_trans = Untouched-trans }

module _ {c : Change} (a : Allows c) where
  pub Respects-outside : (p : Providers) → Respects outside p → Respects c p
  Respects-outside p r = record {
    execute = λ id usdc fiat. record { at = λ s. a.untouched s _ ((r.execute id usdc fiat).at s) };
    create_payment =
        λ id fiat. record { at = λ s. a.untouched s _ ((r.create_payment id fiat).at s) };
    get_payment = λ ref. record { at = λ s. a.untouched s _ ((r.get_payment ref).at s) };
    submit_payment =
        λ id usdc. record { at = λ s. a.untouched s _ ((r.submit_payment id usdc).at s) };
    confirmations = λ hash. record { at = λ s. a.untouched s _ ((r.confirmations hash).at s) };
  }

  pub Runs-transition :
      (id : Text) (to : State) (opts : Opts) → is_target to ≡ true → Runs c (transition id to opts)
  unfolding transition
  Runs-transition id to opts e = Runs-transaction _ (a.moves id to opts e)

  -- A write that leaves what `Untouched` names.
  pub Runs-write : (f : World → World) → ((s : World) → Untouched s (f s)) → Runs c (modify f)
  Runs-write f h = Runs-modify f (λ s. a.untouched s (f s) (h s))

  pub Runs-set_tx_hash : (id hash : Text) → Runs c (modify (set_tx_hash id hash))
  Runs-set_tx_hash id hash = Runs-modify _ (a.hashes id hash)

  pub Runs-close_legs : (ref : Text) → Runs c (modify (close_legs ref))
  unfolding close_legs
  Runs-close_legs ref = Runs-write _ Untouched-refl

  pub Runs-file_leg :
      (leg_id id provider : Text) (fiat : ℤ) (ref : Text)
      → Runs c (modify (file_leg leg_id id provider fiat ref))
  unfolding file_leg
  Runs-file_leg leg_id id provider fiat ref = Runs-write _ Untouched-refl

  pub Runs-file_conversion :
      (leg_id id provider : Text) (usdc : ℤ) (fiat rate : Option ℤ) (ref : Text)
      (status : LegStatus)
      → Runs c (modify (file_conversion leg_id id provider usdc fiat rate ref status))
  unfolding file_conversion
  Runs-file_conversion leg_id id provider usdc fiat rate ref status = Runs-write _ Untouched-refl

  record_chain_tx-Untouched : (t : ChainTx) (s : World) → Untouched s (record_chain_tx t s)
  unfolding record_chain_tx
  record_chain_tx-Untouched t s = elim (Bool-cases (any (has_hash t.tx_hash) s.chain_txs)) [
    | inl known ↦ rw known (Untouched-refl s)
    | inr new ↦ rw new (Untouched-refl s)
  ]

  pub Runs-record_chain_tx : (t : ChainTx) → Runs c (modify (record_chain_tx t))
  Runs-record_chain_tx t = Runs-write _ (record_chain_tx-Untouched t)

  pub Runs-draw : Runs c draw
  unfolding draw
  Runs-draw =
      Runs-bind _ _ (Runs-gets _) λ id. Runs-then _ _ (Runs-write _ Untouched-refl) (Runs-pure id)

  pub Runs-sleep : Runs c sleep
  unfolding sleep
  Runs-sleep = Runs-write _ Untouched-refl

  pub Runs-mark_task :
      (task_id : Text) (status : TaskStatus) (result : OperatorResult)
      → Runs c (modify (mark_task task_id status result))
  unfolding mark_task
  Runs-mark_task task_id status result = Runs-write _ Untouched-refl

  pub Runs-update_leg :
      (leg_id : Text) (actual rate : ℤ) (ref : Option Text) (status : LegStatus)
      → Runs c (modify (update_leg leg_id actual rate ref status))
  unfolding update_leg
  Runs-update_leg leg_id actual rate ref status = Runs-write _ Untouched-refl

  pub Runs-set_proof :
      (leg_id : Text) (proof : Option Text) → Runs c (modify (set_proof leg_id proof))
  unfolding set_proof
  Runs-set_proof leg_id proof = Runs-write _ Untouched-refl

  pub Runs-record_event :
      (provider event_id : Text) → Runs c (modify (record_event provider event_id))
  unfolding record_event
  Runs-record_event provider event_id = Runs-write _ Untouched-refl

  pub Runs-mark_processed :
      (provider event_id : Text) → Runs c (modify (mark_processed provider event_id))
  unfolding mark_processed
  Runs-mark_processed provider event_id = Runs-write _ Untouched-refl

-- The reads that the functions share.
module _ {c : Change} where
  pub Runs-get_intent : (id : Text) → Runs c (get_intent id)
  unfolding get_intent
  Runs-get_intent id = Runs-gets _

  pub Runs-known_intent : (id : Text) → Runs c (known_intent id)
  unfolding known_intent
  Runs-known_intent id = Runs-bind _ _ (Runs-gets _) (λ i. Runs-or_raise i _)

  pub Runs-the_intent : (id : Text) → Runs c (the_intent id)
  unfolding the_intent
  Runs-the_intent id = Runs-bind _ _ (Runs-gets _) (λ i. Runs-or_raise i _)

  pub Runs-latest_quote : (id : Text) → Runs c (latest_quote id)
  unfolding latest_quote
  Runs-latest_quote id = Runs-bind _ _ (Runs-gets _) (λ rows. Runs-or_raise _ _)

  pub Runs-latest_attempts : (id : Text) → Runs c (latest_attempts id)
  unfolding latest_attempts
  Runs-latest_attempts id = Runs-gets _
