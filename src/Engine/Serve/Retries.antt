-- ===== src/Engine/Serve/Retries.antt =====
-- Requests on one payment again and again: double taps of `execute`, retries, resumes, webhooks
-- and operator tasks of src/engine/service.ts.
use qrib.Engine.Changes.Steps.{Runs-execute_from, Runs-funding_tail}
use qrib.Engine.Funding.{execute_fresh, funding_tail}
use qrib.Engine.Execute.{execute_from, execute}
use qrib.Engine.Providers.{Providers}
use qrib.Engine.Config.{Config}
use qrib.Engine.Common.{log_call, because}
use qrib.Store.Transition.{Settles, transition-Settles}
use qrib.Engine.Serve.Broadcasts.{
  broadcasts, quiet, quiet_engine, transition_with-quiet, broadcasts-append,
}
use qrib.Store.{Opts, transition_with, transition}
use qrib.Engine.Serve.Spent.{
  IsSpent, spent_engine, spent, is_waiting, transition_with-spent, log_call-spent,
  transition_with_other-spent,
}
use qrib.States.{State, crypto_submitted, authorized}
use qrib.Engine.Changes.Writes.{
  Allows, Respects, outside, Respects-outside, Runs-latest_quote, Runs-known_intent,
  Runs-transition,
}
use qrib.Db.{
  World, Change, Act, Runs, Result, ◌>>=◌, Intent, ◌>>◌, continue, ok, Call, broadcast, err,
  Runs-modify, QuoteRow, Runs-bind, funding_broadcast, Runs-then,
}
use qrib.Common.{
  Text, inl, inr, ◌∙◌, ◌≡◌, ◌⊎◌, false, refl, ap, ℤ, sym, List, text_eq, ◌++◌, ◌∷◌, [], arith,
  Bool-cases, text_eq_sound,
}

module _ (id : Text) where
  -- A payment past AUTHORIZED stays there, and one that is broadcast is past AUTHORIZED after.
  abbrev pub Guarded : World → World → Type 0
  Guarded s t =
      (IsSpent id s → IsSpent id t)
      × ((broadcasts id t.calls ≡ broadcasts id s.calls) ⊎ IsSpent id t)

  pub Guarded-trans : (s t u : World) → Guarded s t → Guarded t u → Guarded s u
  Guarded-trans s t u (f, inr past) (g, e) = (λ h. g (f h), inr (g past))
  Guarded-trans s t u (f, inl e) (g, inr past) = (λ h. g (f h), inr past)
  Guarded-trans s t u (f, inl e) (g, inl e') = (λ h. g (f h), inl (e' ∙ e))

  abbrev pub guarded : Change
  guarded = record { rel = Guarded; rel_refl = λ s. (λ h. h, inl refl); rel_trans = Guarded-trans }

  -- What preserves both relations is guarded.
  Runs-both {ℓ} : {A : Type ℓ} (m : Act A) → Runs (spent id) m → Runs quiet m → Runs guarded m
  Runs-both m k q = record { at = λ s. (k.at s, inl (q.at s id)) }

  pub guarded_engine : Allows guarded
  guarded_engine = record {
    untouched = λ s t u. ((spent_engine id).untouched s t u, inl (quiet_engine.untouched s t u id));
    moves = λ other to opts e.
        Runs-both _ ((spent_engine id).moves other to opts e) (quiet_engine.moves other to opts e);
    posts =
        λ other es. Runs-both _ ((spent_engine id).posts other es) (quiet_engine.posts other es);
    hashes = λ other hash s.
        ((spent_engine id).hashes other hash s, inl (quiet_engine.hashes other hash s id));
    logs_convert = λ other.
        Runs-both _ ((spent_engine id).logs_convert other) (quiet_engine.logs_convert other);
    logs_open =
        λ other. Runs-both _ ((spent_engine id).logs_open other) (quiet_engine.logs_open other);
  }

  -- A move past AUTHORIZED.
  pub guarded_move :
      (other : Text) (to : State) (opts : Opts)
      → is_waiting to ≡ false
      → Runs guarded (transition_with other to opts)
  guarded_move other to opts e =
      Runs-both _ (transition_with-spent id other to opts e) (transition_with-quiet other to opts)

  -- Any move of another payment.
  pub guarded_other :
      (other : Text) (to : State) (opts : Opts)
      → text_eq other id ≡ false
      → Runs guarded (transition_with other to opts)
  guarded_other other to opts apart =
      Runs-both _ (transition_with_other-spent id other to opts apart)
        (transition_with-quiet other to opts)

  -- The transition to CRYPTO_SUBMITTED returns with the payment past AUTHORIZED, or has thrown and
  -- changed nothing.
  continue-Guarded {ℓ} :
      {A : Type ℓ} (k : Act A) (to : State) (opts : Opts) (s : World) (out : Result Intent × World)
      → Runs (spent id) k
      → is_waiting to ≡ false
      → Settles id to opts s out
      → Guarded s (continue out.0 (λ _. k) out.1).1
  continue-Guarded k to opts s (ok i, t) kk past (found, at, _, _) =
      let h : IsSpent id t = λ j e.
        (let same : i ≡ j = cc in
          ap (λ (x : Intent). is_waiting x.status) (sym same) ∙ ap is_waiting at ∙ past) in
      (λ _. kk.at t h, inr (kk.at t h))
  continue-Guarded k to opts s (err e, t) kk past same = rw same (λ h. h, inl refl)

  guarded_then {ℓ} :
      {A : Type ℓ} (k : Act A) (to : State) (opts : Opts)
      → Runs (spent id) k
      → is_waiting to ≡ false
      → Runs guarded (transition id to opts >> k)
  unfolding ◌>>=◌ ◌>>◌
  guarded_then k to opts kk past = record {
    at = λ s.
        continue-Guarded k to opts s (transition id to opts s) kk past
          (transition-Settles id to opts s);
  }

  pub other_broadcast-quiet :
      (other : Text) (usdc : ℤ) (calls : List Call)
      → text_eq other id ≡ false
      → broadcasts id (calls ++ broadcast other usdc ∷ []) ≡ broadcasts id calls
  other_broadcast-quiet other usdc calls apart =
      let tail : broadcasts id (broadcast other usdc ∷ []) ≡ 0 = rw apart refl in
      omega (arith, broadcasts-append id calls (broadcast other usdc ∷ []), tail)

  Runs-other_broadcast :
      (other : Text) (usdc : ℤ)
      → text_eq other id ≡ false
      → Runs guarded (log_call (broadcast other usdc))
  unfolding log_call
  Runs-other_broadcast other usdc apart =
      Runs-modify _ (λ s. (λ h. h, inl (other_broadcast-quiet other usdc s.calls apart)))

  module _ (cfg : Config) (p : Providers) (r : Respects outside p) where
    pub guarded_providers : Respects guarded p
    guarded_providers = Respects-outside guarded_engine p r

    spent_providers : Respects (spent id) p
    spent_providers = Respects-outside (spent_engine id) p r

    guarded_tail :
        (other : Text) (q : QuoteRow)
        → Runs guarded (
            transition other crypto_submitted (because funding_broadcast)
            >> funding_tail cfg p other q)
    guarded_tail other q = elim (Bool-cases (text_eq other id)) [
      | inl same ↦ rw (text_eq_sound other id same) (
          guarded_then _ crypto_submitted _
            (Runs-funding_tail (spent_engine id) cfg p spent_providers id q
              (log_call-spent id (broadcast id q.crypto_amount)))
            refl)
      | inr apart ↦ Runs-then _ _ (Runs-transition guarded_engine other crypto_submitted _ refl) (
          Runs-funding_tail guarded_engine cfg p guarded_providers other q
            (Runs-other_broadcast other q.crypto_amount apart))
    ]

    guarded_execute_from :
        (status : State) (other : Text) (intent : Intent)
        → Runs guarded (execute_from cfg p status other intent)
    unfolding execute_from execute_fresh
    guarded_execute_from authorized other intent =
        Runs-bind _ _ (Runs-latest_quote other) λ q. guarded_tail other q
    guarded_execute_from status other intent =
        Runs-execute_from guarded_engine cfg p guarded_providers status other intent (λ e. cc)

    pub guarded_execute : (other : Text) → Runs guarded (execute cfg p other)
    unfolding execute
    guarded_execute other =
        Runs-bind _ _ (Runs-known_intent other)
          λ intent. guarded_execute_from intent.status other intent
