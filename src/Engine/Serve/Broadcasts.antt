-- ===== src/Engine/Serve/Broadcasts.antt =====
-- The broadcasts of funding transactions that `execute` makes.
use qrib.Engine.Changes.Steps.{Runs-execute_from, Runs-after_broadcast}
use qrib.Engine.Execute.{execute_from, execute}
use qrib.Engine.Providers.{Providers}
use qrib.Engine.Config.{Config}
use mathlib.Core.List.{[]}
use qrib.Ledger.Balance.{post_entries-frame}
use qrib.Store.Transition.{transition_with-cases}
use qrib.Ledger.{Entry, post_entries}
use qrib.States.{State, authorized, crypto_submitted, reconciliation_required}
use qrib.Engine.Changes.Writes.{
  Allows, Respects, outside, Respects-outside, Runs-latest_quote, Runs-transition, Runs-set_tx_hash,
  Runs-known_intent,
}
use qrib.Engine.Common.{log_call}
use qrib.Engine.Funding.{set_tx_hash, execute_fresh, funding_tail}
use qrib.Store.{advance, Opts, transition_with}
use qrib.Db.{
  Change, World, Call, Intent, Runs, convert, open_settlement, Act, Runs-modify, broadcast, Result,
  ◌>>=◌, ◌>>◌, catch, continue, Fault, handle, ok, err, Runs-then, Runs-pure,
}
use qrib.Common.{
  Text, List, ◌≡◌, ℕ, Bool, ◌++◌, ◌∙◌, ap, ◌∷◌, refl, if◌then◌else◌, ◌+◌, ◌≤◌, text_eq, arith,
  false, inl, inr, ℤ,
}

abbrev is_broadcast_of : Text → Call → Bool
is_broadcast_of id (broadcast other usdc) = text_eq other id
is_broadcast_of id (convert other) = false
is_broadcast_of id (open_settlement other) = false

-- How often a funding transaction of the payment was broadcast.
abbrev pub broadcasts : Text → List Call → ℕ
broadcasts id [] = 0
broadcasts id (c ∷ rest) = (if is_broadcast_of id c then 1 else 0) + broadcasts id rest

pub broadcasts-append :
    (id : Text) (xs ys : List Call) → broadcasts id (xs ++ ys) ≡ broadcasts id xs + broadcasts id ys
broadcasts-append id [] ys = omega arith
broadcasts-append id (c ∷ rest) ys = omega (arith, broadcasts-append id rest ys)

-- No payment has been broadcast again.
abbrev pub quiet : Change
quiet = record {
  rel = λ s t. (id : Text) → broadcasts id t.calls ≡ broadcasts id s.calls;
  rel_refl = λ s id. refl;
  rel_trans = λ s t u f g id. g id ∙ f id;
}

pub same_calls :
    (s t : World) → t.calls ≡ s.calls → (id : Text) → broadcasts id t.calls ≡ broadcasts id s.calls
same_calls s t e id = ap (broadcasts id) e

pub advance-calls :
    (id : Text) (i : Intent) (to : State) (opts : Opts) (w : World)
    → (advance id i to opts w).calls ≡ w.calls
unfolding advance
advance-calls id i to opts w = refl

pub transition_with-quiet :
    (id : Text) (to : State) (opts : Opts) → Runs quiet (transition_with id to opts)
transition_with-quiet id to opts = record {
  at = λ w. elim (transition_with-cases id to opts w) [
    | inl same ↦ rw same (λ k. refl)
    | inr (intent, found, edge, e) ↦
        rw e (same_calls w (advance id intent to opts w) (advance-calls id intent to opts w))
  ];
}

pub post_entries-quiet : (id : Text) (entries : List Entry) → Runs quiet (post_entries id entries)
post_entries-quiet id entries = record {
  at = λ w. same_calls w (post_entries id entries w).1 ((post_entries-frame id entries w).2);
}

pub set_tx_hash-quiet :
    (id hash : Text) (s : World) (k : Text)
    → broadcasts k (set_tx_hash id hash s).calls ≡ broadcasts k s.calls
unfolding set_tx_hash
set_tx_hash-quiet id hash s k = refl

pub log_convert-quiet : (id : Text) → Runs quiet (log_call (convert id))
unfolding log_call
log_convert-quiet id =
    Runs-modify _ (λ s k. omega (arith, broadcasts-append k s.calls (convert id ∷ [])))

pub log_open-quiet : (id : Text) → Runs quiet (log_call (open_settlement id))
unfolding log_call
log_open-quiet id =
    Runs-modify _ (λ s k. omega (arith, broadcasts-append k s.calls (open_settlement id ∷ [])))

abbrev pub quiet_engine : Allows quiet
quiet_engine = record {
  untouched = λ s t u. same_calls s t u.4;
  moves = λ id to opts _. transition_with-quiet id to opts;
  posts = post_entries-quiet;
  hashes = set_tx_hash-quiet;
  logs_convert = log_convert-quiet;
  logs_open = log_open-quiet;
}

-- At most `n` broadcasts are made of any payment.
pub record Adds {ℓ} {A : Type ℓ} (n : ℕ) (m : Act A) : Type ℓ where
  pub at : (s : World) (id : Text) → broadcasts id (m s).1.calls ≤ broadcasts id s.calls + n

Adds-quiet {ℓ} : {A : Type ℓ} (n : ℕ) (m : Act A) → Runs quiet m → Adds n m
Adds-quiet n m k = record { at = λ s id. omega (arith, k.at s id) }

module _ {ℓ κ} {A : Type ℓ} {B : Type κ} (n : ℕ) where
  continue-calls :
      (r : Result A) (f : A → Act B)
      → ((a : A) → Adds n (f a))
      → (s : World) (id : Text) → broadcasts id (continue r f s).1.calls ≤ broadcasts id s.calls + n
  continue-calls (ok a) f k s id = (k a).at s id
  continue-calls (err e) f k s id = omega arith

  Adds-bind :
      (m : Act A) (f : A → Act B) → Runs quiet m → ((a : A) → Adds n (f a)) → Adds n (m >>= f)
  unfolding ◌>>=◌
  Adds-bind m f km kf = record {
    at = λ s id. omega (arith, km.at s id, continue-calls (m s).0 f kf (m s).1 id);
  }

  Adds-then : (m : Act A) (k : Act B) → Runs quiet m → Adds n k → Adds n (m >> k)
  unfolding ◌>>◌
  Adds-then m k km kk = Adds-bind m (λ _. k) km (λ _. kk)

  continue-quiet :
      (r : Result A) (f : A → Act B)
      → ((a : A) → Runs quiet (f a))
      → (s : World) (id : Text) → broadcasts id (continue r f s).1.calls ≡ broadcasts id s.calls
  continue-quiet (ok a) f k s id = (k a).at s id
  continue-quiet (err e) f k s id = refl

  Adds-then_quiet : (m : Act A) (k : Act B) → Adds n m → Runs quiet k → Adds n (m >> k)
  unfolding ◌>>◌
  Adds-then_quiet m k km kk = record {
    at = λ s id. omega (arith, km.at s id, continue-quiet (m s).0 (λ _. k) (λ _. kk) (m s).1 id);
  }

  caught-quiet :
      (r : Result A) (f : A → Act B) (g : Fault → Act B)
      → ((a : A) → Runs quiet (f a))
      → ((e : Fault) → Runs quiet (g e))
      → (s : World) (id : Text) → broadcasts id (handle r f g s).1.calls ≡ broadcasts id s.calls
  caught-quiet (ok a) f g kf kg s id = (kf a).at s id
  caught-quiet (err e) f g kf kg s id = (kg e).at s id

  Adds-catch :
      (m : Act A) (f : A → Act B) (g : Fault → Act B)
      → Adds n m
      → ((a : A) → Runs quiet (f a))
      → ((e : Fault) → Runs quiet (g e))
      → Adds n (catch m f g)
  unfolding catch
  Adds-catch m f g km kf kg = record {
    at = λ s id. omega (arith, km.at s id, caught-quiet (m s).0 f g kf kg (m s).1 id);
  }

one_broadcast-le : (k id : Text) (usdc : ℤ) → broadcasts k (broadcast id usdc ∷ []) ≤ 1
one_broadcast-le k id usdc = ground arith

Adds-broadcast : (id : Text) (usdc : ℤ) → Adds 1 (log_call (broadcast id usdc))
unfolding log_call ◌>>◌
Adds-broadcast id usdc = record {
  at = λ s k.
      omega
        (arith, broadcasts-append k s.calls (broadcast id usdc ∷ []), one_broadcast-le k id usdc);
}

module _ (cfg : Config) (p : Providers) (r : Respects outside p) where
  abbrev pub quiet_providers : Respects quiet p
  quiet_providers = Respects-outside quiet_engine p r

  Adds-execute_fresh : (id : Text) → Adds 1 (execute_fresh cfg p id)
  unfolding execute_fresh funding_tail
  Adds-execute_fresh id = Adds-bind 1 _ _ (Runs-latest_quote id) λ q.
      Adds-then 1 _ _ (Runs-transition quiet_engine id crypto_submitted _ refl) (
        Adds-catch 1 _ _ _
          (Adds-then_quiet 1 _ _ (Adds-broadcast id q.crypto_amount)
            (quiet_providers.submit_payment id q.crypto_amount))
          (λ hash.
            Runs-then _ _ (Runs-set_tx_hash quiet_engine id hash)
              (Runs-after_broadcast quiet_engine cfg p quiet_providers id hash _ (Runs-pure q)))
          (λ e. Runs-transition quiet_engine id reconciliation_required _ refl))

  Adds-execute_from :
      (status : State) (id : Text) (intent : Intent) → Adds 1 (execute_from cfg p status id intent)
  unfolding execute_from
  Adds-execute_from authorized id intent = Adds-execute_fresh id
  Adds-execute_from status id intent =
      Adds-quiet 1 _
        (Runs-execute_from quiet_engine cfg p quiet_providers status id intent (λ e. cc))

  -- One call of `execute` makes at most one broadcast.
  pub Adds-execute : (id : Text) → Adds 1 (execute cfg p id)
  unfolding execute
  Adds-execute id =
      Adds-bind 1 _ _ (Runs-known_intent id) λ intent. Adds-execute_from intent.status id intent
