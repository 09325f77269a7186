-- ===== src/Api/Once.antt =====
-- Calls of the routes of src/api, and the broadcasts they make of one payment.
pub mod Keeps
pub mod Trusted
use qrib.Engine.Serve.Once.{one_more, one_spent}
use qrib.Api.Once.Keeps.{Kept, kept, kept_quote, Untouched-Kept, request-Kept, IsKnown}
use qrib.Api.Once.Trusted.{IsTrusted, effect_of-IsTrusted, idle, asked, quoted_by}
use qrib.Api.Callbacks.{no_event_fields, read_event}
use qrib.Api.Payments.{no_quote_fields, bigint_or_null, quote_input}
use qrib.Api.Answers.{fields_of, fields_or}
use qrib.Api.Operator.{reason_of, read_report, exit_of, refund_hash, reference_in, cost_of, cost_in}
use qrib.Engine.Common.{is_text, truthy}
use Option.{none}
use qrib.Api.Refines.{answer_call-refines}
use qrib.Api.Changes.Handlers.{faulty-Respects}
use qrib.Api.Books.{Trusts}
use qrib.Engine.Quote.Changes.{AllowsQuote, create_quote-rel}
use qrib.Engine.Serve.Reach.{serve-Reaches}
use qrib.Store.Transition.{transition_with-cases, find_intent-advance, find_intent-advance_other}
use qrib.Engine.Serve.Spent.{is_waiting, IsSpent}
use qrib.Engine.Serve.Broadcasts.{
  broadcasts, same_calls, advance-calls, quiet, transition_with-quiet,
}
use qrib.Engine.Providers.{Providers}
use qrib.Engine.Config.{Config}
use qrib.Engine.Changes.Writes.{Untouched, Respects, outside, Allows}
use qrib.Engine.Serve.Retries.{Guarded, Guarded-trans}
use qrib.Api.Idempotency.{Endpoint, Site}
use qrib.Store.{Opts, find_intent, transition_with, has_id, advance, moved}
use qrib.States.{State, can_transition, quoted, state_eq}
use qrib.Engine.Quote.{insert_intent, insert_quote, QuoteInput, Quote, create_quote}
use qrib.Engine.Serve.{serve, Request, serve_one, after}
use qrib.Db.{World, Change, Intent, Runs}
use qrib.Api.Server.{
  Server, HttpCall, OperatorAction, answer_call, list_tasks_by, post_quote, show_task,
  post_authorize, resolve_payment, post_execute, post_cancel, post_refund, refund_payment,
  get_payment, post_webhook, post_qris, internal, get_payments, answer_calls,
}
use qrib.Common.{
  inl, ◌≡◌, ap, first, first-append, refl, ◌∙◌, arith, inr, sym, ◌∷◌, some, Option, Text, Bool,
  true, false, [], Bool-cases, text_eq, text_eq_sound, subst, ◌≤◌, ◌+◌, if◌then◌else◌, not, codes,
  List, any, neither,
}
use mathlib.Core.Option
use qrib.Engine.Serve.Guards.{is_retry, Guarded-one}
use qrib.Api.Effects.{
  perform, effect_of, is_admitted, any_providers, Effect, effect_case, action_effect,
}

insert_intent-quiet :
    (cfg : Config) (new : Text) (merchant : Option Text) (input : QuoteInput) (s : World)
    (id : Text)
    → broadcasts id (insert_intent cfg new merchant input s).calls ≡ broadcasts id s.calls
unfolding insert_intent
insert_intent-quiet cfg new merchant input s id = refl

insert_quote-quiet :
    (cfg : Config) (q : Quote) (s : World) (id : Text)
    → broadcasts id (insert_quote cfg q s).calls ≡ broadcasts id s.calls
unfolding insert_quote
insert_quote-quiet cfg q s id = refl

-- A human sends the payment back to AUTHORIZED.
abbrev pub retries_it : Text → Effect → Bool
retries_it id (Effect.asks p req) = is_retry id req
retries_it id _ = false

abbrev pub is_retry_call : Server → Text → Endpoint × HttpCall → Bool
is_retry_call server id c = retries_it id (effect_of server c.1)

module _ (server : Server) (t : Trusts server) (id : Text) where
  perform-Kept :
      (f : Effect) (w : World)
      → IsTrusted f
      → retries_it id f ≡ false
      → Kept id w (perform server.cfg f w)
  perform-Kept f w idle e = (kept id).rel_refl w
  perform-Kept f w (asked p req r) e = request-Kept id server.cfg p req w r e
  perform-Kept f w (quoted_by p input r) e =
      (create_quote-rel (kept_quote id) server.cfg p.off_ramp input
          (record { at = λ s. Untouched-Kept id s (p.off_ramp.ref_rate6 s).1 (r.at s) })).at
        w

  effect_if-Kept :
      (b : Bool) (f : Effect) (w : World)
      → IsTrusted f
      → retries_it id f ≡ false
      → Kept id w (if b then perform server.cfg f w else w)
  effect_if-Kept true f w h e = perform-Kept f w h e
  effect_if-Kept false f w h e = (kept id).rel_refl w

  answer_call-Kept :
      (c : Endpoint × HttpCall) (s : Site)
      → is_retry_call server id c ≡ false
      → Kept id s.world (answer_call server c.0 c.1 s).1.world
  answer_call-Kept (e, call) s steady = rw (answer_call-refines server e call s) (
      effect_if-Kept (is_admitted server e call s) (effect_of server call) s.world
        (effect_of-IsTrusted server t call) steady)

  -- A new quote broadcasts nothing.
  quiet_quote : AllowsQuote quiet
  quiet_quote = record {
    untouched = λ s v u. same_calls s v u.4;
    intents = insert_intent-quiet;
    quotes = insert_quote-quiet;
    moves = λ other opts. transition_with-quiet other quoted opts;
  }

  -- At most one broadcast more, and none of a payment that is spent.
  abbrev AddsOne : World → World → Type 0
  AddsOne w v =
      (broadcasts id v.calls ≤ broadcasts id w.calls + 1)
      × (IsSpent id w → broadcasts id v.calls ≡ broadcasts id w.calls)

  same_count-AddsOne : (w v : World) → broadcasts id v.calls ≡ broadcasts id w.calls → AddsOne w v
  same_count-AddsOne w v e = (omega (arith, e), λ h. e)

  perform-AddsOne : (f : Effect) (w : World) → IsTrusted f → AddsOne w (perform server.cfg f w)
  perform-AddsOne f w idle = same_count-AddsOne w w refl
  perform-AddsOne f w (asked p req r) =
      (one_more id server.cfg p r req w, one_spent id server.cfg p r req w)
  perform-AddsOne f w (quoted_by p input r) =
      same_count-AddsOne w (after (create_quote server.cfg p.off_ramp input) w) (
        (create_quote-rel quiet_quote server.cfg p.off_ramp input
            (record { at = λ s. same_calls s (p.off_ramp.ref_rate6 s).1 (r.at s).4 })).at
          w id)

  effect_if-AddsOne :
      (b : Bool) (f : Effect) (w : World)
      → IsTrusted f
      → AddsOne w (if b then perform server.cfg f w else w)
  effect_if-AddsOne true f w h = perform-AddsOne f w h
  effect_if-AddsOne false f w h = same_count-AddsOne w w refl

  answer_call-AddsOne :
      (c : Endpoint × HttpCall) (s : Site) → AddsOne s.world (answer_call server c.0 c.1 s).1.world
  answer_call-AddsOne (e, call) s = rw (answer_call-refines server e call s) (
      effect_if-AddsOne (is_admitted server e call s) (effect_of server call) s.world
        (effect_of-IsTrusted server t call))

  answer_calls_spent :
      (calls : List (Endpoint × HttpCall)) (s : Site)
      → IsKnown id s.world
      → any (is_retry_call server id) calls ≡ false
      → IsSpent id s.world
      → broadcasts id (answer_calls server calls s).world.calls ≡ broadcasts id s.world.calls
  unfolding answer_calls
  answer_calls_spent [] s known e h = refl
  answer_calls_spent (c ∷ rest) s known e h =
      let (now, later) =
        neither (is_retry_call server id c) (any (is_retry_call server id) rest) e in
      let (known', (keeps, _)) = answer_call-Kept c s now known in
      answer_calls_spent rest (answer_call server c.0 c.1 s).1 known' later (keeps h)
      ∙ (answer_call-AddsOne c s).1 h

  -- Whatever calls of its routes the server answers, in whatever order, signed or not, under old
  -- keys or new ones, with bodies of any form, and however the providers answer or fail: at most one
  -- funding transaction of a payment that is there is broadcast by them all, unless a human asks for
  -- it to be sent back to AUTHORIZED. What is assumed of the server's providers is that a call of
  -- theirs does not write to the payments, the audit trail, the quotes, the ledger or the log of
  -- calls.
  pub answer_calls_once :
      (calls : List (Endpoint × HttpCall)) (s : Site) (i : Intent)
      → find_intent id s.world ≡ some i
      → any (is_retry_call server id) calls ≡ false
      → broadcasts id (answer_calls server calls s).world.calls ≤ broadcasts id s.world.calls + 1
  unfolding answer_calls
  answer_calls_once [] s i found e = omega arith
  answer_calls_once (c ∷ rest) s i found e =
      let (now, later) =
        neither (is_retry_call server id c) (any (is_retry_call server id) rest) e in
      let next = (answer_call server c.0 c.1 s).1 in
      let (known, (keeps, either)) = answer_call-Kept c s now (i, found) in
      elim either [
        | inl same ↦ omega (arith, same, answer_calls_once rest next known.0 known.1 later)
        | inr past ↦
            omega
              (arith, (answer_call-AddsOne c s).0, answer_calls_spent rest next known later past)
      ]
