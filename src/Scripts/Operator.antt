-- ===== src/Scripts/Operator.antt =====
-- scripts/operator.ts: the operator's calls, signed with the secret.
pub mod Accepted
use qrib.Api.Idempotency.{Endpoint, Site}
use qrib.Api.Server.{answer_call, Server, OperatorAction, HttpCall, act}
use qrib.Engine.Common.{is_text, truthy}
use qrib.Api.Operator.{SignedCall, authed}
use qrib.Common.{
  codes, ◌++◌, ◌∷◌, or_else, head?, drop, if◌then◌else◌, text_eq, ◌==◌, ◌||◌, not, ◌≡◌, true,
  Bool-cases, text_eq_refl, inr, refl, arith, inl, none, some, Option, List, Text, Bool, [],
}

-- What the script throws before it calls the server.
pub data ScriptError : Type 0 where
  no_secret bad_task_status no_exit_reason unknown_exit no_reference : ScriptError
  usage : ScriptError

pub data Scripted {ℓ} (A : Type ℓ) : Type ℓ where
  prepared : A → Scripted A
  refused : ScriptError → Scripted A

-- `flag`, over `process.argv`
abbrev pub value_after : Text → List Text → Option Text
value_after name [] = none
value_after name (arg ∷ rest) = if text_eq arg name then head? rest else value_after name rest

abbrev pub flag_of : List Text → Text → Option Text
flag_of argv name = value_after (codes "--" ++ name) argv

-- `path.split("?")[0]`
abbrev pub before_query : Text → Text
before_query [] = []
before_query (c ∷ rest) = if c == b'?' then [] else c ∷ before_query rest

-- A call as `main` hands it to `call`: a GET without a body, or a POST with one.
pub data OperatorCall : Type 0 where
  get_from : Text → OperatorCall
  post_to : Text → List (Text × Text) → OperatorCall

-- `body[name] = value`: a field that is there is written over.
abbrev pub set_field : Text → Text → List (Text × Text) → List (Text × Text)
set_field name value [] = (name, value) ∷ []
set_field name value ((k, v) ∷ rest) =
    let others = set_field name value rest in
    if text_eq k name then (k, value) ∷ rest else (k, v) ∷ others

-- `aliased[f] ?? f`
abbrev pub field_name : Text → Text
field_name f =
    if text_eq f (codes "fiat")
    then codes "fiatAmountIdr"
    else if text_eq f (codes "rate")
    then codes "rateExecuted6"
    else f

abbrev pub report_flags : List Text
report_flags =
    codes "reference"
    ∷ codes "fiatAmountIdr"
    ∷ codes "rateExecuted6"
    ∷ codes "proof"
    ∷ codes "note"
    ∷ codes "fiat"
    ∷ codes "rate"
    ∷ []

abbrev add_flag : Text → Option Text → List (Text × Text) → List (Text × Text)
add_flag f none body = body
add_flag f (some value) body = set_field (field_name f) value body

abbrev pub add_flags : List Text → List Text → List (Text × Text) → List (Text × Text)
add_flags argv [] body = body
add_flags argv (f ∷ rest) body = add_flags argv rest (add_flag f (flag_of argv f) body)

abbrev task_path : Text → Text
task_path id = codes "/internal/tasks/" ++ (id ++ codes "/complete")

abbrev internal_path : Text → Text → Text
internal_path id verb = codes "/internal/payments/" ++ (id ++ verb)

abbrev pub list_call : List Text → Scripted OperatorCall
list_call argv = prepared (
    get_from (
      if truthy (flag_of argv (codes "status"))
      then codes "/internal/tasks?status=" ++ or_else (flag_of argv (codes "status")) []
      else codes "/internal/tasks"))

abbrev pub is_report_status : Option Text → Bool
is_report_status status = is_text (codes "COMPLETED") status || is_text (codes "FAILED") status

abbrev pub complete_call : List Text → Option Text → Scripted OperatorCall
complete_call argv arg =
    let status = flag_of argv (codes "status") in
    let body = add_flags argv report_flags ((codes "status", or_else status []) ∷ []) in
    if not (is_report_status status)
    then refused bad_task_status
    else if not (truthy arg)
    then refused usage
    else prepared (post_to (task_path (or_else arg [])) body)

abbrev pub is_exit : Option Text → Bool
is_exit to =
    is_text (codes "FAILED") to
    || is_text (codes "REFUND_REQUIRED") to
    || is_text (codes "AUTHORIZED") to

abbrev pub resolve_call : List Text → Option Text → Scripted OperatorCall
resolve_call argv arg =
    let to = flag_of argv (codes "to") in
    let reason = flag_of argv (codes "reason") in
    if not (truthy arg)
    then refused usage
    else if not (truthy reason)
    then refused no_exit_reason
    else if not (is_exit to)
    then refused unknown_exit
    else prepared (
        post_to (internal_path (or_else arg []) (codes "/resolve"))
          ((codes "to", or_else to []) ∷ (codes "reason", or_else reason []) ∷ []))

abbrev cost_field : Option Text → List (Text × Text)
cost_field none = []
cost_field (some cost) = (codes "networkCostUsdcMicros", cost) ∷ []

abbrev pub refund_call : List Text → Option Text → Scripted OperatorCall
refund_call argv arg =
    let reference = flag_of argv (codes "reference") in
    if not (truthy arg)
    then refused usage
    else if not (truthy reference)
    then refused no_reference
    else prepared (
        post_to (internal_path (or_else arg []) (codes "/refund"))
          ((codes "reference", or_else reference []) ∷ cost_field (flag_of argv (codes "cost"))))

-- `main`: the command and its argument are the third and the fourth of `process.argv`.
abbrev pub command_call : List Text → Option Text → Option Text → Scripted OperatorCall
command_call argv cmd arg =
    if is_text (codes "list") cmd
    then list_call argv
    else if is_text (codes "complete") cmd
    then complete_call argv arg
    else if is_text (codes "resolve") cmd
    then resolve_call argv arg
    else if is_text (codes "refund") cmd
    then refund_call argv arg
    else refused usage

unfoldable pub main_call : List Text → Scripted OperatorCall
main_call argv = command_call argv (head? (drop 2 argv)) (head? (drop 3 argv))

module _ (hmac_sha256 : Text → Text → Text) (stringify : List (Text × Text) → Text) where
  -- `sign`, with the secret that the environment gives.
  abbrev pub script_signature : Text → Text → Text → Text → Text
  script_signature secret method path raw =
      hmac_sha256 secret (method ++ (10 ∷ (path ++ (10 ∷ raw))))

  -- The call as the server reads it. What it takes for the path is `new URL(c.req.url).pathname` of
  -- the address that `fetch` was given; what is signed is the text before the first "?".
  module _ (pathname : Text → Text) where
    abbrev pub signed_with : Text → OperatorCall → SignedCall
    signed_with secret (get_from path) = record {
      method = codes "GET";
      path = pathname path;
      raw = [];
      signature = some (script_signature secret (codes "GET") (before_query path) []);
    }
    signed_with secret (post_to path fields) = record {
      method = codes "POST";
      path = pathname path;
      raw = stringify fields;
      signature =
          some (script_signature secret (codes "POST") (before_query path) (stringify fields));
    }

    -- `call`, up to the request.
    unfoldable pub script_call : Option Text → OperatorCall → Scripted SignedCall
    script_call secret c =
        if not (truthy secret)
        then refused no_secret
        else prepared (signed_with (or_else secret []) c)
