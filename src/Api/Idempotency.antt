-- ===== src/Api/Idempotency.antt =====
-- src/api/idempotency.ts: an answer is stored under the key of its call and given again.
use qrib.Engine.Common.{truthy}
use qrib.Db.{World}
use qrib.Common.{
  if◌then◌else◌, text_eq, ◌+◌, is_some, ◌&&◌, ◌*◌, first, or_else, ◌++◌, ◌∷◌, none, some, Option,
  List, ℕ, Text, Bool, [],
}
use qrib.Api.Answers.{Answer, Reply, refuse, other_endpoint, key_required}

-- `idempotency_keys` of src/db/schema.ts
pub record KeyRow : Type 0 where
  pub key : Text
  pub method : Text
  pub path : Text
  pub status_code : ℕ
  pub response : Reply
  pub expires_at : ℕ

-- The database with its table of keys.
pub record Site : Type 0 where
  pub world : World
  pub keys : List KeyRow

-- A call: its method, its path, and its header `Idempotency-Key`.
pub record Endpoint : Type 0 where
  pub method : Text
  pub path : Text
  pub key : Option Text

abbrev pub has_key : Text → KeyRow → Bool
has_key key row = text_eq row.key key

abbrev pub is_endpoint : Endpoint → KeyRow → Bool
is_endpoint e row = text_eq row.method e.method && text_eq row.path e.path

abbrev pub stored_answer : Endpoint → KeyRow → Answer
stored_answer e row =
    if is_endpoint e row
    then record { status = row.status_code; body = some row.response }
    else refuse 422 other_endpoint

abbrev pub new_row : Text → Endpoint → ℕ → Reply → World → KeyRow
new_row key e status response w = record {
  key = key;
  method = e.method;
  path = e.path;
  status_code = status;
  response = response;
  expires_at = w.now + 24 * 3_600_000;
}

-- `insert … onConflictDoNothing`
abbrev pub insert_key : KeyRow → List KeyRow → List KeyRow
insert_key row keys = if is_some (first (has_key row.key) keys) then keys else keys ++ row ∷ []

-- The body is stored if it is JSON.
abbrev pub keep_answer : Text → Endpoint → List KeyRow → Answer × World → Answer × Site
keep_answer key e keys (a, w) = (a, record { world = w; keys = kept a.body })
  where
    kept : Option Reply → List KeyRow
    kept none = keys
    kept (some response) = insert_key (new_row key e a.status response w) keys

abbrev pub with_key : Text → Endpoint → (World → Answer × World) → Site → Answer × Site
with_key key e next s = with_row (first (has_key key) s.keys)
  where
    with_row : Option KeyRow → Answer × Site
    with_row none = keep_answer key e s.keys (next s.world)
    with_row (some row) = (stored_answer e row, s)

-- `idempotency` round a handler.
unfoldable pub idempotency : Endpoint → (World → Answer × World) → Site → Answer × Site
idempotency e next s =
    if truthy e.key then with_key (or_else e.key []) e next s else (refuse 400 key_required, s)
