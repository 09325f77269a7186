-- ===== src/Api/Replays.antt =====
-- What src/api/idempotency.ts promises: a call that is repeated is answered as before and changes
-- nothing.
use qrib.Engine.Common.{truthy}
use qrib.Common.{
  first, ◌∷◌, ◌≡◌, first-append, Bool-cases, or_else, if◌then◌else◌, is_some, inr, sym, ◌∙◌, inl,
  Option-cases, ap, refl, none, some, Option, List, Text, true, [], ℕ, text_eq_refl,
}
use qrib.Db.{World}
use qrib.Api.Answers.{Answer, Reply}
use qrib.Api.Idempotency.{
  idempotency, Endpoint, Site, KeyRow, has_key, insert_key, keep_answer, stored_answer, new_row,
}

-- A call with its handler.
pub record Visit : Type 0 where
  pub endpoint : Endpoint
  pub handler : World → Answer × World

-- The site after some calls.
abbrev pub visit : List Visit → Site → Site
visit [] s = s
visit (v ∷ rest) s = visit rest (idempotency v.endpoint v.handler s).1

-- The key has a row that gives this answer at this endpoint.
record Holds (e : Endpoint) (a : Answer) (s : Site) : Type 0 where
  row : KeyRow
  found : first (has_key (or_else e.key [])) s.keys ≡ some row
  gives : stored_answer e row ≡ a

insert_key-first :
    (key : Text) (row other : KeyRow) (keys : List KeyRow)
    → first (has_key key) keys ≡ some row
    → first (has_key key) (insert_key other keys) ≡ some row
insert_key-first key row other keys h =
    elim (Bool-cases (is_some (first (has_key other.key) keys))) [
      | inl known ↦ rw known h
      | inr new ↦ rw new (first-append (has_key key) keys (other ∷ []) ∙ kept)
    ]
  where
    kept :
        (if is_some (first (has_key key) keys)
          then first (has_key key) keys
          else first (has_key key) (other ∷ []))
        ≡ some row
    kept = rw h refl

keep_answer-first :
    (key other : Text) (row : KeyRow) (e : Endpoint) (keys : List KeyRow) (p : Answer × World)
    → first (has_key key) keys ≡ some row
    → first (has_key key) (keep_answer other e keys p).1.keys ≡ some row
keep_answer-first key other row e keys (a, w) h = elim (Option-cases a.body) [
  | inl plain ↦ rw plain h
  | inr (response, found) ↦
      rw found (insert_key-first key row (new_row other e a.status response w) keys h)
]

-- No call removes or changes the row of a key.
idempotency-first :
    (key : Text) (row : KeyRow) (e : Endpoint) (next : World → Answer × World) (s : Site)
    → first (has_key key) s.keys ≡ some row
    → first (has_key key) (idempotency e next s).1.keys ≡ some row
unfolding idempotency
idempotency-first key row e next s h = elim (Bool-cases (truthy e.key)) [
  | inr none_given ↦ rw none_given h
  | inl given ↦ elim (Option-cases (first (has_key (or_else e.key [])) s.keys)) [
    | inl new ↦
        rw (given, new) (keep_answer-first key (or_else e.key []) row e s.keys (next s.world) h)
    | inr (other, known) ↦ rw (given, known) h
  ]
]

visit-first :
    (key : Text) (row : KeyRow) (rest : List Visit) (s : Site)
    → first (has_key key) s.keys ≡ some row
    → first (has_key key) (visit rest s).keys ≡ some row
visit-first key row [] s h = h
visit-first key row (v ∷ rest) s h =
    visit-first key row rest (idempotency v.endpoint v.handler s).1
      (idempotency-first key row v.endpoint v.handler s h)

abbrev answer_of : ℕ → Option Reply → Answer
answer_of status body = record { status = status; body = body }

stored_once :
    (e : Endpoint) (keys : List KeyRow) (p : Answer × World) (body : Reply)
    → first (has_key (or_else e.key [])) keys ≡ none
    → p.0.body ≡ some body
    → Holds e p.0 (keep_answer (or_else e.key []) e keys p).1
stored_once e keys (a, w) body new h =
    let key = or_else e.key [] in
    let row = new_row key e a.status body w in
    let same : answer_of a.status (some body) ≡ a = ap (answer_of a.status) (sym h) in
    let inserted : first (has_key key) (insert_key row keys) ≡ some row =
      rw new (first-append (has_key key) keys (row ∷ []) ∙ rw (new, text_eq_refl key) refl) in
    record {
      row = row;
      found = rw h inserted;
      gives = rw (text_eq_refl e.method, text_eq_refl e.path) same;
    }

idempotency-Holds :
    (e : Endpoint) (next : World → Answer × World) (s : Site) (body : Reply)
    → truthy e.key ≡ true
    → (idempotency e next s).0.body ≡ some body
    → Holds e (idempotency e next s).0 (idempotency e next s).1
unfolding idempotency
idempotency-Holds e next s body given h =
    elim (Option-cases (first (has_key (or_else e.key [])) s.keys)) [
      | inr (row, known) ↦ rw (given, known) (record { row = row; found = known; gives = refl })
      | inl new ↦ rw (given, new) (stored_once e s.keys (next s.world) body new (stored_body new))
    ]
  where
    stored_body :
        first (has_key (or_else e.key [])) s.keys ≡ none → (next s.world).0.body ≡ some body
    stored_body new = sym (rw (given, new) refl) ∙ h

idempotency-known :
    (e : Endpoint) (next : World → Answer × World) (s : Site) (row : KeyRow)
    → truthy e.key ≡ true
    → first (has_key (or_else e.key [])) s.keys ≡ some row
    → idempotency e next s ≡ (stored_answer e row, s)
unfolding idempotency
idempotency-known e next s row given known = rw (given, known) refl

-- A call with a key that was answered with JSON is answered the same however often it is repeated,
-- whatever its handler would do by then and whatever other calls came in between; and a repetition
-- changes nothing.
pub idempotency_replays :
    (e : Endpoint) (next again : World → Answer × World) (rest : List Visit) (s : Site)
    (body : Reply)
    → truthy e.key ≡ true
    → (idempotency e next s).0.body ≡ some body
    → idempotency e again (visit rest (idempotency e next s).1)
      ≡ ((idempotency e next s).0, visit rest (idempotency e next s).1)
idempotency_replays e next again rest s body given h =
    let held = idempotency-Holds e next s body given h in
    let later = visit rest (idempotency e next s).1 in
    idempotency-known e again later held.row given
      (visit-first (or_else e.key []) held.row rest (idempotency e next s).1 held.found)
    ∙ ap (λ (a : Answer). (a, later)) held.gives
