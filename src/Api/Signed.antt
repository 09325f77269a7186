-- ===== src/Api/Signed.antt =====
-- What guards the operator's routes of src/api/operator.ts.
use qrib.Engine.Common.{truthy}
use qrib.Common.{
  or_else, ◌≢◌, text_eq, ◌≡◌, Bool-cases, inl, text_eq_sound, inr, refl, ◌++◌, ◌⊎◌, codes, ◌∷◌,
  arith, text_eq_refl, subst, sym, none, some, Option, Text, true, false, [], ap, if◌then◌else◌,
}
use qrib.Api.Server.{Server, answer_call, HttpCall, OperatorAction, act}
use qrib.Api.Operator.{SignedCall, authed, signed_body, sign_operator}
use qrib.Api.Answers.{refuse, bad_signature, plain_500}
use qrib.Api.Idempotency.{Endpoint, Site}

-- The text that stands for the body in a signature: a GET has none.
pub data IsSignedBody (c : SignedCall) : Text → Type 0 where
  of_get : c.method ≡ codes "GET" → IsSignedBody c []
  of_other : c.method ≢ codes "GET" → IsSignedBody c c.raw

-- The call carries the hash, keyed with the secret, of the three lines method, path and body.
abbrev pub IsSigned : Server → Text → SignedCall → Type 0
IsSigned server secret c =
    (body : Text) × IsSignedBody c body
    × (or_else c.signature []
        ≡ server.hmac_sha256 secret (c.method ++ (codes "\n" ++ (c.path ++ (codes "\n" ++ body)))))

-- How the server answers a call of an operator's route: it has no secret, and fails; the call is
-- signed, and is carried out; or the call is not signed, and is refused.
abbrev pub Guards : Server → Endpoint → SignedCall → OperatorAction → Site → Type 0
Guards server e c action s =
    ((truthy server.secret ≡ false)
      × (answer_call server e (HttpCall.internal c action) s ≡ (plain_500, s)))
    ⊎ ((secret : Text) × (server.secret ≡ some secret)
        × (secret ≢ [])
        × ((IsSigned server secret c
              × (answer_call server e (HttpCall.internal c action) s ≡ act server e action s))
            ⊎ (¬ IsSigned server secret c
                × (answer_call server e (HttpCall.internal c action) s
                    ≡ (refuse 401 bad_signature, s)))))

differs : (x y : Text) → text_eq x y ≡ false → x ≢ y
differs x y ne e =
    let same = subst (λ (z : Text). text_eq x z ≡ true) e (text_eq_refl x) in
    absurd (ground (arith, ne, same))

signed_body-IsSignedBody : (c : SignedCall) → IsSignedBody c (signed_body c)
signed_body-IsSignedBody c = elim (Bool-cases (text_eq c.method (codes "GET"))) [
  | inl get ↦ rw get (IsSignedBody.of_get (text_eq_sound _ _ get))
  | inr other ↦ rw other (IsSignedBody.of_other (differs _ _ other))
]

IsSignedBody-unique : (c : SignedCall) (body : Text) → IsSignedBody c body → signed_body c ≡ body
IsSignedBody-unique c body (IsSignedBody.of_get e) =
    ap (λ (m : Text). if text_eq m (codes "GET") then [] else c.raw) e
IsSignedBody-unique c body (IsSignedBody.of_other e) =
    elim (Bool-cases (text_eq c.method (codes "GET"))) [
      | inl get ↦ absurd (e (text_eq_sound _ _ get))
      | inr other ↦ rw other refl
    ]

secret-cases :
    (o : Option Text)
    → (truthy o ≡ false) ⊎ ((t : Text) × (o ≡ some t) × (t ≢ []) × (truthy o ≡ true))
secret-cases none = inl refl
secret-cases (some []) = inl refl
secret-cases (some (x ∷ xs)) = inr (x ∷ xs, refl, (λ e. absurd (ground (arith, e))), refl)

not-IsSigned :
    (server : Server) (secret : Text) (c : SignedCall)
    → text_eq
        (or_else c.signature [])
        (sign_operator server.hmac_sha256 secret c.method c.path (signed_body c))
      ≡ false
    → ¬ IsSigned server secret c
not-IsSigned server secret c other (body, read, e) = differs _ _ other (
    subst
      (λ (b : Text).
        or_else c.signature [] ≡ sign_operator server.hmac_sha256 secret c.method c.path b)
      (sym (IsSignedBody-unique c body read)) e)

-- Every call of an operator's route ends in one of three ways. The server has no secret: the answer
-- has status 500. The call carries the hash, keyed with the secret, of its method, its path and its
-- body with line feeds between them, where the body counts as empty for a GET: the action is
-- carried out. It carries no such hash: the answer has status 401. Unless the action is carried out, nothing changes.
pub operator_route-Guards :
    (server : Server) (e : Endpoint) (c : SignedCall) (action : OperatorAction) (s : Site)
    → Guards server e c action s
unfolding answer_call authed
operator_route-Guards server e c action s = elim (secret-cases server.secret) [
  | inl missing ↦ inl (missing, rw missing refl)
  | inr (secret, named, given, there) ↦
      let want = sign_operator server.hmac_sha256 secret c.method c.path (signed_body c) in
      let there' : truthy (some secret) ≡ true =
        subst (λ (o : Option Text). truthy o ≡ true) named there in
      inr (
        secret,
        named,
        given,
        elim (Bool-cases (text_eq (or_else c.signature []) want)) [
          | inl same ↦ inl (
            (signed_body c, signed_body-IsSignedBody c, text_eq_sound _ _ same),
            rw (named, there', same) refl,
          )
          | inr other ↦ inr (not-IsSigned server secret c other, rw (named, there', other) refl)
        ],
      )
]
