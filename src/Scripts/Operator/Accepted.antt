-- ===== src/Scripts/Operator/Accepted.antt =====
-- The server of src/api/operator.ts carries out what scripts/operator.ts signs.
use qrib.Engine.Common.{truthy, is_text}
use qrib.Common.{
  ◌≡◌, ◌∷◌, ◌++◌, ◌∙◌, leb, Bool-cases, all, or_else, ◌&&◌, head?, text_eq_refl, codes, sym, arith,
  ◌||◌, ap, drop, ◌==◌, inl, inr, refl, subst, not, none, Option, List, ℕ, Text, Bool, true, [],
}
use qrib.Scripts.Operator.{
  Scripted, prepared, refused, OperatorCall, get_from, post_to, main_call, list_call, complete_call,
  resolve_call, refund_call, script_call, signed_with, before_query, flag_of, is_report_status,
  is_exit, ScriptError,
}
use qrib.Api.Idempotency.{Endpoint, Site}
use qrib.Api.Operator.{SignedCall, authed}
use qrib.Api.Server.{answer_call, Server, OperatorAction, HttpCall, act}

-- A character that an address keeps as it is: a letter, a digit, "-", "_" or "/".
abbrev is_kept : ℕ → Bool
is_kept c =
    leb 97 c && leb c 122
    || leb 65 c && leb c 90
    || leb 48 c && leb c 57
    || c == 45
    || c == 95
    || c == 47

abbrev pub IsPlain : Text → Type 0
IsPlain t = all is_kept t ≡ true

-- What a reader of addresses makes of a path of such characters: it is the path, without the query.
pub record ReadsPaths (pathname : Text → Text) : Type 0 where
  pub bare : (p : Text) → IsPlain p → pathname (b'/' ∷ p) ≡ b'/' ∷ p
  pub queried : (p q : Text) → IsPlain p → pathname (b'/' ∷ (p ++ (b'?' ∷ q))) ≡ b'/' ∷ p

data IsPlainPath : Text → Type 0 where
  without : (p : Text) → IsPlain p → IsPlainPath (b'/' ∷ p)
  followed : (p q : Text) → IsPlain p → IsPlainPath (b'/' ∷ (p ++ (b'?' ∷ q)))

pub before_query_plain : (p : Text) → IsPlain p → before_query p ≡ p
before_query_plain [] h = refl
before_query_plain (c ∷ rest) h = ground (arith, before_query_plain rest)

pub before_query_followed : (p q : Text) → IsPlain p → before_query (p ++ (b'?' ∷ q)) ≡ p
before_query_followed [] q h = refl
before_query_followed (c ∷ rest) q h = ground (arith, before_query_followed rest q)

pathname-before_query :
    (pathname : Text → Text) (path : Text)
    → ReadsPaths pathname
    → IsPlainPath path
    → pathname path ≡ before_query path
pathname-before_query pathname path r (IsPlainPath.without p h) =
    r.bare p h ∙ sym (ap (λ (t : Text). b'/' ∷ t) (before_query_plain p h))
pathname-before_query pathname path r (IsPlainPath.followed p q h) =
    r.queried p q h ∙ sym (ap (λ (t : Text). b'/' ∷ t) (before_query_followed p q h))

IsPlain-append : (s t : Text) → IsPlain s → IsPlain t → IsPlain (s ++ t)
IsPlain-append [] t h k = k
IsPlain-append (c ∷ rest) t h k = ground (arith, IsPlain-append rest t)

abbrev path_of : OperatorCall → Text
path_of (get_from path) = path
path_of (post_to path fields) = path

data Plain : Scripted OperatorCall → Type 0 where
  call : (c : OperatorCall) → IsPlainPath (path_of c) → Plain (prepared c)
  throws : (e : ScriptError) → Plain (refused e)

Plain-prepared : (c : OperatorCall) → Plain (prepared c) → IsPlainPath (path_of c)
Plain-prepared c (Plain.call c' h) = h

list_call-Plain : (argv : List Text) → Plain (list_call argv)
list_call-Plain argv = elim (Bool-cases (truthy (flag_of argv (codes "status")))) [
  | inl given ↦ rw given (Plain.call _ (IsPlainPath.followed (codes "internal/tasks") _ refl))
  | inr missing ↦ rw missing (Plain.call _ (IsPlainPath.without (codes "internal/tasks") refl))
]

-- The path of a task or of a payment with a plain id.
id_path :
    (before id after : Text)
    → IsPlain before
    → IsPlain id
    → IsPlain after
    → IsPlainPath (b'/' ∷ (before ++ (id ++ after)))
id_path before id after h k l =
    IsPlainPath.without _ (IsPlain-append before _ h (IsPlain-append id after k l))

complete_call-Plain :
    (argv : List Text) (arg : Option Text)
    → IsPlain (or_else arg [])
    → Plain (complete_call argv arg)
complete_call-Plain argv arg h =
    elim (Bool-cases (not (is_report_status (flag_of argv (codes "status"))))) [
      | inl yes2 ↦ rw yes2 (Plain.throws _)
      | inr no2 ↦ rw no2 (elim (Bool-cases (not (truthy arg))) [
        | inl yes1 ↦ rw yes1 (Plain.throws _)
        | inr no1 ↦ rw no1 (
            Plain.call _
              (id_path (codes "internal/tasks/") (or_else arg []) (codes "/complete") refl h refl))
      ])
    ]

resolve_call-Plain :
    (argv : List Text) (arg : Option Text)
    → IsPlain (or_else arg [])
    → Plain (resolve_call argv arg)
resolve_call-Plain argv arg h = elim (Bool-cases (not (truthy arg))) [
  | inl yes3 ↦ rw yes3 (Plain.throws _)
  | inr no3 ↦ rw no3 (elim (Bool-cases (not (truthy (flag_of argv (codes "reason"))))) [
    | inl yes2 ↦ rw yes2 (Plain.throws _)
    | inr no2 ↦ rw no2 (elim (Bool-cases (not (is_exit (flag_of argv (codes "to"))))) [
      | inl yes1 ↦ rw yes1 (Plain.throws _)
      | inr no1 ↦ rw no1 (
          Plain.call _
            (id_path (codes "internal/payments/") (or_else arg []) (codes "/resolve") refl h refl))
    ])
  ])
]

refund_call-Plain :
    (argv : List Text) (arg : Option Text) → IsPlain (or_else arg []) → Plain (refund_call argv arg)
refund_call-Plain argv arg h = elim (Bool-cases (not (truthy arg))) [
  | inl yes2 ↦ rw yes2 (Plain.throws _)
  | inr no2 ↦ rw no2 (elim (Bool-cases (not (truthy (flag_of argv (codes "reference"))))) [
    | inl yes1 ↦ rw yes1 (Plain.throws _)
    | inr no1 ↦ rw no1 (
        Plain.call _
          (id_path (codes "internal/payments/") (or_else arg []) (codes "/refund") refl h refl))
  ])
]

main_call-Plain :
    (argv : List Text) → IsPlain (or_else (head? (drop 3 argv)) []) → Plain (main_call argv)
unfolding main_call
main_call-Plain argv h =
    let cmd = head? (drop 2 argv) in
    elim (Bool-cases (is_text (codes "list") cmd)) [
      | inl yes4 ↦ rw yes4 (list_call-Plain argv)
      | inr no4 ↦ rw no4 (elim (Bool-cases (is_text (codes "complete") cmd)) [
        | inl yes3 ↦ rw yes3 (complete_call-Plain argv _ h)
        | inr no3 ↦ rw no3 (elim (Bool-cases (is_text (codes "resolve") cmd)) [
          | inl yes2 ↦ rw yes2 (resolve_call-Plain argv _ h)
          | inr no2 ↦ rw no2 (elim (Bool-cases (is_text (codes "refund") cmd)) [
            | inl yes1 ↦ rw yes1 (refund_call-Plain argv _ h)
            | inr no1 ↦ rw no1 (Plain.throws _)
          ])
        ])
      ])
    ]

module _ (server : Server) (stringify : List (Text × Text) → Text) (pathname : Text → Text)
    (reads : ReadsPaths pathname) where
  signed-accepted :
      (c : OperatorCall)
      → IsPlainPath (path_of c)
      → truthy server.secret ≡ true
      → authed server.hmac_sha256 server.secret
          (signed_with server.hmac_sha256 stringify pathname (or_else server.secret []) c)
        ≡ none
  unfolding authed
  signed-accepted (get_from path) plain given =
      rw (given, pathname-before_query pathname path reads plain, text_eq_refl _) refl
  signed-accepted (post_to path fields) plain given =
      rw (given, pathname-before_query pathname path reads plain, text_eq_refl _) refl

  -- Where the id on the command line has only letters, digits, "-", "_" and "/", the server, with the
  -- secret of the script, carries out the call that the script makes of its arguments: it is not
  -- refused for its signature. What is assumed of the reader of addresses is that a path of such
  -- characters is read as it is, up to a "?".
  pub script_call_accepted :
      (argv : List Text) (c : OperatorCall) (e : Endpoint) (action : OperatorAction) (s : Site)
      (signed : SignedCall)
      → IsPlain (or_else (head? (drop 3 argv)) [])
      → main_call argv ≡ prepared c
      → script_call server.hmac_sha256 stringify pathname server.secret c ≡ prepared signed
      → answer_call server e (HttpCall.internal signed action) s ≡ act server e action s
  unfolding answer_call script_call
  script_call_accepted argv c e action s signed id_plain made h =
      elim (Bool-cases (truthy server.secret)) [
        | inr missing ↦ absurd (ground (arith, h, missing))
        | inl given ↦
            let plain : IsPlainPath (path_of c) =
              Plain-prepared c (subst Plain made (main_call-Plain argv id_plain)) in
            let same : signed_with server.hmac_sha256 stringify pathname (or_else server.secret [])
                  c
                ≡ signed =
              ground (arith, h, given) in
            rw (← same, signed-accepted c plain given) refl
      ]
