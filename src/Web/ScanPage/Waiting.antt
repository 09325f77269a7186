-- ===== src/Web/ScanPage/Waiting.antt =====
-- The jobs that web/app/(app)/scan/page.tsx waits for.
use qrib.Web.ScanPage.{Job}
use qrib.Web.ScanPage.Session.{listed}
use qrib.Common.{◌≡◌, none, some, Option, List, [], ◌++◌, ◌⊎◌, ◌∷◌, inr, subst, sym, inl, ap, refl}

abbrev pub In : Job → List Job → Type 0
In job [] = ⊥
In job (x ∷ rest) = (x ≡ job) ⊎ In job rest

In-append_left : (job : Job) (xs ys : List Job) → In job xs → In job (xs ++ ys)
In-append_left job (x ∷ xs) ys (inl e) = inl e
In-append_left job (x ∷ xs) ys (inr h) = inr (In-append_left job xs ys h)
In-append_left job [] ys h = absurd h

In-append_right : (job : Job) (xs ys : List Job) → In job ys → In job (xs ++ ys)
In-append_right job [] ys h = h
In-append_right job (x ∷ xs) ys h = inr (In-append_right job xs ys h)

pub In-append : (job : Job) (xs ys : List Job) → In job (xs ++ ys) → In job xs ⊎ In job ys
In-append job [] ys h = inr h
In-append job (x ∷ xs) ys (inl e) = inl (inl e)
In-append job (x ∷ xs) ys (inr h) = elim (In-append job xs ys h) [
  | inl left ↦ inl (inr left)
  | inr right ↦ inr right
]

pub In-listed : (job : Job) (o : Option Job) → In job (listed o) → o ≡ some job
In-listed job none h = absurd h
In-listed job (some x) (inl e) = ap some e
In-listed job (some x) (inr h) = absurd h

-- A job that waits after another has ended waited before, or takes its place.
pub In-settled :
    (x job : Job) (o : Option Job) (before after jobs : List Job)
    → jobs ≡ before ++ job ∷ after
    → In x (before ++ (listed o ++ after))
    → In x jobs ⊎ (o ≡ some x)
In-settled x job o before after jobs at h = elim (In-append x before (listed o ++ after) h) [
  | inl left ↦ inl (subst (In x) (sym at) (In-append_left x before (job ∷ after) left))
  | inr right ↦ elim (In-append x (listed o) after right) [
    | inl new ↦ inr (In-listed x o new)
    | inr later ↦ inl (subst (In x) (sym at) (In-append_right x before (job ∷ after) (inr later)))
  ]
]

pub In-here :
    (job : Job) (before after jobs : List Job) → jobs ≡ before ++ job ∷ after → In job jobs
In-here job before after jobs at =
    subst (In job) (sym at) (In-append_right job before (job ∷ after) (inl refl))
