-- ===== src/Common/Lists.antt =====
-- Lists measured by native numbers, and the queries on rows that the program makes of its tables.
use Prim.Native.Nat.{ℕ, zero, suc, ◌+◌}
use mathlib.Core.Path.{◌≡◌, refl, ap}
use mathlib.Core.Logic.{inl, inr}
use mathlib.Core.Bool.{Bool, true, false, ◌&&◌, ◌||◌}
use mathlib.Core.Option
use mathlib.Core.Option.{Option, none, some}
use mathlib.Core.List.{List, [], ◌∷◌, ◌++◌}
use native.Mathlib.Omega.{arith}
use qrib.Common.Tests.{if◌then◌else◌, Bool-cases, is_some}

module _ {ℓ} {A : Type ℓ} where
  abbrev pub length : List A → ℕ
  length [] = 0
  length (x ∷ xs) = suc (length xs)

  abbrev pub take : ℕ → List A → List A
  take zero xs = []
  take (suc n) [] = []
  take (suc n) (x ∷ xs) = x ∷ take n xs

  abbrev pub drop : ℕ → List A → List A
  drop zero xs = xs
  drop (suc n) [] = []
  drop (suc n) (x ∷ xs) = drop n xs

  pub length-append : (xs ys : List A) → length (xs ++ ys) ≡ length xs + length ys
  length-append [] ys = omega arith
  length-append (x ∷ xs) ys = omega (arith, length-append xs ys)

  pub drop-length-append : (xs ys : List A) → drop (length xs) (xs ++ ys) ≡ ys
  drop-length-append [] ys = refl
  drop-length-append (x ∷ xs) ys = drop-length-append xs ys

  pub take-length-append : (xs ys : List A) → take (length xs) (xs ++ ys) ≡ xs
  take-length-append [] ys = refl
  take-length-append (x ∷ xs) ys = ap (λ t. x ∷ t) (take-length-append xs ys)

  -- `xs.find(p)`, and a query with `limit(1)`.
  abbrev pub first : (A → Bool) → List A → Option A
  first p [] = none
  first p (x ∷ xs) = if p x then some x else first p xs

  -- `xs.filter(p)`, and a query with `where`.
  abbrev pub select : (A → Bool) → List A → List A
  select p [] = []
  select p (x ∷ xs) = if p x then x ∷ select p xs else select p xs

  -- `xs.some(p)`
  abbrev pub any : (A → Bool) → List A → Bool
  any p [] = false
  any p (x ∷ xs) = p x || any p xs

  abbrev pub all : (A → Bool) → List A → Bool
  all p [] = true
  all p (x ∷ xs) = p x && all p xs

  -- `update … set … where`
  abbrev pub update_where : (A → Bool) → (A → A) → List A → List A
  update_where p f [] = []
  update_where p f (x ∷ xs) = (if p x then f x else x) ∷ update_where p f xs

  -- A query with `limit(1)` of its first row: `rows[0]`.
  abbrev pub head? : List A → Option A
  head? [] = none
  head? (x ∷ xs) = some x

  pub head?-select : (p : A → Bool) (xs : List A) → head? (select p xs) ≡ first p xs
  head?-select p [] = refl
  head?-select p (x ∷ xs) = elim (Bool-cases (p x)) [
    | inl e ↦ ground (arith, e)
    | inr e ↦ ground (arith, head?-select p xs)
  ]

  -- An update that keeps the key changes the row that the key finds, and no other.
  pub first-update_where :
      (p : A → Bool) (f : A → A)
      → ((x : A) → p (f x) ≡ p x)
      → (xs : List A) → first p (update_where p f xs) ≡ Option.map f (first p xs)
  first-update_where p f keep [] = refl
  first-update_where p f keep (x ∷ xs) = elim (Bool-cases (p x)) [
    | inl e ↦ ground (arith, keep x)
    | inr e ↦ ground (arith, first-update_where p f keep xs)
  ]

  pub first-update_where_other :
      (p q : A → Bool) (f : A → A)
      → ((x : A) → q (f x) ≡ q x)
      → ((x : A) → p x ≡ true → q x ≡ false)
      → (xs : List A) → first q (update_where p f xs) ≡ first q xs
  first-update_where_other p q f keep apart [] = refl
  first-update_where_other p q f keep apart (x ∷ xs) =
      ground (arith, keep x, apart x, first-update_where_other p q f keep apart xs)

  pub first-append :
      (p : A → Bool) (xs ys : List A)
      → first p (xs ++ ys) ≡ (if is_some (first p xs) then first p xs else first p ys)
  first-append p [] ys = refl
  first-append p (x ∷ xs) ys = ground (arith, first-append p xs ys)

  pub select-append :
      (p : A → Bool) (xs ys : List A) → select p (xs ++ ys) ≡ select p xs ++ select p ys
  select-append p [] ys = refl
  select-append p (x ∷ xs) ys = ground (arith, select-append p xs ys)

-- What holds of every element.
abbrev pub All {ℓ κ} : {A : Type ℓ} → (A → Type κ) → List A → Type κ
All P [] = Unit
All P (x ∷ xs) = P x × All P xs

pub All-append {ℓ κ} :
    {A : Type ℓ} (P : A → Type κ) (xs ys : List A) → All P xs → All P ys → All P (xs ++ ys)
All-append P [] ys hx hy = hy
All-append P (x ∷ xs) ys hx hy = (hx.0, All-append P xs ys hx.1 hy)

-- What a search finds passes the test.
pub first_sound {ℓ} :
    {A : Type ℓ} (p : A → Bool) (xs : List A) {a : A} → first p xs ≡ some a → p a ≡ true
first_sound p [] h = cc
first_sound p (x ∷ xs) h = elim (Bool-cases (p x)) [
  | inl e ↦ ground (arith, e)
  | inr e ↦ first_sound p xs (ground arith)
]

module _ {ℓ} {A : Type ℓ} where
  pub not_empty : (before after : List A) (x : A) → ¬ ([] ≡ before ++ x ∷ after)
  not_empty [] after x e = ground (arith, e)
  not_empty (y ∷ before) after x e = ground (arith, e)

  -- The only element has nothing before it and nothing after it.
  pub only_one :
      (before after : List A) (x y : A)
      → x ∷ [] ≡ before ++ y ∷ after
      → (before ≡ []) × (after ≡ []) × (y ≡ x)
  only_one [] after x y e = (refl, ground (arith, e), ground (arith, e))
  only_one (z ∷ []) after x y e = absurd (ground (arith, e))
  only_one (z ∷ z' ∷ before) after x y e = absurd (ground (arith, e))
