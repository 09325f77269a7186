-- ===== src/Db/Monad.antt =====
-- A function of the engine: it reads and writes the state, and may throw. What was written before
-- a throw stays written, except inside `transaction`.
use qrib.Common.{ℕ, Text, Bool, true, false, Option, none, some}
use qrib.States.{State}
use qrib.Db.Tables.{World}

-- What the engine throws. `payment_error` carries the HTTP status of `PaymentError`.
pub data Fault : Type 0 where
  payment_error : ℕ → Fault
  invalid_transition : State → State → Fault
  unknown_payment : Text → Fault
  negative_leg : Fault
  unbalanced : Fault
  quote_rejected : Fault
  provider_timeout provider_failure : Fault
  -- `BigInt` of a missing value, a division by `0n`, an index out of range
  type_error range_error : Fault
  -- an `Error` of no class of its own
  plain_error : Fault
  -- of the model alone: a loop has used up its fuel
  out_of_fuel : Fault

pub data Result {ℓ} (A : Type ℓ) : Type ℓ where
  ok : A → Result A
  err : Fault → Result A

abbrev pub Act {ℓ} : Type ℓ → Type ℓ
Act A = World → Result A × World

abbrev pub ⊤ : Type 0
⊤ = Unit

module _ {ℓ} {A : Type ℓ} where
  unfoldable pub pure : A → Act A
  pure a s = (ok a, s)

  -- `throw`
  unfoldable pub raise : Fault → Act A
  raise e s = (err e, s)

  -- A read of the state.
  unfoldable pub gets : (World → A) → Act A
  gets f s = (ok (f s), s)

  -- `if (!x) throw …`
  unfoldable pub or_raise : Option A → Fault → Act A
  or_raise none e = raise e
  or_raise (some a) e = pure a

-- A write to the state.
unfoldable pub modify : (World → World) → Act ⊤
modify f s = (ok tt, f s)

-- `if (b) throw …`
unfoldable pub raise_if : Bool → Fault → Act ⊤
raise_if true e = raise e
raise_if false e = pure tt

module _ {ℓ κ} {A : Type ℓ} {B : Type κ} where
  abbrev pub continue : Result A → (A → Act B) → Act B
  continue (ok a) f s = f a s
  continue (err e) f s = (err e, s)

  infixl 5 ◌>>=◌ ◌>>◌
  -- Opening this opens the simple actions too.
  unfoldable pub ◌>>=◌ : Act A → (A → Act B) → Act B
  unfolding pure raise gets or_raise modify raise_if
  ◌>>=◌ m f s = let (r, s') = m s in continue r f s'

  unfoldable pub ◌>>◌ : Act A → Act B → Act B
  unfolding ◌>>=◌
  m >> k = m >>= λ _. k

  -- A branch on a value that may be missing.
  unfoldable pub option_case : Option A → Act B → (A → Act B) → Act B
  option_case none m f = m
  option_case (some a) m f = f a

  -- `try { … } catch (err) { … }` round one call; the rest runs outside.
  abbrev pub handle : Result A → (A → Act B) → (Fault → Act B) → Act B
  handle (ok a) f g s = f a s
  handle (err e) f g s = g e s

  unfoldable pub catch : Act A → (A → Act B) → (Fault → Act B) → Act B
  catch m f g s = let (r, s') = m s in handle r f g s'

module _ {ℓ} {A : Type ℓ} where
  abbrev pub commit : World → Result A × World → Result A × World
  commit s (ok a, s') = (ok a, s')
  commit s (err e, s') = (err e, s)

  -- `db.transaction(…)`: a throw inside takes every write back.
  unfoldable pub transaction : Act A → Act A
  transaction m s = commit s (m s)
