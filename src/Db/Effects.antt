-- ===== src/Db/Effects.antt =====
-- What an action does to the state, whether it returns or throws: a relation between the state
-- before and after, with one rule for each way to build an action.
use qrib.Common.{Bool, true, false, Option, none, some, if◌then◌else◌}
use qrib.Db.Tables.{World}
use qrib.Db.Monad.{
  Fault, Result, ok, err, Act, pure, raise, gets, or_raise, modify, raise_if, ◌>>=◌, ◌>>◌,
  option_case, catch, transaction, continue, handle, commit,
}

-- A relation on states that a sequence of steps preserves.
pub record Change : Type 1 where
  pub rel : World → World → Type 0
  pub rel_refl : (s : World) → rel s s
  pub rel_trans : (s t u : World) → rel s t → rel t u → rel s u

-- `m` makes only such changes.
pub record Runs {ℓ} {A : Type ℓ} (c : Change) (m : Act A) : Type ℓ where
  pub at : (s : World) → c.rel s (m s).1

commit-rel {ℓ} :
    {A : Type ℓ} (c : Change) (s : World) (p : Result A × World)
    → c.rel s p.1
    → c.rel s (commit s p).1
commit-rel c s (ok a, t) h = h
commit-rel c s (err e, t) h = c.rel_refl s

module _ {ℓ} {A : Type ℓ} {c : Change} where
  pub Runs-pure : (a : A) → Runs c (pure a)
  unfolding pure
  Runs-pure a = record { at = λ s. c.rel_refl s }

  pub Runs-raise : (e : Fault) → Runs c (raise {A = A} e)
  unfolding raise
  Runs-raise e = record { at = λ s. c.rel_refl s }

  pub Runs-gets : (f : World → A) → Runs c (gets f)
  unfolding gets
  Runs-gets f = record { at = λ s. c.rel_refl s }

  pub Runs-or_raise : (o : Option A) (e : Fault) → Runs c (or_raise o e)
  unfolding or_raise raise pure
  Runs-or_raise none e = record { at = λ s. c.rel_refl s }
  Runs-or_raise (some a) e = record { at = λ s. c.rel_refl s }

  pub Runs-if : (b : Bool) (m n : Act A) → Runs c m → Runs c n → Runs c (if b then m else n)
  Runs-if true m n km kn = km
  Runs-if false m n km kn = kn

  pub Runs-transaction : (m : Act A) → Runs c m → Runs c (transaction m)
  unfolding transaction
  Runs-transaction m k = record { at = λ s. commit-rel c s (m s) (k.at s) }

module _ {c : Change} where
  pub Runs-raise_if : (b : Bool) (e : Fault) → Runs c (raise_if b e)
  unfolding raise_if raise pure
  Runs-raise_if true e = record { at = λ s. c.rel_refl s }
  Runs-raise_if false e = record { at = λ s. c.rel_refl s }

  pub Runs-modify : (f : World → World) → ((s : World) → c.rel s (f s)) → Runs c (modify f)
  unfolding modify
  Runs-modify f h = record { at = h }

module _ {ℓ κ} {A : Type ℓ} {B : Type κ} {c : Change} where
  continue-rel :
      (r : Result A) (f : A → Act B)
      → ((a : A) → Runs c (f a))
      → (s : World) → c.rel s (continue r f s).1
  continue-rel (ok a) f k s = (k a).at s
  continue-rel (err e) f k s = c.rel_refl s

  pub Runs-bind :
      (m : Act A) (f : A → Act B) → Runs c m → ((a : A) → Runs c (f a)) → Runs c (m >>= f)
  unfolding ◌>>=◌
  Runs-bind m f km kf = record {
    at = λ s.
        let (r, t) = m s in c.rel_trans s t (continue r f t).1 (km.at s) (continue-rel r f kf t);
  }

  pub Runs-then : (m : Act A) (n : Act B) → Runs c m → Runs c n → Runs c (m >> n)
  unfolding ◌>>◌
  Runs-then m n km kn = Runs-bind m (λ _. n) km (λ _. kn)

  pub Runs-option_case :
      (o : Option A) (m : Act B) (f : A → Act B)
      → Runs c m
      → ((a : A) → Runs c (f a))
      → Runs c (option_case o m f)
  unfolding option_case
  Runs-option_case none m f km kf = km
  Runs-option_case (some a) m f km kf = kf a

  handle-rel :
      (r : Result A) (f : A → Act B) (g : Fault → Act B)
      → ((a : A) → Runs c (f a))
      → ((e : Fault) → Runs c (g e))
      → (s : World) → c.rel s (handle r f g s).1
  handle-rel (ok a) f g kf kg s = (kf a).at s
  handle-rel (err e) f g kf kg s = (kg e).at s

  pub Runs-catch :
      (m : Act A) (f : A → Act B) (g : Fault → Act B)
      → Runs c m
      → ((a : A) → Runs c (f a))
      → ((e : Fault) → Runs c (g e))
      → Runs c (catch m f g)
  unfolding catch
  Runs-catch m f g km kf kg = record {
    at = λ s.
        let (r, t) = m s in c.rel_trans s t (handle r f g t).1 (km.at s) (handle-rel r f g kf kg t);
  }

-- The rules for `search`.
pub ruleset runs_rules = (
  Runs-pure, Runs-raise, Runs-gets, Runs-or_raise, Runs-raise_if, Runs-if, Runs-transaction,
  Runs-bind, Runs-then, Runs-option_case, Runs-catch,
)
