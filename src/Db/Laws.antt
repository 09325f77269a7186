-- ===== src/Db/Laws.antt =====
-- The laws of actions, at a state.
use qrib.Common.{◌≡◌, refl}
use qrib.Db.Tables.{World}
use qrib.Db.Monad.{Act, Result, ok, err, continue, ◌>>=◌}

module _ {ℓ κ} {A : Type ℓ} {B : Type κ} where
  continue_congr :
      (p : Result A × World) (f g : A → Act B)
      → ((a : A) (t : World) → f a t ≡ g a t)
      → continue p.0 f p.1 ≡ continue p.0 g p.1
  continue_congr (ok a, t) f g h = h a t
  continue_congr (err e, t) f g h = refl

  pub bind_congr :
      (m : Act A) (f g : A → Act B)
      → ((a : A) (t : World) → f a t ≡ g a t)
      → (s : World) → (m >>= f) s ≡ (m >>= g) s
  unfolding ◌>>=◌
  bind_congr m f g h s = continue_congr (m s) f g h

module _ {ℓ κ μ} {A : Type ℓ} {B : Type κ} {C : Type μ} where
  continue_assoc :
      (p : Result A × World) (f : A → Act B) (g : B → Act C)
      → (let q = continue p.0 f p.1 in continue q.0 g q.1) ≡ continue p.0 (λ a. f a >>= g) p.1
  unfolding ◌>>=◌
  continue_assoc (ok a, t) f g = refl
  continue_assoc (err e, t) f g = refl

  pub bind_assoc :
      (m : Act A) (f : A → Act B) (g : B → Act C) (s : World)
      → ((m >>= f) >>= g) s ≡ (m >>= λ a. f a >>= g) s
  unfolding ◌>>=◌
  bind_assoc m f g s = continue_assoc (m s) f g
