-- ===== src/Qris/Gate.antt =====
-- What `parseQris` of src/qris/parse.ts accepts: the CRC gate, the amount and the payload returned.
use mathlib.Core.Bool.{true, not}
use mathlib.Core.Option.{none}
use qrib.Qris.Amount.{IsShortest, whole_rupiah-IsShortest}
use qrib.Common.{Text, ◌≡◌, Bool, Option, subst, some, arith, refl, false, ◌&&◌, is_some}
use qrib.Qris.Reader.{Parsed, ◌>>=◌, ok, QrisError, Tlv, err, throw_if, ◌>>◌, whole_rupiah}
use qrib.Qris.Code.{
  Initiation, read_amount, read_code, QrisData, static, dynamic, is_dynamic, amount_of,
}
use mathlib.Core.List.{List}

-- A property of what a reader returns, if it returns.
pub record Yields {ℓ} {A : Type ℓ} (P : A → Type 0) (m : Parsed A) : Type ℓ where
  pub at : (a : A) → m ≡ ok a → P a

module _ {ℓ κ} {A : Type ℓ} {B : Type κ} where
  pub bind_ok :
      (m : Parsed A) (f : A → Parsed B) (b : B)
      → (m >>= f) ≡ ok b
      → (a : A) × (m ≡ ok a) × (f a ≡ ok b)
  unfolding ◌>>=◌
  bind_ok (ok a) f b e = (a, refl, e)
  bind_ok (err x) f b e = absurd (ground (arith, e))

  pub Yields-bind :
      (Q : A → Type 0) (P : B → Type 0) (m : Parsed A) (f : A → Parsed B)
      → Yields Q m
      → ((a : A) → Q a → Yields P (f a))
      → Yields P (m >>= f)
  Yields-bind Q P m f km kf = record {
    at = λ b e. let (a, e1, e2) = bind_ok m f b e in (kf a (km.at a e1)).at b e2;
  }

  -- The same where nothing need be known of the first result.
  pub Yields-skip :
      (P : B → Type 0) (m : Parsed A) (f : A → Parsed B)
      → ((a : A) → Yields P (f a))
      → Yields P (m >>= f)
  Yields-skip P m f kf = Yields-bind (λ _. Unit) P m f (record { at = λ a e. tt }) (λ a _. kf a)

pub Yields-ok {ℓ} : {A : Type ℓ} (P : A → Type 0) (a : A) → P a → Yields P (ok a)
Yields-ok P a h = record { at = λ b e. subst P (ground (arith, e)) h }

pub throw_if-false : (b : Bool) (x : QrisError) (u : Unit {0}) → throw_if b x ≡ ok u → b ≡ false
throw_if-false true x u e = absurd (ground (arith, e))
throw_if-false false x u e = refl

-- A dynamic code has an amount, in its shortest form; a static code has none.
abbrev pub AmountFits : Initiation → Option Text → Type 0
AmountFits static none = Unit
AmountFits static (some t) = ⊥
AmountFits dynamic none = ⊥
AmountFits dynamic (some t) = IsShortest t

pub Yields-throw {ℓ} :
    {A : Type ℓ} (P : A → Type 0) (b : Bool) (x : QrisError) (k : Parsed A)
    → (b ≡ false → Yields P k)
    → Yields P (throw_if b x >> k)
unfolding ◌>>◌
Yields-throw P b x k h =
    Yields-bind (λ _. b ≡ false) P (throw_if b x) (λ _. k)
      (record { at = λ u e. throw_if-false b x u e }) (λ _ e. h e)

pub Yields-throw_last :
    (P : Unit {0} → Type 0) (b : Bool) (x : QrisError)
    → (b ≡ false → P tt)
    → Yields P (throw_if b x)
Yields-throw_last P true x h = record { at = λ u e. absurd (ground (arith, e)) }
Yields-throw_last P false x h = Yields-ok P tt (h refl)

amount_of-AmountFits :
    (i : Initiation) (raw : Option Text)
    → (is_dynamic i && not (is_some raw)) ≡ false
    → (not (is_dynamic i) && is_some raw) ≡ false
    → Yields (AmountFits i) (amount_of raw)
amount_of-AmountFits static none given absent = Yields-ok (AmountFits static) none tt
amount_of-AmountFits static (some raw) given absent = absurd (ground (arith, absent))
amount_of-AmountFits dynamic none given absent = absurd (ground (arith, given))
amount_of-AmountFits dynamic (some raw) given absent =
    Yields-bind IsShortest (AmountFits dynamic) (whole_rupiah raw) (λ t. ok (some t))
      (record { at = λ t e. (whole_rupiah-IsShortest raw t e).0 })
      (λ t h. Yields-ok (AmountFits dynamic) (some t) h)

read_amount-AmountFits :
    (i : Initiation) (fields : List Tlv) → Yields (AmountFits i) (read_amount i fields)
unfolding read_amount
read_amount-AmountFits i fields =
    Yields-throw (AmountFits i) _ _ _
      λ given. Yields-throw (AmountFits i) _ _ _ λ absent. amount_of-AmountFits i _ given absent

-- What `parseQris` returns of a payload.
pub record IsReadOf (payload : Text) (initiation : Initiation) (d : QrisData) : Type 0 where
  pub whole : d.payload ≡ payload
  pub method : d.initiation ≡ initiation
  pub amount : AmountFits d.initiation d.amount_idr

pub read_code-IsReadOf :
    (payload : Text) (i : Initiation) (fields : List Tlv)
    → Yields (IsReadOf payload i) (read_code payload i fields)
unfolding read_code
read_code-IsReadOf payload i fields =
    let P = IsReadOf payload i in
    Yields-skip P _ _ λ merchant. Yields-skip P _ _ λ mcc. Yields-skip P _ _ λ currency.
      Yields-throw P _ _ _ λ _. Yields-skip P _ _ λ country. Yields-throw P _ _ _ λ _.
        Yields-skip P _ _ λ name. Yields-skip P _ _ λ city.
          Yields-bind (AmountFits i) P _ _ (read_amount-AmountFits i fields)
            λ amount fits. Yields-ok P _ (record { whole = refl; method = refl; amount = fits })
