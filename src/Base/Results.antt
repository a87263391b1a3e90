-- ===== src/Base/Results.antt =====
-- What a Go function that returns an error can do: return a value, return an error, or panic.
use mathlib.Core.Path.{◌≡◌, ap}
use mathlib.Core.Option.{Option, none, some}

pub data Result {ℓ κ} (E : Type ℓ) (A : Type κ) : Type (ℓ ⊔ κ) where
  ok : A → Result E A
  err : E → Result E A
  panic : Result E A

module _ {ℓ} {E : Type ℓ} where
  infixl 5 ◌>>=◌
  abbrev pub ◌>>=◌ {κ κ'} : {A : Type κ} {B : Type κ'} → Result E A → (A → Result E B) → Result E B
  ok a >>= f = f a
  err e >>= f = err e
  panic >>= f = panic

  -- The value of an operation that panics where it has none.
  abbrev pub or_panic {κ} : {A : Type κ} → Option A → Result E A
  or_panic none = panic
  or_panic (some a) = ok a

  -- What a receiver holds after a call that writes to it only when it succeeds.
  abbrev pub after {κ} : {A : Type κ} → A → Result E A → A
  after a (ok b) = b
  after a (err e) = a
  after a panic = a

  pub ok_injective {κ} : {A : Type κ} (a b : A) → Path (Result E A) (ok a) (ok b) → a ≡ b
  ok_injective a b h = ap (after a) h
