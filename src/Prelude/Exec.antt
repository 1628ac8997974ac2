-- ===== src/Prelude/Exec.antt =====
-- A method on `&mut self` that may return early with an error: the state comes back beside the
-- error too, since what was consumed or written before the error stays so.
use mathlib.Core.Path.{◌≡◌, refl}
use qup.Prelude.Results.{Result, ok, err}

abbrev pub Exec {ℓ κ μ} : Type ℓ → Type κ → Type μ → Type (ℓ ⊔ κ ⊔ μ)
Exec S E A = S → Result A E × S

module _ {ℓ κ μ} {S : Type ℓ} {E : Type κ} {A : Type μ} where
  abbrev pub pure : A → Exec S E A
  pure a s = (ok a, s)

  abbrev pub raise : E → Exec S E A
  raise e s = (err e, s)

  abbrev pub lift : Result A E → Exec S E A
  lift r s = (r, s)

module _ {ℓ κ μ ν} {S : Type ℓ} {E : Type κ} {A : Type μ} {B : Type ν} where
  abbrev pub continue : Result A E × S → (A → Exec S E B) → Result B E × S
  continue (ok a, s) f = f a s
  continue (err e, s) f = (err e, s)

  infixl 5 ◌>>=◌
  abbrev pub ◌>>=◌ : Exec S E A → (A → Exec S E B) → Exec S E B
  ◌>>=◌ m f s = continue (m s) f

module _ {ℓ κ ν} {S : Type ℓ} {E : Type κ} {B : Type ν} where
  infixl 5 ◌>>◌
  abbrev pub ◌>>◌ : Exec S E (Unit {0}) → Exec S E B → Exec S E B
  m >> n = m >>= λ _. n

-- A computation that succeeded went on from a success.
pub continue-ok {ℓ κ μ ν} :
    {S : Type ℓ} {E : Type κ} {A : Type μ} {B : Type ν} (r : Result A E × S) (f : A → Exec S E B)
    {b : B} {s' : S}
    → continue r f ≡ (ok b, s')
    → (a : A) × (t : S) × (r ≡ (ok a, t)) × (f a t ≡ (ok b, s'))
continue-ok (ok a, t) f h = (a, t, refl, h)
continue-ok (err e, t) f h = cc
