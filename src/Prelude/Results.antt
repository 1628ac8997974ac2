-- ===== src/Prelude/Results.antt =====
-- Rust's `Result<A, E>` with `?` as bind.
use mathlib.Core.Path.{◌≡◌, refl}
use mathlib.Core.Logic.{◌⊎◌, inl, inr}

pub data Result {ℓ κ} (A : Type ℓ) (E : Type κ) : Type (ℓ ⊔ κ) where
  ok : A → Result A E
  err : E → Result A E

-- `result.map(f)`
abbrev pub map_ok {ℓ κ μ} :
    {A : Type ℓ} {B : Type κ} {E : Type μ} → (A → B) → Result A E → Result B E
map_ok f (ok a) = ok (f a)
map_ok f (err e) = err e

-- `result.map_err(f)`
abbrev pub map_err {ℓ κ μ} :
    {A : Type ℓ} {E : Type κ} {F : Type μ} → (E → F) → Result A E → Result A F
map_err f (ok a) = ok a
map_err f (err e) = err (f e)

-- `let a = result?; …`
infixl 5 ◌>>=◌
abbrev pub ◌>>=◌ {ℓ κ μ} :
    {E : Type μ} {A : Type ℓ} {B : Type κ} → Result A E → (A → Result B E) → Result B E
ok a >>= rest = rest a
err e >>= rest = err e

-- `result?; …`
infixl 5 ◌>>◌
abbrev pub ◌>>◌ {κ μ} : {E : Type μ} {B : Type κ} → Result (Unit {0}) E → Result B E → Result B E
checked >> rest = checked >>= λ _. rest

-- A chain that succeeded: its first step gave a value, and the rest succeeded on it.
pub Result-bind_ok {ℓ κ μ} :
    {E : Type μ} {A : Type ℓ} {B : Type κ} {value : B} (first : Result A E) (rest : A → Result B E)
    → (first >>= rest) ≡ ok value
    → (given : A) × (first ≡ ok given) × (rest given ≡ ok value)
Result-bind_ok (ok given) rest done = (given, refl, done)
Result-bind_ok (err e) rest done = cc

pub Result-cases {ℓ κ} :
    {A : Type ℓ} {E : Type κ} (r : Result A E) → ((a : A) × (r ≡ ok a)) ⊎ ((e : E) × (r ≡ err e))
Result-cases (ok a) = inl (a, refl)
Result-cases (err e) = inr (e, refl)
