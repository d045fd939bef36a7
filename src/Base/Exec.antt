-- ===== src/Base/Exec.antt =====
-- Methods that mutate an object and may raise. What was written before a raise stays written, so
-- the state comes back beside the error.
use mathlib.Core.Path.{◌≡◌, ap}
use fullerite.Base.Result.{Error, Result, ok, err}

abbrev pub Exec {ℓ κ} : Type ℓ → Type κ → Type (ℓ ⊔ κ)
Exec S A = S → Result A × S

module _ {ℓ κ} {S : Type ℓ} {A : Type κ} where
  abbrev pub pure : A → Exec S A
  pure a s = (ok a, s)

  abbrev pub raise : Error → Exec S A
  raise e s = (err e, s)

  abbrev pub lift : Result A → Exec S A
  lift r s = (r, s)

  abbrev pub gets : (S → A) → Exec S A
  gets f s = (ok (f s), s)

abbrev pub modify {ℓ} : {S : Type ℓ} → (S → S) → Exec S (Unit {0})
modify f s = (ok tt, f s)

infixl 5 ◌>>=◌ ◌>>◌
abbrev pub ◌>>=◌ {ℓ κ κ'} :
    {S : Type ℓ} {A : Type κ} {B : Type κ'} → Exec S A → (A → Exec S B) → Exec S B
◌>>=◌ m f s = let (r, s') = m s in elim r [ ok a ↦ f a s' | err e ↦ (err e, s') ]

abbrev pub ◌>>◌ {ℓ κ κ'} : {S : Type ℓ} {A : Type κ} {B : Type κ'} → Exec S A → Exec S B → Exec S B
m >> k = m >>= λ _. k

-- A bind whose first action's outcome is known.
module _ {ℓ κ κ'} {S : Type ℓ} {A : Type κ} {B : Type κ'} where
  pub bind_ok :
      (m : Exec S A) (f : A → Exec S B) {a : A} {s t : S} → m s ≡ (ok a, t) → (m >>= f) s ≡ f a t
  bind_ok m f e = ap (λ p. elim p.0 [ ok a ↦ f a p.1 | err x ↦ (err x, p.1) ]) e

  pub bind_err :
      (m : Exec S A) (f : A → Exec S B) {x : Error} {s t : S}
      → m s ≡ (err x, t)
      → (m >>= f) s ≡ (err x, t)
  bind_err m f e = ap (λ p. elim p.0 [ ok a ↦ f a p.1 | err x ↦ (err x, p.1) ]) e
