-- ===== src/Prelude/Runs.antt =====
-- Go code that may panic, or that loops: `unfinished` is a model that ran out of fuel.
use mathlib.Core.Path.{◌≡◌, refl}
use mathlib.Core.Logic.{◌⊎◌, inl, inr}

pub data Run {ℓ} (A : Type ℓ) : Type ℓ where
  returns : A → Run A
  panics : Run A
  unfinished : Run A

module _ {ℓ κ} {A : Type ℓ} {B : Type κ} where
  abbrev pub run_bind : Run A → (A → Run B) → Run B
  run_bind unfinished next = unfinished
  run_bind panics next = panics
  run_bind (returns a) next = next a

  pub run_bind-eq-returns :
      (first : Run A) (next : A → Run B) {b : B}
      → run_bind first next ≡ returns b
      → (a : A) × (first ≡ returns a) × (next a ≡ returns b)
  run_bind-eq-returns unfinished next h = cc
  run_bind-eq-returns panics next h = cc
  run_bind-eq-returns (returns a) next h = (a, refl, h)

  pub run_bind-eq-panics :
      (first : Run A) (next : A → Run B)
      → run_bind first next ≡ panics
      → (first ≡ panics) ⊎ ((a : A) × (first ≡ returns a) × (next a ≡ panics))
  run_bind-eq-panics unfinished next h = cc
  run_bind-eq-panics panics next h = inl refl
  run_bind-eq-panics (returns a) next h = inr (a, refl, h)
