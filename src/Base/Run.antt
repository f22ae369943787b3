-- ===== src/Base/Run.antt =====
-- Code that may crash: a null pointer that is read, or an array that is overrun.
use mathlib.Core.Path.{◌≡◌, refl}
use mathlib.Core.Logic.{◌⊎◌, inl, inr}

pub data Run {ℓ} (A : Type ℓ) : Type ℓ where
  crash : Run A
  ok : A → Run A

-- What follows a crash does not run.
infixl 5 ◌>>=◌
abbrev pub ◌>>=◌ {ℓ} : {A B : Type ℓ} → Run A → (A → Run B) → Run B
crash >>= next = crash
ok a >>= next = next a

pub Run-cases {ℓ} : {A : Type ℓ} (r : Run A) → (r ≡ crash) ⊎ ((a : A) × (r ≡ ok a))
Run-cases crash = inl refl
Run-cases (ok a) = inr (a, refl)
