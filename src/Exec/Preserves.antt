-- ===== src/Exec/Preserves.antt =====
-- Predicates of the state that a method preserves, whichever way it returns.
use ml_metadata_l_metadata_s.Status.{Result, ok, err}
use ml_metadata_l_metadata_s.Exec.{Exec, continue, ◌>>=◌}

abbrev pub Preserves {ℓ κ μ} : {S : Type ℓ} {A : Type κ} → (S → Type μ) → Exec S A → Type (ℓ ⊔ μ)
Preserves {S} P m = (s : S) → P s → P (m s).1

module _ {ℓ κ μ ν} {S : Type ℓ} {A : Type κ} {B : Type μ} (P : S → Type ν) where
  continue-Preserves :
      (r : Result A) (f : A → Exec S B) → ((a : A) → Preserves P (f a)) → Preserves P (continue r f)
  continue-Preserves (ok a) f h s p = h a s p
  continue-Preserves (err e) f h s p = p

  pub bind-Preserves :
      (m : Exec S A) (f : A → Exec S B)
      → Preserves P m
      → ((a : A) → Preserves P (f a))
      → Preserves P (m >>= f)
  bind-Preserves m f h k s p = let (r, s') = m s in continue-Preserves r f k s' (h s p)
