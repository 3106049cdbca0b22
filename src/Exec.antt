-- ===== src/Exec.antt =====
-- Methods that change the database and return absl::Status. What a method wrote before it failed
-- stays written until the transaction around it rolls back, so the state comes back beside an error.
pub mod Preserves
use ml_metadata_l_metadata_s.Prelude.{Bool, ◌≡◌, refl, if◌then◌else◌}
use ml_metadata_l_metadata_s.Status.{Code, Result, ok, err}

abbrev pub Exec {ℓ κ} : Type ℓ → Type κ → Type (ℓ ⊔ κ)
Exec S A = S → Result A × S

module _ {ℓ κ} {S : Type ℓ} {A : Type κ} where
  -- A value of the database, without a change to it.
  abbrev pub gets : (S → A) → Exec S A
  gets read db = (ok (read db), db)

  abbrev pub lift : Result A → Exec S A
  lift status db = (status, db)

  -- The status itself as a value: `const absl::Status status = call;`
  abbrev pub attempt : Exec S A → Exec S (Result A)
  attempt call db = let (status, db') = call db in (ok status, db')

  abbrev pub raise : Code → Exec S A
  raise code = lift (err code)

  abbrev pub pure : A → Exec S A
  pure out = lift (ok out)

module _ {ℓ} {S : Type ℓ} where
  -- `if (test) return error;`
  abbrev pub raise_if : Bool → Code → Exec S (Unit {0})
  raise_if test code db = (if test then err code else ok tt, db)

module _ {ℓ κ μ} {S : Type ℓ} {A : Type κ} {B : Type μ} where
  abbrev pub continue : Result A → (A → Exec S B) → Exec S B
  continue (err code) next db = (err code, db)
  continue (ok out) next db = next out db

  -- MLMD_RETURN_IF_ERROR on a call that writes.
  infixl 5 ◌>>=◌ ◌>>◌
  abbrev pub ◌>>=◌ : Exec S A → (A → Exec S B) → Exec S B
  ◌>>=◌ call next db = let (status, db') = call db in continue status next db'

  abbrev pub ◌>>◌ : Exec S A → Exec S B → Exec S B
  call >> rest = call >>= λ done. rest

module _ {ℓ κ μ} {S : Type ℓ} {A : Type κ} {B : Type μ} where
  continue-ok :
      (r : Result A) (f : A → Exec S B) (s : S) {b : B}
      → (continue r f s).0 ≡ ok b
      → (a : A) × (r ≡ ok a) × ((f a s).0 ≡ ok b) × ((continue r f s).1 ≡ (f a s).1)
  continue-ok (ok a) f s h = (a, refl, h, refl)
  continue-ok (err e) f s h = cc

  -- Inversion of a block that succeeds.
  pub bind-ok :
      (m : Exec S A) (f : A → Exec S B) (s : S) {b : B}
      → ((m >>= f) s).0 ≡ ok b
      → (a : A) × ((m s).0 ≡ ok a) × ((f a (m s).1).0 ≡ ok b) × (((m >>= f) s).1 ≡ (f a (m s).1).1)
  bind-ok m f s h = let (r, s') = m s in continue-ok r f s' h
