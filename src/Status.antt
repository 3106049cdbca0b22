-- ===== src/Status.antt =====
-- absl::Status as it is used across the program, and the macros of
-- ml_metadata/util/return_utils.h. A message is not kept, except for what
-- `IsUniqueConstraintViolated` reads in it: `unique_violation` is an INTERNAL status whose
-- message the database filled with "UNIQUE" or "Duplicate", and `duplicate_key_name` one that says
-- "Duplicate key name". `fatal` ends the process: LOG(FATAL) or a
-- CHECK that fails.
use ml_metadata_l_metadata_s.Prelude.{Bool, true, false, ◌≡◌, refl, arith, ◌⊎◌, inl, inr}

pub data Code : Type 0 where
  cancelled invalid_argument not_found already_exists failed_precondition : Code
  aborted out_of_range unimplemented internal unique_violation data_loss duplicate_key_name fatal :
      Code

-- What a method returns: absl::Status, with the value of its output parameter.
pub data Result {ℓ} (A : Type ℓ) : Type ℓ where
  err : Code → Result A
  ok : A → Result A

-- absl::IsNotFound and absl::IsAlreadyExists
abbrev pub is_not_found : Code → Bool
is_not_found not_found = true
is_not_found _ = false

abbrev pub is_already_exists : Code → Bool
is_already_exists already_exists = true
is_already_exists _ = false

module _ {ℓ κ} {A : Type ℓ} {B : Type κ} where
  -- `MLMD_RETURN_IF_ERROR(call); next`, where `next` reads the output parameter.
  infixl 5 ◌>>=◌
  abbrev pub ◌>>=◌ : Result A → (A → Result B) → Result B
  err c >>= next = err c
  ok out >>= next = next out

  pub >>=-eq-ok :
      (call : Result A) (next : A → Result B) {out : B}
      → (call >>= next) ≡ ok out
      → (a : A) × (call ≡ ok a) × (next a ≡ ok out)
  >>=-eq-ok (err c) next h = cc
  >>=-eq-ok (ok a) next h = (a, refl, h)

-- The same for a call without an output parameter.
infixl 5 ◌>>◌
abbrev pub ◌>>◌ {ℓ} : {B : Type ℓ} → Result (Unit {0}) → Result B → Result B
call >> rest = call >>= λ done. rest

-- An early return with an error when the test holds.
abbrev pub reject_if : Bool → Code → Result (Unit {0})
reject_if true e = err e
reject_if false e = ok tt

abbrev pub IsOk {ℓ} : {A : Type ℓ} → Result A → Type 0
IsOk (err c) = ⊥
IsOk (ok a) = Unit

pub Result-cases {ℓ} :
    {A : Type ℓ} (r : Result A) → ((a : A) × (r ≡ ok a)) ⊎ ((e : Code) × (r ≡ err e))
Result-cases (ok a) = inl (a, refl)
Result-cases (err e) = inr (e, refl)

pub ok-injective {ℓ} : {A : Type ℓ} {a b : A} → ok a ≡ ok b → a ≡ b
ok-injective h = ground arith

pub err-ok {ℓ} : {A : Type ℓ} {c : Code} {a : A} → ¬ (err c ≡ ok a)
err-ok h = ground arith
