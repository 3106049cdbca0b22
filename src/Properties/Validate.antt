-- ===== src/Properties/Validate.antt =====
-- What ValidatePropertiesWithType accepts.
use ml_metadata_l_metadata_s.Prelude.{
  String, ◌≡◌, ◌≢◌, ◌↔◌, refl, Bool, true, ==_iff, inl, inr, Option, none, some, List, [], ◌∷◌,
  ◌==◌, if◌then◌else◌, arith, All,
}
use ml_metadata_l_metadata_s.Status.{invalid_argument, ok, err, Result-cases, err-ok}
use ml_metadata_l_metadata_s.Maps.{lookup}
use ml_metadata_l_metadata_s.Messages.{
  PropertyType, unknown, int, double, string, struct, data_type, Value,
}
use ml_metadata_l_metadata_s.Values.{value_case}
use ml_metadata_l_metadata_s.Properties.{property_status, validate_properties}

-- A value against the type that is registered for its name: it is registered, known, and has the
-- value's case.
abbrev pub Conforms : Option PropertyType → Value → Type 0
Conforms none v = ⊥
Conforms (some t) v = (t ≢ unknown) × (value_case v ≡ data_type t)

accepted : (b : Bool) → (if b then ok (tt {0}) else err invalid_argument) ≡ ok tt → b ≡ true
accepted b h = ground arith

property_status_iff :
    (t : Option PropertyType) (v : Value) → (property_status t v ≡ ok tt) ↔ Conforms t v
property_status_iff none v = (λ h. ground arith, λ h. absurd h)
property_status_iff (some unknown) v = (λ h. ground arith, λ h. absurd (h.0 refl))
property_status_iff (some int) v = (
  λ h. (λ e. ground arith, (==_iff (value_case v) 1).0 (accepted (value_case v == 1) h)),
  λ h. rw ((==_iff (value_case v) 1).1 h.1) refl,
)
property_status_iff (some double) v = (
  λ h. (λ e. ground arith, (==_iff (value_case v) 2).0 (accepted (value_case v == 2) h)),
  λ h. rw ((==_iff (value_case v) 2).1 h.1) refl,
)
property_status_iff (some string) v = (
  λ h. (λ e. ground arith, (==_iff (value_case v) 3).0 (accepted (value_case v == 3) h)),
  λ h. rw ((==_iff (value_case v) 3).1 h.1) refl,
)
property_status_iff (some struct) v = (
  λ h. (λ e. ground arith, (==_iff (value_case v) 4).0 (accepted (value_case v == 4) h)),
  λ h. rw ((==_iff (value_case v) 4).1 h.1) refl,
)

-- Every given value conforms.
abbrev pub AllConform : List (String × PropertyType) → List (String × Value) → Type 0
AllConform types properties =
    All (λ (p : String × Value). Conforms (lookup p.0 types) p.1) properties

-- The validation accepts exactly the properties that are all registered, under a known type, with a
-- value of that type.
pub validate_properties_iff :
    (properties : List (String × Value)) (types : List (String × PropertyType))
    → (validate_properties properties types ≡ ok tt) ↔ AllConform types properties
unfolding validate_properties
validate_properties_iff [] types = (λ _. tt, λ _. refl)
validate_properties_iff ((k, v) ∷ rest) types = (
  λ h. elim (Result-cases (property_status (lookup k types) v)) [
    | inl (u, good) ↦ (
      (property_status_iff (lookup k types) v).0 good,
      (validate_properties_iff rest types).0 (rw good at h),
    )
    | inr (c, bad) ↦ absurd (err-ok (rw bad at h))
  ],
  λ (here, more).
      rw ((property_status_iff (lookup k types) v).1 here)
        ((validate_properties_iff rest types).1 more),
)
