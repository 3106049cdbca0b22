-- ===== src/TypeHandlers/Base.antt =====
-- The map of GetSystemTypeEnum and the options of the enum values in the proto agree.
use ml_metadata_l_metadata_s.Prelude.{
  ℕ, zero, suc, String, ◌≡◌, refl, ap, sym, subst, ◌∙◌, true, false, eq_iff, ◌↔◌, Bool-cases, inl,
  inr, Option, none, some, List, [], ◌∷◌, ◌+◌, get_elem?, str_eq, arith,
}
use ml_metadata_l_metadata_s.Status.{ok, err-ok, ok-injective}
use ml_metadata_l_metadata_s.Messages.{Kind, artifact, execution, context}
use ml_metadata_l_metadata_s.Upsert.{extension_at, system_type_names, get_system_type_extension}
use ml_metadata_l_metadata_s.TypeHandlers.{type_name_to_enum, enum_at, get_system_type_enum}

-- The names with the numbers from n on.
abbrev numbered : ℕ → List String → List (String × ℕ)
numbered n [] = []
numbered n (name ∷ names) = (name, n) ∷ numbered (n + 1) names

-- A name is not one of a list.
abbrev IsNew : String → List String → Type 0
IsNew name [] = Unit {0}
IsNew name (other ∷ names) = (str_eq name other ≡ false) × IsNew name names

abbrev AreDistinct : List String → Type 0
AreDistinct [] = Unit {0}
AreDistinct (name ∷ names) = IsNew name names × AreDistinct names

IsNew-element :
    (names : List String) (i : ℕ) (first name : String)
    → IsNew first names
    → get_elem? names i ≡ some name
    → str_eq first name ≡ false
IsNew-element [] i first name new h = cc
IsNew-element (other ∷ names) zero first name (new, rest) h =
    subst (λ n. str_eq first n ≡ false) (element_of h) new
  where
    element_of : {a b : String} → some a ≡ some b → a ≡ b
    element_of e = ground arith
IsNew-element (other ∷ names) (suc i) first name (new, rest) h =
    IsNew-element names i first name rest h

enum_at-element :
    (names : List String) (n i : ℕ) (name : String)
    → AreDistinct names
    → get_elem? names i ≡ some name
    → enum_at name (numbered n names) ≡ ok (n + i)
unfolding enum_at
enum_at-element [] n i name distinct h = cc
enum_at-element (first ∷ names) n zero name distinct h =
    let same : str_eq first name ≡ true = (eq_iff first name).1 (element_of h) in
    rw same (ap ok (omega arith))
  where
    element_of : {a b : String} → some a ≡ some b → a ≡ b
    element_of e = ground arith
enum_at-element (first ∷ names) n (suc i) name (new, distinct) h =
    rw (IsNew-element names i first name new h)
      (enum_at-element names (n + 1) i name distinct h ∙ ap ok (omega arith))

element-enum_at :
    (names : List String) (n value : ℕ) (name : String)
    → enum_at name (numbered n names) ≡ ok value
    → (i : ℕ) × (n + i ≡ value) × (get_elem? names i ≡ some name)
unfolding enum_at
element-enum_at [] n value name h = absurd (err-ok h)
element-enum_at (first ∷ names) n value name h = elim (Bool-cases (str_eq first name)) [
  | inl same ↦
      let at : n ≡ value = ok-injective (rw same at h) in
      (0, omega arith, ap some ((eq_iff first name).0 same))
  | inr other ↦
      let (i, at, found) = element-enum_at names (n + 1) value name (rw other at h) in
      (suc i, omega arith, found)
]

extension_at-ok :
    (found : Option String) (name : String) → extension_at found ≡ ok name → found ≡ some name
extension_at-ok none name h = absurd (err-ok h)
extension_at-ok (some found) name h = ap some (ok-injective h)

-- The two tables have the same names at the same values.
abbrev Agrees : Kind → Type 0
Agrees kind =
    (type_name_to_enum kind ≡ numbered 0 (system_type_names kind))
    × AreDistinct (system_type_names kind)

tables_agree : (kind : Kind) → ¬ (kind ≡ context) → Agrees kind
tables_agree artifact h = (
  refl,
  (
    (refl, (refl, (refl, (refl, tt)))),
    ((refl, (refl, (refl, tt))), ((refl, (refl, tt)), ((refl, tt), (tt, tt)))),
  ),
)
tables_agree execution h = (
  refl,
  (
    (refl, (refl, (refl, (refl, (refl, tt))))),
    (
      (refl, (refl, (refl, (refl, tt)))),
      ((refl, (refl, (refl, tt))), ((refl, (refl, tt)), ((refl, tt), (tt, tt)))),
    ),
  ),
)
tables_agree context h = absurd (h refl)

-- For artifact and execution types, GetSystemTypeEnum gives a value of the enum for a name exactly
-- if GetSystemTypeExtension gives the name for a type with that base_type: the map in the code and
-- the options of the enum values in the proto say the same.
pub get_system_type_enum_iff :
    (kind : Kind) (value : ℕ) (name : String)
    → ¬ (kind ≡ context)
    → (get_system_type_enum kind name ≡ ok value)
      ↔ (get_system_type_extension kind (some value) ≡ ok name)
unfolding get_system_type_enum get_system_type_extension
get_system_type_enum_iff kind value name h =
    let (same, distinct) = tables_agree kind h in
    let names = system_type_names kind in
    (
      λ e.
          let (i, at, found) =
            element-enum_at names 0 value name (ap (enum_at name) (sym same) ∙ e) in
          ap (λ j. extension_at (get_elem? names j)) (sym at ∙ omega arith) ∙ ap extension_at found,
      λ e.
          ap (enum_at name) same
          ∙ enum_at-element names 0 value name distinct
              (extension_at-ok (get_elem? names value) name e)
          ∙ ap ok (omega arith),
    )
