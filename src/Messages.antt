-- ===== src/Messages.antt =====
-- The messages of ml_metadata/proto/metadata_store.proto that the handlers read and write. A field
-- that may be unset is an `Option`. The templates of the C++ code range over three kinds of node
-- and type, which differ in a few fields; here the kind is an argument, and `Node` and `TypeMessage`
-- have the fields of all three.
use ml_metadata_l_metadata_s.Prelude.{
  ℕ, String, Bool, true, false, Option, none, some, List, ◌≡◌, ◌↔◌, arith, ◌==◌, str_eq,
}

-- Which instance of a template: TypeKind of ml_metadata/metadata_store/constants.h.
pub data Kind : Type 0 where
  execution artifact context : Kind

abbrev pub same_kind : Kind → Kind → Bool
same_kind execution execution = true
same_kind artifact artifact = true
same_kind context context = true
same_kind _ _ = false

-- Ids and times are natural numbers: the database hands out positive ids.
pub data PropertyType : Type 0 where
  unknown int double string struct : PropertyType

-- The enum's values, as they are stored.
abbrev pub data_type : PropertyType → ℕ
data_type unknown = 0
data_type int = 1
data_type double = 2
data_type string = 3
data_type struct = 4

abbrev pub same_type : PropertyType → PropertyType → Bool
same_type a b = data_type a == data_type b

pub same_type_iff : (a b : PropertyType) → (same_type a b ≡ true) ↔ (a ≡ b)
same_type_iff a b = ground arith

-- `negsuc n` is -(n + 1).
pub data ℤ : Type 0 where
  pos : ℕ → ℤ
  negsuc : ℕ → ℤ

-- `Value`: a double is its bit pattern, a string its bytes, a struct its serialized bytes.
pub data Value : Type 0 where
  not_set : Value
  int_value : ℤ → Value
  double_value : ℕ → Value
  string_value : List ℕ → Value
  struct_value : List ℕ → Value

pub record TypeMessage : Type 0 where
  pub id : Option ℕ
  pub name : Option String
  pub version : Option String
  pub description : Option String
  pub properties : List (String × PropertyType)
  -- The number of the enum value, if the field is set.
  pub base_type : Option ℕ

-- `uri` is an artifact's, `state` an artifact's `state` or an execution's `last_known_state`.
pub record Node : Type 0 where
  pub id : Option ℕ
  pub type_id : Option ℕ
  pub name : Option String
  pub uri : Option String
  pub state : Option ℕ
  pub properties : List (String × Value)
  pub custom_properties : List (String × Value)
  pub create_time_since_epoch : Option ℕ
  pub last_update_time_since_epoch : Option ℕ

pub data Step : Type 0 where
  index : ℕ → Step
  key : String → Step
  unset_step : Step

pub record Event : Type 0 where
  pub artifact_id : Option ℕ
  pub execution_id : Option ℕ
  pub type : Option ℕ
  pub milliseconds_since_epoch : Option ℕ
  pub path : List Step

-- `name()` of a field that is not set is the empty string.
abbrev pub text_of : Option String → String
text_of none = ""
text_of (some s) = s

abbrev pub is_set {ℓ} : {A : Type ℓ} → Option A → Bool
is_set none = false
is_set (some a) = true

-- `id()` of a field that is not set is 0.
abbrev pub number_of : Option ℕ → ℕ
number_of none = 0
number_of (some n) = n

-- GetTypeVersion and GetRequestTypeVersion: an empty version counts as none.
unfoldable pub get_type_version : Option String → Option String
get_type_version none = none
get_type_version (some v) = elim (str_eq v "") [ true ↦ none | false ↦ some v ]
