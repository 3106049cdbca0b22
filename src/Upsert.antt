-- ===== src/Upsert.antt =====
-- UpsertTypeInheritanceLink, UpsertType, UpsertTypes and UpsertSimpleTypes of
-- ml_metadata/metadata_store/metadata_store.cc, with GetSystemTypeExtension and IsUnsetBaseType of
-- ml_metadata/metadata_store/simple_types_util.{h,cc}.
pub mod Evolves
pub mod Keeps
pub mod NoCycles
mod Tests
use ml_metadata_l_metadata_s.Prelude.{
  ℕ, String, Bool, true, false, not, Option, none, some, List, [], ◌∷◌, ◌++◌, ◌==◌, get_elem?,
  str_eq, starts_with, if◌then◌else◌,
}
use ml_metadata_l_metadata_s.Status.{
  Code, invalid_argument, not_found, already_exists, unimplemented, is_not_found, Result, ok, err,
}
use ml_metadata_l_metadata_s.Exec.{Exec, pure, raise, lift, gets, raise_if, ◌>>=◌, ◌>>◌}
use ml_metadata_l_metadata_s.Messages.{
  Kind, execution, artifact, context, TypeMessage, text_of, number_of,
}
use ml_metadata_l_metadata_s.Consistency.{check_fields_consistent}
use ml_metadata_l_metadata_s.Tables.{Db}
use ml_metadata_l_metadata_s.Types.{
  find_type_by_name_and_version, create_type, update_type, create_parent_type_inheritance_link,
}
use ml_metadata_l_metadata_s.Types.Parents.{find_parent_types_by_type_id}

-- GetSystemTypeExtension: the type name that the options of the enum value carry.
abbrev pub system_type_names : Kind → List String
system_type_names artifact =
    "unset_artifact_type" ∷ "mlmd.Dataset" ∷ "mlmd.Model" ∷ "mlmd.Metrics" ∷ "mlmd.Statistics" ∷ []
system_type_names execution =
    "unset_execution_type" ∷ "mlmd.Train" ∷ "mlmd.Transform" ∷ "mlmd.Process" ∷ "mlmd.Evaluate"
    ∷ "mlmd.Deploy" ∷ []
system_type_names context = "unset_context_type" ∷ []

-- The extension of the value's descriptor, if there is one.
abbrev pub extension_at : Option String → Result String
extension_at none = err invalid_argument
extension_at (some name) = ok name

unfoldable pub get_system_type_extension : Kind → Option ℕ → Result String
get_system_type_extension kind none = err not_found
get_system_type_extension kind (some value) =
    extension_at (get_elem? (system_type_names kind) value)

-- IsUnsetBaseType
abbrev pub is_unset_base_type : String → Bool
is_unset_base_type type_name = starts_with type_name "unset"

-- `output_parent_types[type_id]`
pub parent_of : ℕ → List (ℕ × TypeMessage) → Option TypeMessage
parent_of id [] = none
parent_of id ((t, parent) ∷ rest) = if t == id then some parent else parent_of id rest

-- UpsertTypeInheritanceLink, once the parents are known.
pub settle_parent : Kind → TypeMessage → ℕ → String → Option TypeMessage → Exec Db (Unit {0})
settle_parent kind type type_id base_name (some parent) =
    raise_if (not (str_eq (text_of parent.name) base_name)) unimplemented
settle_parent kind type type_id base_name none = do
  base_type ← find_type_by_name_and_version kind base_name none
  create_parent_type_inheritance_link (record type { id = some type_id }) base_type

-- UpsertTypeInheritanceLink, by the field `base_type` of the type.
abbrev pub link_base : Kind → TypeMessage → ℕ → Option ℕ → Exec Db (Unit {0})
link_base kind type type_id none = pure tt
link_base kind type type_id (some base) = do
  base_name ← lift (get_system_type_extension kind (some base))
  raise_if (is_unset_base_type base_name) unimplemented
  parents ← gets (find_parent_types_by_type_id kind (type_id ∷ []))
  found ← lift parents
  settle_parent kind type type_id base_name (parent_of type_id found)

pub upsert_type_inheritance_link : Kind → TypeMessage → ℕ → Exec Db (Unit {0})
unfolding get_system_type_extension parent_of settle_parent
upsert_type_inheritance_link kind type type_id = link_base kind type type_id type.base_type

-- UpsertType on a name and version that are stored.
abbrev pub evolve_type :
    Kind → TypeMessage → Bool → Bool → TypeMessage → Result TypeMessage → Exec Db ℕ
evolve_type kind type can_add can_omit stored (err e) = raise already_exists
evolve_type kind type can_add can_omit stored (ok output) = do
  update_type kind output
  upsert_type_inheritance_link kind type (number_of stored.id)
  pure (number_of stored.id)

-- UpsertType, by the status of the search.
abbrev pub upsert_found : Kind → TypeMessage → Bool → Bool → Result TypeMessage → Exec Db ℕ
upsert_found kind type can_add can_omit (err c) = if not (is_not_found c) then raise c else do
  type_id ← create_type kind type
  upsert_type_inheritance_link kind type type_id
  pure type_id
upsert_found kind type can_add can_omit (ok stored) =
    evolve_type kind type can_add can_omit stored
      (check_fields_consistent stored type can_add can_omit)

pub upsert_type : Kind → TypeMessage → Bool → Bool → Exec Db ℕ
unfolding upsert_type_inheritance_link
upsert_type kind type can_add can_omit db =
    let found = (find_type_by_name_and_version kind (text_of type.name) type.version db).0 in
    upsert_found kind type can_add can_omit found db

-- One loop of UpsertTypes; the ids are the response.
pub upsert_all : Kind → List TypeMessage → Bool → Bool → Exec Db (List ℕ)
unfolding upsert_type
upsert_all kind [] can_add can_omit = pure []
upsert_all kind (type ∷ types) can_add can_omit =
    let upsert_rest = upsert_all kind types can_add can_omit in
    do id ← upsert_type kind type can_add can_omit; ids ← upsert_rest; pure (id ∷ ids)

pub record TypeIds : Type 0 where
  pub artifact_type_ids : List ℕ
  pub execution_type_ids : List ℕ
  pub context_type_ids : List ℕ

pub record TypeLists : Type 0 where
  pub artifact_types : List TypeMessage
  pub execution_types : List TypeMessage
  pub context_types : List TypeMessage

-- UpsertTypes, and UpsertSimpleTypes for the types that LoadSimpleTypes reads.
pub upsert_types : TypeLists → Bool → Bool → Exec Db TypeIds
unfolding upsert_all
upsert_types types can_add can_omit = do
  artifact_ids ← upsert_all artifact types.artifact_types can_add can_omit
  execution_ids ← upsert_all execution types.execution_types can_add can_omit
  context_ids ← upsert_all context types.context_types can_add can_omit
  pure record {
    artifact_type_ids = artifact_ids;
    execution_type_ids = execution_ids;
    context_type_ids = context_ids;
  }

pub upsert_simple_types : Result TypeLists → Exec Db TypeIds
unfolding upsert_types
upsert_simple_types load_simple_types = do
  simple_types ← lift load_simple_types
  upsert_types simple_types true true
