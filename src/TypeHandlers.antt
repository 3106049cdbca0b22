-- ===== src/TypeHandlers.antt =====
-- The handlers of ml_metadata/metadata_store/metadata_store.cc that put and get types, inside their
-- transactions, with SetBaseType and with GetSystemTypeEnum of
-- ml_metadata/metadata_store/simple_types_util.cc.
pub mod Base
mod Tests
use ml_metadata_l_metadata_s.Prelude.{
  ℕ, String, Bool, true, false, not, Option, none, some, List, [], ◌∷◌, str_eq, if◌then◌else◌,
}
use ml_metadata_l_metadata_s.Status.{
  Code, invalid_argument, unimplemented, is_not_found, Result, ok, err, ◌>>=◌,
}
use ml_metadata_l_metadata_s.Exec.{Exec, raise_if, ◌>>◌ as then_run}
use ml_metadata_l_metadata_s.Messages.{
  Kind, artifact, execution, context, TypeMessage, text_of, number_of, get_type_version,
}
use ml_metadata_l_metadata_s.Tables.{Db}
use ml_metadata_l_metadata_s.Types.{find_type_by_id, find_type_by_name_and_version, find_types}
use ml_metadata_l_metadata_s.Types.Parents.{find_parent_types_by_type_id}
use ml_metadata_l_metadata_s.Upsert.{parent_of, upsert_type, TypeIds, TypeLists, upsert_types}
use ml_metadata_l_metadata_s.Lineage.{without_simple_types}
use ml_metadata_l_metadata_s.Gets.{or_response}

-- PutTypes
abbrev put_types : Bool → TypeLists → Bool → Bool → Exec Db TypeIds
put_types all_fields_match types can_add can_omit =
    then_run (raise_if (not all_fields_match) unimplemented) (upsert_types types can_add can_omit)

-- PutArtifactType, PutExecutionType and PutContextType
abbrev put_type : Kind → Bool → TypeMessage → Bool → Bool → Exec Db ℕ
put_type kind all_fields_match type can_add can_omit =
    then_run (raise_if (not all_fields_match) unimplemented)
      (upsert_type kind type can_add can_omit)

-- `type_name_to_enum`. There is no such map for context types.
abbrev pub type_name_to_enum : Kind → List (String × ℕ)
type_name_to_enum artifact =
    ("unset_artifact_type", 0)
    ∷ ("mlmd.Dataset", 1)
    ∷ ("mlmd.Model", 2)
    ∷ ("mlmd.Metrics", 3)
    ∷ ("mlmd.Statistics", 4)
    ∷ []
type_name_to_enum execution =
    ("unset_execution_type", 0)
    ∷ ("mlmd.Train", 1)
    ∷ ("mlmd.Transform", 2)
    ∷ ("mlmd.Process", 3)
    ∷ ("mlmd.Evaluate", 4)
    ∷ ("mlmd.Deploy", 5)
    ∷ []
type_name_to_enum context = []

pub enum_at : String → List (String × ℕ) → Result ℕ
enum_at name [] = err invalid_argument
enum_at name ((key, value) ∷ rest) = if str_eq key name then ok value else enum_at name rest

-- GetSystemTypeEnum
pub get_system_type_enum : Kind → String → Result ℕ
unfolding enum_at
get_system_type_enum kind name = enum_at name (type_name_to_enum kind)

-- The last loop of SetBaseType.
abbrev pub with_parent : Kind → TypeMessage → Option TypeMessage → Result TypeMessage
with_parent kind type none = ok type
with_parent kind type (some parent) = get_system_type_enum kind (text_of parent.name) >>= λ value.
    ok (record type { base_type = some value })

abbrev pub with_parents :
    Kind → List (ℕ × TypeMessage) → List TypeMessage → Result (List TypeMessage)
with_parents kind parents [] = ok []
with_parents kind parents (type ∷ types) = do
  done ← with_parent kind type (parent_of (number_of type.id) parents)
  rest ← with_parents kind parents types
  ok (done ∷ rest)

abbrev pub type_ids : List TypeMessage → List ℕ
type_ids [] = []
type_ids (type ∷ types) = number_of type.id ∷ type_ids types

-- SetBaseType
abbrev pub set_base_type : Kind → List TypeMessage → Db → Result (List TypeMessage)
set_base_type kind [] db = ok []
set_base_type kind (type ∷ types) db =
    find_parent_types_by_type_id kind (type_ids (type ∷ types)) db >>= λ parents.
    with_parents kind parents (type ∷ types)

-- The handlers of context types do not call SetBaseType.
abbrev base_types_of : Kind → List TypeMessage → Db → Result (List TypeMessage)
base_types_of artifact types db = set_base_type artifact types db
base_types_of execution types db = set_base_type execution types db
base_types_of context types db = ok types

-- GetArtifactType, GetExecutionType and GetContextType: the response has the one type.
abbrev get_type : Kind → String → Option String → Db → Result (List TypeMessage)
get_type kind name version db =
    (find_type_by_name_and_version kind name (get_type_version version) db).0 >>= λ type.
    base_types_of kind (type ∷ []) db

abbrev add_if_found : Result TypeMessage → Result (List TypeMessage) → Result (List TypeMessage)
add_if_found (ok type) rest = rest >>= λ types. ok (type ∷ types)
add_if_found (err c) rest = if not (is_not_found c) then err c else rest

abbrev types_found : Kind → List ℕ → Db → Result (List TypeMessage)
types_found kind [] db = ok []
types_found kind (id ∷ ids) db =
    add_if_found (find_type_by_id kind id db).0 (types_found kind ids db)

-- GetArtifactTypesByID, GetExecutionTypesByID and GetContextTypesByID
abbrev get_types_by_id : Kind → List ℕ → Db → Result (List TypeMessage)
get_types_by_id kind ids db = types_found kind ids db >>= λ types. base_types_of kind types db

abbrev visible_types : Kind → List TypeMessage → List TypeMessage
visible_types artifact types = without_simple_types types
visible_types execution types = without_simple_types types
visible_types context types = types

-- GetArtifactTypes, GetExecutionTypes and GetContextTypes; the simple types are invisible to users.
abbrev get_types : Kind → Db → Result (List TypeMessage)
get_types kind db = or_response [] (find_types kind db).0 >>= λ types.
    base_types_of kind (visible_types kind types) db
