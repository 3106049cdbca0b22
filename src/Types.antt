-- ===== src/Types.antt =====
-- The operations on types of ml_metadata/metadata_store/rdbms_metadata_access_object.cc: CreateTypeImpl,
-- FindTypeImpl, FindTypesImpl, UpdateTypeImpl, FindParentTypesByTypeIdImpl and
-- CreateParentTypeInheritanceLink.
pub mod Rows
pub mod Inserts
pub mod Create
pub mod Update
pub mod Find
pub mod NoCycles
pub mod Persist
pub mod Parents
mod Tests
use ml_metadata_l_metadata_s.Prelude.{
  ℕ, ◌+◌, String, Bool, true, false, not, ◌&&◌, ◌||◌, Option, none, some, List, [], ◌∷◌, ◌++◌, ◌==◌,
  str_eq, if◌then◌else◌, length, mem, map,
}
use ml_metadata_l_metadata_s.Status.{
  Code, invalid_argument, not_found, already_exists, internal, unique_violation, duplicate_key_name,
  Result, ok, err,
}
use ml_metadata_l_metadata_s.Exec.{Exec, pure, raise, lift, gets, attempt, raise_if, ◌>>=◌, ◌>>◌}
use ml_metadata_l_metadata_s.Maps.{lookup}
use ml_metadata_l_metadata_s.Messages.{
  Kind, PropertyType, unknown, same_type, same_kind, TypeMessage, text_of, is_set, number_of,
  get_type_version,
}
use ml_metadata_l_metadata_s.Ancestry.{Links, check_cyclic_dependency}
use ml_metadata_l_metadata_s.Tables.{Db, TypeRow, TypePropertyRow}
use ml_metadata_l_metadata_s.Tables.TypeQueries.{
  insert_type, select_type_by_id, select_type_by_name_and_version, select_properties_by_type_id,
  insert_type_property, insert_parent_type, select_all_types,
}

-- ParseRecordSetToMessage on a row of `Type`: a NULL column leaves its field unset.
abbrev pub type_message : TypeRow → List (String × PropertyType) → TypeMessage
type_message row properties = record {
  id = some row.id;
  name = some row.name;
  version = row.version;
  description = row.description;
  properties = properties;
  base_type = none;
}

-- FindTypesFromRecordSet, with `get_properties`.
unfoldable pub find_types_from_rows : List TypePropertyRow → List TypeRow → List TypeMessage
find_types_from_rows properties [] = []
find_types_from_rows properties (row ∷ rows) =
    type_message row (select_properties_by_type_id row.id properties)
    ∷ find_types_from_rows properties rows

-- `*type = types[0]`, or NOT_FOUND.
pub first_type : List TypeMessage → Result TypeMessage
first_type [] = err not_found
first_type (type ∷ _) = ok type

-- FindTypeImpl by id, and by name and version.
unfoldable pub find_type_by_id : Kind → ℕ → Exec Db TypeMessage
unfolding find_types_from_rows first_type
find_type_by_id kind id db =
    (first_type (find_types_from_rows db.type_properties (select_type_by_id id kind db.types)), db)

-- SelectTypeByNameAndVersion takes an empty version for none.
unfoldable pub find_type_by_name_and_version : Kind → String → Option String → Exec Db TypeMessage
unfolding find_types_from_rows first_type
find_type_by_name_and_version kind name version db = (
  first_type (
      find_types_from_rows db.type_properties
        (select_type_by_name_and_version name (get_type_version version) kind db.types)),
  db,
)

-- FindAllTypeInstancesImpl.
unfoldable pub find_types : Kind → Exec Db (List TypeMessage)
unfolding find_types_from_rows
find_types kind db =
    (ok (find_types_from_rows db.type_properties (select_all_types kind db.types)), db)

-- The loop of CreateTypeImpl over the properties.
pub insert_type_properties : ℕ → List (String × PropertyType) → Exec Db (Unit {0})
insert_type_properties type_id [] = pure tt
insert_type_properties type_id ((name, value) ∷ rest) =
    let insert_rest = insert_type_properties type_id rest in
    do
      raise_if (same_type value unknown) invalid_argument
      insert_type_property type_id name value
      insert_rest

-- CreateTypeImpl and InsertTypeID.
unfoldable pub create_type : Kind → TypeMessage → Exec Db ℕ
unfolding insert_type_properties
create_type kind type = do
  raise_if (str_eq (text_of type.name) "") invalid_argument
  type_id ← insert_type kind (text_of type.name) (get_type_version type.version) type.description
  insert_type_properties type_id type.properties
  pure type_id

-- The loop of UpdateTypeImpl over the properties.
pub update_type_properties :
    ℕ → List (String × PropertyType) → List (String × PropertyType) → Exec Db (Unit {0})
update_type_properties type_id stored [] = pure tt
update_type_properties type_id stored ((name, value) ∷ rest) =
    let update_rest = update_type_properties type_id stored rest in
    do
      raise_if (same_type value unknown) invalid_argument
      elim (lookup name stored) [
        | some w ↦ do raise_if (not (same_type w value)) already_exists; update_rest
        | none ↦ do insert_type_property type_id name value; update_rest
      ]

-- Whether the id of a message is set and is another one.
abbrev pub other_id : Option ℕ → Option ℕ → Bool
other_id none stored = false
other_id (some id) stored = not (id == number_of stored)

-- UpdateTypeImpl.
unfoldable pub update_type : Kind → TypeMessage → Exec Db (Unit {0})
unfolding find_type_by_name_and_version update_type_properties
update_type kind type = do
  raise_if (not (is_set type.name)) invalid_argument
  stored ← find_type_by_name_and_version kind (text_of type.name) (get_type_version type.version)
  raise_if (other_id type.id stored.id) invalid_argument
  update_type_properties (number_of stored.id) stored.properties type.properties

-- IsUniqueConstraintViolated turns a status into ALREADY_EXISTS.
abbrev pub cast_unique {ℓ} : {A : Type ℓ} → Result A → Result A
cast_unique (err unique_violation) = err already_exists
cast_unique (err duplicate_key_name) = err already_exists
cast_unique r = r

abbrev pub with_unique_cast {ℓ} : {A : Type ℓ} → Exec Db A → Exec Db A
with_unique_cast m db = let (r, db') = m db in (cast_unique r, db')

-- What the walk answers; its fuel does not run out.
abbrev pub walk_status : Option (Result (Unit {0})) → Result (Unit {0})
walk_status none = err internal
walk_status (some r) = r

-- CreateParentTypeInheritanceLink.
pub create_parent_type_inheritance_link : TypeMessage → TypeMessage → Exec Db (Unit {0})
create_parent_type_inheritance_link type parent_type = do
  raise_if (not (is_set type.id) || not (is_set parent_type.id)) invalid_argument
  links ← gets (λ (db : Db). db.parent_types)
  lift (walk_status (check_cyclic_dependency links (number_of type.id) (number_of parent_type.id)))
  with_unique_cast (insert_parent_type (number_of type.id) (number_of parent_type.id))
