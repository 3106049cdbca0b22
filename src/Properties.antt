-- ===== src/Properties.antt =====
-- ValidatePropertiesWithType and ModifyProperties of
-- ml_metadata/metadata_store/rdbms_metadata_access_object.cc, with InsertProperty, UpdateProperty and
-- DeleteProperty. ModifyProperties runs on the rows of one property table.
pub mod Rows
pub mod Validate
pub mod Delete
pub mod Steps
pub mod Modify
pub mod Spaces
mod Tests
use ml_metadata_l_metadata_s.Prelude.{
  ℕ, ◌+◌, String, Bool, true, false, not, ◌&&◌, Option, none, some, List, [], ◌∷◌, ◌++◌, ◌==◌,
  str_eq, if◌then◌else◌,
}
use ml_metadata_l_metadata_s.Status.{Code, invalid_argument, internal, Result, ok, err}
use ml_metadata_l_metadata_s.Exec.{Exec, pure, ◌>>=◌, ◌>>◌}
use ml_metadata_l_metadata_s.Maps.{lookup}
use ml_metadata_l_metadata_s.Messages.{
  PropertyType, unknown, int, double, string, struct, Value, not_set, int_value, double_value,
  string_value, struct_value,
}
use ml_metadata_l_metadata_s.Tables.{PropertyRow}
use ml_metadata_l_metadata_s.Tables.NodeQueries.{insert_property, update_property, delete_property}
use ml_metadata_l_metadata_s.Values.{Codec, value_case, same_case, same_value}

-- The switch on the registered type: `is_type_match`, or INTERNAL for another type.
abbrev pub type_match : PropertyType → Value → Result Bool
type_match unknown value = err internal
type_match int value = ok (value_case value == 1)
type_match double value = ok (value_case value == 2)
type_match string value = ok (value_case value == 3)
type_match struct value = ok (value_case value == 4)

abbrev match_status : Result Bool → Result (Unit {0})
match_status (err c) = err c
match_status (ok is_type_match) = if is_type_match then ok tt else err invalid_argument

abbrev pub property_status : Option PropertyType → Value → Result (Unit {0})
property_status none value = err invalid_argument
property_status (some type) value = match_status (type_match type value)

-- The loop goes on unless a property was refused.
abbrev pub check_next : Result (Unit {0}) → Result (Unit {0}) → Result (Unit {0})
check_next (err c) rest = err c
check_next (ok done) rest = rest

-- ValidatePropertiesWithType
unfoldable pub validate_properties :
    List (String × Value) → List (String × PropertyType) → Result (Unit {0})
validate_properties [] types = ok tt
validate_properties ((name, value) ∷ rest) types =
    check_next (property_status (lookup name types) value) (validate_properties rest types)

-- Whether the property is in `curr_properties` with a value of the same case.
abbrev has_case : Option Value → Value → Bool
has_case none value = false
has_case (some w) value = same_case w value

abbrev pub keeps_case : List (String × Value) → String → Value → Bool
keeps_case properties name value = has_case (lookup name properties) value

-- The loop that deletes the properties in P \ C; it returns how many it deleted.
unfoldable pub delete_stale :
    ℕ → List (String × Value) → List (String × Value) → Exec (List PropertyRow) ℕ
delete_stale node_id curr [] = pure 0
delete_stale node_id curr ((name, value) ∷ prev) =
    let delete_rest = delete_stale node_id curr prev in
    if keeps_case curr name value
    then delete_rest
    else (delete_property node_id name >> delete_rest >>= λ n. pure (n + 1))

-- One step of the second loop: the value of the previous properties with the same case decides.
abbrev pub write_property :
    Codec → ℕ → Bool → String → Value → Option Value → Exec (List PropertyRow) ℕ
write_property codec node_id is_custom name value none =
    insert_property codec node_id name is_custom value >> pure 1
write_property codec node_id is_custom name value (some prev) =
    if same_case prev value
    then if same_value prev value
      then pure 0
      else (update_property codec node_id name value >> pure 1)
    else (insert_property codec node_id name is_custom value >> pure 1)

-- The loop over the properties in C.
unfoldable pub write_changed :
    Codec → ℕ → Bool → List (String × Value) → List (String × Value) → Exec (List PropertyRow) ℕ
write_changed codec node_id is_custom prev [] = pure 0
write_changed codec node_id is_custom prev ((name, value) ∷ curr) =
    let write_rest = write_changed codec node_id is_custom prev curr in
    write_property codec node_id is_custom name value (lookup name prev) >>= λ m.
    write_rest >>= λ n. pure (m + n)

-- ModifyProperties; it returns `output_num_changed_properties`.
unfoldable pub modify_properties :
    Codec → List (String × Value) → List (String × Value) → ℕ → Bool → Exec (List PropertyRow) ℕ
unfolding delete_stale write_changed
modify_properties codec curr prev node_id is_custom = do
  deleted ← delete_stale node_id curr prev
  written ← write_changed codec node_id is_custom prev curr
  pure (deleted + written)
