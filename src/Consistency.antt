-- ===== src/Consistency.antt =====
-- `CheckFieldsConsistent` of ml_metadata/metadata_store/metadata_store.cc.
mod Loop
pub mod Merge
mod Tests
use ml_metadata_l_metadata_s.Prelude.{
  ℕ, ◌+◌, ◌-◌, String, Bool, true, false, not, ◌&&◌, List, [], ◌∷◌, ◌++◌, none, some, ltb, ◌==◌,
  str_eq, if◌then◌else◌, length,
}
use ml_metadata_l_metadata_s.Status.{failed_precondition, Result, ok, err, ◌>>=◌}
use ml_metadata_l_metadata_s.Maps.{lookup, contains}
use ml_metadata_l_metadata_s.Messages.{PropertyType, same_type, TypeMessage, text_of}

abbrev pub Properties : Type 0
Properties = List (String × PropertyType)

-- The loop over the stored properties; it returns `omitted_fields_count`.
pub count_omitted : Properties → Properties → Bool → ℕ → Result ℕ
count_omitted [] other can_omit omitted = ok omitted
count_omitted ((key, value) ∷ rest) other can_omit omitted = elim (lookup key other) [
  | none ↦
      if not can_omit
      then err failed_precondition
      else count_omitted rest other can_omit (omitted + 1)
  | some w ↦
      if not (same_type w value)
      then err failed_precondition
      else if ltb 0 omitted && not can_omit
      then err failed_precondition
      else count_omitted rest other can_omit omitted
]

-- The properties of the given type that the stored type lacks.
pub new_fields : Properties → Properties → Properties
new_fields stored [] = []
new_fields stored ((name, value) ∷ rest) =
    let more = new_fields stored rest in if contains name stored then more else (name, value) ∷ more

-- What follows the loop.
pub merge_types : TypeMessage → TypeMessage → Bool → ℕ → Result TypeMessage
unfolding new_fields
merge_types stored other can_add omitted =
    if length stored.properties - omitted == length other.properties
    then ok stored
    else if not can_add
    then err failed_precondition
    else ok (record stored {
      properties = stored.properties ++ new_fields stored.properties other.properties;
    })

unfoldable pub check_fields_consistent :
    TypeMessage → TypeMessage → Bool → Bool → Result TypeMessage
unfolding count_omitted merge_types
check_fields_consistent stored other can_add can_omit =
    if not (str_eq (text_of stored.name) (text_of other.name)) then err failed_precondition else do
      omitted ← count_omitted stored.properties other.properties can_omit 0
      merge_types stored other can_add omitted
