-- ===== src/Types/Parents.antt =====
-- FindTypesImpl by a list of ids and FindParentTypesByTypeIdImpl of
-- ml_metadata/metadata_store/rdbms_metadata_access_object.cc.
use ml_metadata_l_metadata_s.Prelude.{
  ℕ, Bool, true, false, not, ◌&&◌, Option, none, some, List, [], ◌∷◌, ◌==◌, if◌then◌else◌, length,
}
use ml_metadata_l_metadata_s.Status.{
  invalid_argument, not_found, Result, ok, err, reject_if, ◌>>=◌, ◌>>◌,
}
use ml_metadata_l_metadata_s.Messages.{Kind, TypeMessage, same_kind, number_of}
use ml_metadata_l_metadata_s.Ancestry.{Links}
use ml_metadata_l_metadata_s.Tables.{Db, TypeRow}
use ml_metadata_l_metadata_s.Types.{type_message}

-- std::find over ids.
unfoldable pub has_id : ℕ → List ℕ → Bool
has_id id [] = false
has_id id (x ∷ rest) = if x == id then true else has_id id rest

-- The `flat_hash_set` of the ids.
unfoldable pub dedup_ids : List ℕ → List ℕ
unfolding has_id
dedup_ids [] = []
dedup_ids (id ∷ rest) = let more = dedup_ids rest in if has_id id more then more else id ∷ more

-- SelectTypesByID: the rows of one kind whose id is in the list.
pub select_types_by_id : List ℕ → Kind → List TypeRow → List TypeRow
unfolding has_id
select_types_by_id ids kind [] = []
select_types_by_id ids kind (row ∷ rows) =
    let rest = select_types_by_id ids kind rows in
    if has_id row.id ids && same_kind row.kind kind then row ∷ rest else rest

-- FindTypesFromRecordSet without `get_properties`.
pub types_without_properties : List TypeRow → List TypeMessage
types_without_properties [] = []
types_without_properties (row ∷ rows) = type_message row [] ∷ types_without_properties rows

-- FindTypesImpl by ids, after the test of the empty list.
abbrev all_types : List ℕ → List TypeMessage → Result (List TypeMessage)
all_types ids types = if not (length ids == length types) then err not_found else ok types

abbrev is_empty {ℓ} : {A : Type ℓ} → List A → Bool
is_empty [] = true
is_empty (x ∷ rest) = false

pub find_types_by_ids : Kind → List ℕ → Db → Result (List TypeMessage)
unfolding dedup_ids select_types_by_id types_without_properties
find_types_by_ids kind ids db = do
  reject_if (is_empty ids) invalid_argument
  all_types (dedup_ids ids)
      (types_without_properties (select_types_by_id (dedup_ids ids) kind db.types))

-- SelectParentTypesByTypeID
pub select_parent_types : List ℕ → Links → Links
unfolding has_id
select_parent_types ids [] = []
select_parent_types ids ((t, p) ∷ rows) =
    let rest = select_parent_types ids rows in if has_id t ids then (t, p) ∷ rest else rest

pub parent_ids : Links → List ℕ
parent_ids [] = []
parent_ids ((t, p) ∷ rows) = p ∷ parent_ids rows

-- `parent_id_to_type`
pub parent_with_id : ℕ → List TypeMessage → Option TypeMessage
parent_with_id id [] = none
parent_with_id id (type ∷ rest) =
    if number_of type.id == id then some type else parent_with_id id rest

-- The last loop, one entry per link whose parent was found.
pub pair_parents : Links → List TypeMessage → List (ℕ × TypeMessage)
unfolding parent_with_id
pair_parents [] types = []
pair_parents ((t, p) ∷ rows) types = elim (parent_with_id p types) [
  | some parent ↦ (t, parent) ∷ pair_parents rows types
  | none ↦ pair_parents rows types
]

-- FindParentTypesByTypeIdImpl, after the query.
abbrev parents_of_links : Kind → Links → Db → Result (List (ℕ × TypeMessage))
parents_of_links kind [] db = ok []
parents_of_links kind (link ∷ links) db = do
  types ← find_types_by_ids kind (parent_ids (link ∷ links)) db
  ok (pair_parents (link ∷ links) types)

pub find_parent_types_by_type_id : Kind → List ℕ → Db → Result (List (ℕ × TypeMessage))
unfolding find_types_by_ids select_parent_types parent_ids pair_parents
find_parent_types_by_type_id kind ids db = do
  reject_if (is_empty ids) invalid_argument
  parents_of_links kind (select_parent_types ids db.parent_types) db
