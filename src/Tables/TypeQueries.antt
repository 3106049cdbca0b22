-- ===== src/Tables/TypeQueries.antt =====
-- The queries on `Type`, `TypeProperty` and `ParentType`.
use ml_metadata_l_metadata_s.Prelude.{
  ℕ, ◌+◌, String, Bool, true, false, ◌&&◌, Option, none, some, List, [], ◌∷◌, ◌++◌, ◌==◌, str_eq,
  if◌then◌else◌,
}
use ml_metadata_l_metadata_s.Status.{unique_violation, ok, err}
use ml_metadata_l_metadata_s.Exec.{Exec}
use ml_metadata_l_metadata_s.Messages.{Kind, PropertyType, same_kind}
use ml_metadata_l_metadata_s.Tables.{Db, TypeRow, TypePropertyRow}
use ml_metadata_l_metadata_s.Ancestry.{Links}

-- insert_artifact_type, insert_execution_type, insert_context_type, and the id of the new row.
unfoldable pub insert_type : Kind → String → Option String → Option String → Exec Db ℕ
insert_type kind name version description db = (
  ok (db.last_type_id + 1),
  record db {
    types =
        db.types
        ++ record {
          id = db.last_type_id + 1;
          kind = kind;
          name = name;
          version = version;
          description = description;
        }
          ∷ [];
    last_type_id = db.last_type_id + 1;
  },
)

-- select_type_by_id
unfoldable pub select_type_by_id : ℕ → Kind → List TypeRow → List TypeRow
select_type_by_id id kind [] = []
select_type_by_id id kind (row ∷ rows) =
    let rest = select_type_by_id id kind rows in
    if row.id == id && same_kind row.kind kind then row ∷ rest else rest

abbrev pub same_version : Option String → Option String → Bool
same_version none none = true
same_version (some v) (some w) = str_eq v w
same_version _ _ = false

unfoldable pub is_named : String → Option String → Kind → TypeRow → Bool
is_named name version kind row =
    str_eq row.name name && same_version row.version version && same_kind row.kind kind

-- select_type_by_name_and_version, or select_type_by_name with `version IS NULL`.
unfoldable pub select_type_by_name_and_version :
    String → Option String → Kind → List TypeRow → List TypeRow
select_type_by_name_and_version name version kind [] = []
select_type_by_name_and_version name version kind (row ∷ rows) =
    let rest = select_type_by_name_and_version name version kind rows in
    if is_named name version kind row then row ∷ rest else rest

-- select_all_types
unfoldable pub select_all_types : Kind → List TypeRow → List TypeRow
select_all_types kind [] = []
select_all_types kind (row ∷ rows) =
    let rest = select_all_types kind rows in if same_kind row.kind kind then row ∷ rest else rest

-- select_properties_by_type_id with one id, as the entries of the map that it fills.
unfoldable pub select_properties_by_type_id :
    ℕ → List TypePropertyRow → List (String × PropertyType)
select_properties_by_type_id id [] = []
select_properties_by_type_id id (row ∷ rows) =
    let rest = select_properties_by_type_id id rows in
    if row.type_id == id then (row.name, row.data_type) ∷ rest else rest

-- The primary key of `TypeProperty` is (type_id, name).
unfoldable pub has_type_property : ℕ → String → List TypePropertyRow → Bool
has_type_property id name [] = false
has_type_property id name (row ∷ rows) =
    if row.type_id == id && str_eq row.name name then true else has_type_property id name rows

-- insert_type_property
unfoldable pub insert_type_property : ℕ → String → PropertyType → Exec Db (Unit {0})
unfolding has_type_property
insert_type_property id name value db =
    if has_type_property id name db.type_properties then (err unique_violation, db) else (
      ok tt,
      record db {
        type_properties =
            db.type_properties ++ record { type_id = id; name = name; data_type = value } ∷ [];
      },
    )

-- The primary keys of `ParentType` and `ParentContext` are both columns.
unfoldable pub has_row : ℕ → ℕ → Links → Bool
has_row a b [] = false
has_row a b ((c, p) ∷ rows) = if c == a && p == b then true else has_row a b rows

-- insert_parent_type
unfoldable pub insert_parent_type : ℕ → ℕ → Exec Db (Unit {0})
unfolding has_row
insert_parent_type type_id parent_type_id db =
    if has_row type_id parent_type_id db.parent_types
    then (err unique_violation, db)
    else (ok tt, record db { parent_types = db.parent_types ++ (type_id, parent_type_id) ∷ [] })

-- delete_parent_type
unfoldable pub delete_parent_type : ℕ → ℕ → Links → Links
delete_parent_type a b [] = []
delete_parent_type a b ((c, p) ∷ rows) =
    let rest = delete_parent_type a b rows in if c == a && p == b then rest else (c, p) ∷ rest
