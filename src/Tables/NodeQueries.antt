-- ===== src/Tables/NodeQueries.antt =====
-- The queries on the node tables and on the property tables. `artifact` stands for the table of one
-- kind: the three tables have the same queries.
use ml_metadata_l_metadata_s.Prelude.{
  ℕ, ◌+◌, String, Bool, true, false, not, ◌&&◌, Option, none, some, List, [], ◌∷◌, ◌++◌, ◌==◌,
  str_eq, if◌then◌else◌,
}
use ml_metadata_l_metadata_s.Status.{unique_violation, Result, ok, err, ◌>>=◌}
use ml_metadata_l_metadata_s.Exec.{Exec}
use ml_metadata_l_metadata_s.Messages.{Kind, Value, execution, artifact, context}
use ml_metadata_l_metadata_s.Tables.{Db, NodeRow, PropertyRow, Columns, no_columns, update_kind}
use ml_metadata_l_metadata_s.Values.{Codec, write_value}

-- Whether a row is of the node and has the name: what the WHERE clauses of update_artifact_property and
-- delete_artifact_property test.
unfoldable pub is_of : ℕ → String → PropertyRow → Bool
is_of id name row = row.node_id == id && str_eq row.name name

abbrev pub same_flag : Bool → Bool → Bool
same_flag true b = b
same_flag false b = not b

-- The columns under the primary key of a property table: (artifact_id, name, is_custom_property).
unfoldable pub columns_at : ℕ → Bool → String → List PropertyRow → Option Columns
unfolding is_of
columns_at id is_custom name [] = none
columns_at id is_custom name (row ∷ rows) =
    if is_of id name row && same_flag row.is_custom is_custom
    then some row.columns
    else columns_at id is_custom name rows

-- insert_artifact_property
abbrev pub insert_row :
    ℕ → String → Bool → Option Columns → Result Columns → Exec (List PropertyRow) (Unit {0})
insert_row id name is_custom _ (err c) rows = (err c, rows)
insert_row id name is_custom (some _) (ok columns) rows = (err unique_violation, rows)
insert_row id name is_custom none (ok columns) rows = (
  ok tt,
  rows ++ record { node_id = id; name = name; is_custom = is_custom; columns = columns } ∷ [],
)

unfoldable pub insert_property :
    Codec → ℕ → String → Bool → Value → Exec (List PropertyRow) (Unit {0})
unfolding columns_at
insert_property codec id name is_custom value rows =
    insert_row id name is_custom (columns_at id is_custom name rows)
      (write_value codec value no_columns) rows

-- update_artifact_property
unfoldable pub update_rows :
    Codec → ℕ → String → Value → List PropertyRow → Result (List PropertyRow)
unfolding is_of
update_rows codec id name value [] = ok []
update_rows codec id name value (row ∷ rows) =
    let rest = update_rows codec id name value rows in
    if is_of id name row
    then (write_value codec value row.columns >>= λ columns.
        rest >>= λ more. ok (record row { columns = columns } ∷ more))
    else (rest >>= λ more. ok (row ∷ more))

abbrev pub replace_rows : Result (List PropertyRow) → Exec (List PropertyRow) (Unit {0})
replace_rows (err c) rows = (err c, rows)
replace_rows (ok more) rows = (ok tt, more)

unfoldable pub update_property : Codec → ℕ → String → Value → Exec (List PropertyRow) (Unit {0})
unfolding update_rows
update_property codec id name value rows = replace_rows (update_rows codec id name value rows) rows

-- delete_artifact_property
unfoldable pub delete_rows : ℕ → String → List PropertyRow → List PropertyRow
unfolding is_of
delete_rows id name [] = []
delete_rows id name (row ∷ rows) =
    let rest = delete_rows id name rows in if is_of id name row then rest else row ∷ rest

unfoldable pub delete_property : ℕ → String → Exec (List PropertyRow) (Unit {0})
unfolding delete_rows
delete_property id name rows = (ok tt, delete_rows id name rows)

-- select_artifact_property_by_artifact_id with one id.
unfoldable pub select_properties : ℕ → List PropertyRow → List PropertyRow
select_properties id [] = []
select_properties id (row ∷ rows) =
    let rest = select_properties id rows in if row.node_id == id then row ∷ rest else rest

-- UNIQUE(type_id, name): NULL is equal to nothing.
abbrev name_is : Option String → Option String → Bool
name_is (some a) (some b) = str_eq a b
name_is _ _ = false

unfoldable pub has_name : ℕ → Option String → List NodeRow → Bool
has_name type_id name [] = false
has_name type_id name (row ∷ rows) =
    if row.type_id == type_id && name_is row.name name then true else has_name type_id name rows

-- Only an artifact has a uri, the empty one where the message has none.
abbrev pub uri_column : Kind → String → Option String
uri_column artifact uri = some uri
uri_column execution uri = none
uri_column context uri = none

-- insert_artifact, insert_execution and insert_context
unfoldable pub insert_node : Kind → ℕ → String → Option ℕ → Option String → ℕ → Exec Db ℕ
unfolding has_name
insert_node kind type_id uri state name now db =
    if has_name type_id name (db.nodes kind) then (err unique_violation, db) else (
      ok (db.last_node_id kind + 1),
      record db {
        nodes = update_kind db.nodes kind (
            db.nodes kind
            ++ record {
              id = db.last_node_id kind + 1;
              type_id = type_id;
              name = name;
              uri = uri_column kind uri;
              state = state;
              create_time = now;
              update_time = now;
            }
              ∷ []);
        last_node_id = update_kind db.last_node_id kind (db.last_node_id kind + 1);
      },
    )

-- select_artifact_by_id with one id.
unfoldable pub select_node_by_id : ℕ → List NodeRow → List NodeRow
select_node_by_id id [] = []
select_node_by_id id (row ∷ rows) =
    let rest = select_node_by_id id rows in if row.id == id then row ∷ rest else rest

-- update_artifact, update_execution and update_context: a name is a column of the last one only,
-- a uri of the first, a state of the first two.
abbrev write_node : Kind → ℕ → String → Option ℕ → Option String → ℕ → NodeRow → NodeRow
write_node context type_id uri state name now row = record row {
  type_id = type_id;
  name = name;
  update_time = now;
}
write_node artifact type_id uri state name now row = record row {
  type_id = type_id;
  uri = some uri;
  state = state;
  update_time = now;
}
write_node execution type_id uri state name now row = record row {
  type_id = type_id;
  state = state;
  update_time = now;
}

unfoldable pub update_node_rows :
    Kind → ℕ → ℕ → String → Option ℕ → Option String → ℕ → List NodeRow → List NodeRow
update_node_rows kind id type_id uri state name now [] = []
update_node_rows kind id type_id uri state name now (row ∷ rows) =
    let rest = update_node_rows kind id type_id uri state name now rows in
    if row.id == id then write_node kind type_id uri state name now row ∷ rest else row ∷ rest

-- Renaming a context to a name of its type that another one has breaks the uniqueness constraint.
unfoldable pub taken_by_other : ℕ → ℕ → Option String → List NodeRow → Bool
taken_by_other id type_id name [] = false
taken_by_other id type_id name (row ∷ rows) =
    let rest = taken_by_other id type_id name rows in
    if not (row.id == id) && (row.type_id == type_id && name_is row.name name) then true else rest

-- The name that the row will have.
abbrev renamed : Kind → Option String → NodeRow → Option String
renamed context name row = name
renamed artifact name row = row.name
renamed execution name row = row.name

unfoldable pub new_name : Kind → ℕ → Option String → List NodeRow → Option String
new_name kind id name [] = none
new_name kind id name (row ∷ rows) =
    if row.id == id then renamed kind name row else new_name kind id name rows

unfoldable pub update_node_direct :
    Kind → ℕ → ℕ → String → Option ℕ → Option String → ℕ → Exec Db (Unit {0})
unfolding update_node_rows taken_by_other new_name
update_node_direct kind id type_id uri state name now db =
    if taken_by_other id type_id (new_name kind id name (db.nodes kind)) (db.nodes kind)
    then (err unique_violation, db)
    else (
      ok tt,
      record db {
        nodes =
            update_kind db.nodes kind
              (update_node_rows kind id type_id uri state name now (db.nodes kind));
      },
    )
