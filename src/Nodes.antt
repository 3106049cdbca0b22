-- ===== src/Nodes.antt =====
-- The operations on nodes of ml_metadata/metadata_store/rdbms_metadata_access_object.cc, which are
-- templates over artifacts, executions and contexts: CreateBasicNode, CreateNodeImpl, FindNodesImpl,
-- FindNodeImpl, RunNodeUpdate and UpdateNodeImpl; and the three upserts of
-- ml_metadata/metadata_store/metadata_store.cc. The time that absl::Now reads is an argument.
pub mod Create
pub mod Keeps
pub mod Found
mod Tests
use ml_metadata_l_metadata_s.Prelude.{
  ℕ, ◌+◌, String, Bool, true, false, not, ◌&&◌, ◌||◌, Option, none, some, List, [], ◌∷◌, ◌++◌, ◌==◌,
  str_eq, ltb, length, if◌then◌else◌,
}
use ml_metadata_l_metadata_s.Status.{
  Code, invalid_argument, not_found, already_exists, aborted, internal, fatal, is_not_found,
  is_already_exists, Result, ok, err,
}
use ml_metadata_l_metadata_s.Exec.{Exec, pure, raise, lift, gets, attempt, raise_if, ◌>>=◌, ◌>>◌}
use ml_metadata_l_metadata_s.Messages.{
  Kind, execution, artifact, context, Value, TypeMessage, Node, text_of, is_set, number_of,
}
use ml_metadata_l_metadata_s.Tables.{Db, NodeRow, PropertyRow, update_kind}
use ml_metadata_l_metadata_s.Tables.NodeQueries.{
  insert_node, select_node_by_id, select_properties, update_node_direct, same_flag,
}
use ml_metadata_l_metadata_s.Types.{find_type_by_id, with_unique_cast}
use ml_metadata_l_metadata_s.Types.Parents.{has_id}
use ml_metadata_l_metadata_s.Values.{Codec, read_columns}
use ml_metadata_l_metadata_s.Properties.{validate_properties, modify_properties}

-- A method on the property table of one kind.
abbrev pub on_properties {ℓ} : {A : Type ℓ} → Kind → Exec (List PropertyRow) A → Exec Db A
on_properties kind m db =
    let (r, rows) = m (db.properties kind) in
    (r, record db { properties = update_kind db.properties kind rows })

-- The test of the name in CreateBasicNode and RunNodeUpdate: a context has one.
abbrev pub name_missing : Kind → Option String → Bool
name_missing context name = str_eq (text_of name) ""
name_missing artifact name = false
name_missing execution name = false

-- CreateBasicNode
abbrev pub create_basic_node : Kind → ℕ → Node → Exec Db ℕ
create_basic_node kind now node = do
  raise_if (name_missing kind node.name) invalid_argument
  insert_node kind (number_of node.type_id) (text_of node.uri) node.state node.name now

-- One step of PopulateNodeProperties on the entries that were read.
abbrev pub add_property :
    String → Result Value → Result (List (String × Value)) → Result (List (String × Value))
add_property name (err c) rest = err c
add_property name (ok value) (err c) = err c
add_property name (ok value) (ok rest) = ok ((name, value) ∷ rest)

-- PopulateNodeProperties over the rows of a node, for one of its two maps.
pub read_properties : Codec → Bool → List PropertyRow → Result (List (String × Value))
read_properties codec is_custom [] = ok []
read_properties codec is_custom (row ∷ rows) =
    let rest = read_properties codec is_custom rows in
    if same_flag row.is_custom is_custom
    then add_property row.name (read_columns codec row.columns) rest
    else rest

-- ParseRecordSetToMessage on a row of a node table, with its two maps.
abbrev pub node_message :
    NodeRow → Result (List (String × Value)) → Result (List (String × Value)) → Result Node
node_message row (err c) custom = err c
node_message row (ok properties) (err c) = err c
node_message row (ok properties) (ok custom) = ok record {
  id = some row.id;
  type_id = some row.type_id;
  name = row.name;
  uri = row.uri;
  state = row.state;
  properties = properties;
  custom_properties = custom;
  create_time_since_epoch = some row.create_time;
  last_update_time_since_epoch = some row.update_time;
}

unfoldable pub read_node : Codec → List PropertyRow → NodeRow → Result Node
unfolding read_properties
read_node codec properties row =
    node_message row (read_properties codec false (select_properties row.id properties))
      (read_properties codec true (select_properties row.id properties))

abbrev pub add_node : Result Node → Result (List Node) → Result (List Node)
add_node (err c) rest = err c
add_node (ok node) (err c) = err c
add_node (ok node) (ok rest) = ok (node ∷ rest)

unfoldable pub read_nodes : Codec → List PropertyRow → List NodeRow → Result (List Node)
unfolding read_node
read_nodes codec properties [] = ok []
read_nodes codec properties (row ∷ rows) =
    add_node (read_node codec properties row) (read_nodes codec properties rows)

-- select_artifact_by_id: the rows whose id is in the list.
unfoldable pub select_nodes_by_ids : List ℕ → List NodeRow → List NodeRow
select_nodes_by_ids ids [] = []
select_nodes_by_ids ids (row ∷ rows) =
    let rest = select_nodes_by_ids ids rows in if has_id row.id ids then row ∷ rest else rest

-- The last test of FindNodesImpl.
abbrev pub all_found : ℕ → Bool → Result (List Node) → Result (List Node)
all_found count skipped_ids_ok (err c) = err c
all_found count skipped_ids_ok (ok nodes) =
    if count == length nodes
    then ok nodes
    else if not skipped_ids_ok
    then err internal
    else err not_found

unfoldable pub find_nodes : Kind → Codec → List ℕ → Bool → Exec Db (List Node)
unfolding read_nodes select_nodes_by_ids
find_nodes kind codec [] skipped_ids_ok db = (err invalid_argument, db)
find_nodes kind codec (id ∷ ids) skipped_ids_ok db = (
  all_found (length (id ∷ ids)) skipped_ids_ok
      (read_nodes codec (db.properties kind) (select_nodes_by_ids (id ∷ ids) (db.nodes kind))),
  db,
)

-- FindNodeImpl: `nodes.at(0)` of an empty list throws.
abbrev pub first_node : List Node → Result Node
first_node [] = err fatal
first_node (node ∷ nodes) = ok node

unfoldable pub find_node : Kind → Codec → ℕ → Exec Db Node
unfolding find_nodes
find_node kind codec id = do nodes ← find_nodes kind codec (id ∷ []) true; lift (first_node nodes)

-- CreateNodeImpl
unfoldable pub create_node : Kind → Codec → ℕ → Node → Exec Db ℕ
create_node kind codec now node = do
  raise_if (not (is_set node.type_id)) invalid_argument
  node_type ← find_type_by_id kind (number_of node.type_id)
  lift (validate_properties node.properties node_type.properties)
  node_id ← create_basic_node kind now node
  on_properties kind (modify_properties codec node.properties [] node_id false)
  on_properties kind (modify_properties codec node.custom_properties [] node_id true)
  pure node_id

-- CreateArtifact, CreateExecution and CreateContext
unfoldable pub create : Kind → Codec → ℕ → Node → Exec Db ℕ
unfolding create_node
create kind codec now node = with_unique_cast (create_node kind codec now node)

-- RunNodeUpdate: the type id is the request's, 0 if it is not set.
abbrev pub run_node_update : Kind → ℕ → Node → Exec Db (Unit {0})
run_node_update kind now node = do
  raise_if (name_missing kind node.name) invalid_argument
  update_node_direct kind (number_of node.id) (number_of node.type_id) (text_of node.uri) node.state
      node.name now

abbrev pub other_type : Option ℕ → Option ℕ → Bool
other_type none stored = false
other_type (some type_id) stored = not (type_id == number_of stored)

abbrev same_number : Option ℕ → Option ℕ → Bool
same_number none none = true
same_number (some a) (some b) = a == b
same_number _ _ = false

abbrev same_text : Option String → Option String → Bool
same_text none none = true
same_text (some a) (some b) = str_eq a b
same_text _ _ = false

-- `diff.Compare`, which ignores the properties and the times.
abbrev pub same_fields : Node → Node → Bool
same_fields a b =
    same_number a.id b.id
    && same_number a.type_id b.type_id
    && same_text a.name b.name
    && same_text a.uri b.uri
    && same_number a.state b.state

-- FindNodeImpl of UpdateNodeImpl: NOT_FOUND is the caller's mistake.
abbrev pub given_id_found : Result Node → Result Node
given_id_found (err c) = if is_not_found c then err invalid_argument else err c
given_id_found (ok node) = ok node

-- UpdateNodeImpl, after the search of the stored node.
abbrev pub update_stored : Kind → Codec → ℕ → Node → Node → Exec Db (Unit {0})
update_stored kind codec now node stored = do
  raise_if (other_type node.type_id stored.type_id) invalid_argument
  stored_type ← find_type_by_id kind (number_of stored.type_id)
  lift (validate_properties node.properties stored_type.properties)
  m ←
      on_properties kind
        (modify_properties codec node.properties stored.properties (number_of node.id) false)
  n ← on_properties kind (
      modify_properties codec node.custom_properties stored.custom_properties (number_of node.id)
        true)
  if not (same_fields node stored) || ltb 0 (m + n) then run_node_update kind now node else pure tt

-- UpdateNodeImpl
unfoldable pub update_node : Kind → Codec → ℕ → Node → Exec Db (Unit {0})
unfolding find_node
update_node kind codec now node = do
  raise_if (not (is_set node.id)) invalid_argument
  found ← attempt (find_node kind codec (number_of node.id))
  stored ← lift (given_id_found found)
  update_stored kind codec now node stored

-- UpsertArtifact, UpsertExecution and UpsertContext, by the id of the request.
abbrev pub upsert_by_id : Kind → Codec → ℕ → Node → Option ℕ → Exec Db ℕ
upsert_by_id kind codec now node (some id) = update_node kind codec now node >> pure id
upsert_by_id kind codec now node none = create kind codec now node

unfoldable pub upsert_node : Kind → Codec → ℕ → Node → Exec Db ℕ
unfolding create update_node
upsert_node kind codec now node = upsert_by_id kind codec now node node.id
