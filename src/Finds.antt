-- ===== src/Finds.antt =====
-- The searches of ml_metadata/metadata_store/rdbms_metadata_access_object.cc: events by their ends,
-- contexts, executions and artifacts by their links, nodes by type, name and uri. They read the
-- database and do not change it.
pub mod Writes
pub mod Orders
pub mod Events
mod Tests
use ml_metadata_l_metadata_s.Prelude.{
  ℕ, String, Bool, true, false, ◌&&◌, Option, none, some, List, [], ◌∷◌, ◌==◌, str_eq,
  if◌then◌else◌,
}
use ml_metadata_l_metadata_s.Status.{Code, not_found, internal, fatal, Result, ok, err, ◌>>=◌}
use ml_metadata_l_metadata_s.Messages.{Kind, artifact, execution, context, Node, Step, Event}
use ml_metadata_l_metadata_s.Ancestry.{Links}
use ml_metadata_l_metadata_s.Tables.{Db, NodeRow, EventRow, PairRow}
use ml_metadata_l_metadata_s.Types.Parents.{has_id}
use ml_metadata_l_metadata_s.Values.{Codec}
use ml_metadata_l_metadata_s.Nodes.{find_nodes}
use ml_metadata_l_metadata_s.ListQuery.{ListOptions, TokenCodec, FilterQuery, row_ids}
use ml_metadata_l_metadata_s.ListNodes.{list_nodes}

-- FindNodesImpl
abbrev pub nodes_by_id : Codec → Kind → List ℕ → Bool → Db → Result (List Node)
nodes_by_id codec kind ids skipped_ids_ok db = (find_nodes kind codec ids skipped_ids_ok db).0

-- FindArtifactsById and FindExecutionsById: no ids, no nodes.
abbrev pub find_by_ids : Codec → Kind → List ℕ → Db → Result (List Node)
find_by_ids codec kind [] db = ok []
find_by_ids codec kind (id ∷ ids) db = nodes_by_id codec kind (id ∷ ids) true db

-- select_event_path_by_event_ids, for one event. The query has no ORDER BY and the table no key: the
-- code takes the rows of one event to come in the order of their insertion, and so does the model.
unfoldable pub steps_of : ℕ → List (ℕ × Step) → List Step
steps_of event_id [] = []
steps_of event_id ((id, step) ∷ paths) =
    let rest = steps_of event_id paths in if id == event_id then step ∷ rest else rest

-- The events of FindEventsFromRecordSet: an event gets the steps with its id.
abbrev pub event_message : List (ℕ × Step) → EventRow → Event
event_message paths row = record {
  artifact_id = some row.artifact_id;
  execution_id = some row.execution_id;
  type = some row.type;
  milliseconds_since_epoch = some row.time;
  path = steps_of row.id paths;
}

-- FindEventsFromRecordSet
unfoldable pub events_from_rows : List (ℕ × Step) → List EventRow → List Event
unfolding steps_of
events_from_rows paths [] = []
events_from_rows paths (row ∷ rows) = event_message paths row ∷ events_from_rows paths rows

-- select_event_by_artifact_ids and select_event_by_execution_ids, by the column: the rows that the
-- WHERE clause selects. The queries have no ORDER BY.
unfoldable pub select_events : (EventRow → ℕ) → List ℕ → List EventRow → List EventRow
select_events column ids [] = []
select_events column ids (row ∷ rows) =
    let rest = select_events column ids rows in if has_id (column row) ids then row ∷ rest else rest

-- The order in which an engine gives the rows of a query by the column.
abbrev pub RowOrder : Type 0
RowOrder = (EventRow → ℕ) → List EventRow → List EventRow

abbrev pub found_events : List Event → Result (List Event)
found_events [] = err not_found
found_events (event ∷ events) = ok (event ∷ events)

-- FindEventsByArtifacts and FindEventsByExecutions
unfoldable pub find_events_by : RowOrder → (EventRow → ℕ) → List ℕ → Db → Result (List Event)
unfolding events_from_rows select_events
find_events_by row_order column ids db =
    found_events
      (events_from_rows db.event_paths (row_order column (select_events column ids db.events)))

abbrev pub find_events_by_artifacts : RowOrder → List ℕ → Db → Result (List Event)
find_events_by_artifacts row_order = find_events_by row_order (λ row. row.artifact_id)

abbrev pub find_events_by_executions : RowOrder → List ℕ → Db → Result (List Event)
find_events_by_executions row_order = find_events_by row_order (λ row. row.execution_id)

-- select_association_by_execution_id and select_attribution_by_artifact_id
unfoldable pub contexts_of : ℕ → List PairRow → List ℕ
contexts_of node_id [] = []
contexts_of node_id (row ∷ rows) =
    let rest = contexts_of node_id rows in
    if row.node_id == node_id then row.context_id ∷ rest else rest

-- select_association_by_context_id and select_attribution_by_context_id
unfoldable pub members_of : ℕ → List PairRow → List ℕ
members_of context_id [] = []
members_of context_id (row ∷ rows) =
    let rest = members_of context_id rows in
    if row.context_id == context_id then row.node_id ∷ rest else rest

-- What a search by ids gives where there are none.
abbrev or_not_found : Codec → Kind → List ℕ → Db → Result (List Node)
or_not_found codec kind [] db = err not_found
or_not_found codec kind (id ∷ ids) db = nodes_by_id codec kind (id ∷ ids) false db

abbrev or_no_nodes : Codec → Kind → List ℕ → Db → Result (List Node)
or_no_nodes codec kind [] db = ok []
or_no_nodes codec kind (id ∷ ids) db = nodes_by_id codec kind (id ∷ ids) false db

-- FindContextsByExecution and FindContextsByArtifact
pub find_contexts_by_execution : Codec → ℕ → Db → Result (List Node)
unfolding contexts_of
find_contexts_by_execution codec execution_id db =
    or_not_found codec context (contexts_of execution_id db.associations) db

pub find_contexts_by_artifact : Codec → ℕ → Db → Result (List Node)
unfolding contexts_of
find_contexts_by_artifact codec artifact_id db =
    or_not_found codec context (contexts_of artifact_id db.attributions) db

-- The nodes of a page, or all of them, among those with the ids.
abbrev pub list_or_find :
    FilterQuery
    → TokenCodec
    → Codec
    → Kind
    → Option ListOptions
    → List ℕ
    → Db
    → Result (List Node × String)
list_or_find filter tokens codec kind (some options) ids db =
    list_nodes filter tokens codec kind options (some ids) db
list_or_find filter tokens codec kind none ids db =
    nodes_by_id codec kind ids false db >>= λ nodes. ok (nodes, "")

abbrev members_or_none :
    FilterQuery
    → TokenCodec
    → Codec
    → Kind
    → Option ListOptions
    → List ℕ
    → Db
    → Result (List Node × String)
members_or_none filter tokens codec kind options [] db = ok ([], "")
members_or_none filter tokens codec kind options (id ∷ ids) db =
    list_or_find filter tokens codec kind options (id ∷ ids) db

-- FindExecutionsByContext and FindArtifactsByContext
pub find_executions_by_context :
    FilterQuery → TokenCodec → Codec → ℕ → Option ListOptions → Db → Result (List Node × String)
unfolding members_of
find_executions_by_context filter tokens codec context_id options db =
    members_or_none filter tokens codec execution options (members_of context_id db.associations) db

pub find_artifacts_by_context :
    FilterQuery → TokenCodec → Codec → ℕ → Option ListOptions → Db → Result (List Node × String)
unfolding members_of
find_artifacts_by_context filter tokens codec context_id options db =
    members_or_none filter tokens codec artifact options (members_of context_id db.attributions) db

-- select_parent_context_by_context_id and select_parent_context_by_parent_context_id: a row has the
-- child first.
pub parents_of : ℕ → Links → List ℕ
parents_of context_id [] = []
parents_of context_id ((child, parent) ∷ rows) =
    let rest = parents_of context_id rows in if child == context_id then parent ∷ rest else rest

pub children_of : ℕ → Links → List ℕ
children_of context_id [] = []
children_of context_id ((child, parent) ∷ rows) =
    let rest = children_of context_id rows in if parent == context_id then child ∷ rest else rest

-- FindParentContextsByContextId and FindChildContextsByContextId, by FindLinkedContextsImpl.
pub find_parent_contexts : Codec → ℕ → Db → Result (List Node)
unfolding parents_of
find_parent_contexts codec context_id db =
    or_no_nodes codec context (parents_of context_id db.parent_contexts) db

pub find_child_contexts : Codec → ℕ → Db → Result (List Node)
unfolding children_of
find_child_contexts codec context_id db =
    or_no_nodes codec context (children_of context_id db.parent_contexts) db

-- FindArtifacts, FindExecutions and FindContexts
pub find_all_nodes : Codec → Kind → Db → Result (List Node)
unfolding row_ids
find_all_nodes codec kind db = or_no_nodes codec kind (row_ids (db.nodes kind)) db

-- The rows that a query on the columns of a node selects.
pub ids_where : (NodeRow → Bool) → List NodeRow → List ℕ
ids_where test [] = []
ids_where test (row ∷ rows) =
    let rest = ids_where test rows in if test row then row.id ∷ rest else rest

abbrev of_type_or_not_found :
    FilterQuery
    → TokenCodec
    → Codec
    → Kind
    → Option ListOptions
    → List ℕ
    → Db
    → Result (List Node × String)
of_type_or_not_found filter tokens codec kind options [] db = err not_found
of_type_or_not_found filter tokens codec kind options (id ∷ ids) db =
    list_or_find filter tokens codec kind options (id ∷ ids) db

-- FindArtifactsByTypeId, FindExecutionsByTypeId and FindContextsByTypeId
pub find_by_type_id :
    FilterQuery
    → TokenCodec
    → Codec
    → Kind
    → ℕ
    → Option ListOptions
    → Db
    → Result (List Node × String)
unfolding ids_where
find_by_type_id filter tokens codec kind type_id options db =
    of_type_or_not_found filter tokens codec kind options
      (ids_where (λ row. row.type_id == type_id) (db.nodes kind)) db

-- select_artifacts_by_uri: NULL is equal to nothing.
abbrev has_uri : String → Option String → Bool
has_uri uri none = false
has_uri uri (some other) = str_eq other uri

-- FindArtifactsByURI
pub find_artifacts_by_uri : Codec → String → Db → Result (List Node)
unfolding ids_where
find_artifacts_by_uri codec uri db =
    or_not_found codec artifact (ids_where (λ row. has_uri uri row.uri) (db.nodes artifact)) db
