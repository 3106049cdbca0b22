-- ===== src/Gets.antt =====
-- The handlers of ml_metadata/metadata_store/metadata_store.cc that read events and nodes, inside
-- their transactions. A response is the list of its messages, with the token of the next page
-- where there is one. Most handlers answer with an empty response where a search says NOT_FOUND.
pub mod Events
mod Tests
use ml_metadata_l_metadata_s.Prelude.{
  ℕ, zero, suc, String, Bool, true, false, ◌&&◌, Option, none, some, List, [], ◌∷◌, ◌++◌, ◌==◌,
  if◌then◌else◌,
}
use ml_metadata_l_metadata_s.Status.{
  Code, invalid_argument, not_found, fatal, is_not_found, Result, ok, err, reject_if, ◌>>=◌, ◌>>◌,
}
use ml_metadata_l_metadata_s.Messages.{
  Kind, artifact, execution, context, Node, Event, get_type_version,
}
use ml_metadata_l_metadata_s.Tables.{Db, TypeRow, EventRow}
use ml_metadata_l_metadata_s.Tables.TypeQueries.{select_type_by_name_and_version}
use ml_metadata_l_metadata_s.Values.{Codec}
use ml_metadata_l_metadata_s.Nodes.{read_nodes, select_nodes_by_ids}
use ml_metadata_l_metadata_s.PutExecution.{only_id, context_ids_named, is_called}
use ml_metadata_l_metadata_s.ListQuery.{ListOptions, TokenCodec, FilterQuery}
use ml_metadata_l_metadata_s.ListNodes.{list_nodes}
use ml_metadata_l_metadata_s.Finds.{
  RowOrder, nodes_by_id, find_events_by, find_all_nodes, ids_where, find_by_type_id,
  find_artifacts_by_uri, find_contexts_by_artifact, find_contexts_by_execution,
  find_artifacts_by_context, find_executions_by_context, find_parent_contexts, find_child_contexts,
}

-- `if (IsNotFound(status)) return OkStatus()`: the response stays as it is.
abbrev pub or_response {ℓ} : {A : Type ℓ} → A → Result A → Result A
or_response response (ok found) = ok found
or_response response (err c) = if is_not_found c then ok response else err c

-- GetEventsByArtifactIDs and GetEventsByExecutionIDs
abbrev pub get_events_by_artifact_ids : RowOrder → List ℕ → Db → Result (List Event)
get_events_by_artifact_ids row_order ids db =
    or_response [] (find_events_by row_order (λ row. row.artifact_id) ids db)

abbrev pub get_events_by_execution_ids : RowOrder → List ℕ → Db → Result (List Event)
get_events_by_execution_ids row_order ids db =
    or_response [] (find_events_by row_order (λ row. row.execution_id) ids db)

-- GetArtifactsByID, GetExecutionsByID and GetContextsByID. Where ids are missing, the status is
-- NOT_FOUND and the nodes that FindNodesImpl has read are the response.
abbrev get_nodes_by_id : Kind → Codec → List ℕ → Db → Result (List Node)
get_nodes_by_id kind codec [] db = ok []
get_nodes_by_id kind codec (id ∷ ids) db =
    read_nodes codec (db.properties kind) (select_nodes_by_ids (id ∷ ids) (db.nodes kind))

abbrev without_token : Result (List Node) → Result (List Node × String)
without_token found = found >>= λ nodes. ok (nodes, "")

abbrev listed_or_all :
    FilterQuery → TokenCodec → Codec → Kind → Option ListOptions → Db → Result (List Node × String)
listed_or_all filter tokens codec kind none db = without_token (find_all_nodes codec kind db)
listed_or_all filter tokens codec kind (some options) db =
    list_nodes filter tokens codec kind options none db

-- GetArtifacts, GetExecutions and GetContexts
abbrev get_nodes :
    FilterQuery → TokenCodec → Codec → Kind → Option ListOptions → Db → Result (List Node × String)
get_nodes filter tokens codec kind options db =
    or_response ([], "") (listed_or_all filter tokens codec kind options db)

abbrev first_type_id : List TypeRow → Result ℕ
first_type_id [] = err not_found
first_type_id (type ∷ types) = ok type.id

-- FindTypeIdByNameAndVersion
abbrev find_type_id : Kind → String → Option String → Db → Result ℕ
find_type_id kind name version db =
    first_type_id (select_type_by_name_and_version name (get_type_version version) kind db.types)

-- GetArtifactsByType, GetExecutionsByType and GetContextsByType
abbrev get_nodes_by_type :
    FilterQuery
    → TokenCodec
    → Codec
    → Kind
    → String
    → Option String
    → Option ListOptions
    → Db
    → Result (List Node × String)
get_nodes_by_type filter tokens codec kind name version options db =
    or_response ([], "")
      (find_type_id kind name version db >>= λ type_id.
        find_by_type_id filter tokens codec kind type_id options db)

abbrev only_node : List Node → Result Node
only_node [] = err fatal
only_node (node ∷ []) = ok node
only_node (node ∷ _ ∷ _) = err fatal

-- FindArtifactByTypeIdAndArtifactName and its like for executions test the number of nodes, that of
-- contexts the number of ids before it reads them.
abbrev one_of_ids : Kind → Codec → List ℕ → Db → Result Node
one_of_ids kind codec [] db = err not_found
one_of_ids artifact codec (id ∷ ids) db =
    nodes_by_id codec artifact (id ∷ ids) false db >>= only_node
one_of_ids execution codec (id ∷ ids) db =
    nodes_by_id codec execution (id ∷ ids) false db >>= only_node
one_of_ids context codec (id ∷ ids) db =
    only_id (id ∷ ids) >>= λ only. (nodes_by_id codec context (only ∷ []) false db >>= only_node)

abbrev find_node_by_name : Kind → Codec → ℕ → String → Db → Result Node
find_node_by_name kind codec type_id name db =
    one_of_ids kind codec
      (ids_where (λ row. row.type_id == type_id && is_called name row.name) (db.nodes kind)) db

abbrev some_node : Result Node → Result (Option Node)
some_node found = found >>= λ node. ok (some node)

-- GetArtifactByTypeAndName, GetExecutionByTypeAndName and GetContextByTypeAndName
abbrev get_node_by_type_and_name :
    Kind → Codec → String → Option String → String → Db → Result (Option Node)
get_node_by_type_and_name kind codec type_name version name db = or_response none (
    find_type_id kind type_name version db >>= λ type_id.
    some_node (find_node_by_name kind codec type_id name db))

-- The loop of GetArtifactsByURI, over the uris in the order of their hash set.
abbrev artifacts_by_uris : Codec → List String → Db → Result (List Node)
artifacts_by_uris codec [] db = ok []
artifacts_by_uris codec (uri ∷ uris) db = do
  nodes ← or_response [] (find_artifacts_by_uri codec uri db)
  more ← artifacts_by_uris codec uris db
  ok (nodes ++ more)

abbrev has_field : ℕ → List ℕ → Bool
has_field number [] = false
has_field number (field ∷ fields) = if field == number then true else has_field number fields

-- GetArtifactsByURI: an unknown field 1 is the `uri` of older clients.
abbrev get_artifacts_by_uri :
    Codec → (List String → List String) → List ℕ → List String → Db → Result (List Node)
get_artifacts_by_uri codec hash_order unknown_fields uris db =
    reject_if (has_field 1 unknown_fields) invalid_argument
    >> artifacts_by_uris codec (hash_order uris) db

-- GetContextsByArtifact and GetContextsByExecution hand NOT_FOUND on.
abbrev get_contexts_by_artifact : Codec → ℕ → Db → Result (List Node)
get_contexts_by_artifact = find_contexts_by_artifact

abbrev get_contexts_by_execution : Codec → ℕ → Db → Result (List Node)
get_contexts_by_execution = find_contexts_by_execution

-- GetArtifactsByContext and GetExecutionsByContext
abbrev get_artifacts_by_context :
    FilterQuery → TokenCodec → Codec → ℕ → Option ListOptions → Db → Result (List Node × String)
get_artifacts_by_context = find_artifacts_by_context

abbrev get_executions_by_context :
    FilterQuery → TokenCodec → Codec → ℕ → Option ListOptions → Db → Result (List Node × String)
get_executions_by_context = find_executions_by_context

-- GetParentContextsByContext and GetChildrenContextsByContext
abbrev get_parent_contexts_by_context : Codec → ℕ → Db → Result (List Node)
get_parent_contexts_by_context codec context_id db =
    or_response [] (find_parent_contexts codec context_id db)

abbrev get_children_contexts_by_context : Codec → ℕ → Db → Result (List Node)
get_children_contexts_by_context codec context_id db =
    or_response [] (find_child_contexts codec context_id db)
