-- ===== src/PutExecution.antt =====
-- PutExecution and its helpers UpsertContextWithOptions and UpsertArtifactAndEvent of
-- ml_metadata/metadata_store/metadata_store.cc, and FindContextByTypeIdAndContextName of
-- ml_metadata/metadata_store/rdbms_metadata_access_object.cc for `id_only`. An id that is still -1 is
-- `none`.
pub mod Reuse
pub mod Keeps
pub mod Linked
mod Runs
mod Tests
use ml_metadata_l_metadata_s.Prelude.{
  ℕ, String, Bool, true, false, not, ◌&&◌, ◌||◌, Option, none, some, List, [], ◌∷◌, ◌++◌, ◌==◌,
  str_eq, if◌then◌else◌,
}
use ml_metadata_l_metadata_s.Status.{
  Code, invalid_argument, not_found, aborted, fatal, is_not_found, is_already_exists, Result, ok,
  err,
}
use ml_metadata_l_metadata_s.Exec.{Exec, pure, raise, lift, gets, attempt, raise_if, ◌>>=◌, ◌>>◌}
use ml_metadata_l_metadata_s.Messages.{
  Kind, artifact, execution, context, Node, Event, text_of, is_set, number_of,
}
use ml_metadata_l_metadata_s.Tables.{Db, NodeRow}
use ml_metadata_l_metadata_s.Values.{Codec}
use ml_metadata_l_metadata_s.Nodes.{upsert_node}
use ml_metadata_l_metadata_s.Links.{
  create_event, insert_association_if_not_exist, insert_attribution_if_not_exist,
}

-- select_context_by_type_id_and_name
abbrev pub is_called : String → Option String → Bool
is_called name none = false
is_called name (some n) = str_eq n name

pub context_ids_named : ℕ → String → List NodeRow → List ℕ
context_ids_named type_id name [] = []
context_ids_named type_id name (row ∷ rows) =
    let rest = context_ids_named type_id name rows in
    if row.type_id == type_id && is_called name row.name then row.id ∷ rest else rest

-- More than one fails a CHECK.
abbrev pub only_id : List ℕ → Result ℕ
only_id [] = err not_found
only_id (id ∷ []) = ok id
only_id (id ∷ _ ∷ _) = err fatal

-- FindContextByTypeIdAndContextName with `id_only`
pub find_context_id : ℕ → String → Exec Db ℕ
unfolding context_ids_named
find_context_id type_id name db = (only_id (context_ids_named type_id name (db.nodes context)), db)

-- The status of the search for a context to reuse: NOT_FOUND leaves the id at -1.
abbrev pub reused_id : Result ℕ → Result (Option ℕ)
reused_id (ok id) = ok (some id)
reused_id (err c) = if not (is_not_found c) then err c else ok none

abbrev pub find_reusable : Bool → Node → Exec Db (Option ℕ)
find_reusable reuse node =
    if reuse && not (is_set node.id)
    then (do
      status ← attempt (find_context_id (number_of node.type_id) (text_of node.name))
      lift (reused_id status))
    else pure none

-- Two requests that create the same context race; the one that loses is told to try again.
abbrev pub race_status : Bool → Result ℕ → Result ℕ
race_status reuse (ok id) = ok id
race_status reuse (err c) = if reuse && is_already_exists c then err aborted else err c

abbrev pub upsert_unless_found : Codec → ℕ → Node → Bool → Option ℕ → Exec Db ℕ
upsert_unless_found codec now node reuse (some id) = pure id
upsert_unless_found codec now node reuse none = do
  status ← attempt (upsert_node context codec now node)
  lift (race_status reuse status)

-- UpsertContextWithOptions
pub upsert_context_with_options : Codec → ℕ → Node → Bool → Exec Db ℕ
unfolding find_context_id
upsert_context_with_options codec now node reuse = do
  raise_if (not (is_set node.type_id)) invalid_argument
  raise_if (not (is_set node.name)) invalid_argument
  found ← find_reusable reuse node
  upsert_unless_found codec now node reuse found

pub record ArtifactAndEvent : Type 0 where
  pub given_artifact : Option Node
  pub given_event : Option Event

abbrev same_id : Option ℕ → ℕ → Bool
same_id none id = false
same_id (some a) id = a == id

-- `maybe_artifact_id != maybe_event_artifact_id`, where the event has an artifact id.
abbrev misaligned : Node → Option ℕ → Bool
misaligned node none = false
misaligned node (some id) = not (same_id node.id id)

abbrev artifact_id_of : Option Event → Option ℕ
artifact_id_of none = none
artifact_id_of (some event) = event.artifact_id

-- The insertion of the event, once the artifact's id is known.
abbrev event_of_artifact : ℕ → ℕ → Option Event → Exec Db (Option ℕ)
event_of_artifact now artifact_id none = pure (some artifact_id)
event_of_artifact now artifact_id (some event) =
    create_event now (record event { artifact_id = some artifact_id }) >> pure (some artifact_id)

-- UpsertArtifactAndEvent: the answer is the artifact's id, and none for a pair with nothing in it.
abbrev pub upsert_pair : Codec → ℕ → Option Node → Option Event → Exec Db (Option ℕ)
upsert_pair codec now none none = pure none
upsert_pair codec now none (some event) = do
  raise_if (not (is_set event.artifact_id)) invalid_argument
  create_event now event
  pure (some (number_of event.artifact_id))
upsert_pair codec now (some node) event = do
  raise_if (misaligned node (artifact_id_of event)) invalid_argument
  artifact_id ← upsert_node artifact codec now node
  event_of_artifact now artifact_id event

pub upsert_artifact_and_event : Codec → ℕ → ArtifactAndEvent → Exec Db (Option ℕ)
upsert_artifact_and_event codec now pair =
    upsert_pair codec now pair.given_artifact pair.given_event

-- The test of the event's execution in PutExecution.
abbrev wrong_execution : Node → Option Event → Bool
wrong_execution node none = false
wrong_execution node (some event) = elim (event.execution_id) [
  | none ↦ false
  | some id ↦ not (same_id node.id id)
]

-- `event->set_execution_id(execution_id)`
abbrev with_execution : ℕ → ArtifactAndEvent → ArtifactAndEvent
with_execution execution_id pair = elim (pair.given_event) [
  | none ↦ pair
  | some event ↦ record pair {
    given_event = some (record event { execution_id = some execution_id });
  }
]

-- The loop over the pairs.
pub put_pairs : Codec → ℕ → Node → ℕ → List ArtifactAndEvent → Exec Db (List (Option ℕ))
unfolding upsert_artifact_and_event
put_pairs codec now node execution_id [] = pure []
put_pairs codec now node execution_id (pair ∷ pairs) =
    let put_rest = put_pairs codec now node execution_id pairs in
    do
      raise_if (wrong_execution node pair.given_event) invalid_argument
      artifact_id ← upsert_artifact_and_event codec now (with_execution execution_id pair)
      ids ← put_rest
      pure (artifact_id ∷ ids)

-- The loop over the artifacts of one context. The id -1 of an empty pair names no artifact.
pub attribute_all : ℕ → List (Option ℕ) → Exec Db (Unit {0})
attribute_all context_id [] = pure tt
attribute_all context_id (none ∷ ids) = raise invalid_argument
attribute_all context_id (some id ∷ ids) =
    insert_attribution_if_not_exist context_id id >> attribute_all context_id ids

-- The loop over the contexts.
pub put_contexts : Codec → ℕ → Bool → ℕ → List (Option ℕ) → List Node → Exec Db (List ℕ)
unfolding upsert_context_with_options attribute_all
put_contexts codec now reuse execution_id artifact_ids [] = pure []
put_contexts codec now reuse execution_id artifact_ids (node ∷ nodes) =
    let put_rest = put_contexts codec now reuse execution_id artifact_ids nodes in
    do
      context_id ← upsert_context_with_options codec now node reuse
      insert_association_if_not_exist context_id execution_id
      attribute_all context_id artifact_ids
      ids ← put_rest
      pure (context_id ∷ ids)

pub record PutExecutionRequest : Type 0 where
  pub given_execution : Option Node
  pub artifact_event_pairs : List ArtifactAndEvent
  pub contexts : List Node
  pub reuse_context_if_already_exist : Bool

pub record PutExecutionResponse : Type 0 where
  pub execution_id : ℕ
  pub artifact_ids : List (Option ℕ)
  pub context_ids : List ℕ

-- PutExecution, inside its transaction: without an execution, and with one.
abbrev pub put_given : Codec → ℕ → PutExecutionRequest → Option Node → Exec Db PutExecutionResponse
put_given codec now request none = raise invalid_argument
put_given codec now request (some node) = do
  id ← upsert_node execution codec now node
  artifact_ids ← put_pairs codec now node id request.artifact_event_pairs
  context_ids ←
      put_contexts codec now request.reuse_context_if_already_exist id artifact_ids request.contexts
  pure record { execution_id = id; artifact_ids = artifact_ids; context_ids = context_ids }

pub put_execution : Codec → ℕ → PutExecutionRequest → Exec Db PutExecutionResponse
unfolding put_pairs put_contexts
put_execution codec now request = put_given codec now request request.given_execution
