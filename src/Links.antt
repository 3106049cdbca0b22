-- ===== src/Links.antt =====
-- CreateEvent, CreateAssociation, CreateAttribution and CreateParentContext of
-- ml_metadata/metadata_store/rdbms_metadata_access_object.cc, and InsertAssociationIfNotExist and
-- InsertAttributionIfNotExist of ml_metadata/metadata_store/metadata_store.cc.
pub mod NoCycles
pub mod Linked
pub mod Grow
mod Tests
use ml_metadata_l_metadata_s.Prelude.{
  ℕ, Bool, true, false, not, ◌||◌, Option, none, some, List, [], ◌∷◌, ◌==◌, ltb, length,
  if◌then◌else◌,
}
use ml_metadata_l_metadata_s.Status.{
  Code, invalid_argument, already_exists, unique_violation, is_already_exists, Result, ok, err,
}
use ml_metadata_l_metadata_s.Exec.{Exec, pure, raise, lift, gets, attempt, raise_if, ◌>>=◌, ◌>>◌}
use ml_metadata_l_metadata_s.Messages.{artifact, execution, context, Step, Event, is_set, number_of}
use ml_metadata_l_metadata_s.Ancestry.{check_cyclic_dependency}
use ml_metadata_l_metadata_s.Tables.{Db, NodeRow}
use ml_metadata_l_metadata_s.Tables.NodeQueries.{select_node_by_id}
use ml_metadata_l_metadata_s.Tables.LinkQueries.{
  insert_event, insert_event_path, insert_association, insert_attribution, insert_parent_context,
}
use ml_metadata_l_metadata_s.Types.{with_unique_cast, walk_status}
use ml_metadata_l_metadata_s.Nodes.{select_nodes_by_ids}

-- `records_size() == 0`
abbrev pub no_rows : List NodeRow → Bool
no_rows [] = true
no_rows (row ∷ rows) = false

-- The loop over the steps of the path.
unfoldable pub insert_event_paths : ℕ → List Step → Exec Db (Unit {0})
insert_event_paths event_id [] = pure tt
insert_event_paths event_id (step ∷ steps) =
    insert_event_path event_id step >> insert_event_paths event_id steps

abbrev pub time_of : Option ℕ → ℕ → ℕ
time_of none now = now
time_of (some time) now = time

-- CreateEvent. Event::UNKNOWN is 0. An event that is there is ALREADY_EXISTS; the insertion has no
-- other error here.
unfoldable pub create_event : ℕ → Event → Exec Db ℕ
unfolding insert_event_paths
create_event now event = do
  raise_if (not (is_set event.artifact_id)) invalid_argument
  raise_if (not (is_set event.execution_id)) invalid_argument
  raise_if (number_of event.type == 0) invalid_argument
  artifacts ←
      gets (λ (db : Db). select_node_by_id (number_of event.artifact_id) (db.nodes artifact))
  executions ←
      gets (λ (db : Db). select_node_by_id (number_of event.execution_id) (db.nodes execution))
  raise_if (no_rows artifacts) invalid_argument
  raise_if (no_rows executions) invalid_argument
  event_id ← with_unique_cast (
      insert_event (number_of event.artifact_id) (number_of event.execution_id)
        (number_of event.type) (time_of event.milliseconds_since_epoch now))
  insert_event_paths event_id event.path
  pure event_id

-- CreateAssociation
unfoldable pub create_association : Option ℕ → Option ℕ → Exec Db ℕ
create_association context_id execution_id = do
  raise_if (not (is_set context_id)) invalid_argument
  contexts ← gets (λ (db : Db). select_node_by_id (number_of context_id) (db.nodes context))
  raise_if (no_rows contexts) invalid_argument
  raise_if (not (is_set execution_id)) invalid_argument
  executions ← gets (λ (db : Db). select_node_by_id (number_of execution_id) (db.nodes execution))
  raise_if (no_rows executions) invalid_argument
  with_unique_cast (insert_association (number_of context_id) (number_of execution_id))

-- CreateAttribution
unfoldable pub create_attribution : Option ℕ → Option ℕ → Exec Db ℕ
create_attribution context_id artifact_id = do
  raise_if (not (is_set context_id)) invalid_argument
  contexts ← gets (λ (db : Db). select_node_by_id (number_of context_id) (db.nodes context))
  raise_if (no_rows contexts) invalid_argument
  raise_if (not (is_set artifact_id)) invalid_argument
  artifacts ← gets (λ (db : Db). select_node_by_id (number_of artifact_id) (db.nodes artifact))
  raise_if (no_rows artifacts) invalid_argument
  with_unique_cast (insert_attribution (number_of context_id) (number_of artifact_id))

-- CreateParentContext
pub create_parent_context : Option ℕ → Option ℕ → Exec Db (Unit {0})
create_parent_context parent_id child_id = do
  raise_if (not (is_set parent_id) || not (is_set child_id)) invalid_argument
  contexts ← gets (λ (db : Db).
      select_nodes_by_ids (number_of parent_id ∷ number_of child_id ∷ []) (db.nodes context))
  raise_if (ltb (length contexts) 2) invalid_argument
  links ← gets (λ (db : Db). db.parent_contexts)
  lift (walk_status (check_cyclic_dependency links (number_of child_id) (number_of parent_id)))
  with_unique_cast (insert_parent_context (number_of parent_id) (number_of child_id))

-- OK also if it is there already.
abbrev pub tolerate : Result ℕ → Result (Unit {0})
tolerate (ok id) = ok tt
tolerate (err c) = if not (is_already_exists c) then err c else ok tt

-- InsertAssociationIfNotExist
unfoldable pub insert_association_if_not_exist : ℕ → ℕ → Exec Db (Unit {0})
unfolding create_association
insert_association_if_not_exist context_id execution_id = do
  status ← attempt (create_association (some context_id) (some execution_id))
  lift (tolerate status)

-- InsertAttributionIfNotExist
unfoldable pub insert_attribution_if_not_exist : ℕ → ℕ → Exec Db (Unit {0})
unfolding create_attribution
insert_attribution_if_not_exist context_id artifact_id = do
  status ← attempt (create_attribution (some context_id) (some artifact_id))
  lift (tolerate status)
