-- ===== src/PutNodes.antt =====
-- The handlers PutArtifacts, PutExecutions and PutContexts of
-- ml_metadata/metadata_store/metadata_store.cc, inside their transactions. The clock gives the time
-- of the upsert of each node of the request; the sleep of a millisecond after the check of
-- `abort_if_latest_updated_time_changed` is a part of it.
pub mod Updated
pub mod Latest
mod Tests
use ml_metadata_l_metadata_s.Prelude.{
  ℕ, ◌+◌, Bool, true, false, not, Option, none, some, List, [], ◌∷◌, ◌==◌, if◌then◌else◌,
}
use ml_metadata_l_metadata_s.Status.{
  Code, failed_precondition, fatal, is_not_found, Result, ok, err, reject_if,
}
use ml_metadata_l_metadata_s.Exec.{Exec, pure, lift, ◌>>=◌, ◌>>◌}
use ml_metadata_l_metadata_s.Messages.{Kind, artifact, execution, context, Node, number_of}
use ml_metadata_l_metadata_s.Tables.{Db}
use ml_metadata_l_metadata_s.Values.{Codec}
use ml_metadata_l_metadata_s.Nodes.{upsert_node}
use ml_metadata_l_metadata_s.Finds.{find_by_ids}

-- The comparison with what FindArtifactsById gives. An artifact that is not there is not compared;
-- `artifacts.at(0)` of no artifacts throws.
abbrev pub same_latest : Node → Result (List Node) → Result (Unit {0})
same_latest node (err c) = if is_not_found c then ok tt else err c
same_latest node (ok []) = err fatal
same_latest node (ok (existing ∷ nodes)) =
    reject_if
      (not (
        number_of node.last_update_time_since_epoch
        == number_of existing.last_update_time_since_epoch))
      failed_precondition

abbrev pub check_latest : Codec → Bool → Node → Option ℕ → Db → Result (Unit {0})
check_latest codec abort node none db = ok tt
check_latest codec abort node (some id) db =
    if abort then same_latest node (find_by_ids codec artifact (id ∷ []) db) else ok tt

-- The body of the loop of PutArtifacts.
abbrev pub put_artifact : Codec → Bool → ℕ → Node → Exec Db ℕ
put_artifact codec abort now node =
    (λ db. (check_latest codec abort node node.id db, db)) >> upsert_node artifact codec now node

-- PutArtifacts, from the i-th artifact on.
pub put_artifacts_from : Codec → Bool → (ℕ → ℕ) → ℕ → List Node → Exec Db (List ℕ)
unfolding upsert_node
put_artifacts_from codec abort clock i [] = pure []
put_artifacts_from codec abort clock i (node ∷ nodes) = do
  id ← put_artifact codec abort (clock i) node
  ids ← put_artifacts_from codec abort clock (i + 1) nodes
  pure (id ∷ ids)

pub put_artifacts : Codec → Bool → (ℕ → ℕ) → List Node → Exec Db (List ℕ)
unfolding put_artifacts_from
put_artifacts codec abort clock = put_artifacts_from codec abort clock 0

-- The loops of PutExecutions and PutContexts.
pub put_nodes_from : Kind → Codec → (ℕ → ℕ) → ℕ → List Node → Exec Db (List ℕ)
unfolding upsert_node
put_nodes_from kind codec clock i [] = pure []
put_nodes_from kind codec clock i (node ∷ nodes) = do
  id ← upsert_node kind codec (clock i) node
  ids ← put_nodes_from kind codec clock (i + 1) nodes
  pure (id ∷ ids)

abbrev put_executions : Codec → (ℕ → ℕ) → List Node → Exec Db (List ℕ)
put_executions codec clock = put_nodes_from execution codec clock 0

abbrev put_contexts : Codec → (ℕ → ℕ) → List Node → Exec Db (List ℕ)
put_contexts codec clock = put_nodes_from context codec clock 0
