-- ===== src/Tables/LinkQueries.antt =====
-- The queries on `Event`, `EventPath`, `Association`, `Attribution` and `ParentContext`.
use ml_metadata_l_metadata_s.Prelude.{
  ℕ, ◌+◌, Bool, true, false, ◌&&◌, List, [], ◌∷◌, ◌++◌, ◌==◌, if◌then◌else◌,
}
use ml_metadata_l_metadata_s.Status.{unique_violation, ok, err}
use ml_metadata_l_metadata_s.Exec.{Exec}
use ml_metadata_l_metadata_s.Messages.{Step, index, key, unset_step}
use ml_metadata_l_metadata_s.Tables.{Db, EventRow, PairRow}
use ml_metadata_l_metadata_s.Tables.TypeQueries.{has_row}

-- UNIQUE(artifact_id, execution_id, type)
unfoldable pub has_event : ℕ → ℕ → ℕ → List EventRow → Bool
has_event artifact_id execution_id type [] = false
has_event artifact_id execution_id type (row ∷ rows) =
    if row.artifact_id == artifact_id && (row.execution_id == execution_id && row.type == type)
    then true
    else has_event artifact_id execution_id type rows

-- insert_event
unfoldable pub insert_event : ℕ → ℕ → ℕ → ℕ → Exec Db ℕ
unfolding has_event
insert_event artifact_id execution_id type time db =
    if has_event artifact_id execution_id type db.events then (err unique_violation, db) else (
      ok (db.last_event_id + 1),
      record db {
        events =
            db.events
            ++ record {
              id = db.last_event_id + 1;
              artifact_id = artifact_id;
              execution_id = execution_id;
              type = type;
              time = time;
            }
              ∷ [];
        last_event_id = db.last_event_id + 1;
      },
    )

-- insert_event_path: a step without a value writes nothing.
unfoldable pub insert_event_path : ℕ → Step → Exec Db (Unit {0})
insert_event_path event_id (index i) db =
    (ok tt, record db { event_paths = db.event_paths ++ (event_id, index i) ∷ [] })
insert_event_path event_id (key k) db =
    (ok tt, record db { event_paths = db.event_paths ++ (event_id, key k) ∷ [] })
insert_event_path event_id unset_step db = (ok tt, db)

-- UNIQUE(context_id, execution_id) and UNIQUE(context_id, artifact_id)
unfoldable pub has_pair : ℕ → ℕ → List PairRow → Bool
has_pair context_id node_id [] = false
has_pair context_id node_id (row ∷ rows) =
    if row.context_id == context_id && row.node_id == node_id
    then true
    else has_pair context_id node_id rows

-- insert_association
unfoldable pub insert_association : ℕ → ℕ → Exec Db ℕ
unfolding has_pair
insert_association context_id execution_id db =
    if has_pair context_id execution_id db.associations then (err unique_violation, db) else (
      ok (db.last_association_id + 1),
      record db {
        associations =
            db.associations
            ++ record {
              id = db.last_association_id + 1;
              context_id = context_id;
              node_id = execution_id;
            }
              ∷ [];
        last_association_id = db.last_association_id + 1;
      },
    )

-- insert_attribution
unfoldable pub insert_attribution : ℕ → ℕ → Exec Db ℕ
unfolding has_pair
insert_attribution context_id artifact_id db =
    if has_pair context_id artifact_id db.attributions then (err unique_violation, db) else (
      ok (db.last_attribution_id + 1),
      record db {
        attributions =
            db.attributions
            ++ record {
              id = db.last_attribution_id + 1;
              context_id = context_id;
              node_id = artifact_id;
            }
              ∷ [];
        last_attribution_id = db.last_attribution_id + 1;
      },
    )

-- insert_parent_context: the row has the child first.
unfoldable pub insert_parent_context : ℕ → ℕ → Exec Db (Unit {0})
unfolding has_row
insert_parent_context parent_id child_id db =
    if has_row child_id parent_id db.parent_contexts
    then (err unique_violation, db)
    else (ok tt, record db { parent_contexts = db.parent_contexts ++ (child_id, parent_id) ∷ [] })
