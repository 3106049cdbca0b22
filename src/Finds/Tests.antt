-- ===== src/Finds/Tests.antt =====
-- An output event with a path, in a store with one event.
use ml_metadata_l_metadata_s.Prelude.{ℕ, ◌≡◌, refl, none, some, List, [], ◌∷◌, ◌++◌, arith}
use ml_metadata_l_metadata_s.Status.{ok}
use ml_metadata_l_metadata_s.Messages.{
  Kind, artifact, execution, context, index, key, unset_step, Event,
}
use ml_metadata_l_metadata_s.Tables.{Db, NodeRow, empty_db}
use ml_metadata_l_metadata_s.Tables.NodeQueries.{select_node_by_id}
use ml_metadata_l_metadata_s.Tables.LinkQueries.{has_event, insert_event, insert_event_path}
use ml_metadata_l_metadata_s.Links.{create_event}
use ml_metadata_l_metadata_s.Finds.{find_events_by_artifacts, find_events_by_executions}
use ml_metadata_l_metadata_s.Finds.Writes.{HasFreshEvents}
use ml_metadata_l_metadata_s.Finds.Orders.{backwards, backwards-Permutes}
use ml_metadata_l_metadata_s.Finds.Events.{Answers, events_at, stored_event, create_event-find}

abbrev row : ℕ → NodeRow
row id = record {
  id = id;
  type_id = 1;
  name = none;
  uri = none;
  state = none;
  create_time = 0;
  update_time = 0;
}

abbrev ends : Kind → List NodeRow
ends context = []
ends execution = row 5 ∷ []
ends artifact = row 3 ∷ []

abbrev event_db : Db
event_db = record empty_db {
  nodes = ends;
  events = record { id = 1; artifact_id = 3; execution_id = 5; type = 3; time = 7 } ∷ [];
  event_paths = (1, key "in") ∷ [];
  last_event_id = 1;
}

abbrev output : Event
output = record {
  artifact_id = some 3;
  execution_id = some 5;
  type = some 4;
  milliseconds_since_epoch = none;
  path = index 2 ∷ unset_step ∷ key "out" ∷ [];
}

event_db-HasFreshEvents : HasFreshEvents event_db
event_db-HasFreshEvents = record { event_ids = (omega arith, tt); path_ids = (omega arith, tt) }

output-ok : (create_event 90 output event_db).0 ≡ ok 2
unfolding create_event select_node_by_id insert_event has_event insert_event_path
output-ok = refl

create_event-find_example :
    Answers
      (find_events_by_artifacts backwards (3 ∷ []) (create_event 90 output event_db).1)
      (events_at (λ r. r.artifact_id) 3 event_db ++ stored_event 90 output ∷ [])
    × Answers
        (find_events_by_executions backwards (5 ∷ []) (create_event 90 output event_db).1)
        (events_at (λ r. r.execution_id) 5 event_db ++ stored_event 90 output ∷ [])
create_event-find_example =
    create_event-find backwards 90 output event_db 2 backwards-Permutes event_db-HasFreshEvents
      output-ok
