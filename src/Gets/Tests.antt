-- ===== src/Gets/Tests.antt =====
-- Two events are put into a store with one.
use ml_metadata_l_metadata_s.Prelude.{ℕ, ◌≡◌, refl, none, some, List, [], ◌∷◌, ◌++◌, arith}
use ml_metadata_l_metadata_s.Status.{ok}
use ml_metadata_l_metadata_s.Messages.{
  Kind, artifact, execution, context, Step, index, key, unset_step, Event, number_of,
}
use ml_metadata_l_metadata_s.Tables.{Db, NodeRow, empty_db}
use ml_metadata_l_metadata_s.Tables.NodeQueries.{select_node_by_id}
use ml_metadata_l_metadata_s.Tables.LinkQueries.{has_event, insert_event, insert_event_path}
use ml_metadata_l_metadata_s.Types.Parents.{has_id}
use ml_metadata_l_metadata_s.Links.{create_event}
use ml_metadata_l_metadata_s.Puts.{put_events}
use ml_metadata_l_metadata_s.Finds.{find_events_by, steps_of}
use ml_metadata_l_metadata_s.Finds.Orders.{backwards, backwards-Permutes}
use ml_metadata_l_metadata_s.Finds.Events.{Answers}
use ml_metadata_l_metadata_s.Finds.Writes.{HasFreshEvents}
use ml_metadata_l_metadata_s.Gets.{get_events_by_artifact_ids, get_events_by_execution_ids}
use ml_metadata_l_metadata_s.Gets.Events.{stored_at, put_events-get_events}

abbrev row : ℕ → NodeRow
row id = record {
  id = id;
  type_id = 1;
  name = none;
  uri = none;
  state = none;
  create_time = 0;
  update_time = 0;
}

abbrev ends : Kind → List NodeRow
ends context = []
ends execution = row 5 ∷ []
ends artifact = row 3 ∷ row 4 ∷ []

abbrev event_db : Db
event_db = record empty_db {
  nodes = ends;
  events = record { id = 1; artifact_id = 3; execution_id = 5; type = 3; time = 7 } ∷ [];
  event_paths = (1, key "in") ∷ [];
  last_event_id = 1;
}

abbrev output : ℕ → List Step → Event
output id path = record {
  artifact_id = some id;
  execution_id = some 5;
  type = some 4;
  milliseconds_since_epoch = none;
  path = path;
}

abbrev outputs : List Event
outputs = output 4 (key "model" ∷ []) ∷ output 3 (index 2 ∷ unset_step ∷ []) ∷ []

abbrev input : Event
input = record (output 3 (key "in" ∷ [])) { type = some 3; milliseconds_since_epoch = some 7 }

event_db-HasFreshEvents : HasFreshEvents event_db
event_db-HasFreshEvents = record { event_ids = (omega arith, tt); path_ids = (omega arith, tt) }

input-found-by_artifact : get_events_by_artifact_ids backwards (3 ∷ []) event_db ≡ ok (input ∷ [])
unfolding find_events_by has_id steps_of
input-found-by_artifact = refl

input-found-by_execution : get_events_by_execution_ids backwards (5 ∷ []) event_db ≡ ok (input ∷ [])
unfolding find_events_by has_id steps_of
input-found-by_execution = refl

outputs-put : (put_events 90 outputs event_db).0 ≡ ok tt
unfolding put_events create_event select_node_by_id insert_event has_event insert_event_path
outputs-put = refl

put_events-get_events_example :
    Answers
      (get_events_by_artifact_ids backwards (3 ∷ []) (put_events 90 outputs event_db).1)
      (input ∷ [] ++ stored_at (λ event. number_of event.artifact_id) 3 90 outputs)
    × Answers
        (get_events_by_execution_ids backwards (5 ∷ []) (put_events 90 outputs event_db).1)
        (input ∷ [] ++ stored_at (λ event. number_of event.execution_id) 5 90 outputs)
put_events-get_events_example =
    put_events-get_events backwards 3 5 90 outputs event_db (input ∷ []) (input ∷ [])
      backwards-Permutes event_db-HasFreshEvents input-found-by_artifact input-found-by_execution
      outputs-put
