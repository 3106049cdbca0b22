-- ===== src/EventEdges/Tests.antt =====
-- A request with one execution with the id 7, and one artifact without an id.
use ml_metadata_l_metadata_s.Prelude.{◌≡◌, ◌↔◌, refl, none, some, [], ◌∷◌, All}
use ml_metadata_l_metadata_s.Status.{ok, err, invalid_argument, out_of_range}
use ml_metadata_l_metadata_s.Messages.{pos, Event, Node}
use ml_metadata_l_metadata_s.EventEdges.{EventEdge, check_event_edges}
use ml_metadata_l_metadata_s.EventEdges.Valid.{IsValidEdge, check_event_edges_iff}

abbrev new_node : Node
new_node = record {
  id = none;
  type_id = some 1;
  name = none;
  uri = none;
  state = none;
  properties = [];
  custom_properties = [];
  create_time_since_epoch = none;
  last_update_time_since_epoch = none;
}

abbrev stored_node : Node
stored_node = record new_node { id = some 7 }

abbrev event : Event
event = record {
  artifact_id = none;
  execution_id = some 7;
  type = some 4;
  milliseconds_since_epoch = none;
  path = [];
}

abbrev edge : EventEdge
edge = record { execution_index = some (pos 0); artifact_index = some (pos 0); event = some event }

check-accepted : check_event_edges (stored_node ∷ []) (new_node ∷ []) (edge ∷ []) ≡ ok tt
unfolding check_event_edges
check-accepted = refl

check-refused :
    (check_event_edges (new_node ∷ []) (new_node ∷ []) (edge ∷ []) ≡ err invalid_argument)
    × (check_event_edges (stored_node ∷ []) [] (edge ∷ []) ≡ err out_of_range)
unfolding check_event_edges
check-refused = (refl, refl)

check_event_edges_iff_example :
    (check_event_edges (stored_node ∷ []) (new_node ∷ []) (edge ∷ []) ≡ ok tt)
    ↔ All (IsValidEdge (stored_node ∷ []) (new_node ∷ [])) (edge ∷ [])
check_event_edges_iff_example = check_event_edges_iff (stored_node ∷ []) (new_node ∷ []) (edge ∷ [])
