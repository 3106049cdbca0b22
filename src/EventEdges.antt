-- ===== src/EventEdges.antt =====
-- CheckEventEdges of ml_metadata/metadata_store/metadata_store.cc: the edges of a
-- PutLineageSubgraphRequest against its lists of executions and artifacts.
pub mod Valid
mod Tests
use ml_metadata_l_metadata_s.Prelude.{
  ℕ, Bool, true, false, not, ◌&&◌, ◌||◌, Option, none, some, List, [], ◌∷◌, ◌==◌, ltb, leb, length,
  get_elem?, if◌then◌else◌,
}
use ml_metadata_l_metadata_s.Status.{
  Code, invalid_argument, out_of_range, Result, ok, err, ◌>>=◌, ◌>>◌, reject_if,
}
use ml_metadata_l_metadata_s.Messages.{ℤ, pos, negsuc, Event, Node, is_set}

-- An index is a signed number of the request.
pub record EventEdge : Type 0 where
  pub execution_index : Option ℤ
  pub artifact_index : Option ℤ
  pub event : Option Event

-- The node at an index that is in the bounds of the list.
abbrev pub node_at : List Node → ℤ → Option Node
node_at nodes (pos i) = get_elem? nodes i
node_at nodes (negsuc i) = none

-- The node's id against the id that the event gives.
abbrev check_id : Option ℕ → Option ℕ → Result (Unit {0})
check_id node_id none = ok tt
check_id none (some id) = err invalid_argument
check_id (some node_id) (some id) = reject_if (not (node_id == id)) invalid_argument

abbrev check_node : Option Node → Option ℕ → Result (Unit {0})
check_node none event_id = err out_of_range
check_node (some node) event_id = check_id node.id event_id

-- The three tests of one end of an edge: something must name the node, an index must be in bounds, and
-- an index and an id must agree.
abbrev pub check_end : List Node → Option ℤ → Option ℕ → Result (Unit {0})
check_end nodes none none = err invalid_argument
check_end nodes none (some id) = ok tt
check_end nodes (some index) event_id = check_node (node_at nodes index) event_id

abbrev pub check_event : List Node → List Node → EventEdge → Option Event → Result (Unit {0})
check_event executions artifacts edge none = err invalid_argument
check_event executions artifacts edge (some event) =
    check_end executions edge.execution_index event.execution_id
    >> check_end artifacts edge.artifact_index event.artifact_id

pub check_event_edges : List Node → List Node → List EventEdge → Result (Unit {0})
check_event_edges executions artifacts [] = ok tt
check_event_edges executions artifacts (edge ∷ edges) =
    check_event executions artifacts edge edge.event >> check_event_edges executions artifacts edges
