-- ===== src/Expand.antt =====
-- The traversal of a lineage query: SkipBoundaryNodesImpl, the two ExpandLineageGraphImpl and the
-- loop of QueryLineageGraph of ml_metadata/metadata_store/rdbms_metadata_access_object.cc. The two
-- directions of an expansion are a `Side`. The order in which a flat_hash_set is walked is a
-- parameter. An id counts as visited if it is in a list.
mod Fuel
use Prim.Native.String.{◌++◌ as append_text}
use ml_metadata_l_metadata_s.Prelude.{
  ℕ, zero, suc, ◌-◌, String, true, not, Option, none, some, List, [], ◌∷◌, ◌++◌, ◌==◌, ltb, length,
  take, drop, if◌then◌else◌,
}
use ml_metadata_l_metadata_s.Status.{is_not_found, Result, ok, err, ◌>>=◌}
use ml_metadata_l_metadata_s.Messages.{
  Kind, artifact, execution, pos, TypeMessage, Node, Event, number_of,
}
use ml_metadata_l_metadata_s.Tables.{Db, EventRow}
use ml_metadata_l_metadata_s.Types.Parents.{has_id, dedup_ids}
use ml_metadata_l_metadata_s.Values.{Codec}
use ml_metadata_l_metadata_s.ListQuery.{ListOptions, by_id, TokenCodec, FilterQuery, list_node_ids}
use ml_metadata_l_metadata_s.Finds.{RowOrder, find_by_ids, find_events_by}

-- LineageGraph
pub record LineageGraph : Type 0 where
  pub artifacts : List Node
  pub executions : List Node
  pub events : List Event
  pub artifact_types : List TypeMessage
  pub execution_types : List TypeMessage
  pub context_types : List TypeMessage

-- Which ExpandLineageGraphImpl: the nodes that it starts from.
pub data Side : Type 0 where
  from_artifacts from_executions : Side

abbrev pub other_side : Side → Side
other_side from_artifacts = from_executions
other_side from_executions = from_artifacts

-- The kind of the nodes that are found.
abbrev pub far_kind : Side → Kind
far_kind from_artifacts = execution
far_kind from_executions = artifact

abbrev pub near_column : Side → EventRow → ℕ
near_column from_artifacts row = row.artifact_id
near_column from_executions row = row.execution_id

abbrev pub far_id : Side → Event → ℕ
far_id from_artifacts event = number_of event.execution_id
far_id from_executions event = number_of event.artifact_id

abbrev pub far_nodes : Side → LineageGraph → List Node
far_nodes from_artifacts graph = graph.executions
far_nodes from_executions graph = graph.artifacts

abbrev pub add_far_nodes : Side → List Node → LineageGraph → LineageGraph
add_far_nodes from_artifacts nodes graph = record graph { executions = graph.executions ++ nodes }
add_far_nodes from_executions nodes graph = record graph { artifacts = graph.artifacts ++ nodes }

unfoldable pub ids_of : List Node → List ℕ
ids_of [] = []
ids_of (node ∷ nodes) = number_of node.id ∷ ids_of nodes

-- `unvisited_node_ids.erase` for each of the ids.
unfoldable pub erase_ids : List ℕ → List ℕ → List ℕ
erase_ids skipped [] = []
erase_ids skipped (id ∷ ids) =
    let rest = erase_ids skipped ids in if has_id id skipped then rest else id ∷ rest

-- The loop of SkipBoundaryNodesImpl over batches of 100 candidates.
unfoldable pub skip_batches : ℕ → (List ℕ → Result (List ℕ)) → List ℕ → List ℕ → Result (List ℕ)
unfolding erase_ids
skip_batches zero query candidates unvisited = ok unvisited
skip_batches (suc fuel) query [] unvisited = ok unvisited
skip_batches (suc fuel) query (id ∷ ids) unvisited = query (take 100 (id ∷ ids)) >>= λ skipped.
    skip_batches fuel query (drop 100 (id ∷ ids)) (erase_ids skipped unvisited)

-- `boundary_options`, with the defaults of the fields that are not set.
abbrev pub boundary_options : String → ListOptions
boundary_options condition = record {
  max_result_size = pos 100;
  field = by_id;
  is_asc = true;
  next_page_token = "";
  filter_query = append_text "NOT(" (append_text condition ")");
}

-- SkipBoundaryNodesImpl
unfoldable pub skip_boundary_nodes :
    FilterQuery → TokenCodec → Kind → Option String → List ℕ → Db → Result (List ℕ)
unfolding skip_batches
skip_boundary_nodes filter tokens kind none unvisited db = ok unvisited
skip_boundary_nodes filter tokens kind (some condition) unvisited db =
    skip_batches (length unvisited)
      (λ batch. list_node_ids filter tokens kind (boundary_options condition) (some batch) db)
      unvisited unvisited

-- The ends of events that were not visited, as a set.
unfoldable pub unvisited_ends : Side → List ℕ → List Event → List ℕ
unvisited_ends side visited [] = []
unvisited_ends side visited (event ∷ events) =
    let rest = unvisited_ends side visited events in
    if not (has_id (far_id side event) visited) then far_id side event ∷ rest else rest

-- `while (size > max_nodes) erase(begin)`
unfoldable pub erase_extra : ℕ → List ℕ → List ℕ
erase_extra max_nodes [] = []
erase_extra max_nodes (id ∷ ids) =
    let rest = erase_extra max_nodes ids in
    if ltb max_nodes (length (id ∷ ids)) then rest else id ∷ ids

unfoldable pub events_to : Side → List ℕ → List Event → List Event
events_to side ids [] = []
events_to side ids (event ∷ events) =
    let rest = events_to side ids events in
    if has_id (far_id side event) ids then event ∷ rest else rest

-- What an expansion changes: the visited nodes it starts from, its output and the graph.
pub record Expansion : Type 0 where
  pub visited : List ℕ
  pub output : List Node
  pub graph : LineageGraph

-- The events, none if the search says NOT_FOUND. Another error leaves no events.
abbrev pub events_or_none : Result (List Event) → Option (List Event)
events_or_none (err c) = if is_not_found c then none else some []
events_or_none (ok events) = some events

-- The boundary of the nodes that a side finds.
abbrev pub boundary_of : Side → Option String → Option String → Option String
boundary_of from_artifacts artifacts executions = executions
boundary_of from_executions artifacts executions = artifacts

module _ (filter : FilterQuery) (tokens : TokenCodec) (values : Codec) (row_order : RowOrder)
    (hash_order : List ℕ → List ℕ) where
  abbrev pub expand_to : Side → List Event → List ℕ → List ℕ → LineageGraph → Db → Result Expansion
  expand_to side events visited ids graph db = do
    output ← find_by_ids values (far_kind side) ids db
    ok record {
      visited = visited;
      output = output;
      graph =
          add_far_nodes side output
            (record graph { events = graph.events ++ events_to side ids events });
    }

  abbrev pub expand_events :
      Side
      → ℕ
      → Option String
      → List ℕ
      → List ℕ
      → List Node
      → LineageGraph
      → Db
      → Option (List Event)
      → Result Expansion
  expand_events side max_nodes boundary visited_far visited output graph db none =
      ok record { visited = visited; output = output; graph = graph }
  expand_events side max_nodes boundary visited_far visited output graph db (some events) = do
    kept ←
        skip_boundary_nodes filter tokens (far_kind side) boundary
          (dedup_ids (unvisited_ends side visited_far events)) db
    expand_to side events visited (erase_extra max_nodes (hash_order kept)) graph db

  -- ExpandLineageGraphImpl
  unfoldable pub expand_lineage_graph :
      Side
      → List Node
      → ℕ
      → Option String
      → List ℕ
      → List ℕ
      → List Node
      → LineageGraph
      → Db
      → Result Expansion
  unfolding skip_boundary_nodes ids_of unvisited_ends erase_extra events_to
  expand_lineage_graph side input max_nodes boundary visited_far visited output graph db =
      if max_nodes == 0
      then ok record { visited = visited; output = output; graph = graph }
      else expand_events side max_nodes boundary visited_far (ids_of input ++ visited) output graph
          db (events_or_none (find_events_by row_order (near_column side) (ids_of input) db))

  -- The loop of QueryLineageGraph: the two output vectors and the two visited sets change their
  -- places with every hop.
  unfoldable pub traverse :
      ℕ
      → Side
      → List Node
      → List Node
      → List Node
      → List ℕ
      → List ℕ
      → ℕ
      → Option String
      → Option String
      → LineageGraph
      → Db
      → Result LineageGraph
  unfolding expand_lineage_graph
  traverse zero side input far_output near_output visited_far visited_near quota artifacts
        executions graph db =
      ok graph
  traverse (suc hops) side input far_output near_output visited_far visited_near quota artifacts
        executions graph db =
      let next : Expansion → Result LineageGraph = λ expansion.
        traverse hops (other_side side) expansion.output near_output expansion.output
          expansion.visited visited_far (quota - length expansion.output) artifacts executions
          expansion.graph db in
      if quota == 0
      then ok graph
      else (expand_lineage_graph side input quota (boundary_of side artifacts executions)
            visited_far visited_near far_output graph db
          >>= λ expansion.
              if length expansion.output == 0 then ok expansion.graph else next expansion)
