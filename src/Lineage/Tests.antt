-- ===== src/Lineage/Tests.antt =====
-- An execution that reads one artifact and writes another.
use ml_metadata_l_metadata_s.Prelude.{ℕ, ◌≤◌, ◌≡◌, refl, true, none, some, List, [], ◌∷◌, ltb}
use ml_metadata_l_metadata_s.Status.{ok}
use ml_metadata_l_metadata_s.Messages.{Kind, artifact, execution, context, pos, Node, Event}
use ml_metadata_l_metadata_s.Tables.{Db, NodeRow, empty_db}
use ml_metadata_l_metadata_s.Tables.NodeQueries.{select_properties}
use ml_metadata_l_metadata_s.Tables.TypeQueries.{select_all_types}
use ml_metadata_l_metadata_s.Types.{find_types}
use ml_metadata_l_metadata_s.Types.Parents.{has_id, dedup_ids}
use ml_metadata_l_metadata_s.Values.{Codec}
use ml_metadata_l_metadata_s.Nodes.{find_nodes, read_node}
use ml_metadata_l_metadata_s.Finds.Orders.{backwards, backwards-Permutes}
use ml_metadata_l_metadata_s.Finds.{find_events_by, steps_of}
use ml_metadata_l_metadata_s.ListQuery.{
  TokenCodec, FilterQuery, by_id, ListOptions, list_node_ids, run_list_query, where_rows,
  order_rows, row_ids,
}
use ml_metadata_l_metadata_s.ListNodes.{list_nodes}
use ml_metadata_l_metadata_s.Expand.{LineageGraph, ids_of}
use ml_metadata_l_metadata_s.Lineage.{query_lineage_graph, LineageRequest, get_lineage_graph}
use ml_metadata_l_metadata_s.Lineage.Reach.{NearGraph}
use ml_metadata_l_metadata_s.Lineage.Linked.{query_lineage_graph-NearGraph}
use ml_metadata_l_metadata_s.Lineage.Size.{node_count, get_lineage_graph-count}

abbrev plain_codec : Codec
plain_codec = record {
  base64_escape = λ bytes. bytes;
  base64_unescape = λ bytes. some bytes;
  parses_as_struct = λ _. true;
  stored_double = λ d. d;
}

-- A condition selects the ids below four.
abbrev below_four : FilterQuery
below_four kind condition = ok (λ db r. ltb r.id 4)

abbrev no_tokens : TokenCodec
no_tokens = record {
  escape = λ bytes. "";
  unescape = λ text. none;
  serialize = λ token. [];
  parse = λ bytes. none;
}

abbrev row : ℕ → NodeRow
row id = record {
  id = id;
  type_id = 1;
  name = none;
  uri = none;
  state = none;
  create_time = 0;
  update_time = 0;
}

abbrev lineage_nodes : Kind → List NodeRow
lineage_nodes context = []
lineage_nodes execution = row 5 ∷ []
lineage_nodes artifact = row 3 ∷ row 4 ∷ []

abbrev lineage_db : Db
lineage_db = record empty_db {
  nodes = lineage_nodes;
  events =
      record { id = 1; artifact_id = 3; execution_id = 5; type = 3; time = 7 }
      ∷ record { id = 2; artifact_id = 4; execution_id = 5; type = 4; time = 8 }
      ∷ [];
  last_event_id = 2;
}

abbrev first_artifact : ListOptions
first_artifact = record {
  max_result_size = pos 7;
  field = by_id;
  is_asc = true;
  next_page_token = "";
  filter_query = "id < 4";
}

abbrev request : LineageRequest
request = record {
  artifacts_options = some first_artifact;
  max_num_hops = none;
  max_node_size = pos 3;
  boundary_artifacts = "";
  boundary_executions = "";
}

abbrev node : ℕ → Node
node id = record {
  id = some id;
  type_id = some 1;
  name = none;
  uri = none;
  properties = [];
  custom_properties = [];
  state = none;
  create_time_since_epoch = some 0;
  last_update_time_since_epoch = some 0;
}

abbrev event : ℕ → ℕ → ℕ → Event
event id type time = record {
  artifact_id = some id;
  execution_id = some 5;
  type = some type;
  milliseconds_since_epoch = some time;
  path = [];
}

abbrev whole_graph : LineageGraph
whole_graph = record {
  artifacts = node 3 ∷ node 4 ∷ [];
  executions = node 5 ∷ [];
  events = event 3 3 7 ∷ event 4 4 8 ∷ [];
  artifact_types = [];
  execution_types = [];
  context_types = [];
}

whole_graph-found :
    get_lineage_graph below_four no_tokens plain_codec backwards (λ ids. ids) request lineage_db
    ≡ ok whole_graph
unfolding get_lineage_graph list_nodes list_node_ids run_list_query where_rows order_rows row_ids
    has_id read_node select_properties find_nodes find_types dedup_ids find_events_by steps_of
    select_all_types
whole_graph-found = refl

query_nodes-found :
    query_lineage_graph below_four no_tokens plain_codec backwards
      (λ ids. ids)
      (node 3 ∷ [])
      2
      none
      none
      none
      lineage_db
    ≡ ok whole_graph
unfolding query_lineage_graph read_node select_properties find_nodes find_types dedup_ids has_id
    find_events_by steps_of select_all_types
query_nodes-found = refl

get_lineage_graph-count_example : node_count whole_graph ≤ 3
get_lineage_graph-count_example =
    get_lineage_graph-count below_four no_tokens plain_codec backwards (λ ids. ids) request 2
      lineage_db whole_graph refl whole_graph-found

query_lineage_graph-NearGraph_example : NearGraph lineage_db (3 ∷ []) 2 whole_graph
unfolding ids_of
query_lineage_graph-NearGraph_example =
    query_lineage_graph-NearGraph below_four no_tokens plain_codec backwards (λ ids. ids)
      (node 3 ∷ []) 2 none none none lineage_db whole_graph (λ ids id has. has) backwards-Permutes
      query_nodes-found
