-- ===== src/Lineage.antt =====
-- Lineage queries: QueryLineageGraph of ml_metadata/metadata_store/rdbms_metadata_access_object.cc
-- around its traversal, which is in Expand, and GetLineageGraph of
-- ml_metadata/metadata_store/metadata_store.cc.
pub mod Size
pub mod Leads
pub mod Ids
pub mod Reach
pub mod Linked
mod Tests
use Prim.Native.String.{◌++◌ as append_text}
use ml_metadata_l_metadata_s.Prelude.{
  ℕ, zero, suc, ◌+◌, ◌-◌, min, String, Bool, true, false, not, Option, none, some, List, [], ◌∷◌,
  ◌++◌, ◌==◌, str_eq, ltb, length, take, drop, if◌then◌else◌,
}
use ml_metadata_l_metadata_s.Status.{
  Code, invalid_argument, not_found, is_not_found, Result, ok, err, reject_if, ◌>>=◌, ◌>>◌,
}
use ml_metadata_l_metadata_s.Messages.{
  Kind, artifact, execution, context, ℤ, pos, negsuc, TypeMessage, Node, Event, text_of, number_of,
}
use ml_metadata_l_metadata_s.Tables.{Db, EventRow}
use ml_metadata_l_metadata_s.Types.{find_types}
use ml_metadata_l_metadata_s.Types.Parents.{has_id, dedup_ids}
use ml_metadata_l_metadata_s.Values.{Codec}
use ml_metadata_l_metadata_s.ListQuery.{
  ListOptions, by_id, TokenCodec, FilterQuery, list_node_ids, llong_max,
}
use ml_metadata_l_metadata_s.ListNodes.{list_nodes}
use ml_metadata_l_metadata_s.Finds.{RowOrder, find_by_ids, find_events_by}
use ml_metadata_l_metadata_s.Expand.{LineageGraph, traverse, from_artifacts}

-- kSimpleTypeNames
abbrev pub simple_type_names : List String
simple_type_names =
    "mlmd.Dataset" ∷ "mlmd.Model" ∷ "mlmd.Metrics" ∷ "mlmd.Statistics" ∷ "mlmd.Train"
    ∷ "mlmd.Transform" ∷ "mlmd.Process" ∷ "mlmd.Evaluate" ∷ "mlmd.Deploy" ∷ []

pub is_one_of : String → List String → Bool
is_one_of name [] = false
is_one_of name (other ∷ names) = if str_eq other name then true else is_one_of name names

pub without_simple_types : List TypeMessage → List TypeMessage
unfolding is_one_of
without_simple_types [] = []
without_simple_types (type ∷ types) =
    let rest = without_simple_types types in
    if not (is_one_of (text_of type.name) simple_type_names) then type ∷ rest else rest

-- The types that QueryLineageGraph adds.
abbrev pub add_types :
    Result (List TypeMessage)
    → Result (List TypeMessage)
    → Result (List TypeMessage)
    → LineageGraph
    → Result LineageGraph
add_types artifact_types execution_types context_types graph = do
  of_artifacts ← artifact_types
  of_executions ← execution_types
  of_contexts ← context_types
  ok (record graph {
    artifact_types = without_simple_types of_artifacts;
    execution_types = without_simple_types of_executions;
    context_types = of_contexts;
  })

abbrev pub start_graph : List Node → LineageGraph
start_graph query_nodes = record {
  artifacts = query_nodes;
  executions = [];
  events = [];
  artifact_types = [];
  execution_types = [];
  context_types = [];
}

-- `nodes_quota`: not positive where it would be negative.
abbrev pub quota_of : Option ℕ → List Node → ℕ
quota_of none query_nodes = llong_max
quota_of (some max_nodes) query_nodes = max_nodes - length query_nodes

-- QueryLineageGraph, on an empty subgraph.
pub query_lineage_graph :
    FilterQuery
    → TokenCodec
    → Codec
    → RowOrder
    → (List ℕ → List ℕ)
    → List Node
    → ℕ
    → Option ℕ
    → Option String
    → Option String
    → Db
    → Result LineageGraph
unfolding traverse without_simple_types
query_lineage_graph filter tokens values row_order hash_order query_nodes max_num_hops max_nodes
      artifacts executions db =
    do
      graph ←
          traverse filter tokens values row_order hash_order max_num_hops from_artifacts query_nodes
            [] [] [] [] (quota_of max_nodes query_nodes) artifacts executions
            (start_graph query_nodes) db
      add_types (find_types artifact db).0 (find_types execution db).0 (find_types context db).0
          graph

-- GetLineageGraphRequest
pub record LineageRequest : Type 0 where
  pub artifacts_options : Option ListOptions
  pub max_num_hops : Option ℤ
  pub max_node_size : ℤ
  pub boundary_artifacts : String
  pub boundary_executions : String

-- kMaxDistance and the test of `max_num_hops`.
abbrev pub hops_of : Option ℤ → Result ℕ
hops_of none = ok 20
hops_of (some (pos n)) = ok (min 20 n)
hops_of (some (negsuc n)) = err invalid_argument

abbrev pub text_option : String → Option String
text_option text = if not (str_eq text "") then some text else none

-- `max_node_size`, where it is positive.
abbrev pub size_option : ℤ → Option ℕ
size_option (negsuc n) = none
size_option (pos n) = if ltb 0 n then some n else none

abbrev pub cut_to : Option ℕ → List Node → List Node
cut_to none nodes = nodes
cut_to (some size) nodes = take size nodes

abbrev pub traverse_from :
    FilterQuery
    → TokenCodec
    → Codec
    → RowOrder
    → (List ℕ → List ℕ)
    → LineageRequest
    → ℕ
    → List Node
    → Db
    → Result LineageGraph
traverse_from filter tokens values row_order hash_order request hops [] db = err not_found
traverse_from filter tokens values row_order hash_order request hops (node ∷ nodes) db =
    query_lineage_graph filter tokens values row_order hash_order
      (cut_to (size_option request.max_node_size) (node ∷ nodes)) hops
      (size_option request.max_node_size) (text_option request.boundary_artifacts)
      (text_option request.boundary_executions) db

abbrev pub lineage_from :
    FilterQuery
    → TokenCodec
    → Codec
    → RowOrder
    → (List ℕ → List ℕ)
    → LineageRequest
    → Option ListOptions
    → Db
    → Result LineageGraph
lineage_from filter tokens values row_order hash_order request none db = err invalid_argument
lineage_from filter tokens values row_order hash_order request (some options) db = do
  hops ← hops_of request.max_num_hops
  page ← list_nodes filter tokens values artifact options none db
  traverse_from filter tokens values row_order hash_order request hops page.0 db

-- GetLineageGraph, inside its transaction.
pub get_lineage_graph :
    FilterQuery
    → TokenCodec
    → Codec
    → RowOrder
    → (List ℕ → List ℕ)
    → LineageRequest
    → Db
    → Result LineageGraph
unfolding query_lineage_graph
get_lineage_graph filter tokens values row_order hash_order request db =
    lineage_from filter tokens values row_order hash_order request request.artifacts_options db
