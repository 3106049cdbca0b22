-- ===== src/Lineage/Size.antt =====
-- A lineage graph has no more nodes than were asked for.
use ml_metadata_l_metadata_s.Prelude.{
  ℕ, zero, suc, ◌+◌, ◌-◌, ◌≤◌, String, ◌≡◌, ap, sym, ◌∙◌, Bool, true, false, Bool-cases, inl, inr,
  Option, none, some, List, [], ◌∷◌, ◌++◌, ◌==◌, length, length-append, take, if◌then◌else◌, arith,
}
use ml_metadata_l_metadata_s.Status.{Result, ok, err, err-ok, ok-injective, >>=-eq-ok, ◌>>=◌}
use ml_metadata_l_metadata_s.Messages.{
  Kind, artifact, execution, context, pos, TypeMessage, Node, Event,
}
use ml_metadata_l_metadata_s.Tables.{Db}
use ml_metadata_l_metadata_s.Types.{find_types}
use ml_metadata_l_metadata_s.Types.Parents.{dedup_ids}
use ml_metadata_l_metadata_s.Values.{Codec}
use ml_metadata_l_metadata_s.Nodes.{read_nodes, select_nodes_by_ids, all_found, find_nodes}
use ml_metadata_l_metadata_s.ListQuery.{ListOptions, TokenCodec, FilterQuery}
use ml_metadata_l_metadata_s.ListNodes.{list_nodes}
use ml_metadata_l_metadata_s.ListNodes.Splits.{length-take-le}
use ml_metadata_l_metadata_s.Finds.{RowOrder, find_by_ids, find_events_by}
use ml_metadata_l_metadata_s.Expand.{
  LineageGraph, Side, from_artifacts, from_executions, other_side, far_kind, near_column,
  add_far_nodes, ids_of, erase_extra, events_to, unvisited_ends, skip_boundary_nodes, Expansion,
  events_or_none, expand_to, expand_events, expand_lineage_graph, boundary_of, traverse,
}
use ml_metadata_l_metadata_s.Lineage.{
  add_types, start_graph, query_lineage_graph, LineageRequest, hops_of, size_option, cut_to,
  text_option, traverse_from, lineage_from, get_lineage_graph,
}

all_found-length :
    (count : ℕ) (skipped : Bool) (found : Result (List Node)) (nodes : List Node)
    → all_found count skipped found ≡ ok nodes
    → length nodes ≡ count
all_found-length count skipped (err c) nodes h = absurd (err-ok h)
all_found-length count skipped (ok found) nodes h = ground arith

-- As many nodes as ids.
find_by_ids-length :
    (values : Codec) (kind : Kind) (ids : List ℕ) (db : Db) (nodes : List Node)
    → find_by_ids values kind ids db ≡ ok nodes
    → length nodes ≡ length ids
unfolding find_nodes
find_by_ids-length values kind [] db nodes h = ap length (sym (ok-injective h))
find_by_ids-length values kind (id ∷ ids) db nodes h =
    all_found-length (length (id ∷ ids)) true
      (read_nodes values (db.properties kind) (select_nodes_by_ids (id ∷ ids) (db.nodes kind)))
      nodes h

erase_extra-length : (max_nodes : ℕ) (ids : List ℕ) → length (erase_extra max_nodes ids) ≤ max_nodes
unfolding erase_extra
erase_extra-length max_nodes [] = omega arith
erase_extra-length max_nodes (id ∷ ids) = ground (arith, erase_extra-length max_nodes ids)

abbrev pub node_count : LineageGraph → ℕ
node_count graph = length graph.artifacts + length graph.executions

add_far-count :
    (side : Side) (nodes : List Node) (graph : LineageGraph)
    → node_count (add_far_nodes side nodes graph) ≡ node_count graph + length nodes
add_far-count from_artifacts nodes graph = omega (arith, length-append graph.executions nodes)
add_far-count from_executions nodes graph = omega (arith, length-append graph.artifacts nodes)

module _ (filter : FilterQuery) (tokens : TokenCodec) (values : Codec) (row_order : RowOrder)
    (hash_order : List ℕ → List ℕ) (db : Db) where
  -- An expansion stays within the quota, and what it answers counts against the quota.
  abbrev IsWithin : ℕ → LineageGraph → Expansion → Type 0
  IsWithin quota graph expansion =
      node_count expansion.graph + (quota - length expansion.output) ≤ node_count graph + quota

  expand_to-IsWithin :
      (side : Side) (events : List Event) (visited ids : List ℕ) (quota : ℕ) (graph : LineageGraph)
      (expansion : Expansion)
      → length ids ≤ quota
      → expand_to filter tokens values row_order hash_order side events visited ids graph db
        ≡ ok expansion
      → IsWithin quota graph expansion
  expand_to-IsWithin side events visited ids quota graph expansion few h =
      let (output, found, made) = >>=-eq-ok (find_by_ids values (far_kind side) ids db) _ h in
      let start = record graph { events = graph.events ++ events_to side ids events } in
      rw (sym (ok-injective made)) (
        omega (
          arith,
          add_far-count side output start,
          find_by_ids-length values (far_kind side) ids db output found,
        ))

  expand_events-IsWithin :
      (side : Side) (quota : ℕ) (boundary : Option String) (visited_far visited : List ℕ)
      (output : List Node) (graph : LineageGraph) (found : Option (List Event))
      (expansion : Expansion)
      → expand_events filter tokens values row_order hash_order side quota boundary visited_far
          visited output graph db found
        ≡ ok expansion
      → IsWithin quota graph expansion
  expand_events-IsWithin side quota boundary visited_far visited output graph none expansion h =
      rw (sym (ok-injective h)) (omega arith)
  expand_events-IsWithin side quota boundary visited_far visited output graph (some events)
        expansion h =
      let (kept, _, made) =
        >>=-eq-ok
          (skip_boundary_nodes filter tokens (far_kind side) boundary
            (dedup_ids (unvisited_ends side visited_far events)) db)
          _ h in
      expand_to-IsWithin side events visited (erase_extra quota (hash_order kept)) quota graph
        expansion (erase_extra-length quota (hash_order kept)) made

  expand-IsWithin :
      (side : Side) (input : List Node) (quota : ℕ) (boundary : Option String)
      (visited_far visited : List ℕ) (output : List Node) (graph : LineageGraph)
      (expansion : Expansion)
      → (quota == 0) ≡ false
      → expand_lineage_graph filter tokens values row_order hash_order side input quota boundary
          visited_far visited output graph db
        ≡ ok expansion
      → IsWithin quota graph expansion
  unfolding expand_lineage_graph
  expand-IsWithin side input quota boundary visited_far visited output graph expansion some_left h =
      expand_events-IsWithin side quota boundary visited_far (ids_of input ++ visited) output graph
        (events_or_none (find_events_by row_order (near_column side) (ids_of input) db)) expansion
        (rw some_left at h)

  traverse-count :
      (hops : ℕ) (side : Side) (input far_output near_output : List Node)
      (visited_far visited_near : List ℕ) (quota : ℕ) (artifacts executions : Option String)
      (graph result : LineageGraph)
      → traverse filter tokens values row_order hash_order hops side input far_output near_output
          visited_far visited_near quota artifacts executions graph db
        ≡ ok result
      → node_count result ≤ node_count graph + quota
  unfolding traverse
  traverse-count zero side input far_output near_output visited_far visited_near quota artifacts
        executions graph result h =
      rw (sym (ok-injective h)) (omega arith)
  traverse-count (suc hops) side input far_output near_output visited_far visited_near quota
        artifacts executions graph result h =
      let step : Expansion → Result LineageGraph = λ expansion.
        if length expansion.output == 0
        then ok expansion.graph
        else traverse filter tokens values row_order hash_order hops (other_side side)
            expansion.output near_output expansion.output expansion.visited visited_far
            (quota - length expansion.output) artifacts executions expansion.graph db in
      let expanded : Result Expansion =
        expand_lineage_graph filter tokens values row_order hash_order side input quota
          (boundary_of side artifacts executions) visited_far visited_near far_output graph db in
      let run : Bool → Result LineageGraph =
        λ used. if used then ok graph else (expanded >>= step) in
      elim (Bool-cases (quota == 0)) [
        | inl used ↦ rw (sym (ok-injective (sym (ap run used) ∙ h))) (omega arith)
        | inr left ↦
            let (expansion, got, after) = >>=-eq-ok expanded step (sym (ap run left) ∙ h) in
            let within =
              expand-IsWithin side input quota (boundary_of side artifacts executions) visited_far
                visited_near far_output graph expansion left got in
            elim (Bool-cases (length expansion.output == 0)) [
              | inl none_found ↦ rw (sym (ok-injective (rw none_found at after))) (omega arith)
              | inr some_found ↦
                  let rest =
                    traverse-count hops (other_side side) expansion.output near_output
                      expansion.output expansion.visited visited_far
                      (quota - length expansion.output) artifacts executions expansion.graph result
                      (rw some_found at after) in
                  omega arith
            ]
      ]

-- The types are added to a graph with its nodes as they are.
add_types-count :
    (a e c : Result (List TypeMessage)) (graph result : LineageGraph)
    → add_types a e c graph ≡ ok result
    → node_count result ≡ node_count graph
add_types-count (err x) e c graph result h = absurd (err-ok h)
add_types-count (ok a) (err x) c graph result h = absurd (err-ok h)
add_types-count (ok a) (ok e) (err x) graph result h = absurd (err-ok h)
add_types-count (ok a) (ok e) (ok c) graph result h = ap node_count (sym (ok-injective h))

-- QueryLineageGraph with `max_nodes`, from no more nodes than that, returns a graph with no more
-- artifacts and executions in all, whatever the order of its hash sets and of
-- the rows of its event queries.
pub query_lineage_graph-count :
    (filter : FilterQuery) (tokens : TokenCodec) (values : Codec) (row_order : RowOrder)
    (hash_order : List ℕ → List ℕ) (query_nodes : List Node) (hops max_nodes : ℕ)
    (artifacts executions : Option String) (db : Db) (graph : LineageGraph)
    → length query_nodes ≤ max_nodes
    → query_lineage_graph filter tokens values row_order hash_order query_nodes hops
        (some max_nodes)
        artifacts
        executions
        db
      ≡ ok graph
    → node_count graph ≤ max_nodes
unfolding query_lineage_graph
query_lineage_graph-count filter tokens values row_order hash_order query_nodes hops max_nodes
      artifacts executions db graph few h =
    let (found, traversed, typed) =
      >>=-eq-ok
        (traverse filter tokens values row_order hash_order hops from_artifacts query_nodes [] [] []
          [] (max_nodes - length query_nodes) artifacts executions (start_graph query_nodes) db)
        _ h in
    omega (
      arith,
      add_types-count (find_types artifact db).0 (find_types execution db).0
          (find_types context db).0 found graph typed,
      traverse-count filter tokens values row_order hash_order db hops from_artifacts query_nodes []
          [] [] [] (max_nodes - length query_nodes) artifacts executions (start_graph query_nodes)
          found traversed,
    )

size_option_pos : (n : ℕ) → size_option (pos (suc n)) ≡ some (suc n)
size_option_pos n = ground arith

traverse_from-count :
    (filter : FilterQuery) (tokens : TokenCodec) (values : Codec) (row_order : RowOrder)
    (hash_order : List ℕ → List ℕ) (request : LineageRequest) (n hops : ℕ) (nodes : List Node)
    (db : Db) (graph : LineageGraph)
    → request.max_node_size ≡ pos (suc n)
    → traverse_from filter tokens values row_order hash_order request hops nodes db ≡ ok graph
    → node_count graph ≤ suc n
traverse_from-count filter tokens values row_order hash_order request n hops [] db graph size h =
    absurd (err-ok h)
traverse_from-count filter tokens values row_order hash_order request n hops (node ∷ nodes) db graph
      size h =
    let bound : size_option request.max_node_size ≡ some (suc n) =
      ap size_option size ∙ size_option_pos n in
    let run : Option ℕ → Result LineageGraph = λ max_nodes.
      query_lineage_graph filter tokens values row_order hash_order
        (cut_to max_nodes (node ∷ nodes)) hops max_nodes (text_option request.boundary_artifacts)
        (text_option request.boundary_executions) db in
    query_lineage_graph-count filter tokens values row_order hash_order
      (take (suc n) (node ∷ nodes)) hops (suc n) (text_option request.boundary_artifacts)
      (text_option request.boundary_executions) db graph (length-take-le (suc n) (node ∷ nodes))
      (sym (ap run bound) ∙ h)

lineage_from-count :
    (filter : FilterQuery) (tokens : TokenCodec) (values : Codec) (row_order : RowOrder)
    (hash_order : List ℕ → List ℕ) (request : LineageRequest) (n : ℕ) (options : Option ListOptions)
    (db : Db) (graph : LineageGraph)
    → request.max_node_size ≡ pos (suc n)
    → lineage_from filter tokens values row_order hash_order request options db ≡ ok graph
    → node_count graph ≤ suc n
lineage_from-count filter tokens values row_order hash_order request n none db graph size h =
    absurd (err-ok h)
lineage_from-count filter tokens values row_order hash_order request n (some options) db graph size
      h =
    let (hops, _, listed) = >>=-eq-ok (hops_of request.max_num_hops) _ h in
    let (page, _, traversed) =
      >>=-eq-ok (list_nodes filter tokens values artifact options none db) _ listed in
    traverse_from-count filter tokens values row_order hash_order request n hops page.0 db graph
      size traversed

-- GetLineageGraph with a positive max_node_size returns a graph with no more artifacts and
-- executions in all, whatever the order of its hash sets and of
-- the rows of its event queries.
pub get_lineage_graph-count :
    (filter : FilterQuery) (tokens : TokenCodec) (values : Codec) (row_order : RowOrder)
    (hash_order : List ℕ → List ℕ) (request : LineageRequest) (n : ℕ) (db : Db)
    (graph : LineageGraph)
    → request.max_node_size ≡ pos (suc n)
    → get_lineage_graph filter tokens values row_order hash_order request db ≡ ok graph
    → node_count graph ≤ suc n
unfolding get_lineage_graph
get_lineage_graph-count filter tokens values row_order hash_order request n db graph size h =
    lineage_from-count filter tokens values row_order hash_order request n request.artifacts_options
      db graph size h
