-- ===== src/Lineage/Linked.antt =====
-- A traversal finds linked nodes alone.
use ml_metadata_l_metadata_s.Prelude.{
  ℕ, zero, suc, ◌+◌, ◌-◌, String, ◌≡◌, refl, ap, sym, subst, ◌∙◌, Bool, true, false, Bool-cases,
  inl, inr, Option, none, some, List, [], ◌++◌, ◌==◌, length, if◌then◌else◌, arith,
}
use ml_metadata_l_metadata_s.Status.{Result, ok, err, err-ok, ok-injective, >>=-eq-ok, ◌>>=◌}
use ml_metadata_l_metadata_s.Messages.{artifact, execution, context, TypeMessage, Node, Event}
use ml_metadata_l_metadata_s.Tables.{Db}
use ml_metadata_l_metadata_s.Types.{find_types}
use ml_metadata_l_metadata_s.Types.Parents.{has_id, dedup_ids}
use ml_metadata_l_metadata_s.Values.{Codec}
use ml_metadata_l_metadata_s.ListQuery.{TokenCodec, FilterQuery}
use ml_metadata_l_metadata_s.Finds.Orders.{Permutes}
use ml_metadata_l_metadata_s.Finds.{RowOrder, find_by_ids, find_events_by}
use ml_metadata_l_metadata_s.Expand.{
  LineageGraph, Side, from_artifacts, other_side, far_kind, near_column, ids_of, erase_extra,
  events_to, unvisited_ends, skip_boundary_nodes, Expansion, events_or_none, expand_to,
  expand_events, expand_lineage_graph, boundary_of, traverse,
}
use ml_metadata_l_metadata_s.Lineage.{add_types, start_graph, quota_of, query_lineage_graph}
use ml_metadata_l_metadata_s.Lineage.Leads.{
  near_kind, has_id-dedup, has_id-erase_extra, has_id-skip_boundary,
}
use ml_metadata_l_metadata_s.Lineage.Ids.{find_by_ids-ids}
use ml_metadata_l_metadata_s.Lineage.Leads.{at_query}
use ml_metadata_l_metadata_s.Lineage.Reach.{
  Near, NearNodes, NearGraph, NearEnds, empty-NearNodes, wider-NearNodes, wider-NearGraph,
  add_far-NearGraph, turn-NearNodes, turn_back-NearNodes, found-NearEnds,
}

-- The order in which a hash set is walked: no id that is not in it.
abbrev pub Keeps : (List ℕ → List ℕ) → Type 0
Keeps hash_order =
    (ids : List ℕ) (id : ℕ) → has_id id (hash_order ids) ≡ true → has_id id ids ≡ true

module _ (filter : FilterQuery) (tokens : TokenCodec) (values : Codec) (row_order : RowOrder)
    (hash_order : List ℕ → List ℕ) (db : Db) (query : List ℕ) (keeps : Keeps hash_order)
    (permutes : Permutes row_order) where
  abbrev NearExpansion : Side → ℕ → Expansion → Type 0
  NearExpansion side most expansion =
      NearNodes db query most (far_kind side) expansion.output
      × NearGraph db query most expansion.graph

  expand_to-NearExpansion :
      (side : Side) (most quota : ℕ) (events : List Event) (visited kept : List ℕ)
      (graph : LineageGraph) (expansion : Expansion)
      → ((id : ℕ) → has_id id kept ≡ true → Near db query most (far_kind side) id)
      → NearGraph db query most graph
      → expand_to filter tokens values row_order hash_order side events visited
          (erase_extra quota (hash_order kept))
          graph
          db
        ≡ ok expansion
      → NearExpansion side most expansion
  expand_to-NearExpansion side most quota events visited kept graph expansion close graph_close h =
      let ids = erase_extra quota (hash_order kept) in
      let (output, found, made) = >>=-eq-ok (find_by_ids values (far_kind side) ids db) _ h in
      let start = record graph { events = graph.events ++ events_to side ids events } in
      let outputs : NearNodes db query most (far_kind side) output = λ id has. close id (
        keeps kept id (
          has_id-erase_extra id quota (hash_order kept)
            (find_by_ids-ids values (far_kind side) ids db output id found has))) in
      subst (NearExpansion side most) (ok-injective made)
        (outputs, add_far-NearGraph db query side most output start outputs graph_close)

  expand_events-NearExpansion :
      (side : Side) (most quota : ℕ) (boundary : Option String) (visited_far visited : List ℕ)
      (output : List Node) (graph : LineageGraph) (found : Option (List Event))
      (expansion : Expansion)
      → NearNodes db query most (far_kind side) output
      → NearGraph db query most graph
      → ((events : List Event) → found ≡ some events → NearEnds db query side most events)
      → expand_events filter tokens values row_order hash_order side quota boundary visited_far
          visited output graph db found
        ≡ ok expansion
      → NearExpansion side most expansion
  expand_events-NearExpansion side most quota boundary visited_far visited output graph none
        expansion outputs graph_close ends h =
      subst (NearExpansion side most) (ok-injective h) (outputs, graph_close)
  expand_events-NearExpansion side most quota boundary visited_far visited output graph
        (some events) expansion outputs graph_close ends h =
      let candidates = dedup_ids (unvisited_ends side visited_far events) in
      let (kept, skipped, made) =
        >>=-eq-ok (skip_boundary_nodes filter tokens (far_kind side) boundary candidates db) _ h in
      expand_to-NearExpansion side most quota events visited kept graph expansion
        (λ id has. ends events refl visited_far id (
          has_id-dedup id (unvisited_ends side visited_far events) (
            has_id-skip_boundary filter tokens (far_kind side) boundary candidates kept db id
              skipped has)))
        graph_close made

  -- An expansion from near nodes finds nodes one hop further.
  expand-NearExpansion :
      (side : Side) (most : ℕ) (input : List Node) (quota : ℕ) (boundary : Option String)
      (visited_far visited : List ℕ) (output : List Node) (graph : LineageGraph)
      (expansion : Expansion)
      → (quota == 0) ≡ false
      → NearNodes db query most (near_kind side) input
      → NearNodes db query most (far_kind side) output
      → NearGraph db query most graph
      → expand_lineage_graph filter tokens values row_order hash_order side input quota boundary
          visited_far visited output graph db
        ≡ ok expansion
      → NearExpansion side (suc most) expansion
  unfolding expand_lineage_graph
  expand-NearExpansion side most input quota boundary visited_far visited output graph expansion
        some_left inputs outputs graph_close h =
      expand_events-NearExpansion side (suc most) quota boundary visited_far
        (ids_of input ++ visited) output graph
        (events_or_none (find_events_by row_order (near_column side) (ids_of input) db)) expansion
        (wider-NearNodes db query (far_kind side) output (omega arith) outputs)
        (wider-NearGraph db query graph (omega arith) graph_close)
        (λ events found.
          found-NearEnds db query row_order permutes side most input events inputs found)
        (rw some_left at h)

  traverse-NearGraph :
      (most hops : ℕ) (side : Side) (input far_output near_output : List Node)
      (visited_far visited_near : List ℕ) (quota : ℕ) (artifacts executions : Option String)
      (graph result : LineageGraph)
      → NearNodes db query most (near_kind side) input
      → NearNodes db query most (far_kind side) far_output
      → NearNodes db query most (near_kind side) near_output
      → NearGraph db query most graph
      → traverse filter tokens values row_order hash_order hops side input far_output near_output
          visited_far visited_near quota artifacts executions graph db
        ≡ ok result
      → NearGraph db query (most + hops) result
  unfolding traverse
  traverse-NearGraph most zero side input far_output near_output visited_far visited_near quota
        artifacts executions graph result inputs far near graph_close h =
      wider-NearGraph db query result (omega arith)
        (subst (NearGraph db query most) (ok-injective h) graph_close)
  traverse-NearGraph most (suc hops) side input far_output near_output visited_far visited_near
        quota artifacts executions graph result inputs far near graph_close h =
      let step : Expansion → Result LineageGraph = λ expansion.
        if length expansion.output == 0
        then ok expansion.graph
        else traverse filter tokens values row_order hash_order hops (other_side side)
            expansion.output near_output expansion.output expansion.visited visited_far
            (quota - length expansion.output) artifacts executions expansion.graph db in
      let expanded : Result Expansion =
        expand_lineage_graph filter tokens values row_order hash_order side input quota
          (boundary_of side artifacts executions) visited_far visited_near far_output graph db in
      let run : Bool → Result LineageGraph =
        λ used. if used then ok graph else (expanded >>= step) in
      elim (Bool-cases (quota == 0)) [
        | inl used ↦
            wider-NearGraph db query result (omega arith)
              (subst (NearGraph db query most) (ok-injective (sym (ap run used) ∙ h)) graph_close)
        | inr left ↦
            let (expansion, got, after) = >>=-eq-ok expanded step (sym (ap run left) ∙ h) in
            let (outputs, further) =
              expand-NearExpansion side most input quota (boundary_of side artifacts executions)
                visited_far visited_near far_output graph expansion left inputs far graph_close
                got in
            elim (Bool-cases (length expansion.output == 0)) [
              | inl none_found ↦ wider-NearGraph db query result (omega arith) (
                  subst (NearGraph db query (suc most)) (ok-injective (rw none_found at after))
                    further)
              | inr some_found ↦ wider-NearGraph db query result (omega arith) (
                  traverse-NearGraph (suc most) hops (other_side side) expansion.output near_output
                    expansion.output expansion.visited visited_far (quota - length expansion.output)
                    artifacts executions expansion.graph result
                    (turn-NearNodes db query side (suc most) expansion.output outputs)
                    (turn_back-NearNodes db query side (suc most) near_output
                      (wider-NearNodes db query (near_kind side) near_output (omega arith) near))
                    (turn-NearNodes db query side (suc most) expansion.output outputs) further
                    (rw some_found at after))
            ]
      ]

add_types-NearGraph :
    (a e c : Result (List TypeMessage)) (db : Db) (query : List ℕ) (most : ℕ)
    (graph result : LineageGraph)
    → add_types a e c graph ≡ ok result
    → NearGraph db query most graph
    → NearGraph db query most result
add_types-NearGraph (err x) e c db query most graph result h close = absurd (err-ok h)
add_types-NearGraph (ok a) (err x) c db query most graph result h close = absurd (err-ok h)
add_types-NearGraph (ok a) (ok e) (err x) db query most graph result h close = absurd (err-ok h)
add_types-NearGraph (ok a) (ok e) (ok c) db query most graph result h close =
    subst (NearGraph db query most) (ok-injective h) close

-- If walking a hash set gives its own ids alone and an event query each row it selects once,
-- in whatever order, every artifact and execution in a graph that QueryLineageGraph returns is linked to
-- one of the query artifacts by a chain of events of the database, no longer than max_num_hops.
pub query_lineage_graph-NearGraph :
    (filter : FilterQuery) (tokens : TokenCodec) (values : Codec) (row_order : RowOrder)
    (hash_order : List ℕ → List ℕ) (query_nodes : List Node) (hops : ℕ) (max_nodes : Option ℕ)
    (artifacts executions : Option String) (db : Db) (graph : LineageGraph)
    → Keeps hash_order
    → Permutes row_order
    → query_lineage_graph filter tokens values row_order hash_order query_nodes hops max_nodes
        artifacts executions db
      ≡ ok graph
    → NearGraph db (ids_of query_nodes) hops graph
unfolding query_lineage_graph
query_lineage_graph-NearGraph filter tokens values row_order hash_order query_nodes hops max_nodes
      artifacts executions db graph keeps permutes h =
    let query = ids_of query_nodes in
    let (found, traversed, typed) =
      >>=-eq-ok
        (traverse filter tokens values row_order hash_order hops from_artifacts query_nodes [] [] []
          [] (quota_of max_nodes query_nodes) artifacts executions (start_graph query_nodes) db)
        _ h in
    let starts : NearNodes db query 0 artifact query_nodes =
      λ id has. (0, omega arith, at_query has) in
    add_types-NearGraph (find_types artifact db).0 (find_types execution db).0
      (find_types context db).0 db query hops found graph typed
      (wider-NearGraph db query found (omega arith) (
        traverse-NearGraph filter tokens values row_order hash_order db query keeps permutes 0 hops
          from_artifacts query_nodes [] [] [] [] (quota_of max_nodes query_nodes) artifacts
          executions (start_graph query_nodes) found starts (empty-NearNodes db query 0 execution)
          (empty-NearNodes db query 0 artifact) (starts, empty-NearNodes db query 0 execution)
          traversed))
