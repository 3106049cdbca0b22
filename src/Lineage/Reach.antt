-- ===== src/Lineage/Reach.antt =====
-- The nodes of a lineage graph are linked to the query nodes by events.
use ml_metadata_l_metadata_s.Prelude.{
  ℕ, suc, ◌≤◌, ◌≡◌, ◌⊎◌, refl, ap, sym, subst, true, Bool-cases, inl, inr, Option, none, some, List,
  [], ◌∷◌, ◌++◌, ◌==◌, arith,
}
use ml_metadata_l_metadata_s.Messages.{Kind, artifact, execution, Node, Event, number_of}
use ml_metadata_l_metadata_s.Tables.{Db}
use ml_metadata_l_metadata_s.Types.Parents.{has_id}
use ml_metadata_l_metadata_s.Finds.Orders.{Permutes}
use ml_metadata_l_metadata_s.Finds.{
  RowOrder, events_from_rows, select_events, find_events_by, found_events,
}
use ml_metadata_l_metadata_s.Expand.{
  LineageGraph, events_or_none, Side, from_artifacts, from_executions, other_side, far_kind,
  near_column, add_far_nodes, ids_of, unvisited_ends,
}
use ml_metadata_l_metadata_s.Lineage.Leads.{along, near_kind, Reached, unvisited_ends-Leads}

abbrev option_or : List Event → Option (List Event) → List Event
option_or events none = events
option_or events (some found) = found

-- What a search of events finds is what the rows hold.
found_events-some :
    (found events : List Event) → events_or_none (found_events found) ≡ some events → found ≡ events
found_events-some [] events h = cc
found_events-some (event ∷ found) events h = ap (option_or events) h

has_id-append :
    (x : ℕ) (nodes more : List Node)
    → has_id x (ids_of (nodes ++ more)) ≡ true
    → (has_id x (ids_of nodes) ≡ true) ⊎ (has_id x (ids_of more) ≡ true)
unfolding has_id ids_of
has_id-append x [] more h = inr h
has_id-append x (node ∷ nodes) more h = elim (Bool-cases (number_of node.id == x)) [
  | inl same ↦ inl (rw same refl)
  | inr other ↦ elim (has_id-append x nodes more (rw other at h)) [
    | inl first ↦ inl (rw other first)
    | inr second ↦ inr second
  ]
]

module _ (db : Db) (query : List ℕ) where
  -- Events link the node to a query artifact in at most so many hops.
  abbrev pub Near : ℕ → Kind → ℕ → Type 0
  Near most kind id = (hops : ℕ) × (hops ≤ most) × Reached db query hops kind id

  abbrev pub NearNodes : ℕ → Kind → List Node → Type 0
  NearNodes most kind nodes = (id : ℕ) → has_id id (ids_of nodes) ≡ true → Near most kind id

  abbrev pub NearGraph : ℕ → LineageGraph → Type 0
  NearGraph most graph =
      NearNodes most artifact graph.artifacts × NearNodes most execution graph.executions

  abbrev pub NearEnds : Side → ℕ → List Event → Type 0
  NearEnds side most events =
      (visited : List ℕ) (id : ℕ)
      → has_id id (unvisited_ends side visited events) ≡ true
      → Near most (far_kind side) id

  pub empty-NearNodes : (most : ℕ) (kind : Kind) → NearNodes most kind []
  unfolding ids_of has_id
  empty-NearNodes most kind id h = cc

  pub wider-NearNodes :
      {most more : ℕ} (kind : Kind) (nodes : List Node)
      → most ≤ more
      → NearNodes most kind nodes
      → NearNodes more kind nodes
  wider-NearNodes kind nodes le close id h =
      let (hops, few, reached) = close id h in (hops, omega arith, reached)

  pub wider-NearGraph :
      {most more : ℕ} (graph : LineageGraph)
      → most ≤ more
      → NearGraph most graph
      → NearGraph more graph
  wider-NearGraph graph le (artifacts, executions) = (
    wider-NearNodes artifact graph.artifacts le artifacts,
    wider-NearNodes execution graph.executions le executions,
  )

  append-NearNodes :
      (most : ℕ) (kind : Kind) (nodes more : List Node)
      → NearNodes most kind nodes
      → NearNodes most kind more
      → NearNodes most kind (nodes ++ more)
  append-NearNodes most kind nodes more close close_more id h =
      elim (has_id-append id nodes more h) [
        | inl first ↦ close id first
        | inr second ↦ close_more id second
      ]

  pub add_far-NearGraph :
      (side : Side) (most : ℕ) (nodes : List Node) (graph : LineageGraph)
      → NearNodes most (far_kind side) nodes
      → NearGraph most graph
      → NearGraph most (add_far_nodes side nodes graph)
  add_far-NearGraph from_artifacts most nodes graph close (artifacts, executions) =
      (artifacts, append-NearNodes most execution graph.executions nodes executions close)
  add_far-NearGraph from_executions most nodes graph close (artifacts, executions) =
      (append-NearNodes most artifact graph.artifacts nodes artifacts close, executions)

  -- The far nodes of a side are the near nodes of the other one.
  pub turn-NearNodes :
      (side : Side) (most : ℕ) (nodes : List Node)
      → NearNodes most (far_kind side) nodes
      → NearNodes most (near_kind (other_side side)) nodes
  turn-NearNodes from_artifacts most nodes close = close
  turn-NearNodes from_executions most nodes close = close

  pub turn_back-NearNodes :
      (side : Side) (most : ℕ) (nodes : List Node)
      → NearNodes most (near_kind side) nodes
      → NearNodes most (far_kind (other_side side)) nodes
  turn_back-NearNodes from_artifacts most nodes close = close
  turn_back-NearNodes from_executions most nodes close = close

  -- The ends of the events at near nodes are one hop further.
  pub found-NearEnds :
      (row_order : RowOrder) (permutes : Permutes row_order) (side : Side) (most : ℕ)
      (input : List Node) (events : List Event)
      → NearNodes most (near_kind side) input
      → events_or_none (find_events_by row_order (near_column side) (ids_of input) db) ≡ some events
      → NearEnds side (suc most) events
  unfolding find_events_by
  found-NearEnds row_order permutes side most input events close e visited id h =
      let rows = events_from_rows db.event_paths (
        row_order (near_column side) (select_events (near_column side) (ids_of input) db.events)) in
      let same : rows ≡ events = found_events-some rows events e in
      let (row, among, near, far) =
        unvisited_ends-Leads row_order permutes side id visited (ids_of input) db.event_paths
          db.events
          (subst (λ found. has_id id (unvisited_ends side visited found) ≡ true) (sym same) h) in
      let (hops, few, reached) = close (near_column side row) near in
      (
        suc hops,
        omega arith,
        subst (λ i. Reached db query (suc hops) (far_kind side) i) far
            (along side row among reached),
      )
