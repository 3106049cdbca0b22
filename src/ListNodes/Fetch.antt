-- ===== src/ListNodes/Fetch.antt =====
-- The nodes of rows that are in the table are found, in the order of the rows.
use ml_metadata_l_metadata_s.Prelude.{
  ℕ, suc, ◌≡◌, refl, ap, ◌∙◌, true, false, ==_iff, Bool-cases, inl, inr, List, [], ◌∷◌, map, ◌==◌,
  length, All, arith,
}
use ml_metadata_l_metadata_s.Status.{ok}
use ml_metadata_l_metadata_s.Messages.{Kind, Node, number_of}
use ml_metadata_l_metadata_s.Tables.{Db, NodeRow, PropertyRow}
use ml_metadata_l_metadata_s.Tables.NodeQueries.{select_node_by_id}
use ml_metadata_l_metadata_s.Types.Parents.{has_id}
use ml_metadata_l_metadata_s.Values.{Codec}
use ml_metadata_l_metadata_s.Nodes.{
  all_found, read_node, read_nodes, select_nodes_by_ids, find_nodes,
}
use ml_metadata_l_metadata_s.ListQuery.{row_ids}
use ml_metadata_l_metadata_s.ListQuery.Order.{Distinct}
use ml_metadata_l_metadata_s.ListNodes.{with_id, in_positions}
use ml_metadata_l_metadata_s.ListNodes.Rows.{Held, length-select, select_of_select}

length-row_ids : (rows : List NodeRow) → length (row_ids rows) ≡ length rows
unfolding row_ids
length-row_ids [] = refl
length-row_ids (row ∷ rows) = ap suc (length-row_ids rows)

all_counted :
    (count : ℕ) (nodes : List Node)
    → count ≡ length nodes
    → all_found count false (ok nodes) ≡ ok nodes
all_counted count nodes h = ground arith

module _ (values : Codec) (properties : List PropertyRow) (read : NodeRow → Node) where
  -- The columns of the row and its properties can be read, as this node.
  abbrev pub Reads : NodeRow → Type 0
  Reads row = read_node values properties row ≡ ok (read row)

  pub Reads-id :
      (row : NodeRow)
      → Reads row
      → (number_of (read row).id ≡ row.id)
        × (number_of (read row).create_time_since_epoch ≡ row.create_time)
        × (number_of (read row).last_update_time_since_epoch ≡ row.update_time)
  unfolding read_node
  Reads-id row h = ground arith

  read_nodes-map :
      (rows : List NodeRow)
      → All Reads rows
      → read_nodes values properties rows ≡ ok (map read rows)
  unfolding read_nodes
  read_nodes-map [] a = refl
  read_nodes-map (row ∷ rows) (h, a) = rw (h, read_nodes-map rows a) refl

  select-All :
      (ids : List ℕ) (rows : List NodeRow)
      → All Reads rows
      → All Reads (select_nodes_by_ids ids rows)
  unfolding select_nodes_by_ids
  select-All ids [] a = tt
  select-All ids (row ∷ rows) (h, a) = elim (Bool-cases (has_id row.id ids)) [
    | inl chosen ↦ rw chosen (h, select-All ids rows a)
    | inr other ↦ rw other (select-All ids rows a)
  ]

  with_id-map :
      (i : ℕ) (rows : List NodeRow)
      → All Reads rows
      → with_id i (map read rows) ≡ map read (select_node_by_id i rows)
  unfolding with_id select_node_by_id
  with_id-map i [] a = refl
  with_id-map i (row ∷ rows) (h, a) = elim (Bool-cases (row.id == i)) [
    | inl same ↦ rw ((Reads-id row h).0, same) (ap (◌∷◌ (read row)) (with_id-map i rows a))
    | inr other ↦ rw ((Reads-id row h).0, other) (with_id-map i rows a)
  ]

  in_positions-map :
      (page rows : List NodeRow)
      → All Reads rows
      → All (Held rows) page
      → in_positions (row_ids page) (map read rows) ≡ map read page
  unfolding in_positions row_ids
  in_positions-map [] rows a h = refl
  in_positions-map (row ∷ page) rows a (held, more) =
      rw (with_id-map row.id rows a, held) (ap (◌∷◌ (read row)) (in_positions-map page rows a more))

  -- What a page selects holds the page's rows.
  Held-select :
      (page rows : List NodeRow) (ids : List ℕ)
      → All (λ (row : NodeRow). has_id row.id ids ≡ true) page
      → All (Held rows) page
      → All (Held (select_nodes_by_ids ids rows)) page
  Held-select [] rows ids m h = tt
  Held-select (row ∷ page) rows ids (in_ids, ms) (held, hs) =
      (select_of_select row.id ids rows in_ids ∙ held, Held-select page rows ids ms hs)

  has_id-cons :
      (x : ℕ) (ids : List ℕ) (page : List NodeRow)
      → All (λ (row : NodeRow). has_id row.id ids ≡ true) page
      → All (λ (row : NodeRow). has_id row.id (x ∷ ids) ≡ true) page
  unfolding has_id
  has_id-cons x ids [] m = tt
  has_id-cons x ids (row ∷ page) (h, ms) = (ground arith, has_id-cons x ids page ms)

  has_id_self :
      (page : List NodeRow) → All (λ (row : NodeRow). has_id row.id (row_ids page) ≡ true) page
  unfolding has_id row_ids
  has_id_self [] = tt
  has_id_self (row ∷ page) = (
    rw ((==_iff row.id row.id).1 refl) refl,
    has_id-cons row.id (row_ids page) page (has_id_self page),
  )

  length-map : (rows : List NodeRow) → length (map read rows) ≡ length rows
  length-map [] = refl
  length-map (row ∷ rows) = ap suc (length-map rows)

  -- FindNodesImpl on the ids of a page, and the sorting of ListNodes: the nodes of the page.
  pub find_nodes-page :
      (kind : Kind) (db : Db) (row : NodeRow) (page : List NodeRow)
      → db.properties kind ≡ properties
      → All Reads (db.nodes kind)
      → Distinct (row_ids (row ∷ page))
      → All (Held (db.nodes kind)) (row ∷ page)
      → (nodes : List Node) × ((find_nodes kind values (row_ids (row ∷ page)) false db).0
          ≡ ok nodes)
        × (in_positions (row_ids (row ∷ page)) nodes ≡ map read (row ∷ page))
  unfolding find_nodes row_ids
  find_nodes-page kind db row page same a d h =
      let ids = row_ids (row ∷ page) in
      let sel = select_nodes_by_ids ids (db.nodes kind) in
      let counted : length ids ≡ length (map read sel) = omega (
        arith,
        length-map sel,
        length-row_ids (row ∷ page),
        length-select (row ∷ page) (db.nodes kind) d h,
      ) in
      let found : (find_nodes kind values ids false db).0 ≡ ok (map read sel) =
        ap (all_found (length ids) false) (
          ap (λ p. read_nodes values p sel) same
          ∙ read_nodes-map sel (select-All ids (db.nodes kind) a))
        ∙ all_counted (length ids) (map read sel) counted in
      (
        map read sel,
        found,
        in_positions-map (row ∷ page) sel (select-All ids (db.nodes kind) a)
            (Held-select (row ∷ page) (db.nodes kind) ids (has_id_self (row ∷ page)) h),
      )
