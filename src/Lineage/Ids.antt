-- ===== src/Lineage/Ids.antt =====
-- The nodes that a search by ids finds have the ids.
use ml_metadata_l_metadata_s.Prelude.{
  ℕ, String, ◌≡◌, refl, ap, sym, subst, ◌∙◌, true, ==_iff, Bool-cases, inl, inr, List, [], ◌∷◌,
  ◌==◌, length,
}
use ml_metadata_l_metadata_s.Status.{Result, ok, err, err-ok, ok-injective}
use ml_metadata_l_metadata_s.Messages.{Value, Kind, Node, number_of}
use ml_metadata_l_metadata_s.Tables.{Db, NodeRow, PropertyRow}
use ml_metadata_l_metadata_s.Types.Parents.{has_id}
use ml_metadata_l_metadata_s.Values.{Codec}
use ml_metadata_l_metadata_s.Nodes.{
  read_node, node_message, add_node, read_nodes, select_nodes_by_ids, find_nodes,
}
use ml_metadata_l_metadata_s.Nodes.Found.{all_found-ok}
use ml_metadata_l_metadata_s.ListQuery.{row_ids}
use ml_metadata_l_metadata_s.Finds.{find_by_ids}
use ml_metadata_l_metadata_s.Expand.{ids_of}

-- The nodes that a search by ids finds have the ids.
node_message-id :
    (row : NodeRow) (properties custom : Result (List (String × Value))) (node : Node)
    → node_message row properties custom ≡ ok node
    → row.id ≡ number_of node.id
node_message-id row (err c) custom node h = absurd (err-ok h)
node_message-id row (ok properties) (err c) node h = absurd (err-ok h)
node_message-id row (ok properties) (ok custom) node h =
    ap (λ (n : Node). number_of n.id) (ok-injective h)

read_node-id :
    (values : Codec) (properties : List PropertyRow) (row : NodeRow) (node : Node)
    → read_node values properties row ≡ ok node
    → row.id ≡ number_of node.id
unfolding read_node
read_node-id values properties row node h = node_message-id row _ _ node h

add_node-ids :
    (id : ℕ) (ids : List ℕ) (first : Result Node) (rest : Result (List Node)) (nodes : List Node)
    → ((node : Node) → first ≡ ok node → id ≡ number_of node.id)
    → ((found : List Node) → rest ≡ ok found → ids ≡ ids_of found)
    → add_node first rest ≡ ok nodes
    → id ∷ ids ≡ ids_of nodes
unfolding ids_of
add_node-ids id ids (err c) rest nodes one more h = absurd (err-ok h)
add_node-ids id ids (ok node) (err c) nodes one more h = absurd (err-ok h)
add_node-ids id ids (ok node) (ok found) nodes one more h =
    ap (λ i. i ∷ ids) (one node refl)
    ∙ ap (λ is. number_of node.id ∷ is) (more found refl)
    ∙ ap ids_of (ok-injective h)

read_nodes-ids :
    (values : Codec) (properties : List PropertyRow) (rows : List NodeRow) (nodes : List Node)
    → read_nodes values properties rows ≡ ok nodes
    → row_ids rows ≡ ids_of nodes
unfolding read_nodes ids_of row_ids
read_nodes-ids values properties [] nodes h = ap ids_of (ok-injective h)
read_nodes-ids values properties (row ∷ rows) nodes h =
    add_node-ids row.id (row_ids rows) (read_node values properties row)
      (read_nodes values properties rows) nodes (read_node-id values properties row)
      (read_nodes-ids values properties rows) h

selected_id :
    (x : ℕ) (ids : List ℕ) (id : ℕ) (rest : List ℕ)
    → has_id id ids ≡ true
    → has_id x (id ∷ rest) ≡ true
    → (has_id x rest ≡ true → has_id x ids ≡ true)
    → has_id x ids ≡ true
unfolding has_id
selected_id x ids id rest hit h more = elim (Bool-cases (id == x)) [
  | inl same ↦ subst (λ i. has_id i ids ≡ true) ((==_iff id x).0 same) hit
  | inr other ↦ more (rw other at h)
]

select_nodes_by_ids-ids :
    (ids : List ℕ) (rows : List NodeRow) (x : ℕ)
    → has_id x (row_ids (select_nodes_by_ids ids rows)) ≡ true
    → has_id x ids ≡ true
unfolding select_nodes_by_ids row_ids has_id
select_nodes_by_ids-ids ids [] x h = cc
select_nodes_by_ids-ids ids (row ∷ rows) x h = elim (Bool-cases (has_id row.id ids)) [
  | inl hit ↦
      selected_id x ids row.id (row_ids (select_nodes_by_ids ids rows)) hit (rw hit at h)
        (select_nodes_by_ids-ids ids rows x)
  | inr miss ↦ select_nodes_by_ids-ids ids rows x (rw miss at h)
]

pub find_by_ids-ids :
    (values : Codec) (kind : Kind) (ids : List ℕ) (db : Db) (nodes : List Node) (x : ℕ)
    → find_by_ids values kind ids db ≡ ok nodes
    → has_id x (ids_of nodes) ≡ true
    → has_id x ids ≡ true
unfolding find_nodes ids_of has_id
find_by_ids-ids values kind [] db nodes x e h =
    subst (λ found. has_id x (ids_of found) ≡ true) (sym (ok-injective e)) h
find_by_ids-ids values kind (id ∷ ids) db nodes x e h =
    let rows = select_nodes_by_ids (id ∷ ids) (db.nodes kind) in
    let read =
      all_found-ok (length (id ∷ ids)) true (read_nodes values (db.properties kind) rows) nodes e in
    select_nodes_by_ids-ids (id ∷ ids) (db.nodes kind) x (
      subst (λ is. has_id x is ≡ true)
        (sym (read_nodes-ids values (db.properties kind) rows nodes read)) h)
