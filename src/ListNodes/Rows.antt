-- ===== src/ListNodes/Rows.antt =====
-- Rows of a table whose ids are distinct, selected by their ids.
use ml_metadata_l_metadata_s.Prelude.{
  ℕ, suc, ◌≡◌, refl, ap, ◌∙◌, true, false, ==_iff, Bool-cases, inl, inr, List, [], ◌∷◌, ◌==◌,
  length, All, arith,
}
use ml_metadata_l_metadata_s.Tables.{NodeRow}
use ml_metadata_l_metadata_s.Tables.NodeQueries.{select_node_by_id}
use ml_metadata_l_metadata_s.Types.Parents.{has_id}
use ml_metadata_l_metadata_s.Nodes.{select_nodes_by_ids}
use ml_metadata_l_metadata_s.ListQuery.{row_ids}
use ml_metadata_l_metadata_s.ListQuery.Order.{Distinct}

-- The row is the only one of the table with its id.
abbrev pub Held : List NodeRow → NodeRow → Type 0
Held rows row = select_node_by_id row.id rows ≡ row ∷ []

eq_self : (n : ℕ) → (n == n) ≡ true
eq_self n = (==_iff n n).1 refl

pub select_none :
    (x : ℕ) (rows : List NodeRow) → has_id x (row_ids rows) ≡ false → select_node_by_id x rows ≡ []
unfolding has_id row_ids select_node_by_id
select_none x [] h = refl
select_none x (row ∷ rows) h = ground (arith, select_none x rows)

select_none_inv :
    (x : ℕ) (rows : List NodeRow) → select_node_by_id x rows ≡ [] → has_id x (row_ids rows) ≡ false
unfolding has_id row_ids select_node_by_id
select_none_inv x [] h = refl
select_none_inv x (row ∷ rows) h = ground (arith, select_none_inv x rows)

Held-cons :
    (row : NodeRow) (rest sub : List NodeRow)
    → has_id row.id (row_ids sub) ≡ false
    → All (Held rest) sub
    → All (Held (row ∷ rest)) sub
unfolding has_id row_ids select_node_by_id
Held-cons row rest [] h a = tt
Held-cons row rest (r ∷ sub) h (first, more) = elim (Bool-cases (r.id == row.id)) [
  | inl same ↦ absurd (ground arith)
  | inr other ↦ (ground arith, Held-cons row rest sub (rw other at h) more)
]

pub Distinct-Held : (rows : List NodeRow) → Distinct (row_ids rows) → All (Held rows) rows
unfolding row_ids select_node_by_id
Distinct-Held [] d = tt
Distinct-Held (row ∷ rows) (fresh, d) = (
  rw (eq_self row.id, select_none row.id rows fresh) refl,
  Held-cons row rows rows fresh (Distinct-Held rows d),
)

select_without :
    (x : ℕ) (ids : List ℕ) (rows : List NodeRow)
    → has_id x (row_ids rows) ≡ false
    → select_nodes_by_ids (x ∷ ids) rows ≡ select_nodes_by_ids ids rows
unfolding has_id row_ids select_nodes_by_ids
select_without x ids [] h = refl
select_without x ids (row ∷ rows) h = ground (arith, select_without x ids rows)

length-select_cons :
    (x : ℕ) (ids : List ℕ) (rows : List NodeRow) (r : NodeRow)
    → select_node_by_id x rows ≡ r ∷ []
    → has_id x ids ≡ false
    → length (select_nodes_by_ids (x ∷ ids) rows) ≡ suc (length (select_nodes_by_ids ids rows))
unfolding has_id select_node_by_id select_nodes_by_ids
length-select_cons x ids [] r h new = ground arith
length-select_cons x ids (row ∷ rows) r h new =
    ground
      (arith, length-select_cons x ids rows r, select_without x ids rows, select_none_inv x rows)

select_nothing : (rows : List NodeRow) → length (select_nodes_by_ids [] rows) ≡ 0
unfolding has_id select_nodes_by_ids
select_nothing [] = refl
select_nothing (row ∷ rows) = select_nothing rows

-- As many rows as ids, where every id is in the table.
pub length-select :
    (page rows : List NodeRow)
    → Distinct (row_ids page)
    → All (Held rows) page
    → length (select_nodes_by_ids (row_ids page) rows) ≡ length page
unfolding row_ids
length-select [] rows d h = select_nothing rows
length-select (r ∷ page) rows (fresh, d) (held, more) =
    length-select_cons r.id (row_ids page) rows r held fresh
    ∙ ap suc (length-select page rows d more)

pub select_of_select :
    (i : ℕ) (ids : List ℕ) (rows : List NodeRow)
    → has_id i ids ≡ true
    → select_node_by_id i (select_nodes_by_ids ids rows) ≡ select_node_by_id i rows
unfolding select_node_by_id select_nodes_by_ids
select_of_select i ids [] h = refl
select_of_select i ids (row ∷ rows) h = elim (Bool-cases (row.id == i)) [
  | inl same ↦
      let e : row.id ≡ i = (==_iff row.id i).0 same in
      let chosen : has_id row.id ids ≡ true = ap (λ k. has_id k ids) e ∙ h in
      rw (chosen, same) (ap (◌∷◌ row) (select_of_select i ids rows h))
  | inr other ↦ ground (arith, select_of_select i ids rows)
]
