-- ===== src/ListQuery/Order.antt =====
-- ORDER BY and WHERE keep what holds of the rows; the rows that are ordered are in order.
use ml_metadata_l_metadata_s.Prelude.{
  ℕ, ◌≡◌, refl, ap, Bool, true, false, ◌&&◌, Bool-cases, inl, inr, List, [], ◌∷◌, ◌++◌, ◌==◌, All,
  arith,
}
use ml_metadata_l_metadata_s.Tables.{NodeRow}
use ml_metadata_l_metadata_s.Types.Parents.{has_id}
use ml_metadata_l_metadata_s.ListQuery.{insert_row, order_rows, where_rows, row_ids, comes_before}

abbrev pub Distinct : List ℕ → Type 0
Distinct [] = Unit
Distinct (x ∷ xs) = (has_id x xs ≡ false) × Distinct xs

-- Every row has the relation to all that come after it.
abbrev pub InOrder {ℓ} : (NodeRow → NodeRow → Type ℓ) → List NodeRow → Type ℓ
InOrder R [] = Unit
InOrder R (row ∷ rows) = All (R row) rows × InOrder R rows

module _ {ℓ} (P : NodeRow → Type ℓ) where
  insert_row-All :
      (before : NodeRow → NodeRow → Bool) (row : NodeRow) (rows : List NodeRow)
      → P row
      → All P rows
      → All P (insert_row before row rows)
  unfolding insert_row
  insert_row-All before row [] p a = (p, tt)
  insert_row-All before row (first ∷ rows) p (q, a) = elim (Bool-cases (before row first)) [
    | inl now ↦ rw now (p, (q, a))
    | inr later ↦ rw later (q, insert_row-All before row rows p a)
  ]

  pub order_rows-All :
      (before : NodeRow → NodeRow → Bool) (rows : List NodeRow)
      → All P rows
      → All P (order_rows before rows)
  unfolding order_rows
  order_rows-All before [] a = tt
  order_rows-All before (row ∷ rows) (p, a) =
      insert_row-All before row (order_rows before rows) p (order_rows-All before rows a)

  pub where_rows-All :
      (test : NodeRow → Bool) (rows : List NodeRow) → All P rows → All P (where_rows test rows)
  unfolding where_rows
  where_rows-All test [] a = tt
  where_rows-All test (row ∷ rows) (p, a) = elim (Bool-cases (test row)) [
    | inl chosen ↦ rw chosen (p, where_rows-All test rows a)
    | inr other ↦ rw other (where_rows-All test rows a)
  ]

pub where_rows-InOrder {ℓ} :
    (R : NodeRow → NodeRow → Type ℓ) (test : NodeRow → Bool) (rows : List NodeRow)
    → InOrder R rows
    → InOrder R (where_rows test rows)
unfolding where_rows
where_rows-InOrder R test [] h = tt
where_rows-InOrder R test (row ∷ rows) (first, more) = elim (Bool-cases (test row)) [
  | inl chosen ↦
      rw chosen (where_rows-All (R row) test rows first, where_rows-InOrder R test rows more)
  | inr other ↦ rw other (where_rows-InOrder R test rows more)
]

-- Two conditions, one after the other.
pub where_rows-and :
    (p q : NodeRow → Bool) (rows : List NodeRow)
    → where_rows (λ row. p row && q row) rows ≡ where_rows q (where_rows p rows)
unfolding where_rows
where_rows-and p q [] = refl
where_rows-and p q (row ∷ rows) = ground (arith, where_rows-and p q rows)

pub where_rows_keep :
    (test : NodeRow → Bool) (rows : List NodeRow)
    → All (λ (row : NodeRow). test row ≡ true) rows
    → where_rows test rows ≡ rows
unfolding where_rows
where_rows_keep test [] a = refl
where_rows_keep test (row ∷ rows) (h, a) = rw h (ap (◌∷◌ row) (where_rows_keep test rows a))

pub where_rows_drop :
    (test : NodeRow → Bool) (rows more : List NodeRow)
    → All (λ (row : NodeRow). test row ≡ false) rows
    → where_rows test (rows ++ more) ≡ where_rows test more
unfolding where_rows
where_rows_drop test [] more a = refl
where_rows_drop test (row ∷ rows) more (h, a) = rw h (where_rows_drop test rows more a)

where_rows-fresh :
    (x : ℕ) (test : NodeRow → Bool) (rows : List NodeRow)
    → has_id x (row_ids rows) ≡ false
    → has_id x (row_ids (where_rows test rows)) ≡ false
unfolding where_rows row_ids has_id
where_rows-fresh x test [] h = refl
where_rows-fresh x test (row ∷ rows) h = ground (arith, where_rows-fresh x test rows)

pub where_rows-Distinct :
    (test : NodeRow → Bool) (rows : List NodeRow)
    → Distinct (row_ids rows)
    → Distinct (row_ids (where_rows test rows))
unfolding where_rows row_ids
where_rows-Distinct test [] d = tt
where_rows-Distinct test (row ∷ rows) (fresh, d) = elim (Bool-cases (test row)) [
  | inl chosen ↦
      rw chosen (where_rows-fresh row.id test rows fresh, where_rows-Distinct test rows d)
  | inr other ↦ rw other (where_rows-Distinct test rows d)
]

insert_row-fresh :
    (x : ℕ) (before : NodeRow → NodeRow → Bool) (row : NodeRow) (rows : List NodeRow)
    → (row.id == x) ≡ false
    → has_id x (row_ids rows) ≡ false
    → has_id x (row_ids (insert_row before row rows)) ≡ false
unfolding insert_row row_ids has_id
insert_row-fresh x before row [] n h = rw n refl
insert_row-fresh x before row (first ∷ rows) n h =
    ground (arith, insert_row-fresh x before row rows)

insert_row-Distinct :
    (before : NodeRow → NodeRow → Bool) (row : NodeRow) (rows : List NodeRow)
    → has_id row.id (row_ids rows) ≡ false
    → Distinct (row_ids rows)
    → Distinct (row_ids (insert_row before row rows))
unfolding insert_row row_ids has_id
insert_row-Distinct before row [] h d = (refl, tt)
insert_row-Distinct before row (first ∷ rows) h (fresh, d) = elim (Bool-cases (before row first)) [
  | inl now ↦ rw now (h, (fresh, d))
  | inr later ↦ rw later (
    insert_row-fresh first.id before row rows (ground arith) fresh,
    insert_row-Distinct before row rows (ground arith) d,
  )
]

order_rows-fresh :
    (x : ℕ) (before : NodeRow → NodeRow → Bool) (rows : List NodeRow)
    → has_id x (row_ids rows) ≡ false
    → has_id x (row_ids (order_rows before rows)) ≡ false
unfolding order_rows row_ids has_id
order_rows-fresh x before [] h = refl
order_rows-fresh x before (row ∷ rows) h =
    insert_row-fresh x before row (order_rows before rows) (ground arith)
      (order_rows-fresh x before rows (ground arith))

pub order_rows-Distinct :
    (before : NodeRow → NodeRow → Bool) (rows : List NodeRow)
    → Distinct (row_ids rows)
    → Distinct (row_ids (order_rows before rows))
unfolding order_rows row_ids
order_rows-Distinct before [] d = tt
order_rows-Distinct before (row ∷ rows) (fresh, d) =
    insert_row-Distinct before row (order_rows before rows)
      (order_rows-fresh row.id before rows fresh) (order_rows-Distinct before rows d)

comes_before_trans :
    (is_asc : Bool) (column : NodeRow → ℕ) (a b c : NodeRow)
    → comes_before is_asc column a b ≡ true
    → comes_before is_asc column b c ≡ true
    → comes_before is_asc column a c ≡ true
comes_before_trans true column a b c h k = ground arith
comes_before_trans false column a b c h k = ground arith

comes_before_total :
    (is_asc : Bool) (column : NodeRow → ℕ) (a b : NodeRow)
    → (b.id == a.id) ≡ false
    → comes_before is_asc column a b ≡ false
    → comes_before is_asc column b a ≡ true
comes_before_total true column a b n h = ground arith
comes_before_total false column a b n h = ground arith

module _ (is_asc : Bool) (column : NodeRow → ℕ) where
  abbrev pub Before : NodeRow → NodeRow → Type 0
  Before a b = comes_before is_asc column a b ≡ true

  Before-All :
      (a b : NodeRow) (rows : List NodeRow) → Before a b → All (Before b) rows → All (Before a) rows
  Before-All a b [] h t = tt
  Before-All a b (c ∷ rows) h (first, t) =
      (comes_before_trans is_asc column a b c h first, Before-All a b rows h t)

  insert_row-InOrder :
      (row : NodeRow) (rows : List NodeRow)
      → has_id row.id (row_ids rows) ≡ false
      → InOrder Before rows
      → InOrder Before (insert_row (comes_before is_asc column) row rows)
  unfolding insert_row row_ids has_id
  insert_row-InOrder row [] n h = (tt, tt)
  insert_row-InOrder row (first ∷ rows) n (above, h) =
      elim (Bool-cases (comes_before is_asc column row first)) [
        | inl now ↦ rw now ((now, Before-All row first rows now above), (above, h))
        | inr later ↦
            let behind : Before first row =
              comes_before_total is_asc column row first (ground arith) later in
            rw later (
              insert_row-All (Before first) (comes_before is_asc column) row rows behind above,
              insert_row-InOrder row rows (ground arith) h,
            )
      ]

  -- Rows with distinct ids that are ordered stand in order.
  pub order_rows-InOrder :
      (rows : List NodeRow)
      → Distinct (row_ids rows)
      → InOrder Before (order_rows (comes_before is_asc column) rows)
  unfolding order_rows row_ids
  order_rows-InOrder [] d = tt
  order_rows-InOrder (row ∷ rows) (fresh, d) =
      insert_row-InOrder row (order_rows (comes_before is_asc column) rows)
        (order_rows-fresh row.id (comes_before is_asc column) rows fresh)
        (order_rows-InOrder rows d)
