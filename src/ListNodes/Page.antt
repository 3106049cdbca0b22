-- ===== src/ListNodes/Page.antt =====
-- One call of ListNodes on the rows that the page token leaves.
use ml_metadata_l_metadata_s.Prelude.{
  ℕ, suc, ◌+◌, ◌<◌, leb, min, String, ◌≡◌, refl, ap, sym, ◌∙◌, Bool, false, ◌&&◌, Option, none,
  some, List, [], ◌∷◌, map, take, All, arith,
}
use ml_metadata_l_metadata_s.Status.{invalid_argument, Result, ok, reject_if, ◌>>=◌, ◌>>◌}
use ml_metadata_l_metadata_s.Messages.{Kind, ℤ, pos, Node}
use ml_metadata_l_metadata_s.Tables.{Db, NodeRow}
use ml_metadata_l_metadata_s.Types.Parents.{has_id}
use ml_metadata_l_metadata_s.Values.{Codec}
use ml_metadata_l_metadata_s.ListQuery.{
  Field, ListOptions, TokenCodec, FilterQuery, column_of, comes_before, order_rows, where_rows,
  limit_of, row_ids, is_candidate, filter_clause, ordering_threshold_clause, order_by_clause,
  run_list_query, list_rows, list_node_ids,
}
use ml_metadata_l_metadata_s.ListQuery.Order.{
  Distinct, where_rows-and, order_rows-All, order_rows-Distinct, where_rows-All,
  where_rows-Distinct,
}
use ml_metadata_l_metadata_s.ListNodes.{in_positions, one_more, list_nodes, retrieve, next_page}
use ml_metadata_l_metadata_s.ListNodes.Rows.{Held}
use ml_metadata_l_metadata_s.ListNodes.Fetch.{Reads, find_nodes-page}
use ml_metadata_l_metadata_s.ListNodes.Threshold.{options_at}
use ml_metadata_l_metadata_s.ListNodes.Splits.{take-nil, take-All, take-Distinct}

-- The rows that a list operation is about, in their order.
unfoldable pub matching :
    Kind → Db → Option (List ℕ) → (NodeRow → Bool) → Bool → (NodeRow → ℕ) → List NodeRow
matching kind db candidates condition is_asc column =
    where_rows (λ row. condition row && is_candidate candidates row)
      (order_rows (comes_before is_asc column) (db.nodes kind))

module _ (values : Codec) (kind : Kind) (db : Db) (read : NodeRow → Node) where
  -- What is retrieved for the ids of rows of the table.
  pub retrieve-rows :
      (codec : TokenCodec) (options : ListOptions) (n : ℕ) (rows : List NodeRow)
      → options.max_result_size ≡ pos (suc n)
      → All (Reads values (db.properties kind) read) (db.nodes kind)
      → Distinct (row_ids rows)
      → All (Held (db.nodes kind)) rows
      → retrieve codec values kind options db (row_ids rows)
        ≡ next_page codec options (map read rows)
  unfolding row_ids
  retrieve-rows codec options n [] size reads d h = ground arith
  retrieve-rows codec options n (row ∷ rows) size reads d h =
      let (nodes, found, placed) =
        find_nodes-page values (db.properties kind) read kind db row rows refl reads d h in
      let use_nodes : List Node → Result (List Node × String) =
        λ found_nodes. next_page codec options (in_positions (row_ids (row ∷ rows)) found_nodes) in
      ap (λ (r : Result (List Node)). r >>= use_nodes) found ∙ ap (next_page codec options) placed

module _ (kind : Kind) (db : Db) (candidates : Option (List ℕ)) (condition : NodeRow → Bool)
    (is_asc : Bool) (column : NodeRow → ℕ) where
  pub matching-Distinct :
      Distinct (row_ids (db.nodes kind))
      → Distinct (row_ids (matching kind db candidates condition is_asc column))
  unfolding matching
  matching-Distinct d =
      where_rows-Distinct _ _ (order_rows-Distinct (comes_before is_asc column) (db.nodes kind) d)

  pub matching-All {ℓ} :
      (P : NodeRow → Type ℓ)
      → All P (db.nodes kind)
      → All P (matching kind db candidates condition is_asc column)
  unfolding matching
  matching-All P a =
      where_rows-All P _ _ (order_rows-All P (comes_before is_asc column) (db.nodes kind) a)

no_candidate :
    (condition threshold : NodeRow → Bool) (rows : List NodeRow)
    → where_rows (λ row. (condition row && false) && threshold row) rows ≡ []
unfolding where_rows
no_candidate condition threshold [] = refl
no_candidate condition threshold (row ∷ rows) =
    ground (arith, no_candidate condition threshold rows)

module _ (filter : FilterQuery) (codec : TokenCodec) (kind : Kind) (db : Db)
    (condition : NodeRow → Bool) (n limit : ℕ) (field : Field) (column : NodeRow → ℕ)
    (is_asc : Bool) (filter_query : String) (text : String) (threshold : NodeRow → Bool)
    (filtered : filter_clause filter kind db filter_query ≡ ok condition)
    (ordered : column_of field ≡ ok column) (small : suc n < 2147483647)
    (limited_to : min (suc n + 1) 101 ≡ limit)
    (divided : ordering_threshold_clause codec
        (options_at codec (pos (suc n)) is_asc filter_query field text)
      ≡ ok threshold) where
  query_rows :
      (candidates : Option (List ℕ))
      → run_list_query filter codec kind
          (options_at codec (pos (suc n + 1)) is_asc filter_query field text)
          candidates
          db
        ≡ ok (
            take limit (where_rows threshold (matching kind db candidates condition is_asc column)))
  unfolding run_list_query order_by_clause matching ordering_threshold_clause
  query_rows candidates =
      let options = options_at codec (pos (suc n + 1)) is_asc filter_query field text in
      let base : NodeRow → Bool = λ row. condition row && is_candidate candidates row in
      let before = comes_before is_asc column in
      let select : (NodeRow → Bool)
          → (NodeRow → Bool)
          → (NodeRow → NodeRow → Bool)
          → ℕ
          → Result (List NodeRow) =
        λ chosen th order limit. ok (
          take limit (
            where_rows (λ row. (chosen row && is_candidate candidates row) && th row)
              (order_rows order (db.nodes kind)))) in
      let limited : (NodeRow → Bool)
          → (NodeRow → Bool)
          → (NodeRow → NodeRow → Bool)
          → Result (List NodeRow) =
        λ chosen th order. limit_of (pos (suc n + 1)) >>= select chosen th order in
      let in_order : (NodeRow → Bool) → (NodeRow → Bool) → Result (List NodeRow) =
        λ chosen th. order_by_clause options >>= limited chosen th in
      let query : (NodeRow → Bool) → Result (List NodeRow) =
        λ chosen. ordering_threshold_clause codec options >>= in_order chosen in
      ap (λ (r : Result (NodeRow → Bool)). r >>= query) filtered
      ∙ ap (λ (r : Result (NodeRow → Bool)). r >>= in_order condition) divided
      ∙ ap
          (λ (r : Result (NodeRow → ℕ)).
            (r >>= λ c. ok (comes_before is_asc c)) >>= limited condition threshold)
          ordered
      ∙ ap (λ (r : Result ℕ). r >>= select condition threshold before) limit_is
      ∙ ap (λ rows. ok (take limit rows))
          (where_rows-and base threshold (order_rows before (db.nodes kind)))
    where
      limit_is : limit_of (pos (suc n + 1)) ≡ ok limit
      limit_is = rw limited_to (ground arith)

  rows_at :
      (candidates : Option (List ℕ))
      → list_rows filter codec kind
          (options_at codec (pos (suc n + 1)) is_asc filter_query field text)
          candidates
          db
        ≡ ok (
            take limit (where_rows threshold (matching kind db candidates condition is_asc column)))
  unfolding matching has_id
  rows_at none = query_rows none
  rows_at (some (id ∷ ids)) = query_rows (some (id ∷ ids))
  rows_at (some []) =
      let base : NodeRow → Bool = λ row. condition row && is_candidate (some []) row in
      let ordered_rows = order_rows (comes_before is_asc column) (db.nodes kind) in
      ap ok (sym (take-nil limit))
      ∙ ap (λ rows. ok (take limit rows))
          (sym (no_candidate condition threshold ordered_rows)
            ∙ where_rows-and base threshold ordered_rows)

  -- ListNodes where the token, or its absence, selects the rows of `threshold`.
  pub list_nodes-rows :
      (values : Codec) (read : NodeRow → Node) (candidates : Option (List ℕ))
      → All (Reads values (db.properties kind) read) (db.nodes kind)
      → (let rest = where_rows threshold (matching kind db candidates condition is_asc column) in
          Distinct (row_ids rest)
          → All (Held (db.nodes kind)) rest
          → list_nodes filter codec values kind
              (options_at codec (pos (suc n)) is_asc filter_query field text)
              candidates
              db
            ≡ next_page codec
                (options_at codec (pos (suc n)) is_asc filter_query field text)
                (map read (take limit rest)))
  unfolding list_nodes list_node_ids
  list_nodes-rows values read candidates reads d h =
      let options = options_at codec (pos (suc n)) is_asc filter_query field text in
      let rest = where_rows threshold (matching kind db candidates condition is_asc column) in
      let rows = take limit rest in
      let query : ℤ → Result (List Node × String) = λ size.
        (list_rows filter codec kind (options_at codec size is_asc filter_query field text)
            candidates db
          >>= λ found. ok (row_ids found))
        >>= retrieve codec values kind options db in
      ap (λ (b : Bool). reject_if b invalid_argument >> query (one_more (suc n))) positive
      ∙ ap query more
      ∙ ap
          (λ (r : Result (List NodeRow)).
            (r >>= λ found. ok (row_ids found)) >>= retrieve codec values kind options db)
          (rows_at candidates)
      ∙ retrieve-rows values kind db read codec options n rows refl reads
          (take-Distinct limit rest d) (take-All (Held (db.nodes kind)) limit rest h)
    where
      positive : leb (suc n) 0 ≡ false
      positive = ground arith

      more : one_more (suc n) ≡ pos (suc n + 1)
      more = ground arith
