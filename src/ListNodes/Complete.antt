-- ===== src/ListNodes/Complete.antt =====
-- A client that follows the page tokens gets every matching node once, in order.
use ml_metadata_l_metadata_s.Prelude.{
  ℕ, suc, ◌≤◌, String, ◌≡◌, Bool, true, Option, List, [], map, reverse, All, if◌then◌else◌,
}
use ml_metadata_l_metadata_s.Status.{Result, ok}
use ml_metadata_l_metadata_s.Messages.{Kind, pos, Node}
use ml_metadata_l_metadata_s.Tables.{Db, NodeRow}
use ml_metadata_l_metadata_s.Values.{Codec}
use ml_metadata_l_metadata_s.ListQuery.{
  Field, ListOptions, PageToken, TokenCodec, FilterQuery, is_id, beyond, llong_max, column_of,
  where_rows, row_ids, filter_clause, ordering_threshold_clause,
}
use ml_metadata_l_metadata_s.ListQuery.Order.{InOrder, Distinct}
use ml_metadata_l_metadata_s.ListNodes.{list_nodes, token_of}
use ml_metadata_l_metadata_s.ListNodes.Fetch.{Reads}
use ml_metadata_l_metadata_s.ListNodes.Threshold.{Precedes, behind, TokenLaws, options_at}
use ml_metadata_l_metadata_s.ListNodes.Page.{matching}

-- ListNodes with one set of options, as a function of the page token.
abbrev pub call_from :
    FilterQuery
    → TokenCodec
    → Codec
    → Kind
    → Db
    → Option (List ℕ)
    → ℕ
    → Field
    → Bool
    → String
    → String
    → Result (List Node × String)
call_from filter codec values kind db candidates n field is_asc filter_query text =
    list_nodes filter codec values kind
      (options_at codec (pos (suc n)) is_asc filter_query field text) candidates db

module _ (filter : FilterQuery) (codec : TokenCodec) (values : Codec) (kind : Kind) (db : Db)
    (candidates : Option (List ℕ)) (n : ℕ) (field : Field) (is_asc : Bool) (filter_query : String)
    (condition : NodeRow → Bool) (column : NodeRow → ℕ) (read : NodeRow → Node) where
  abbrev pub start_options : ListOptions
  start_options = options_at codec (pos (suc n)) is_asc filter_query field ""

  -- The page size is one that the query does not cut down, the condition and the nodes can be read,
  -- ids are keys, the rows are those that a first query selects, and they are in an order that
  -- tokens divide.
  pub record CanList : Type 0 where
    pub small : suc n ≤ 100
    pub filtered : filter_clause filter kind db filter_query ≡ ok condition
    pub ordered : column_of field ≡ ok column
    pub laws : TokenLaws codec start_options
    pub reads : All (Reads values (db.properties kind) read) (db.nodes kind)
    pub distinct : Distinct (row_ids (db.nodes kind))
    pub started :
        All
          (λ (row : NodeRow).
            beyond is_asc (is_id field) (if is_asc then 0 else llong_max) (column row) ≡ true)
          (db.nodes kind)
    pub divided :
        InOrder (Precedes field is_asc) (matching kind db candidates condition is_asc column)

  abbrev list_from : String → Result (List Node × String)
  list_from = call_from filter codec values kind db candidates n field is_asc filter_query

  module _ (can : CanList) where
    open can use {small, filtered, ordered, laws, reads, distinct, started, divided}

    rows : List NodeRow
    rows = matching kind db candidates condition is_asc column

    -- The token behind a page is made, and selects the rows behind the page.
    record NextToken (text : String) (page : List NodeRow) (last : NodeRow) (rest : List NodeRow)
        : Type 0 where
      token : PageToken
      made :
          token_of
            (options_at codec (pos (suc n)) is_asc filter_query field text)
            (read last)
            (reverse (map read page))
            field
          ≡ ok token
      its_options : token.set_options ≡ start_options
      selects :
          ordering_threshold_clause codec (
            options_at codec
              (pos (suc n))
              is_asc
              filter_query
              field
              (codec.escape (codec.serialize token)))
          ≡ ok (behind field is_asc last [])
      selected : where_rows (behind field is_asc last []) rows ≡ rest
