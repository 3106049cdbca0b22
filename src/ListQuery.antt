-- ===== src/ListQuery.antt =====
-- The options of a list operation and the query they turn into:
-- ml_metadata/metadata_store/list_operation_util.{h,cc},
-- ml_metadata/metadata_store/list_operation_query_helper.cc and ListNodeIDsUsingOptions of
-- ml_metadata/metadata_store/query_config_executor.cc. A clause of the query is the predicate that
-- it stands for. Base64, the wire format of the token and the SQL that ZetaSQL makes of a
-- `filter_query` are parameters.
pub mod Order
use ml_metadata_l_metadata_s.Prelude.{
  ℕ, zero, suc, ◌+◌, min, String, Bool, true, false, not, ◌&&◌, ◌||◌, Option, none, some, List, [],
  ◌∷◌, ◌==◌, str_eq, ltb, leb, take, map, if◌then◌else◌,
}
use ml_metadata_l_metadata_s.Status.{
  Code, invalid_argument, internal, Result, ok, err, reject_if, ◌>>=◌, ◌>>◌,
}
use ml_metadata_l_metadata_s.Messages.{Kind, ℤ, pos, negsuc}
use ml_metadata_l_metadata_s.Tables.{Db, NodeRow}
use ml_metadata_l_metadata_s.Tables.NodeQueries.{same_flag}
use ml_metadata_l_metadata_s.Types.Parents.{has_id}

-- ListOperationOptions::OrderByField::Field
pub data Field : Type 0 where
  field_unspecified by_create_time by_last_update_time by_id : Field

abbrev pub field_number : Field → ℕ
field_number field_unspecified = 0
field_number by_create_time = 1
field_number by_last_update_time = 2
field_number by_id = 3

-- ListOperationOptions: a text field that is not set reads as the empty one, and `order_by_field`
-- as its defaults, ID and ascending.
pub record ListOptions : Type 0 where
  pub max_result_size : ℤ
  pub field : Field
  pub is_asc : Bool
  pub next_page_token : String
  pub filter_query : String

-- ListOperationNextPageToken
pub record PageToken : Type 0 where
  pub id_offset : ℕ
  pub field_offset : ℕ
  pub set_options : ListOptions
  pub listed_ids : List ℕ

-- absl::WebSafeBase64Escape and Unescape, SerializeAsString and ParseFromString.
pub record TokenCodec : Type 0 where
  pub escape : List ℕ → String
  pub unescape : String → Option (List ℕ)
  pub serialize : PageToken → List ℕ
  pub parse : List ℕ → Option PageToken

-- FilterQueryAstResolver and FilterQueryBuilder: the rows that the condition selects.
abbrev pub FilterQuery : Type 0
FilterQuery = Kind → String → Result (Db → NodeRow → Bool)

-- LLONG_MAX, and what GetDefaultMaxListOperationResultSize returns.
abbrev pub llong_max : ℕ
llong_max = 9223372036854775807

abbrev pub default_max_result_size : ℕ
default_max_result_size = 100

abbrev pub parsed_token : Option PageToken → Result PageToken
parsed_token none = err invalid_argument
parsed_token (some token) = ok token

abbrev pub parse_bytes : TokenCodec → Option (List ℕ) → Result PageToken
parse_bytes codec none = err invalid_argument
parse_bytes codec (some bytes) = parsed_token (codec.parse bytes)

-- DecodeListOperationNextPageToken
unfoldable pub decode_token : TokenCodec → String → Result PageToken
decode_token codec text = parse_bytes codec (codec.unescape text)

-- ValidateListOperationOptionsAreIdentical
unfoldable pub validate_options_identical : ListOptions → ListOptions → Result (Unit {0})
validate_options_identical previous current =
    if same_flag previous.is_asc current.is_asc
      && field_number previous.field == field_number current.field
    then ok tt
    else err invalid_argument

-- ValidateAndDecodeNextPageToken
unfoldable pub validate_and_decode : TokenCodec → ListOptions → Result PageToken
unfolding decode_token validate_options_identical
validate_and_decode codec options = do
  token ← decode_token codec options.next_page_token
  validate_options_identical token.set_options options
  ok token

-- GetDbColumnNameForProtoField
abbrev pub column_of : Field → Result (NodeRow → ℕ)
column_of field_unspecified = err invalid_argument
column_of by_create_time = ok (λ row. row.create_time)
column_of by_last_update_time = ok (λ row. row.update_time)
column_of by_id = ok (λ row. row.id)

abbrev pub is_id : Field → Bool
is_id field = field_number field == 3

-- A column compared with an offset by `>` or `<`, with `=` added where it may be equal.
abbrev pub beyond : Bool → Bool → ℕ → ℕ → Bool
beyond true strict offset value = if strict then ltb offset value else leb offset value
beyond false strict offset value = if strict then ltb value offset else leb value offset

-- ConstructOrderingFieldClause
unfoldable pub ordering_field_clause : ListOptions → ℕ → Result (NodeRow → Bool)
ordering_field_clause options offset = do
  column ← column_of options.field
  ok (λ row. beyond options.is_asc (is_id options.field) offset (column row))

-- ConstructIdNotInCaluse
abbrev id_not_in_clause : List ℕ → Result (NodeRow → Bool)
id_not_in_clause [] = err internal
id_not_in_clause (listed ∷ more) = ok (λ row. not (has_id row.id (listed ∷ more)))

-- ConstructIdClause and ConstructIdOrderCaluse, by the field. No clause is the true one.
abbrev id_clause_by : Field → Bool → PageToken → Result (NodeRow → Bool)
id_clause_by field_unspecified is_asc token = err invalid_argument
id_clause_by by_create_time is_asc token = ok (λ row. beyond is_asc true token.id_offset row.id)
id_clause_by by_last_update_time is_asc token = id_not_in_clause token.listed_ids
id_clause_by by_id is_asc token = ok (λ row. true)

unfoldable pub id_clause : ListOptions → PageToken → Result (NodeRow → Bool)
unfolding has_id
id_clause options token = id_clause_by options.field options.is_asc token

-- AppendOrderingThresholdClause, with a page token and without.
abbrev pub threshold_after : ListOptions → PageToken → Result (NodeRow → Bool)
threshold_after options token = do
  field_clause ← ordering_field_clause options token.field_offset
  on_id ← id_clause options token
  ok (λ row. field_clause row && on_id row)

unfoldable pub ordering_threshold_clause : TokenCodec → ListOptions → Result (NodeRow → Bool)
unfolding validate_and_decode ordering_field_clause id_clause
ordering_threshold_clause codec options =
    if not (str_eq options.next_page_token "")
    then (validate_and_decode codec options >>= threshold_after options)
    else ordering_field_clause options (if options.is_asc then 0 else llong_max)

-- ORDER BY the column and then by the id, both in one direction: whether `a` comes before `b`.
abbrev pub comes_before : Bool → (NodeRow → ℕ) → NodeRow → NodeRow → Bool
comes_before is_asc column a b =
    beyond is_asc true (column a) (column b)
    || (column a == column b && beyond is_asc true a.id b.id)

-- AppendOrderByClause. The second column is left out where the first is the id itself.
unfoldable pub order_by_clause : ListOptions → Result (NodeRow → NodeRow → Bool)
order_by_clause options = do
  column ← column_of options.field
  ok (comes_before options.is_asc column)

-- AppendLimitClause
abbrev pub limit_of : ℤ → Result ℕ
limit_of (negsuc n) = err invalid_argument
limit_of (pos n) = if n == 0 then err invalid_argument else ok (min n (default_max_result_size + 1))

-- What the database does with ORDER BY: rows in order.
unfoldable pub insert_row : (NodeRow → NodeRow → Bool) → NodeRow → List NodeRow → List NodeRow
insert_row before row [] = row ∷ []
insert_row before row (first ∷ rows) =
    let rest = insert_row before row rows in
    if before row first then row ∷ first ∷ rows else first ∷ rest

unfoldable pub order_rows : (NodeRow → NodeRow → Bool) → List NodeRow → List NodeRow
unfolding insert_row
order_rows before [] = []
order_rows before (row ∷ rows) = insert_row before row (order_rows before rows)

-- What it does with WHERE.
unfoldable pub where_rows : (NodeRow → Bool) → List NodeRow → List NodeRow
where_rows test [] = []
where_rows test (row ∷ rows) =
    let rest = where_rows test rows in if test row then row ∷ rest else rest

abbrev pub is_candidate : Option (List ℕ) → NodeRow → Bool
is_candidate none row = true
is_candidate (some ids) row = has_id row.id ids

-- The condition of `filter_query`, if there is one.
abbrev pub filter_clause : FilterQuery → Kind → Db → String → Result (NodeRow → Bool)
filter_clause filter kind db text =
    if not (str_eq text "")
    then (filter kind text >>= λ condition. ok (condition db))
    else ok (λ row. true)

-- The query of ListNodeIDsUsingOptions, where there are candidates.
unfoldable pub run_list_query :
    FilterQuery → TokenCodec → Kind → ListOptions → Option (List ℕ) → Db → Result (List NodeRow)
unfolding ordering_threshold_clause order_by_clause order_rows where_rows
run_list_query filter codec kind options candidates db = do
  condition ← filter_clause filter kind db options.filter_query
  threshold ← ordering_threshold_clause codec options
  before ← order_by_clause options
  limit ← limit_of options.max_result_size
  ok (
      take limit (
        where_rows (λ row. (condition row && is_candidate candidates row) && threshold row)
          (order_rows before (db.nodes kind))))

-- ListNodeIDsUsingOptions: an empty collection of candidates is no query.
abbrev pub list_rows :
    FilterQuery → TokenCodec → Kind → ListOptions → Option (List ℕ) → Db → Result (List NodeRow)
list_rows filter codec kind options (some []) db = ok []
list_rows filter codec kind options (some (id ∷ ids)) db =
    run_list_query filter codec kind options (some (id ∷ ids)) db
list_rows filter codec kind options none db = run_list_query filter codec kind options none db

unfoldable pub row_ids : List NodeRow → List ℕ
row_ids [] = []
row_ids (row ∷ rows) = row.id ∷ row_ids rows

unfoldable pub list_node_ids :
    FilterQuery → TokenCodec → Kind → ListOptions → Option (List ℕ) → Db → Result (List ℕ)
unfolding run_list_query row_ids
list_node_ids filter codec kind options candidates db = do
  rows ← list_rows filter codec kind options candidates db
  ok (row_ids rows)
