-- ===== src/ListNodes.antt =====
-- ListNodes of ml_metadata/metadata_store/rdbms_metadata_access_object.cc and
-- BuildListOperationNextPageToken of ml_metadata/metadata_store/list_operation_util.h. The vector that
-- the nodes go to is empty, as it is at every call.
mod Rows
pub mod Fetch
pub mod Threshold
pub mod Splits
pub mod Page
pub mod Paging
pub mod Complete
pub mod ById
pub mod Limits
pub mod Cycle
mod TestTokens
mod Tests
use ml_metadata_l_metadata_s.Prelude.{
  ℕ, zero, suc, ◌+◌, String, Bool, true, false, not, Option, none, some, List, [], ◌∷◌, ◌++◌, ◌==◌,
  ltb, leb, length, reverse, if◌then◌else◌,
}
use ml_metadata_l_metadata_s.Status.{
  Code, invalid_argument, fatal, Result, ok, err, reject_if, ◌>>=◌, ◌>>◌,
}
use ml_metadata_l_metadata_s.Messages.{Kind, ℤ, pos, negsuc, Node, number_of}
use ml_metadata_l_metadata_s.Tables.{Db}
use ml_metadata_l_metadata_s.Values.{Codec}
use ml_metadata_l_metadata_s.Nodes.{find_nodes}
use ml_metadata_l_metadata_s.ListQuery.{
  Field, field_unspecified, by_create_time, by_last_update_time, by_id, ListOptions, PageToken,
  TokenCodec, FilterQuery, list_node_ids,
}

-- The ids of the nodes before the last one, backwards, as long as they have its time of update.
pub same_time_ids : ℕ → List Node → List ℕ
same_time_ids time [] = []
same_time_ids time (node ∷ previous) =
    let more = same_time_ids time previous in
    if not (number_of node.last_update_time_since_epoch == time)
    then []
    else number_of node.id ∷ more

-- The token after the last node and those before it, which come last first.
abbrev pub token_of : ListOptions → Node → List Node → Field → Result PageToken
token_of options last previous field_unspecified = err invalid_argument
token_of options last previous by_create_time = ok record {
  field_offset = number_of last.create_time_since_epoch;
  id_offset = number_of last.id;
  listed_ids = [];
  set_options = record options { next_page_token = "" };
}
token_of options last previous by_last_update_time = ok record {
  field_offset = number_of last.last_update_time_since_epoch;
  id_offset = 0;
  listed_ids =
      number_of last.id ∷ same_time_ids (number_of last.last_update_time_since_epoch) previous;
  set_options = record options { next_page_token = "" };
}
token_of options last previous by_id = ok record {
  field_offset = number_of last.id;
  id_offset = number_of last.id;
  listed_ids = [];
  set_options = record options { next_page_token = "" };
}

-- `nodes.back()` of an empty span is undefined.
abbrev pub token_backwards : ListOptions → List Node → Result PageToken
token_backwards options [] = err fatal
token_backwards options (last ∷ previous) = token_of options last previous options.field

-- BuildListOperationNextPageToken
pub build_next_page_token : TokenCodec → ListOptions → List Node → Result String
unfolding same_time_ids
build_next_page_token codec options nodes = do
  token ← token_backwards options (reverse nodes)
  ok (codec.escape (codec.serialize token))

-- `max_result_size() + 1` of an int32 that is positive; it wraps round at the largest one.
abbrev pub one_more : ℕ → ℤ
one_more n = if n == 2147483647 then negsuc 2147483647 else pos (n + 1)

abbrev pub positive_part : ℤ → ℕ
positive_part (pos n) = n
positive_part (negsuc n) = 0

-- The nodes in the order of `position_by_id`.
pub with_id : ℕ → List Node → List Node
with_id id [] = []
with_id id (node ∷ nodes) =
    let rest = with_id id nodes in if number_of node.id == id then node ∷ rest else rest

pub in_positions : List ℕ → List Node → List Node
unfolding with_id
in_positions [] nodes = []
in_positions (id ∷ ids) nodes = with_id id nodes ++ in_positions ids nodes

pub pop_back : List Node → List Node
pop_back [] = []
pop_back (node ∷ []) = []
pop_back (node ∷ next ∷ nodes) = node ∷ pop_back (next ∷ nodes)

-- The last test: the extra node says that there is another page.
abbrev pub next_page : TokenCodec → ListOptions → List Node → Result (List Node × String)
next_page codec options nodes =
    if ltb (positive_part options.max_result_size) (length nodes)
    then (build_next_page_token codec options (pop_back nodes) >>= λ token.
        ok (pop_back nodes, token))
    else ok (nodes, "")

abbrev pub retrieve :
    TokenCodec → Codec → Kind → ListOptions → Db → List ℕ → Result (List Node × String)
retrieve codec values kind options db [] = ok ([], "")
retrieve codec values kind options db (id ∷ ids) = do
  nodes ← (find_nodes kind values (id ∷ ids) false db).0
  next_page codec options (in_positions (id ∷ ids) nodes)

-- ListNodes
unfoldable pub list_nodes :
    FilterQuery
    → TokenCodec
    → Codec
    → Kind
    → ListOptions
    → Option (List ℕ)
    → Db
    → Result (List Node × String)
unfolding build_next_page_token in_positions pop_back
list_nodes filter codec values kind options candidates db = do
  reject_if (leb (positive_part options.max_result_size) 0) invalid_argument
  ids ←
      list_node_ids filter codec kind
        (record options { max_result_size = one_more (positive_part options.max_result_size) })
        candidates db
  retrieve codec values kind options db ids
