-- ===== src/PutExecution/Runs.antt =====
-- A request with a new execution, a new artifact that it outputs, and a context that is new.
use ml_metadata_l_metadata_s.Prelude.{ℕ, ◌≡◌, refl, true, some, none, [], ◌∷◌, length}
use ml_metadata_l_metadata_s.Status.{ok}
use ml_metadata_l_metadata_s.Maps.{lookup, contains}
use ml_metadata_l_metadata_s.Messages.{Kind, artifact, execution, context, Node, Event}
use ml_metadata_l_metadata_s.Tables.{Db, TypeRow, empty_db}
use ml_metadata_l_metadata_s.Tables.TypeQueries.{select_type_by_id, select_properties_by_type_id}
use ml_metadata_l_metadata_s.Tables.NodeQueries.{
  insert_node, has_name, columns_at, select_node_by_id,
}
use ml_metadata_l_metadata_s.Tables.LinkQueries.{
  insert_event, insert_event_path, insert_association, insert_attribution, has_pair, has_event,
}
use ml_metadata_l_metadata_s.Types.{find_type_by_id}
use ml_metadata_l_metadata_s.Values.{Codec}
use ml_metadata_l_metadata_s.Nodes.{create, upsert_node}
use ml_metadata_l_metadata_s.Properties.{validate_properties, modify_properties}
use ml_metadata_l_metadata_s.Links.{
  create_event, insert_association_if_not_exist, insert_attribution_if_not_exist,
  create_association, create_attribution,
}
use ml_metadata_l_metadata_s.PutExecution.{PutExecutionRequest, PutExecutionResponse, put_execution}
use ml_metadata_l_metadata_s.PutExecution.Linked.{AllLinked, put_execution-AllLinked}

abbrev plain_codec : Codec
plain_codec = record {
  base64_escape = λ bytes. bytes;
  base64_unescape = λ bytes. some bytes;
  parses_as_struct = λ _. true;
  stored_double = λ d. d;
}

abbrev type_row : ℕ → Kind → TypeRow
type_row id kind = record { id = id; kind = kind; name = "t"; version = none; description = none }

abbrev typed_db : Db
typed_db = record empty_db {
  types = type_row 1 artifact ∷ type_row 2 execution ∷ type_row 3 context ∷ [];
  last_type_id = 3;
}

abbrev node : ℕ → Node
node type_id = record {
  id = none;
  type_id = some type_id;
  name = some "n";
  uri = none;
  state = none;
  properties = [];
  custom_properties = [];
  create_time_since_epoch = none;
  last_update_time_since_epoch = none;
}

abbrev output : Event
output = record {
  artifact_id = none;
  execution_id = none;
  type = some 4;
  milliseconds_since_epoch = none;
  path = [];
}

abbrev request : PutExecutionRequest
request = record {
  given_execution = some (node 2);
  artifact_event_pairs = record { given_artifact = some (node 1); given_event = some output } ∷ [];
  contexts = node 3 ∷ [];
  reuse_context_if_already_exist = true;
}

abbrev response : PutExecutionResponse
response = record { execution_id = 1; artifact_ids = some 1 ∷ []; context_ids = 1 ∷ [] }

run-ok : (put_execution plain_codec 90 request typed_db).0 ≡ ok response
unfolding put_execution upsert_node create find_type_by_id select_type_by_id
    select_properties_by_type_id has_name columns_at lookup contains validate_properties
    modify_properties insert_node select_node_by_id create_event insert_event insert_event_path
    insert_association insert_attribution has_pair has_event insert_association_if_not_exist
    insert_attribution_if_not_exist create_association create_attribution
run-ok = refl

put_execution-AllLinked_example :
    (length response.context_ids ≡ length request.contexts)
    × AllLinked response.execution_id response.artifact_ids response.context_ids
        (put_execution plain_codec 90 request typed_db).1.associations
        (put_execution plain_codec 90 request typed_db).1.attributions
put_execution-AllLinked_example =
    put_execution-AllLinked plain_codec 90 request typed_db response run-ok
