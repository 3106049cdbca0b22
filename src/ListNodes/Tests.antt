-- ===== src/ListNodes/Tests.antt =====
-- Three contexts, listed in pages.
use ml_metadata_l_metadata_s.Prelude.{
  ℕ, zero, suc, ◌+◌, ◌≡◌, refl, true, false, none, some, List, [], ◌∷◌, ltb, arith,
}
use ml_metadata_l_metadata_s.Status.{ok}
use ml_metadata_l_metadata_s.Messages.{Kind, artifact, execution, context, pos, Node}
use ml_metadata_l_metadata_s.Tables.{Db, NodeRow, empty_db}
use ml_metadata_l_metadata_s.Tables.NodeQueries.{select_properties}
use ml_metadata_l_metadata_s.Values.{Codec}
use ml_metadata_l_metadata_s.Nodes.{read_node}
use ml_metadata_l_metadata_s.ListQuery.{
  FilterQuery, by_id, by_create_time, by_last_update_time, ListOptions,
}
use ml_metadata_l_metadata_s.ListNodes.Paging.{all_pages}
use ml_metadata_l_metadata_s.ListNodes.Complete.{call_from}
use ml_metadata_l_metadata_s.ListNodes.Cycle.{all_pages_cycle}
use ml_metadata_l_metadata_s.ListNodes.TestTokens.{stroke_codec, stroke_laws}

abbrev plain_codec : Codec
plain_codec = record {
  base64_escape = λ bytes. bytes;
  base64_unescape = λ bytes. some bytes;
  parses_as_struct = λ _. true;
  stored_double = λ d. d;
}

abbrev row : ℕ → NodeRow
row id = record {
  id = id;
  type_id = 1;
  name = none;
  uri = none;
  state = none;
  create_time = 10 + id;
  update_time = 50;
}

abbrev three_contexts : Kind → List NodeRow
three_contexts context = row 1 ∷ row 2 ∷ row 3 ∷ []
three_contexts execution = []
three_contexts artifact = []

abbrev list_db : Db
list_db = record empty_db { nodes = three_contexts }

abbrev node : NodeRow → Node
node r = record {
  id = some r.id;
  type_id = some r.type_id;
  name = r.name;
  uri = r.uri;
  state = r.state;
  properties = [];
  custom_properties = [];
  create_time_since_epoch = some r.create_time;
  last_update_time_since_epoch = some r.update_time;
}

-- The one filter that there is: ids from 2 on.
abbrev from_two : FilterQuery
from_two kind text = ok (λ db r. ltb 1 r.id)

abbrev by_id_options : ListOptions
by_id_options = record {
  max_result_size = pos 1;
  field = by_id;
  is_asc = false;
  next_page_token = "";
  filter_query = "id > 1";
}

abbrev by_time_options : ListOptions
by_time_options = record {
  max_result_size = pos 2;
  field = by_create_time;
  is_asc = true;
  next_page_token = "";
  filter_query = "";
}

-- As many contexts as wanted, the newest first.
many : ℕ → List NodeRow
many zero = []
many (suc n) = row (suc n) ∷ many n

abbrev many_contexts : ℕ → Kind → List NodeRow
many_contexts n context = many n
many_contexts n execution = []
many_contexts n artifact = []

abbrev many_db : ℕ → Db
many_db n = record empty_db { nodes = many_contexts n }

abbrev by_update_options : ListOptions
by_update_options = record {
  max_result_size = pos 1;
  field = by_last_update_time;
  is_asc = true;
  next_page_token = "";
  filter_query = "";
}

all_pages_cycle_example :
    all_pages 1000
      (call_from from_two
        (stroke_codec by_update_options)
        plain_codec
        context
        list_db
        none
        0
        by_last_update_time
        true
        "")
      ""
    ≡ none
unfolding read_node select_properties
all_pages_cycle_example =
    all_pages_cycle from_two (stroke_codec by_update_options) plain_codec context list_db node
      (row 1) (row 2) (row 3) (stroke_laws by_update_options) refl (omega arith) (refl, refl)
      (refl, (refl, (refl, tt))) 1000
