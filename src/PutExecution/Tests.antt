-- ===== src/PutExecution/Tests.antt =====
-- A context of type 1 named "run", asked for again.
use ml_metadata_l_metadata_s.Prelude.{◌≡◌, refl, true, none, some, List, [], ◌∷◌}
use ml_metadata_l_metadata_s.Messages.{Kind, artifact, execution, context, Node}
use ml_metadata_l_metadata_s.Tables.{Db, NodeRow, empty_db}
use ml_metadata_l_metadata_s.Values.{Codec}
use ml_metadata_l_metadata_s.Nodes.{upsert_node}
use ml_metadata_l_metadata_s.PutExecution.{context_ids_named, upsert_context_with_options}
use ml_metadata_l_metadata_s.PutExecution.Reuse.{reuse_answer, upsert_context_with_options_reuses}

abbrev plain_codec : Codec
plain_codec = record {
  base64_escape = λ bytes. bytes;
  base64_unescape = λ bytes. some bytes;
  parses_as_struct = λ _. true;
  stored_double = λ d. d;
}

abbrev one_context : Kind → List NodeRow
one_context context =
    record {
      id = 8;
      type_id = 1;
      name = some "run";
      uri = none;
      state = none;
      create_time = 0;
      update_time = 0;
    }
    ∷ []
one_context execution = []
one_context artifact = []

abbrev context_db : Db
context_db = record empty_db { nodes = one_context }

abbrev run : Node
run = record {
  id = none;
  type_id = some 1;
  name = some "run";
  uri = none;
  state = none;
  properties = [];
  custom_properties = [];
  create_time_since_epoch = none;
  last_update_time_since_epoch = none;
}

found-reused : context_ids_named 1 "run" (context_db.nodes context) ≡ 8 ∷ []
unfolding context_ids_named
found-reused = refl

upsert_context_with_options_reuses_example :
    upsert_context_with_options plain_codec 90 run true context_db
    ≡ reuse_answer
        (context_ids_named 1 "run" (context_db.nodes context))
        (upsert_node context plain_codec 90 run context_db)
        context_db
upsert_context_with_options_reuses_example =
    upsert_context_with_options_reuses plain_codec 90 run 1 "run" context_db refl refl refl
