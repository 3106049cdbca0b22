-- ===== src/PutNodes/Tests.antt =====
-- Two clients change the state of one artifact.
use ml_metadata_l_metadata_s.Prelude.{
  ℕ, ◌+◌, ◌≡◌, refl, true, none, some, Option, List, [], ◌∷◌, arith,
}
use ml_metadata_l_metadata_s.Status.{failed_precondition, ok, err}
use ml_metadata_l_metadata_s.Messages.{Kind, artifact, execution, context, Node}
use ml_metadata_l_metadata_s.Tables.{Db, NodeRow, empty_db}
use ml_metadata_l_metadata_s.Tables.TypeQueries.{select_type_by_id, select_properties_by_type_id}
use ml_metadata_l_metadata_s.Tables.NodeQueries.{select_properties, update_node_direct}
use ml_metadata_l_metadata_s.Types.{find_type_by_id}
use ml_metadata_l_metadata_s.Types.Parents.{has_id}
use ml_metadata_l_metadata_s.Values.{Codec}
use ml_metadata_l_metadata_s.Properties.{validate_properties, modify_properties}
use ml_metadata_l_metadata_s.Nodes.{read_node, find_nodes, find_node, update_node}
use ml_metadata_l_metadata_s.PutNodes.{put_artifacts}
use ml_metadata_l_metadata_s.PutNodes.Latest.{put_artifacts-loses_no_update}

abbrev plain_codec : Codec
plain_codec = record {
  base64_escape = λ bytes. bytes;
  base64_unescape = λ bytes. some bytes;
  parses_as_struct = λ _. true;
  stored_double = λ d. d;
}

abbrev one_artifact : Kind → List NodeRow
one_artifact context = []
one_artifact execution = []
one_artifact artifact =
    record {
      id = 3;
      type_id = 1;
      name = none;
      uri = some "";
      state = none;
      create_time = 5;
      update_time = 10;
    }
    ∷ []

abbrev put_db : Db
put_db = record empty_db {
  types =
      record { id = 1; kind = artifact; name = "model"; version = none; description = none } ∷ [];
  nodes = one_artifact;
}

abbrev with_state : Option ℕ → Option ℕ → Node
with_state state created = record {
  id = some 3;
  type_id = some 1;
  name = none;
  uri = some "";
  state = state;
  properties = [];
  custom_properties = [];
  create_time_since_epoch = created;
  last_update_time_since_epoch = some 10;
}

stored-found : (find_node artifact plain_codec 3 put_db).0 ≡ ok (with_state none (some 5))
unfolding find_node find_nodes read_node select_properties has_id
stored-found = refl

first-put :
    (put_artifacts plain_codec true (λ i. 50 + i) (with_state (some 1) none ∷ []) put_db).0
    ≡ ok (3 ∷ [])
unfolding put_artifacts update_node find_node find_nodes read_node select_properties has_id
    find_type_by_id select_type_by_id select_properties_by_type_id validate_properties
    modify_properties update_node_direct
first-put = refl

second-aborted :
    (put_artifacts plain_codec true
      (λ i. 60 + i)
      (with_state (some 2) none ∷ [])
      (put_artifacts plain_codec true (λ i. 50 + i) (with_state (some 1) none ∷ []) put_db).1).0
    ≡ err failed_precondition
unfolding put_artifacts update_node find_node find_nodes read_node select_properties has_id
    find_type_by_id select_type_by_id select_properties_by_type_id validate_properties
    modify_properties update_node_direct
second-aborted = refl

put_artifacts-loses_no_update_example : ¬ (
    (put_artifacts plain_codec true
      (λ i. 60 + i)
      (with_state (some 2) none ∷ [])
      (put_artifacts plain_codec true (λ i. 50 + i) (with_state (some 1) none ∷ []) put_db).1).0
    ≡ ok (3 ∷ []))
put_artifacts-loses_no_update_example =
    put_artifacts-loses_no_update plain_codec true (λ i. 50 + i) (λ i. 60 + i)
      (with_state (some 1) none) (with_state (some 2) none) [] 3 (with_state none (some 5)) put_db
      (3 ∷ []) refl refl stored-found refl refl (omega arith) first-put (3 ∷ [])
