-- ===== src/Nodes/Tests.antt =====
-- A context of the type "run" is created in a store with that type.
use ml_metadata_l_metadata_s.Prelude.{◌≡◌, refl, true, none, some, [], ◌∷◌, arith}
use ml_metadata_l_metadata_s.Status.{ok}
use ml_metadata_l_metadata_s.Maps.{lookup, contains}
use ml_metadata_l_metadata_s.Messages.{context, int, pos, int_value, TypeMessage, Node}
use ml_metadata_l_metadata_s.Tables.{Db, empty_db}
use ml_metadata_l_metadata_s.Tables.TypeQueries.{select_type_by_id, select_properties_by_type_id}
use ml_metadata_l_metadata_s.Tables.NodeQueries.{has_name, columns_at}
use ml_metadata_l_metadata_s.Types.{find_type_by_id}
use ml_metadata_l_metadata_s.Values.{Codec}
use ml_metadata_l_metadata_s.Nodes.{create}
use ml_metadata_l_metadata_s.Nodes.Create.{HoldsNode, CanCreate, node_row, create_stores}

abbrev plain_codec : Codec
plain_codec = record {
  base64_escape = λ bytes. bytes;
  base64_unescape = λ bytes. some bytes;
  parses_as_struct = λ _. true;
  stored_double = λ d. d;
}

abbrev run_type : TypeMessage
run_type = record {
  id = some 1;
  name = some "run";
  version = none;
  description = none;
  properties = ("p", int) ∷ [];
  base_type = none;
}

abbrev run_db : Db
run_db = record empty_db {
  types = record { id = 1; kind = context; name = "run"; version = none; description = none } ∷ [];
  type_properties = record { type_id = 1; name = "p"; data_type = int } ∷ [];
  last_type_id = 1;
}

abbrev run : Node
run = record {
  id = none;
  type_id = some 1;
  name = some "first";
  uri = none;
  state = none;
  properties = ("p", int_value (pos 3)) ∷ [];
  custom_properties = ("p", int_value (pos 4)) ∷ [];
  create_time_since_epoch = none;
  last_update_time_since_epoch = none;
}

run-CanCreate : CanCreate context plain_codec run_db run run_type 1
unfolding find_type_by_id select_type_by_id select_properties_by_type_id has_name columns_at lookup
    contains
run-CanCreate = record {
  typed = refl;
  type_found = refl;
  conforms = ((λ e. ground arith, refl), tt);
  has_its_name = refl;
  name_free = refl;
  is_map = (refl, tt);
  is_custom_map = (refl, tt);
  storable = (tt, tt);
  custom_storable = (tt, tt);
  fresh = λ c k. refl;
}

create_stores_example :
    (db' : Db) × (create context plain_codec 90 run run_db ≡ (ok 1, db'))
    × (db'.nodes context ≡ node_row run_db context 90 run ∷ [])
    × HoldsNode plain_codec 1 run (db'.properties context)
create_stores_example = create_stores context plain_codec 90 run run_type 1 run_db run-CanCreate
