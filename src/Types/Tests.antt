-- ===== src/Types/Tests.antt =====
-- A table with the type "model", its update and a second type beside it.
use ml_metadata_l_metadata_s.Prelude.{
  ℕ, String, none, some, List, [], ◌∷◌, ◌≡◌, refl, ◌==◌, if◌then◌else◌, arith,
}
use ml_metadata_l_metadata_s.Status.{ok}
use ml_metadata_l_metadata_s.Maps.{lookup, or_else}
use ml_metadata_l_metadata_s.Messages.{
  TypeMessage, PropertyType, int, string, artifact, get_type_version,
}
use ml_metadata_l_metadata_s.Tables.{Db, empty_db}
use ml_metadata_l_metadata_s.Tables.TypeQueries.{
  is_named, insert_type, select_type_by_name_and_version, select_properties_by_type_id,
  insert_type_property,
}
use ml_metadata_l_metadata_s.Types.{
  find_type_by_id, find_type_by_name_and_version, create_type, update_type,
}
use ml_metadata_l_metadata_s.Types.Rows.{stored_property}
use ml_metadata_l_metadata_s.Types.Create.{IsStoredAs, create_type-find}
use ml_metadata_l_metadata_s.Types.Persist.{update_type-merge, update_type_given}

abbrev model : TypeMessage
model = record {
  id = none;
  name = some "model";
  version = some "v2";
  description = none;
  properties = ("p", int) ∷ ("q", string) ∷ [];
  base_type = none;
}

abbrev model_db : Db
model_db = record empty_db {
  types =
      record { id = 1; kind = artifact; name = "model"; version = some "v2"; description = none }
      ∷ [];
  type_properties = record { type_id = 1; name = "p"; data_type = int } ∷ [];
  last_type_id = 1;
}

abbrev dataset : TypeMessage
dataset = record model { name = some "data"; version = none }

create_data : (create_type artifact dataset model_db).0 ≡ ok 2
unfolding create_type insert_type insert_type_property
create_data = refl

create_type-find_example :
    (m : TypeMessage) × ((find_type_by_id artifact 2 (create_type artifact dataset model_db).1).0
      ≡ ok m)
    × ((find_type_by_name_and_version artifact "data" none
          (create_type artifact dataset model_db).1).0
        ≡ ok m)
    × IsStoredAs dataset 2 m
    × ((u : ℕ) (k : String)
        → stored_property (create_type artifact dataset model_db).1 u k
          ≡ or_else
              (stored_property model_db u k)
              (if 2 == u then lookup k dataset.properties else none))
unfolding select_type_by_name_and_version is_named
create_type-find_example =
    create_type-find artifact dataset model_db 2
      (record { types_bounded = (omega arith, tt); properties_bounded = (omega arith, tt) }) refl
      create_data

update_model : (update_type artifact model model_db).0 ≡ ok tt
unfolding update_type find_type_by_name_and_version select_type_by_name_and_version is_named
    get_type_version select_properties_by_type_id lookup insert_type_property
update_model = refl

found_model :
    (find_type_by_name_and_version artifact "model" (some "v2") model_db).0
    ≡ ok (record model { id = some 1; properties = ("p", int) ∷ [] })
unfolding find_type_by_name_and_version select_type_by_name_and_version is_named get_type_version
    select_properties_by_type_id
found_model = refl

update_type-merge_example :
    (m : TypeMessage) × (merged : List (String × PropertyType)) × ((find_type_by_name_and_version
        artifact "model"
        (some "v2")
        model_db).0
      ≡ ok m)
    × ((find_type_by_name_and_version artifact "model"
          (some "v2")
          (update_type artifact model model_db).1).0
        ≡ ok (record m { properties = merged }))
    × ((k : String) → lookup k merged ≡ or_else (lookup k m.properties) (lookup k model.properties))
    × ((update_type artifact model model_db).1.types ≡ model_db.types)
    × ((update_type artifact model model_db).1.parent_types ≡ model_db.parent_types)
update_type-merge_example = update_type-merge artifact model model_db update_model

update_type_given_example :
    stored_property (update_type artifact model model_db).1 1 "q" ≡ some string
unfolding lookup
update_type_given_example =
    update_type_given artifact model (record model { id = some 1; properties = ("p", int) ∷ [] })
      model_db "q" string update_model found_model refl
