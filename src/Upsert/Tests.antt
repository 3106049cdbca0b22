-- ===== src/Upsert/Tests.antt =====
-- A store in which the type "model" with one property is put first, and then with another one.
use ml_metadata_l_metadata_s.Prelude.{true, false, none, some, [], ◌∷◌, ◌≡◌, refl, arith}
use ml_metadata_l_metadata_s.Status.{ok, err, already_exists}
use ml_metadata_l_metadata_s.Maps.{lookup, contains}
use ml_metadata_l_metadata_s.Messages.{TypeMessage, int, string, artifact, get_type_version}
use ml_metadata_l_metadata_s.Tables.{Db, empty_db}
use ml_metadata_l_metadata_s.Tables.TypeQueries.{
  is_named, insert_type, select_type_by_name_and_version, select_properties_by_type_id,
  insert_type_property,
}
use ml_metadata_l_metadata_s.Types.{find_type_by_name_and_version, create_type, update_type}
use ml_metadata_l_metadata_s.Consistency.{check_fields_consistent}
use ml_metadata_l_metadata_s.Consistency.Merge.{IsConsistent}
use ml_metadata_l_metadata_s.Ancestry.Acyclic.{IsAcyclic}
use ml_metadata_l_metadata_s.Upsert.{upsert_type, upsert_types, TypeLists}
use ml_metadata_l_metadata_s.Upsert.Evolves.{Evolves, upsert_type_conflict, upsert_type_evolve}
use ml_metadata_l_metadata_s.Upsert.NoCycles.{HasNoCycle, upsert_types-HasNoCycle}

abbrev model : TypeMessage
model = record {
  id = none;
  name = some "model";
  version = none;
  description = none;
  properties = ("p", int) ∷ [];
  base_type = none;
}

abbrev wider_model : TypeMessage
wider_model = record model { properties = ("q", string) ∷ [] }

abbrev other_model : TypeMessage
other_model = record model { properties = ("p", string) ∷ [] }

abbrev model_db : Db
model_db = record empty_db {
  types =
      record { id = 1; kind = artifact; name = "model"; version = none; description = none } ∷ [];
  type_properties = record { type_id = 1; name = "p"; data_type = int } ∷ [];
  last_type_id = 1;
}

put_first : upsert_type artifact model false false empty_db ≡ (ok 1, model_db)
unfolding upsert_type create_type find_type_by_name_and_version is_named insert_type
    select_type_by_name_and_version insert_type_property get_type_version
put_first = refl

found_model :
    (find_type_by_name_and_version artifact "model" none model_db).0
    ≡ ok (record model { id = some 1 })
unfolding find_type_by_name_and_version is_named select_type_by_name_and_version get_type_version
    select_properties_by_type_id
found_model = refl

put_wider : (upsert_type artifact wider_model true true model_db).0 ≡ ok 1
unfolding upsert_type update_type check_fields_consistent lookup contains
    find_type_by_name_and_version is_named insert_type select_type_by_name_and_version
    insert_type_property get_type_version select_properties_by_type_id
put_wider = refl

upsert_type_evolve_example :
    IsConsistent (record model { id = some 1 }) wider_model true true
    × Evolves artifact wider_model
        (record model { id = some 1 })
        (upsert_type artifact wider_model true true model_db).1
        1
unfolding contains
upsert_type_evolve_example =
    upsert_type_evolve artifact wider_model (record model { id = some 1 }) true true model_db 1
      found_model (refl, tt) (refl, tt) put_wider

int-string : ¬ (int ≡ string)
int-string h = ground arith

other-differs : ¬ IsConsistent (record model { id = some 1 }) other_model true true
unfolding lookup
other-differs c = int-string (c.agree "p" int string refl refl)

upsert_type_conflict_example :
    upsert_type artifact other_model true true model_db ≡ (err already_exists, model_db)
unfolding contains lookup
upsert_type_conflict_example =
    upsert_type_conflict artifact other_model (record model { id = some 1 }) true true model_db
      found_model (refl, tt) (refl, tt) other-differs

no_links-IsAcyclic : IsAcyclic []
no_links-IsAcyclic = record { no_cycle = λ a b l path. absurd l }

abbrev two_lists : TypeLists
two_lists = record {
  artifact_types = record model { base_type = some 2 } ∷ [];
  execution_types = record model { name = some "run" } ∷ [];
  context_types = [];
}

upsert_types-HasNoCycle_example : HasNoCycle (upsert_types two_lists true true model_db).1
upsert_types-HasNoCycle_example =
    upsert_types-HasNoCycle two_lists true true model_db no_links-IsAcyclic
