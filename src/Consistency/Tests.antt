-- ===== src/Consistency/Tests.antt =====
-- A type with one property, and the same type with a second one.
use ml_metadata_l_metadata_s.Prelude.{true, false, none, some, [], ◌∷◌, ◌≡◌, refl}
use ml_metadata_l_metadata_s.Status.{ok, err, failed_precondition, IsOk}
use ml_metadata_l_metadata_s.Maps.{lookup, contains}
use ml_metadata_l_metadata_s.Messages.{TypeMessage, int, string}
use ml_metadata_l_metadata_s.Consistency.{check_fields_consistent}
use ml_metadata_l_metadata_s.Consistency.Merge.{
  IsConsistent, IsMerged, check_fields_consistent_sound, check_fields_consistent_complete,
}

abbrev stored_model : TypeMessage
stored_model = record {
  id = some 4;
  name = some "model";
  version = none;
  description = none;
  properties = ("p", int) ∷ [];
  base_type = none;
}

abbrev given_model : TypeMessage
given_model = record stored_model { id = none; properties = ("q", string) ∷ ("p", int) ∷ [] }

abbrev merged_model : TypeMessage
merged_model = record stored_model { properties = ("p", int) ∷ ("q", string) ∷ [] }

check-merged : check_fields_consistent stored_model given_model true false ≡ ok merged_model
unfolding check_fields_consistent lookup contains
check-merged = refl

check-refused :
    (check_fields_consistent stored_model given_model false false ≡ err failed_precondition)
    × (check_fields_consistent given_model stored_model true false ≡ err failed_precondition)
unfolding check_fields_consistent lookup contains
check-refused = (refl, refl)

check_fields_consistent_sound_example :
    IsConsistent stored_model given_model true false
    × IsMerged stored_model given_model merged_model
unfolding contains
check_fields_consistent_sound_example =
    check_fields_consistent_sound stored_model given_model merged_model true false (refl, tt)
      (refl, (refl, tt)) check-merged

check_fields_consistent_complete_example :
    IsOk (check_fields_consistent stored_model given_model true false)
unfolding contains
check_fields_consistent_complete_example =
    check_fields_consistent_complete stored_model given_model true false (refl, tt)
      (refl, (refl, tt)) check_fields_consistent_sound_example.0
