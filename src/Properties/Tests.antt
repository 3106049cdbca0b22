-- ===== src/Properties/Tests.antt =====
-- An artifact whose stored properties are replaced: one value changes, one key goes, one comes.
use ml_metadata_l_metadata_s.Prelude.{
  ℕ, String, ◌≡◌, ◌↔◌, refl, true, false, some, List, [], ◌∷◌, str_eq, Bool-cases, inl, inr,
}
use ml_metadata_l_metadata_s.Status.{ok, err, invalid_argument}
use ml_metadata_l_metadata_s.Maps.{lookup, contains}
use ml_metadata_l_metadata_s.Messages.{int, string, pos, Value, int_value, string_value}
use ml_metadata_l_metadata_s.Tables.{PropertyRow, no_columns}
use ml_metadata_l_metadata_s.Tables.NodeQueries.{columns_at, is_of}
use ml_metadata_l_metadata_s.Values.{Codec, read_columns, strip_prefix}
use ml_metadata_l_metadata_s.Properties.{validate_properties, modify_properties}
use ml_metadata_l_metadata_s.Properties.Validate.{AllConform, validate_properties_iff}
use ml_metadata_l_metadata_s.Properties.Steps.{Holds}
use ml_metadata_l_metadata_s.Properties.Modify.{modify_properties_stores}

abbrev plain_codec : Codec
plain_codec = record {
  base64_escape = λ bytes. bytes;
  base64_unescape = λ bytes. some bytes;
  parses_as_struct = λ _. true;
  stored_double = λ d. d;
}

abbrev previous : List (String × Value)
previous = ("p", int_value (pos 1)) ∷ []

abbrev current : List (String × Value)
current = ("p", int_value (pos 2)) ∷ ("q", string_value (5 ∷ [])) ∷ []

abbrev stored_rows : List PropertyRow
stored_rows =
    record {
      node_id = 4;
      name = "p";
      is_custom = false;
      columns = record no_columns { int_column = some (pos 1) };
    }
    ∷ []

stored_rows-Holds :
    (k : String) → Holds plain_codec (columns_at 4 false k stored_rows) (lookup k previous)
unfolding columns_at is_of lookup read_columns
stored_rows-Holds k = elim (Bool-cases (str_eq "p" k)) [
  | inl same ↦ rw (same) refl
  | inr other ↦ rw (other) tt
]

modify_properties_stores_example :
    (n : ℕ) × (rows' : List PropertyRow) × (modify_properties plain_codec current previous 4 false
        stored_rows
      ≡ (ok n, rows'))
    × ((k : String) → Holds plain_codec (columns_at 4 false k rows') (lookup k current))
unfolding contains strip_prefix
modify_properties_stores_example =
    modify_properties_stores plain_codec current previous 4 false stored_rows (refl, (refl, tt))
      (refl, tt) (tt, (refl, tt)) stored_rows-Holds

validate-refused : validate_properties current (("p", int) ∷ []) ≡ err invalid_argument
unfolding validate_properties lookup
validate-refused = refl

validate_properties_iff_example :
    (validate_properties current (("p", int) ∷ ("q", string) ∷ []) ≡ ok tt)
    ↔ AllConform (("p", int) ∷ ("q", string) ∷ []) current
validate_properties_iff_example = validate_properties_iff current (("p", int) ∷ ("q", string) ∷ [])
