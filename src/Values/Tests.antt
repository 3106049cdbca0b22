-- ===== src/Values/Tests.antt =====
-- An escape that adds one byte in front, and doubles that are printed in full.
use ml_metadata_l_metadata_s.Prelude.{
  ℕ, ◌≡◌, ◌≢◌, refl, true, none, some, Option, List, [], ◌∷◌, ◌++◌, inl,
}
use ml_metadata_l_metadata_s.Status.{ok}
use ml_metadata_l_metadata_s.Messages.{string_value, struct_value}
use ml_metadata_l_metadata_s.Tables.{Columns, no_columns}
use ml_metadata_l_metadata_s.Values.{Codec, struct_prefix, strip_prefix, read_columns, write_value}
use ml_metadata_l_metadata_s.Values.RoundTrip.{read_columns-write_value, read_columns-prefixed}

abbrev unescape : List ℕ → Option (List ℕ)
unescape [] = none
unescape (b ∷ bytes) = some bytes

abbrev plain_codec : Codec
plain_codec = record {
  base64_escape = λ bytes. 61 ∷ bytes;
  base64_unescape = unescape;
  parses_as_struct = λ _. true;
  stored_double = λ d. d;
}

read_columns-write_value_example :
    (written : Columns) × (write_value plain_codec (struct_value (10 ∷ [])) no_columns ≡ ok written)
    × (read_columns plain_codec written ≡ ok (struct_value (10 ∷ [])))
read_columns-write_value_example =
    read_columns-write_value plain_codec (struct_value (10 ∷ [])) no_columns (refl, refl) (inl refl)

read_columns-prefixed_example :
    (written : Columns) × (write_value plain_codec
        (string_value (struct_prefix ++ 7 ∷ []))
        no_columns
      ≡ ok written)
    × ((s : List ℕ) → read_columns plain_codec written ≢ ok (string_value s))
unfolding strip_prefix
read_columns-prefixed_example =
    read_columns-prefixed plain_codec (struct_prefix ++ 7 ∷ []) (7 ∷ []) refl
