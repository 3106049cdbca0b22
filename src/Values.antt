-- ===== src/Values.antt =====
-- How a property value is written to the columns of a property table and read back: BindDataType and
-- BindValue of ml_metadata/metadata_store/query_config_executor.cc, PopulateNodeProperties of
-- ml_metadata/metadata_store/rdbms_metadata_access_object.cc and ml_metadata/util/struct_utils.cc.
pub mod RoundTrip
mod Tests
use ml_metadata_l_metadata_s.Prelude.{
  ℕ, Bool, true, false, ◌&&◌, Option, none, some, List, [], ◌∷◌, ◌++◌, ◌==◌, if◌then◌else◌,
}
use ml_metadata_l_metadata_s.Status.{invalid_argument, fatal, Result, ok, err}
use ml_metadata_l_metadata_s.Messages.{
  ℤ, pos, negsuc, Value, not_set, int_value, double_value, string_value, struct_value,
}
use ml_metadata_l_metadata_s.Tables.{Columns, no_columns}

-- What the code takes from absl and from the C++ and protobuf libraries. `stored_double` is the
-- double that the column holds after `std::to_string`, which prints six decimals.
pub record Codec : Type 0 where
  pub base64_escape : List ℕ → List ℕ
  pub base64_unescape : List ℕ → Option (List ℕ)
  pub parses_as_struct : List ℕ → Bool
  pub stored_double : ℕ → ℕ

-- "mlmd-struct::"
abbrev pub struct_prefix : List ℕ
struct_prefix = 109 ∷ 108 ∷ 109 ∷ 100 ∷ 45 ∷ 115 ∷ 116 ∷ 114 ∷ 117 ∷ 99 ∷ 116 ∷ 58 ∷ 58 ∷ []

-- kMetadataSourceNull, "__MLMD_NULL__"
abbrev pub metadata_source_null : List ℕ
metadata_source_null = 95 ∷ 95 ∷ 77 ∷ 76 ∷ 77 ∷ 68 ∷ 95 ∷ 78 ∷ 85 ∷ 76 ∷ 76 ∷ 95 ∷ 95 ∷ []

-- absl::StartsWith and absl::StripPrefix at once: the bytes behind the prefix.
unfoldable pub strip_prefix : List ℕ → List ℕ → Option (List ℕ)
strip_prefix [] bytes = some bytes
strip_prefix (p ∷ prefix) [] = none
strip_prefix (p ∷ prefix) (b ∷ bytes) =
    let rest = strip_prefix prefix bytes in if p == b then rest else none

module _ (codec : Codec) where
  -- StructToString, on the serialized struct.
  abbrev pub struct_to_string : List ℕ → List ℕ
  struct_to_string bytes = struct_prefix ++ codec.base64_escape bytes

  -- StringToStruct, behind the prefix.
  abbrev pub parse_struct : Option (List ℕ) → Result Value
  parse_struct none = err invalid_argument
  parse_struct (some bytes) =
      if codec.parses_as_struct bytes then ok (struct_value bytes) else err invalid_argument

  -- IsStructSerializedString and what follows it in PopulateNodeProperties.
  abbrev pub string_or_struct : List ℕ → Option (List ℕ) → Result Value
  string_or_struct bytes none = ok (string_value bytes)
  string_or_struct bytes (some escaped) = parse_struct (codec.base64_unescape escaped)

  abbrev text_of_column : Option (List ℕ) → List ℕ
  text_of_column none = metadata_source_null
  text_of_column (some bytes) = bytes

  -- PopulateNodeProperties on the three value columns.
  unfoldable pub read_columns : Columns → Result Value
  unfolding strip_prefix
  read_columns columns = elim (columns.int_column) [
    | some i ↦ ok (int_value i)
    | none ↦ elim (columns.double_column) [
      | some d ↦ ok (double_value d)
      | none ↦
          string_or_struct (text_of_column columns.string_column)
            (strip_prefix struct_prefix (text_of_column columns.string_column))
    ]
  ]

  -- `SET $0 = $1` with BindDataType and BindValue: one column changes.
  pub write_value : Value → Columns → Result Columns
  write_value not_set columns = err fatal
  write_value (int_value i) columns = ok record columns { int_column = some i }
  write_value (double_value d) columns =
      ok record columns { double_column = some (codec.stored_double d) }
  write_value (string_value s) columns = ok record columns { string_column = some s }
  write_value (struct_value s) columns =
      ok record columns { string_column = some (struct_to_string s) }

-- `value_case`
abbrev pub value_case : Value → ℕ
value_case not_set = 0
value_case (int_value i) = 1
value_case (double_value d) = 2
value_case (string_value s) = 3
value_case (struct_value s) = 4

abbrev pub same_case : Value → Value → Bool
same_case v w = value_case v == value_case w

pub same_bytes : List ℕ → List ℕ → Bool
same_bytes [] [] = true
same_bytes (x ∷ xs) (y ∷ ys) = let rest = same_bytes xs ys in x == y && rest
same_bytes _ _ = false

abbrev same_int : ℤ → ℤ → Bool
same_int (pos m) (pos n) = m == n
same_int (negsuc m) (negsuc n) = m == n
same_int _ _ = false

-- MessageDifferencer::Equals on two values.
pub same_value : Value → Value → Bool
unfolding same_bytes
same_value not_set not_set = true
same_value (int_value i) (int_value j) = same_int i j
same_value (double_value d) (double_value e) = d == e
same_value (string_value s) (string_value t) = same_bytes s t
same_value (struct_value s) (struct_value t) = same_bytes s t
same_value _ _ = false
