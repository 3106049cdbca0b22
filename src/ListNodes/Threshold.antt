-- ===== src/ListNodes/Threshold.antt =====
-- The condition that a page token makes of a row: it stands behind the last row of the page.
use ml_metadata_l_metadata_s.Prelude.{
  ℕ, String, ◌≡◌, refl, ap, ◌∙◌, Bool, true, false, not, ◌&&◌, ==_iff, some, List, [], ◌∷◌, ◌==◌,
  str_eq, arith,
}
use ml_metadata_l_metadata_s.Status.{ok, ◌>>=◌, ◌>>◌}
use ml_metadata_l_metadata_s.Messages.{ℤ, Node}
use ml_metadata_l_metadata_s.Tables.{NodeRow, PropertyRow}
use ml_metadata_l_metadata_s.Tables.NodeQueries.{same_flag}
use ml_metadata_l_metadata_s.Types.Parents.{has_id}
use ml_metadata_l_metadata_s.Values.{Codec}
use ml_metadata_l_metadata_s.ListQuery.{
  Field, field_unspecified, by_create_time, by_last_update_time, by_id, ListOptions, PageToken,
  TokenCodec, beyond, field_number, parse_bytes, parsed_token, decode_token,
  validate_options_identical, validate_and_decode, threshold_after, ordering_field_clause,
  id_clause, ordering_threshold_clause,
}
use ml_metadata_l_metadata_s.ListNodes.{same_time_ids, token_of}
use ml_metadata_l_metadata_s.ListNodes.Fetch.{Reads, Reads-id}

-- What a list in one order has to be for a token to divide it: the ids grow, and the times with
-- them; the times of the last update grow and differ.
abbrev pub precedes : Field → Bool → NodeRow → NodeRow → Bool
precedes field_unspecified is_asc a b = false
precedes by_create_time is_asc a b =
    beyond is_asc false a.create_time b.create_time && beyond is_asc true a.id b.id
precedes by_last_update_time is_asc a b = beyond is_asc true a.update_time b.update_time
precedes by_id is_asc a b = beyond is_asc true a.id b.id

abbrev pub Precedes : Field → Bool → NodeRow → NodeRow → Type 0
Precedes field is_asc a b = precedes field is_asc a b ≡ true

-- The condition of the token of a page whose last row is `last`.
abbrev pub behind : Field → Bool → NodeRow → List ℕ → NodeRow → Bool
behind field_unspecified is_asc last listed row = false
behind by_create_time is_asc last listed row =
    beyond is_asc false last.create_time row.create_time && beyond is_asc true last.id row.id
behind by_last_update_time is_asc last listed row =
    beyond is_asc false last.update_time row.update_time && not (has_id row.id (last.id ∷ listed))
behind by_id is_asc last listed row = beyond is_asc true last.id row.id && true

-- The laws of base64 and of the wire format, for the tokens of one list operation.
pub record TokenLaws (codec : TokenCodec) (options : ListOptions) : Type 0 where
  pub unescaped :
      (token : PageToken)
      → token.set_options ≡ record options { next_page_token = "" }
      → codec.unescape (codec.escape (codec.serialize token)) ≡ some (codec.serialize token)
  pub parsed :
      (token : PageToken)
      → token.set_options ≡ record options { next_page_token = "" }
      → codec.parse (codec.serialize token) ≡ some token
  pub not_empty :
      (token : PageToken)
      → token.set_options ≡ record options { next_page_token = "" }
      → str_eq (codec.escape (codec.serialize token)) "" ≡ false

beyond_next :
    (is_asc : Bool) (a b : ℕ) → beyond is_asc true a b ≡ true → beyond is_asc false a b ≡ true
beyond_next true a b h = ground arith
beyond_next false a b h = ground arith

beyond_back :
    (is_asc : Bool) (a b : ℕ) → beyond is_asc true a b ≡ true → beyond is_asc true b a ≡ false
beyond_back true a b h = ground arith
beyond_back false a b h = ground arith

beyond_back_any :
    (is_asc : Bool) (a b : ℕ) → beyond is_asc true a b ≡ true → beyond is_asc false b a ≡ false
beyond_back_any true a b h = ground arith
beyond_back_any false a b h = ground arith

beyond_self : (is_asc : Bool) (a : ℕ) → beyond is_asc true a a ≡ false
beyond_self true a = ground arith
beyond_self false a = ground arith

-- Rows that come later are behind the last row of the page.
pub later-behind :
    (field : Field) (is_asc : Bool) (last row : NodeRow)
    → Precedes field is_asc last row
    → (last.id == row.id) ≡ false
    → behind field is_asc last [] row ≡ true
unfolding has_id
later-behind field_unspecified is_asc last row h n = h
later-behind by_create_time is_asc last row h n = h
later-behind by_last_update_time is_asc last row h n =
    rw (beyond_next is_asc last.update_time row.update_time h, n) refl
later-behind by_id is_asc last row h n = rw h refl

-- Rows that come earlier are not.
pub earlier-behind :
    (field : Field) (is_asc : Bool) (last row : NodeRow)
    → Precedes field is_asc row last
    → behind field is_asc last [] row ≡ false
unfolding has_id
earlier-behind field_unspecified is_asc last row h = refl
earlier-behind by_create_time is_asc last row h = ground (arith, beyond_back is_asc row.id last.id)
earlier-behind by_last_update_time is_asc last row h =
    rw (beyond_back_any is_asc row.update_time last.update_time h) refl
earlier-behind by_id is_asc last row h = rw (beyond_back is_asc row.id last.id h) refl

pub self-behind :
    (field : Field) (is_asc : Bool) (last : NodeRow) → behind field is_asc last [] last ≡ false
unfolding has_id
self-behind field_unspecified is_asc last = refl
self-behind by_create_time is_asc last = ground (arith, beyond_self is_asc last.id)
self-behind by_last_update_time is_asc last = ground arith
self-behind by_id is_asc last = rw (beyond_self is_asc last.id) refl

-- The rows before the last one have other times of update, where the token lists ids.
abbrev pub Alone : Field → NodeRow → List Node → Type 0
Alone field_unspecified last previous = ⊥
Alone by_create_time last previous = Unit
Alone by_last_update_time last previous = same_time_ids last.update_time previous ≡ []
Alone by_id last previous = Unit

same_flag_self : (b : Bool) → same_flag b b ≡ true
same_flag_self true = refl
same_flag_self false = refl

-- The token of a page is read back, and makes this condition.
module _ (codec : TokenCodec) (max_result_size : ℤ) (is_asc : Bool) (filter_query : String) where
  abbrev pub options_at : Field → String → ListOptions
  options_at field text = record {
    max_result_size = max_result_size;
    field = field;
    is_asc = is_asc;
    next_page_token = text;
    filter_query = filter_query;
  }

  decoded :
      (field : Field) (laws : TokenLaws codec (options_at field "")) (token : PageToken)
      → token.set_options ≡ options_at field ""
      → decode_token codec (codec.escape (codec.serialize token)) ≡ ok token
  unfolding decode_token
  decoded field laws token same =
      ap (parse_bytes codec) (laws.unescaped token same) ∙ ap parsed_token (laws.parsed token same)

  identical :
      (field : Field) (text : String)
      → validate_options_identical (options_at field "") (options_at field text) ≡ ok tt
  unfolding validate_options_identical
  identical field text =
      rw (same_flag_self is_asc, (==_iff (field_number field) (field_number field)).1 refl) refl

  validated :
      (field : Field) (laws : TokenLaws codec (options_at field "")) (token : PageToken)
      → token.set_options ≡ options_at field ""
      → validate_and_decode codec (options_at field (codec.escape (codec.serialize token)))
        ≡ ok token
  unfolding validate_and_decode
  validated field laws token same =
      let options = options_at field (codec.escape (codec.serialize token)) in
      rw (decoded field laws token same) (
        ap (λ r. r >> ok token)
          (ap (λ o. validate_options_identical o options) same
            ∙ identical field (codec.escape (codec.serialize token))))

  pub read_back :
      (field : Field) (laws : TokenLaws codec (options_at field "")) (token : PageToken)
      → token.set_options ≡ options_at field ""
      → ordering_threshold_clause codec (options_at field (codec.escape (codec.serialize token)))
        ≡ threshold_after (options_at field (codec.escape (codec.serialize token))) token
  unfolding ordering_threshold_clause
  read_back field laws token same =
      let options = options_at field (codec.escape (codec.serialize token)) in
      rw (laws.not_empty token same)
        (ap (λ r. r >>= threshold_after options) (validated field laws token same))

  pub token-behind :
      (values : Codec) (properties : List PropertyRow) (read : NodeRow → Node) (field : Field)
      (laws : TokenLaws codec (options_at field "")) (start : String) (last : NodeRow)
      (previous : List Node)
      → Reads values properties read last
      → Alone field last previous
      → (token : PageToken) × (token_of (options_at field start) (read last) previous field
          ≡ ok token)
        × (token.set_options ≡ options_at field "")
        × (threshold_after (options_at field (codec.escape (codec.serialize token))) token
            ≡ ok (behind field is_asc last []))
  unfolding ordering_field_clause id_clause
  token-behind values properties read field_unspecified laws start last previous h a = absurd a
  token-behind values properties read by_create_time laws start last previous h a =
      let (i, c, u) = Reads-id values properties read last h in (_, refl, refl, rw (i, c) refl)
  token-behind values properties read by_last_update_time laws start last previous h a =
      let (i, c, u) = Reads-id values properties read last h in (_, refl, refl, rw (i, u, a) refl)
  token-behind values properties read by_id laws start last previous h a =
      let (i, c, u) = Reads-id values properties read last h in (_, refl, refl, rw i refl)
