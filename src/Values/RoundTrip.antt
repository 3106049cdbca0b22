-- ===== src/Values/RoundTrip.antt =====
-- A value that is written is read back.
use ml_metadata_l_metadata_s.Prelude.{
  ℕ, ◌≡◌, refl, true, ==_iff, ap, ◌⊎◌, inl, inr, Option-cases, sym, ◌∙◌, ◌≢◌, Option, none, some,
  List, [], ◌∷◌, ◌==◌, arith,
}
use ml_metadata_l_metadata_s.Status.{ok, ok-injective}
use ml_metadata_l_metadata_s.Messages.{
  ℤ, pos, negsuc, Value, not_set, int_value, double_value, string_value, struct_value,
}
use ml_metadata_l_metadata_s.Tables.{Columns, no_columns}
use ml_metadata_l_metadata_s.Values.{
  Codec, parse_struct, struct_to_string, struct_prefix, strip_prefix, read_columns, write_value,
  same_case, same_bytes, same_value, value_case,
}

-- A value that the columns can hold: a string has not the prefix of the structs, a struct is read
-- from what it was escaped to, and a double has no more than the decimals that are printed.
abbrev pub IsStorable : Codec → Value → Type 0
IsStorable codec not_set = ⊥
IsStorable codec (int_value i) = Unit
IsStorable codec (double_value d) = codec.stored_double d ≡ d
IsStorable codec (string_value s) = strip_prefix struct_prefix s ≡ none
IsStorable codec (struct_value s) =
    (codec.base64_unescape (codec.base64_escape s) ≡ some s) × (codec.parses_as_struct s ≡ true)

-- The columns of a row that is new, or of a row with a value of the same case.
abbrev pub Fits : Codec → Value → Columns → Type 0
Fits codec v columns =
    (columns ≡ no_columns)
    ⊎ ((w : Value) × (read_columns codec columns ≡ ok w) × (same_case w v ≡ true))

read_columns-int :
    (codec : Codec) (columns : Columns) (i : ℤ)
    → columns.int_column ≡ some i
    → read_columns codec columns ≡ ok (int_value i)
unfolding read_columns
read_columns-int codec columns i h = rw h refl

read_columns-double :
    (codec : Codec) (columns : Columns) (d : ℕ)
    → columns.int_column ≡ none
    → columns.double_column ≡ some d
    → read_columns codec columns ≡ ok (double_value d)
unfolding read_columns
read_columns-double codec columns d h e = rw (h, e) refl

no_int :
    (codec : Codec) (v : Value) (columns : Columns)
    → Fits codec v columns
    → value_case v ≢ 1
    → columns.int_column ≡ none
no_int codec v columns (inl e) apart = ap (λ (c : Columns). c.int_column) e
no_int codec v columns (inr (w, r, same)) apart = elim (Option-cases columns.int_column) [
  | inl empty ↦ empty
  | inr (i, at) ↦
      let is_int : int_value i ≡ w = ok-injective (sym (read_columns-int codec columns i at) ∙ r) in
      absurd (apart (sym (ap value_case is_int ∙ (==_iff (value_case w) (value_case v)).0 same)))
]

no_double :
    (codec : Codec) (v : Value) (columns : Columns)
    → Fits codec v columns
    → columns.int_column ≡ none
    → value_case v ≢ 2
    → columns.double_column ≡ none
no_double codec v columns (inl e) no_int apart = ap (λ (c : Columns). c.double_column) e
no_double codec v columns (inr (w, r, same)) no_int apart =
    elim (Option-cases columns.double_column) [
      | inl empty ↦ empty
      | inr (d, at) ↦
          let is_double : double_value d ≡ w =
            ok-injective (sym (read_columns-double codec columns d no_int at) ∙ r) in
          absurd
            (apart (sym (ap value_case is_double ∙ (==_iff (value_case w) (value_case v)).0 same)))
    ]

-- A storable value that is written, to a new row or over a value of its case, is read back.
pub read_columns-write_value :
    (codec : Codec) (v : Value) (columns : Columns)
    → IsStorable codec v
    → Fits codec v columns
    → (written : Columns) × (write_value codec v columns ≡ ok written)
      × (read_columns codec written ≡ ok v)
unfolding read_columns write_value
read_columns-write_value codec not_set columns s f = absurd s
read_columns-write_value codec (int_value i) columns s f = (_, refl, refl)
read_columns-write_value codec (double_value d) columns s f = (
  _,
  refl,
  read_columns-double codec (record columns { double_column = some (codec.stored_double d) })
        (codec.stored_double d) (no_int codec (double_value d) columns f (λ e. omega (arith, e)))
        refl
      ∙ ap (λ x. ok (double_value x)) s,
)
read_columns-write_value codec (string_value b) columns s f =
    let int_empty = no_int codec (string_value b) columns f (λ e. omega (arith, e)) in
    let double_empty =
      no_double codec (string_value b) columns f int_empty (λ e. omega (arith, e)) in
    (_, refl, rw (int_empty, double_empty, s) refl)
read_columns-write_value codec (struct_value b) columns s f =
    let int_empty = no_int codec (struct_value b) columns f (λ e. omega (arith, e)) in
    let double_empty =
      no_double codec (struct_value b) columns f int_empty (λ e. omega (arith, e)) in
    (_, refl, rw (int_empty, double_empty, s.0, s.1) refl)

parse_struct-not_string :
    (codec : Codec) (bytes : Option (List ℕ)) (s : List ℕ)
    → parse_struct codec bytes ≢ ok (string_value s)
parse_struct-not_string codec none s h = ground arith
parse_struct-not_string codec (some bytes) s h = ground arith

-- A string that starts with the prefix of the structs is written, but never read back as a string.
pub read_columns-prefixed :
    (codec : Codec) (bytes rest : List ℕ)
    → strip_prefix struct_prefix bytes ≡ some rest
    → (written : Columns) × (write_value codec (string_value bytes) no_columns ≡ ok written)
      × ((s : List ℕ) → read_columns codec written ≢ ok (string_value s))
unfolding read_columns write_value
read_columns-prefixed codec bytes rest h =
    (_, refl, λ s e. parse_struct-not_string codec (codec.base64_unescape rest) s (rw h at e))

-- The columns that a storable value is written to.
abbrev pub put : Codec → Value → Columns → Columns
put codec not_set columns = columns
put codec (int_value i) columns = record columns { int_column = some i }
put codec (double_value d) columns = record columns { double_column = some (codec.stored_double d) }
put codec (string_value s) columns = record columns { string_column = some s }
put codec (struct_value s) columns = record columns {
  string_column = some (struct_to_string codec s);
}

pub write_value-put :
    (codec : Codec) (v : Value) (columns : Columns)
    → IsStorable codec v
    → write_value codec v columns ≡ ok (put codec v columns)
unfolding write_value
write_value-put codec not_set columns s = absurd s
write_value-put codec (int_value i) columns s = refl
write_value-put codec (double_value d) columns s = refl
write_value-put codec (string_value b) columns s = refl
write_value-put codec (struct_value b) columns s = refl

pub read_columns-put :
    (codec : Codec) (v : Value) (columns : Columns)
    → IsStorable codec v
    → Fits codec v columns
    → read_columns codec (put codec v columns) ≡ ok v
read_columns-put codec v columns s f =
    let (written, w, r) = read_columns-write_value codec v columns s f in
    ap (read_columns codec) (ok-injective (sym (write_value-put codec v columns s) ∙ w)) ∙ r

same_bytes-eq : (xs ys : List ℕ) → same_bytes xs ys ≡ true → xs ≡ ys
unfolding same_bytes
same_bytes-eq [] [] h = refl
same_bytes-eq [] (y ∷ ys) h = ground arith
same_bytes-eq (x ∷ xs) [] h = ground arith
same_bytes-eq (x ∷ xs) (y ∷ ys) h =
    let heads : (x == y) ≡ true = ground arith in
    let tails : same_bytes xs ys ≡ true = ground arith in
    cc ((==_iff x y).0 heads, same_bytes-eq xs ys tails)

-- Values that compare equal are equal.
pub same_value-eq : (v w : Value) → same_value v w ≡ true → v ≡ w
unfolding same_value
same_value-eq not_set not_set h = refl
same_value-eq (int_value (pos m)) (int_value (pos n)) h =
    ap (λ i. int_value (pos i)) ((==_iff m n).0 h)
same_value-eq (int_value (negsuc m)) (int_value (negsuc n)) h =
    ap (λ i. int_value (negsuc i)) ((==_iff m n).0 h)
same_value-eq (int_value (pos m)) (int_value (negsuc n)) h = ground arith
same_value-eq (int_value (negsuc m)) (int_value (pos n)) h = ground arith
same_value-eq (double_value d) (double_value e) h = ap double_value ((==_iff d e).0 h)
same_value-eq (string_value s) (string_value t) h = ap string_value (same_bytes-eq s t h)
same_value-eq (struct_value s) (struct_value t) h = ap struct_value (same_bytes-eq s t h)
same_value-eq v w h = ground arith
