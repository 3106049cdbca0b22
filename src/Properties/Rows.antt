-- ===== src/Properties/Rows.antt =====
-- The rows of a property table under the three queries that write them.
use ml_metadata_l_metadata_s.Prelude.{
  ℕ, String, ◌≡◌, refl, ap, sym, ◌∙◌, Bool, true, false, ◌&&◌, ==_iff, Bool-cases, inl, inr, Option,
  none, some, List, [], ◌∷◌, ◌++◌, ◌==◌, str_eq, eq_iff, if◌then◌else◌, arith,
}
use ml_metadata_l_metadata_s.Status.{ok}
use ml_metadata_l_metadata_s.Maps.{or_else}
use ml_metadata_l_metadata_s.Messages.{Value}
use ml_metadata_l_metadata_s.Tables.{PropertyRow, Columns, no_columns}
use ml_metadata_l_metadata_s.Tables.NodeQueries.{
  is_of, same_flag, columns_at, insert_property, update_rows, delete_rows,
}
use ml_metadata_l_metadata_s.Values.{Codec}
use ml_metadata_l_metadata_s.Values.RoundTrip.{IsStorable, put, write_value-put}

-- A row of the same node is the row of one name.
is_of-name :
    (id : ℕ) (name k : String) (row : PropertyRow)
    → is_of id name row ≡ true
    → is_of id k row ≡ str_eq name k
unfolding is_of
is_of-name id name k row h =
    let same : str_eq row.name name ≡ true = ground arith in
    let node : (row.node_id == id) ≡ true = ground arith in
    rw (node, (eq_iff row.name name).0 same) refl

is_of-other :
    (id : ℕ) (name k : String) (row : PropertyRow)
    → str_eq name k ≡ true
    → is_of id k row ≡ is_of id name row
is_of-other id name k row h = ap (λ n. is_of id n row) (sym ((eq_iff name k).0 h))

abbrev pub unless : Bool → Option Columns → Option Columns
unless b o = if b then none else o

pub columns_at-delete_rows :
    (id : ℕ) (name k : String) (is_custom : Bool) (rows : List PropertyRow)
    → columns_at id is_custom k (delete_rows id name rows)
      ≡ unless (str_eq name k) (columns_at id is_custom k rows)
unfolding columns_at delete_rows
columns_at-delete_rows id name k is_custom [] = ground arith
columns_at-delete_rows id name k is_custom (row ∷ rows) =
    let rest = columns_at-delete_rows id name k is_custom rows in
    elim (Bool-cases (is_of id name row)) [
      | inl hit ↦ rw (hit, rest, is_of-name id name k row hit) (ground arith)
      | inr miss ↦ elim (Bool-cases (str_eq name k)) [
        | inl same ↦ rw (miss, same, is_of-other id name k row same ∙ miss, rest, same) refl
        | inr other ↦ rw (miss, other, rest, other) refl
      ]
    ]

-- The columns under a name, with a value put over them.
abbrev pub overwrite : Codec → Value → Option Columns → Option Columns
overwrite codec v none = none
overwrite codec v (some columns) = some (put codec v columns)

abbrev pub when_named : Codec → Value → Bool → Option Columns → Option Columns
when_named codec v b o = if b then overwrite codec v o else o

is_of-columns :
    (id : ℕ) (k : String) (row : PropertyRow) (columns : Columns)
    → is_of id k (record row { columns = columns }) ≡ is_of id k row
unfolding is_of
is_of-columns id k row columns = refl

overwrite-here :
    (codec : Codec) (v : Value) (same flag : Bool) (columns : Columns) (rest : Option Columns)
    → (if same && flag then some (put codec v columns) else when_named codec v same rest)
      ≡ when_named codec v same (if same && flag then some columns else rest)
overwrite-here codec v true true columns rest = refl
overwrite-here codec v true false columns rest = refl
overwrite-here codec v false flag columns rest = refl

pub update_rows-columns :
    (codec : Codec) (id : ℕ) (name : String) (v : Value) (rows : List PropertyRow)
    → IsStorable codec v
    → (rows' : List PropertyRow) × (update_rows codec id name v rows ≡ ok rows')
      × ((is_custom : Bool) (k : String)
          → columns_at id is_custom k rows'
            ≡ when_named codec v (str_eq name k) (columns_at id is_custom k rows))
unfolding update_rows columns_at
update_rows-columns codec id name v [] s = ([], refl, λ c k. ground arith)
update_rows-columns codec id name v (row ∷ rows) s =
    let (more, e, rest) = update_rows-columns codec id name v rows s in
    elim (Bool-cases (is_of id name row)) [
      | inl hit ↦ (
        record row { columns = put codec v row.columns } ∷ more,
        rw (hit, e, write_value-put codec v row.columns s) refl,
        λ c k.
            rw
              (
                is_of-columns id k row (put codec v row.columns),
                is_of-name id name k row hit,
                rest c k,
              )
              (overwrite-here codec v (str_eq name k) (same_flag row.is_custom c) row.columns
                (columns_at id c k rows)),
      )
      | inr miss ↦ (
        row ∷ more,
        rw (miss, e) refl,
        λ c k. elim (Bool-cases (str_eq name k)) [
          | inl same ↦ rw (same, is_of-other id name k row same ∙ miss, rest c k, same) refl
          | inr other ↦ rw (other, rest c k, other) refl
        ],
      )
    ]

pub columns_at-append :
    (id : ℕ) (is_custom : Bool) (k : String) (rows : List PropertyRow) (row : PropertyRow)
    → columns_at id is_custom k (rows ++ row ∷ [])
      ≡ or_else
          (columns_at id is_custom k rows)
          (if is_of id k row && same_flag row.is_custom is_custom then some row.columns else none)
unfolding columns_at
columns_at-append id is_custom k [] row = refl
columns_at-append id is_custom k (r ∷ rows) row =
    ground (arith, columns_at-append id is_custom k rows row)

same_flag_self : (b : Bool) → same_flag b b ≡ true
same_flag_self true = refl
same_flag_self false = refl

and_true : (b : Bool) → (b && true) ≡ b
and_true true = refl
and_true false = refl

is_of-new :
    (id : ℕ) (name k : String) (is_custom : Bool) (columns : Columns)
    → (is_of id k record { node_id = id; name = name; is_custom = is_custom; columns = columns }
        && same_flag is_custom is_custom)
      ≡ str_eq name k
unfolding is_of
is_of-new id name k is_custom columns =
    rw ((==_iff id id).1 refl, same_flag_self is_custom) (and_true (str_eq name k))

-- Where the key is free, the insertion of a storable value goes through.
pub insert_property-columns :
    (codec : Codec) (id : ℕ) (name : String) (is_custom : Bool) (v : Value)
    (rows : List PropertyRow)
    → IsStorable codec v
    → columns_at id is_custom name rows ≡ none
    → (rows' : List PropertyRow) × (insert_property codec id name is_custom v rows ≡ (ok tt, rows'))
      × ((k : String)
          → columns_at id is_custom k rows'
            ≡ or_else
                (columns_at id is_custom k rows)
                (if str_eq name k then some (put codec v no_columns) else none))
unfolding insert_property
insert_property-columns codec id name is_custom v rows s free =
    let row : PropertyRow = record {
      node_id = id;
      name = name;
      is_custom = is_custom;
      columns = put codec v no_columns;
    } in
    (
      rows ++ row ∷ [],
      rw (free, write_value-put codec v no_columns s) refl,
      λ k.
          rw
            (
              columns_at-append id is_custom k rows row,
              is_of-new id name k is_custom (put codec v no_columns),
            )
            refl,
    )
