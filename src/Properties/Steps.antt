-- ===== src/Properties/Steps.antt =====
-- One step of the second loop of ModifyProperties.
use ml_metadata_l_metadata_s.Prelude.{
  ℕ, String, ◌≡◌, refl, subst, Bool, true, false, Bool-cases, inl, inr, Option, none, some, List,
  str_eq, eq_iff,
}
use ml_metadata_l_metadata_s.Status.{ok}
use ml_metadata_l_metadata_s.Maps.{or_else}
use ml_metadata_l_metadata_s.Messages.{Value}
use ml_metadata_l_metadata_s.Tables.{PropertyRow, Columns, no_columns}
use ml_metadata_l_metadata_s.Tables.NodeQueries.{columns_at, insert_property, update_property}
use ml_metadata_l_metadata_s.Values.{Codec, same_case, same_value, read_columns}
use ml_metadata_l_metadata_s.Values.RoundTrip.{IsStorable, read_columns-put, same_value-eq}
use ml_metadata_l_metadata_s.Properties.{write_property}
use ml_metadata_l_metadata_s.Properties.Rows.{insert_property-columns, update_rows-columns}

-- What is stored under a key reads as the value, or nothing is stored and there is no value.
abbrev pub Holds : Codec → Option Columns → Option Value → Type 0
Holds codec none none = Unit
Holds codec none (some v) = ⊥
Holds codec (some columns) none = ⊥
Holds codec (some columns) (some v) = read_columns codec columns ≡ ok v

-- What the second loop needs of a key: its previous value is there if the cases agree, and else
-- nothing is.
abbrev pub ReadyCase : Codec → Bool → Option Columns → Value → Type 0
ReadyCase codec true o prev = Holds codec o (some prev)
ReadyCase codec false o prev = o ≡ none

abbrev pub IsReady : Codec → Option Columns → Value → Option Value → Type 0
IsReady codec o v none = o ≡ none
IsReady codec o v (some prev) = ReadyCase codec (same_case prev v) o prev

-- What one step does: the key holds the value, the others are as they were.
abbrev Steps : Codec → ℕ → Bool → String → Value → List PropertyRow → List PropertyRow → Type 0
Steps codec id is_custom name v rows rows' =
    Holds codec (columns_at id is_custom name rows') (some v)
    × ((k : String)
        → str_eq name k ≡ false
        → columns_at id is_custom k rows' ≡ columns_at id is_custom k rows)

pub or_else-none {ℓ} : {A : Type ℓ} (o : Option A) → or_else o none ≡ o
or_else-none none = refl
or_else-none (some a) = refl

insert_property-Steps :
    (codec : Codec) (id : ℕ) (name : String) (is_custom : Bool) (v : Value)
    (rows : List PropertyRow)
    → IsStorable codec v
    → columns_at id is_custom name rows ≡ none
    → (rows' : List PropertyRow) × (insert_property codec id name is_custom v rows ≡ (ok tt, rows'))
      × Steps codec id is_custom name v rows rows'
insert_property-Steps codec id name is_custom v rows s free =
    let (rows', e, all) = insert_property-columns codec id name is_custom v rows s free in
    (
      rows',
      e,
      (
        rw (all name, free, (eq_iff name name).1 refl)
            (read_columns-put codec v no_columns s (inl refl)),
        λ k other. rw (all k, other) (or_else-none (columns_at id is_custom k rows)),
      ),
    )

Holds-some :
    (codec : Codec) (o : Option Columns) (v : Value)
    → Holds codec o (some v)
    → (columns : Columns) × (o ≡ some columns) × (read_columns codec columns ≡ ok v)
Holds-some codec none v h = absurd h
Holds-some codec (some columns) v h = (columns, refl, h)

update_property-Steps :
    (codec : Codec) (id : ℕ) (name : String) (is_custom : Bool) (v prev : Value)
    (rows : List PropertyRow)
    → IsStorable codec v
    → same_case prev v ≡ true
    → Holds codec (columns_at id is_custom name rows) (some prev)
    → (rows' : List PropertyRow) × (update_property codec id name v rows ≡ (ok tt, rows'))
      × Steps codec id is_custom name v rows rows'
unfolding update_property
update_property-Steps codec id name is_custom v prev rows s same h =
    let (rows', e, all) = update_rows-columns codec id name v rows s in
    let (columns, at, r) = Holds-some codec (columns_at id is_custom name rows) prev h in
    (
      rows',
      rw e refl,
      (
        rw (all is_custom name, (eq_iff name name).1 refl, at)
            (read_columns-put codec v columns s (inr (prev, r, same))),
        λ k other. rw (all is_custom k, other) refl,
      ),
    )

pub write_property-Steps :
    (codec : Codec) (id : ℕ) (is_custom : Bool) (name : String) (v : Value) (prev : Option Value)
    (rows : List PropertyRow)
    → IsStorable codec v
    → IsReady codec (columns_at id is_custom name rows) v prev
    → (n : ℕ) × (rows' : List PropertyRow) × (write_property codec id is_custom name v prev rows
        ≡ (ok n, rows'))
      × Steps codec id is_custom name v rows rows'
write_property-Steps codec id is_custom name v none rows s ready =
    let (rows', e, steps) = insert_property-Steps codec id name is_custom v rows s ready in
    (1, rows', rw e refl, steps)
write_property-Steps codec id is_custom name v (some prev) rows s ready =
    elim (Bool-cases (same_case prev v)) [
      | inr differs ↦
          let (rows', e, steps) =
            insert_property-Steps codec id name is_custom v rows s (rw differs at ready) in
          (1, rows', rw (differs, e) refl, steps)
      | inl same ↦ elim (Bool-cases (same_value prev v)) [
        | inl equal ↦ (
          0,
          rows,
          rw (same, equal) refl,
          (
            subst (λ w. Holds codec (columns_at id is_custom name rows) (some w))
                (same_value-eq prev v equal) (rw same at ready),
            λ k other. refl,
          ),
        )
        | inr changed ↦
            let (rows', e, steps) =
              update_property-Steps codec id name is_custom v prev rows s same (rw same at ready) in
            (1, rows', rw (same, changed, e) refl, steps)
      ]
    ]
