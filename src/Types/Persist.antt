-- ===== src/Types/Persist.antt =====
-- What UpdateTypeImpl leaves in the database.
use ml_metadata_l_metadata_s.Prelude.{
  ◌≡◌, refl, ap, ◌∙◌, String, not, Option, none, some, List, [], ◌∷◌, arith, subst, sym,
  Option-cases, inl, inr,
}
use ml_metadata_l_metadata_s.Status.{invalid_argument, ok}
use ml_metadata_l_metadata_s.Exec.{Exec, raise_if, bind-ok, ◌>>=◌, ◌>>◌}
use ml_metadata_l_metadata_s.Maps.{lookup, or_else}
use ml_metadata_l_metadata_s.Messages.{
  Kind, PropertyType, TypeMessage, is_set, text_of, number_of, get_type_version,
}
use ml_metadata_l_metadata_s.Tables.{Db, TypeRow, TypePropertyRow}
use ml_metadata_l_metadata_s.Tables.TypeQueries.{
  select_type_by_name_and_version, select_properties_by_type_id,
}
use ml_metadata_l_metadata_s.Types.{
  other_id, first_type, find_types_from_rows, find_type_by_name_and_version, type_message,
  update_type_properties, update_type,
}
use ml_metadata_l_metadata_s.Types.Rows.{stored_property}
use ml_metadata_l_metadata_s.Types.Update.{Updates, update_type_properties-Updates}

-- The message that a query returns carries the stored properties of its id.
first_type-properties :
    (properties : List TypePropertyRow) (rows : List TypeRow) (m : TypeMessage)
    → first_type (find_types_from_rows properties rows) ≡ ok m
    → m.properties ≡ select_properties_by_type_id (number_of m.id) properties
unfolding first_type find_types_from_rows
first_type-properties properties [] m h = ground arith
first_type-properties properties (r ∷ rows) m h = ground arith

pub get_type_version-twice :
    (v : Option String) → get_type_version (get_type_version v) ≡ get_type_version v
unfolding get_type_version
get_type_version-twice none = refl
get_type_version-twice (some v) = ground arith

-- An update that succeeds found its type under the name and version, and ran the loop.
pub update_type-Updates :
    (kind : Kind) (type : TypeMessage) (db : Db)
    → (update_type kind type db).0 ≡ ok tt
    → (m : TypeMessage) × ((find_type_by_name_and_version kind
          (text_of type.name)
          type.version
          db).0
        ≡ ok m)
      × Updates (number_of m.id) m.properties type.properties db (update_type kind type db).1
unfolding update_type find_type_by_name_and_version
update_type-Updates kind type db h =
    let find =
      find_type_by_name_and_version kind (text_of type.name) (get_type_version type.version) in
    let write : TypeMessage → Exec Db (Unit {0}) =
      λ m. update_type_properties (number_of m.id) m.properties type.properties in
    let (_, _, q, e) =
      bind-ok (raise_if (not (is_set type.name)) invalid_argument)
        (λ _. find >>= λ m. raise_if (other_id type.id m.id) invalid_argument >> write m) db h in
    let (m, found, r, f) =
      bind-ok find (λ m. raise_if (other_id type.id m.id) invalid_argument >> write m) db q in
    let (_, _, s, g) =
      bind-ok (raise_if (other_id type.id m.id) invalid_argument) (λ _. write m) db r in
    let old =
      first_type-properties db.type_properties
        (select_type_by_name_and_version (text_of type.name)
          (get_type_version (get_type_version type.version)) kind db.types)
        m found in
    (
      m,
      rw (sym (get_type_version-twice type.version)) found,
      subst (Updates (number_of m.id) m.properties type.properties db) (sym (e ∙ f ∙ g)) (
          update_type_properties-Updates (number_of m.id) m.properties type.properties db
            (λ k w at. rw (sym old) at) s),
    )

found_after :
    (properties : List TypePropertyRow) (before : List TypePropertyRow) (rows : List TypeRow)
    (m : TypeMessage)
    → first_type (find_types_from_rows before rows) ≡ ok m
    → first_type (find_types_from_rows properties rows)
      ≡ ok record m { properties = select_properties_by_type_id (number_of m.id) properties }
unfolding first_type find_types_from_rows
found_after properties before [] m h = ground arith
found_after properties before (r ∷ rows) m h =
    let same : type_message r (select_properties_by_type_id r.id before) ≡ m = ground arith in
    ap
      (λ (x : TypeMessage).
        ok (record x { properties = select_properties_by_type_id (number_of x.id) properties }))
      same

-- A successful update finds the type under its name and version as before, but for the properties:
-- each key has its stored property or else its given one. The rows of the types stay.
pub update_type-merge :
    (kind : Kind) (type : TypeMessage) (db : Db)
    → (update_type kind type db).0 ≡ ok tt
    → let db' = (update_type kind type db).1 in
      (m : TypeMessage) × (merged : List (String × PropertyType)) × ((find_type_by_name_and_version
          kind
          (text_of type.name)
          type.version
          db).0
        ≡ ok m)
      × ((find_type_by_name_and_version kind (text_of type.name) type.version db').0
          ≡ ok (record m { properties = merged }))
      × ((k : String)
          → lookup k merged ≡ or_else (lookup k m.properties) (lookup k type.properties))
      × (db'.types ≡ db.types)
      × (db'.parent_types ≡ db.parent_types)
unfolding find_type_by_name_and_version
update_type-merge kind type db h =
    let (m, found, done) = update_type-Updates kind type db h in
    let a = done.0 in
    let db' = (update_type kind type db).1 in
    let rows =
      select_type_by_name_and_version (text_of type.name) (get_type_version type.version) kind
        db.types in
    let old = first_type-properties db.type_properties rows m found in
    (
      m,
      select_properties_by_type_id (number_of m.id) db'.type_properties,
      found,
      rw (a.types_kept) (found_after db'.type_properties db.type_properties rows m found),
      (λ k. a.here k ∙ ap (λ ps. or_else (lookup k ps) (lookup k type.properties)) (sym old)),
      a.types_kept,
      a.parents_kept,
    )

stored_or :
    (k : String) (v : PropertyType) (stored : List (String × PropertyType))
    → ((w : PropertyType) → lookup k stored ≡ some w → w ≡ v)
    → or_else (lookup k stored) (some v) ≡ some v
stored_or k v stored agree = elim (Option-cases (lookup k stored)) [
  | inl missing ↦ rw missing refl
  | inr (w, found) ↦ rw found (ap some (agree w found))
]

-- After a successful update every given property is stored, under the type it was given with: a
-- property that was stored with another type would have made the update fail.
pub update_type_given :
    (kind : Kind) (type m : TypeMessage) (db : Db) (k : String) (v : PropertyType)
    → (update_type kind type db).0 ≡ ok tt
    → (find_type_by_name_and_version kind (text_of type.name) type.version db).0 ≡ ok m
    → lookup k type.properties ≡ some v
    → stored_property (update_type kind type db).1 (number_of m.id) k ≡ some v
unfolding find_type_by_name_and_version
update_type_given kind type m db k v h found given =
    let (m2, found2, done) = update_type-Updates kind type db h in
    let rows =
      select_type_by_name_and_version (text_of type.name) (get_type_version type.version) kind
        db.types in
    let old = first_type-properties db.type_properties rows m2 found2 in
    let same : m2 ≡ m = ground arith in
    let there : stored_property (update_type kind type db).1 (number_of m2.id) k ≡ some v =
      done.0.here k
      ∙ rw (sym old, given) (stored_or k v m2.properties (λ w at. done.1 k v w given at)) in
    subst
      (λ (x : TypeMessage).
        stored_property (update_type kind type db).1 (number_of x.id) k ≡ some v)
      same there
