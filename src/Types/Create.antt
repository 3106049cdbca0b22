-- ===== src/Types/Create.antt =====
-- A type that was created is found again, with all that was given.
use ml_metadata_l_metadata_s.Prelude.{
  ℕ, ◌+◌, ◌≡◌, refl, String, true, Option, none, some, [], ◌==◌, eq_iff, if◌then◌else◌, arith, ◌&&◌,
  Bool-cases, inl, inr, ==_iff,
}
use ml_metadata_l_metadata_s.Status.{ok}
use ml_metadata_l_metadata_s.Maps.{lookup, or_else}
use ml_metadata_l_metadata_s.Messages.{Kind, TypeMessage, text_of, same_kind, get_type_version}
use ml_metadata_l_metadata_s.Tables.{Db}
use ml_metadata_l_metadata_s.Tables.TypeQueries.{
  is_named, same_version, select_type_by_name_and_version, select_properties_by_type_id,
}
use ml_metadata_l_metadata_s.Types.{
  type_message, first_type, find_types_from_rows, find_type_by_id, find_type_by_name_and_version,
  create_type,
}
use ml_metadata_l_metadata_s.Types.Rows.{stored_property, or_else-none}
use ml_metadata_l_metadata_s.Types.Inserts.{
  IsBounded, select_fresh, stored_fresh, select_by_id-append, select_by_name-append, new_row,
  Creates, create_type-Creates,
}

-- The message that reads a stored type, against the one it was created from.
pub record IsStoredAs (type : TypeMessage) (id : ℕ) (m : TypeMessage) : Type 0 where
  pub same_id : m.id ≡ some id
  pub same_name : m.name ≡ some (text_of type.name)
  pub version_kept : m.version ≡ get_type_version type.version
  pub same_description : m.description ≡ type.description
  pub same_properties : (k : String) → lookup k m.properties ≡ lookup k type.properties

-- The message of the new row.
abbrev new_message : Db → Db → Kind → TypeMessage → TypeMessage
new_message db db' kind type =
    type_message (new_row db kind type)
      (select_properties_by_type_id (db.last_type_id + 1) db'.type_properties)

new_message-IsStoredAs :
    (kind : Kind) (type : TypeMessage) (db db' : Db) (id : ℕ)
    → IsBounded db
    → Creates kind type db db' id
    → IsStoredAs type id (new_message db db' kind type)
new_message-IsStoredAs kind type db db' id b c = record {
  same_id = ground (arith, c.new_id);
  same_name = refl;
  version_kept = refl;
  same_description = refl;
  same_properties = λ k. ground (
    arith,
    c.here k,
    stored_fresh db.last_type_id k db.type_properties b.properties_bounded,
    c.new_id,
  );
}

same_kind_self : (kind : Kind) → same_kind kind kind ≡ true
same_kind_self kind = ground arith

same_version_self : (v : Option String) → same_version v v ≡ true
same_version_self none = refl
same_version_self (some v) = ground (arith, eq_iff v v)

id_test-new :
    (db : Db) (kind : Kind) (type : TypeMessage)
    → ((new_row db kind type).id == db.last_type_id + 1
        && same_kind (new_row db kind type).kind kind)
      ≡ true
id_test-new db kind type =
    rw (same_kind_self kind) (ground (arith, ==_iff (db.last_type_id + 1) (db.last_type_id + 1)))

is_named-new :
    (db : Db) (kind : Kind) (type : TypeMessage)
    → is_named (text_of type.name) (get_type_version type.version) kind (new_row db kind type)
      ≡ true
unfolding is_named
is_named-new db kind type =
    rw (same_kind_self kind, same_version_self (get_type_version type.version))
      (ground (arith, eq_iff (text_of type.name) (text_of type.name)))

find_new-by_id :
    (kind : Kind) (type : TypeMessage) (db db' : Db) (id : ℕ)
    → IsBounded db
    → Creates kind type db db' id
    → (find_type_by_id kind id db').0 ≡ ok (new_message db db' kind type)
unfolding find_type_by_id find_types_from_rows first_type
find_new-by_id kind type db db' id b c =
    rw
      (
        c.row,
        c.new_id,
        select_by_id-append (db.last_type_id + 1) kind db.types (new_row db kind type),
        select_fresh db.last_type_id kind db.types b.types_bounded,
        id_test-new db kind type,
      )
      refl

find_new-by_name :
    (kind : Kind) (type : TypeMessage) (db db' : Db) (id : ℕ)
    → select_type_by_name_and_version
        (text_of type.name)
        (get_type_version type.version)
        kind
        db.types
      ≡ []
    → Creates kind type db db' id
    → (find_type_by_name_and_version kind (text_of type.name) type.version db').0
      ≡ ok (new_message db db' kind type)
unfolding find_type_by_name_and_version find_types_from_rows first_type
find_new-by_name kind type db db' id fresh c =
    rw
      (
        c.row,
        select_by_name-append (text_of type.name) (get_type_version type.version) kind db.types
            (new_row db kind type),
        fresh,
        is_named-new db kind type,
      )
      refl

stored_after :
    (kind : Kind) (type : TypeMessage) (db db' : Db) (id : ℕ)
    → Creates kind type db db' id
    → (u : ℕ) (k : String)
    → stored_property db' u k
      ≡ or_else (stored_property db u k) (if id == u then lookup k type.properties else none)
stored_after kind type db db' id c u k = elim (Bool-cases (id == u)) [
  | inl same ↦ ground (arith, c.here k, ==_iff id u)
  | inr other ↦ ground (arith, c.elsewhere u k, ==_iff id u, or_else-none (stored_property db u k))
]

-- A type whose name and version are not taken goes to a new id. It is found under that id, and under
-- its name and version, with the name, the version, the description and the properties it was given,
-- and no other type's properties change. The keys in the tables are below the counter.
pub create_type-find :
    (kind : Kind) (type : TypeMessage) (db : Db) (id : ℕ)
    → IsBounded db
    → select_type_by_name_and_version
        (text_of type.name)
        (get_type_version type.version)
        kind
        db.types
      ≡ []
    → (create_type kind type db).0 ≡ ok id
    → let db' = (create_type kind type db).1 in
      (m : TypeMessage) × ((find_type_by_id kind id db').0 ≡ ok m)
      × ((find_type_by_name_and_version kind (text_of type.name) type.version db').0 ≡ ok m)
      × IsStoredAs type id m
      × ((u : ℕ) (k : String)
          → stored_property db' u k
            ≡ or_else (stored_property db u k) (if id == u then lookup k type.properties else none))
create_type-find kind type db id b fresh h =
    let c = create_type-Creates kind type db id h in
    let db' = (create_type kind type db).1 in
    (
      new_message db db' kind type,
      find_new-by_id kind type db db' id b c,
      find_new-by_name kind type db db' id fresh c,
      new_message-IsStoredAs kind type db db' id b c,
      stored_after kind type db db' id c,
    )
