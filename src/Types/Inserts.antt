-- ===== src/Types/Inserts.antt =====
-- What CreateTypeImpl inserts.
use ml_metadata_l_metadata_s.Prelude.{
  ℕ, ◌+◌, ◌≤◌, ◌≡◌, ◌≢◌, refl, String, false, Option, none, List, [], ◌∷◌, ◌++◌, ◌==◌, str_eq,
  eq_iff, if◌then◌else◌, arith, All, subst, sym, ◌&&◌, Bool-cases, inl, inr,
}
use ml_metadata_l_metadata_s.Status.{ok}
use ml_metadata_l_metadata_s.Exec.{pure, bind-ok}
use ml_metadata_l_metadata_s.Maps.{lookup, or_else}
use ml_metadata_l_metadata_s.Messages.{Kind, TypeMessage, text_of, same_kind, get_type_version}
use ml_metadata_l_metadata_s.Tables.{Db, TypeRow, TypePropertyRow}
use ml_metadata_l_metadata_s.Tables.TypeQueries.{
  is_named, insert_type, select_type_by_id, select_type_by_name_and_version,
  select_properties_by_type_id,
}
use ml_metadata_l_metadata_s.Types.{insert_type_properties, create_type}
use ml_metadata_l_metadata_s.Types.Rows.{stored_property, Adds, insert_type_properties-Adds}

-- No row goes beyond the last key that was handed out.
pub record IsBounded (db : Db) : Type 0 where
  pub types_bounded : All (λ (r : TypeRow). r.id ≤ db.last_type_id) db.types
  pub properties_bounded :
      All (λ (r : TypePropertyRow). r.type_id ≤ db.last_type_id) db.type_properties

pub select_fresh :
    (n : ℕ) (kind : Kind) (rows : List TypeRow)
    → All (λ (r : TypeRow). r.id ≤ n) rows
    → select_type_by_id (n + 1) kind rows ≡ []
unfolding select_type_by_id
select_fresh n kind [] h = refl
select_fresh n kind (r ∷ rows) h = ground (arith, select_fresh n kind rows h.1)

pub stored_fresh :
    (n : ℕ) (k : String) (rows : List TypePropertyRow)
    → All (λ (r : TypePropertyRow). r.type_id ≤ n) rows
    → lookup k (select_properties_by_type_id (n + 1) rows) ≡ none
unfolding select_properties_by_type_id lookup
stored_fresh n k [] h = refl
stored_fresh n k (r ∷ rows) h = ground (arith, stored_fresh n k rows h.1)

pub select_by_id-append :
    (id : ℕ) (kind : Kind) (rows : List TypeRow) (r : TypeRow)
    → select_type_by_id id kind (rows ++ r ∷ [])
      ≡ select_type_by_id id kind rows
        ++ (if r.id == id && same_kind r.kind kind then r ∷ [] else [])
unfolding select_type_by_id
select_by_id-append id kind [] r = ground arith
select_by_id-append id kind (x ∷ rows) r = ground (arith, select_by_id-append id kind rows r)

pub select_by_name-append :
    (name : String) (version : Option String) (kind : Kind) (rows : List TypeRow) (r : TypeRow)
    → select_type_by_name_and_version name version kind (rows ++ r ∷ [])
      ≡ select_type_by_name_and_version name version kind rows
        ++ (if is_named name version kind r then r ∷ [] else [])
unfolding select_type_by_name_and_version
select_by_name-append name version kind [] r = ground arith
select_by_name-append name version kind (x ∷ rows) r =
    ground (arith, select_by_name-append name version kind rows r)

-- The row that `create_type` inserts.
abbrev pub new_row : Db → Kind → TypeMessage → TypeRow
new_row db kind type = record {
  id = db.last_type_id + 1;
  kind = kind;
  name = text_of type.name;
  version = get_type_version type.version;
  description = type.description;
}

-- What a successful creation has done.
pub record Creates (kind : Kind) (type : TypeMessage) (db db' : Db) (id : ℕ) : Type 0 where
  pub named : text_of type.name ≢ ""
  pub new_id : id ≡ db.last_type_id + 1
  pub last : db'.last_type_id ≡ db.last_type_id + 1
  pub row : db'.types ≡ db.types ++ new_row db kind type ∷ []
  pub parents_kept : db'.parent_types ≡ db.parent_types
  pub here :
      (k : String)
      → stored_property db' id k ≡ or_else (stored_property db id k) (lookup k type.properties)
  pub elsewhere : (u : ℕ) (k : String) → id ≢ u → stored_property db' u k ≡ stored_property db u k

-- The tables after the row, before the properties.
abbrev with_row : Kind → TypeMessage → Db → Db
with_row kind type db = record db {
  types = db.types ++ new_row db kind type ∷ [];
  last_type_id = db.last_type_id + 1;
}

-- From the row and the insertions of the properties.
Creates-intro :
    (kind : Kind) (type : TypeMessage) (db db2 db' : Db) (id : ℕ)
    → str_eq (text_of type.name) "" ≡ false
    → Adds (db.last_type_id + 1) type.properties (with_row kind type db) db2
    → db2 ≡ db'
    → db.last_type_id + 1 ≡ id
    → Creates kind type db db' id
Creates-intro kind type db db2 db' id named a at_db2 at_id =
    subst (λ (n : ℕ). Creates kind type db db' n) at_id
      (subst (λ (d : Db). Creates kind type db d (db.last_type_id + 1)) at_db2
        record {
          named = ground (arith, eq_iff (text_of type.name) "");
          new_id = refl;
          last = a.last_kept;
          row = a.types_kept;
          parents_kept = a.parents_kept;
          here = a.here;
          elsewhere = a.elsewhere;
        })

pub create_type-Creates :
    (kind : Kind) (type : TypeMessage) (db : Db) (id : ℕ)
    → (create_type kind type db).0 ≡ ok id
    → Creates kind type db (create_type kind type db).1 id
unfolding create_type insert_type
create_type-Creates kind type db id h = elim (Bool-cases (str_eq (text_of type.name) "")) [
  | inl empty ↦ ground arith
  | inr named ↦
      let (_, inserted, q, e) =
        bind-ok (insert_type_properties (db.last_type_id + 1) type.properties)
          (λ _. pure (db.last_type_id + 1)) (with_row kind type db) (rw named at h) in
      Creates-intro kind type db
        (insert_type_properties (db.last_type_id + 1) type.properties (with_row kind type db)).1 _
        id named
        (insert_type_properties-Adds (db.last_type_id + 1) type.properties (with_row kind type db)
          inserted)
        (rw named (sym e)) (ground (arith, q))
]
