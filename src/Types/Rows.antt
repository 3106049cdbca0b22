-- ===== src/Types/Rows.antt =====
-- The rows of `Type` and `TypeProperty` under the insertions.
use ml_metadata_l_metadata_s.Prelude.{
  ℕ, ◌≡◌, ◌≢◌, ◌↔◌, refl, ap, ◌∙◌, String, false, Option, none, some, List, [], ◌∷◌, ◌++◌, ◌==◌,
  if◌then◌else◌, arith, subst, sym,
}
use ml_metadata_l_metadata_s.Status.{invalid_argument, ok}
use ml_metadata_l_metadata_s.Exec.{raise_if, bind-ok, ◌>>◌}
use ml_metadata_l_metadata_s.Maps.{lookup, or_else, lookup-append}
use ml_metadata_l_metadata_s.Messages.{PropertyType, same_type, unknown}
use ml_metadata_l_metadata_s.Tables.{Db, TypePropertyRow}
use ml_metadata_l_metadata_s.Tables.TypeQueries.{
  select_properties_by_type_id, has_type_property, insert_type_property,
}
use ml_metadata_l_metadata_s.Types.{insert_type_properties}

-- The type of a property of a type, as it is stored.
abbrev pub stored_property : Db → ℕ → String → Option PropertyType
stored_property db t k = lookup k (select_properties_by_type_id t db.type_properties)

select_properties-append :
    (t : ℕ) (rows more : List TypePropertyRow)
    → select_properties_by_type_id t (rows ++ more)
      ≡ select_properties_by_type_id t rows ++ select_properties_by_type_id t more
unfolding select_properties_by_type_id
select_properties-append t [] more = refl
select_properties-append t (r ∷ rows) more = ground (arith, select_properties-append t rows more)

one_row :
    (u : ℕ) (k : String) (r : TypePropertyRow)
    → lookup k (select_properties_by_type_id u (r ∷ []))
      ≡ (if r.type_id == u then lookup k ((r.name, r.data_type) ∷ []) else none)
unfolding select_properties_by_type_id lookup
one_row u k r = ground arith

-- One row more at the end.
stored-append :
    (u : ℕ) (k : String) (rows : List TypePropertyRow) (r : TypePropertyRow)
    → lookup k (select_properties_by_type_id u (rows ++ r ∷ []))
      ≡ or_else
          (lookup k (select_properties_by_type_id u rows))
          (if r.type_id == u then lookup k ((r.name, r.data_type) ∷ []) else none)
stored-append u k rows r = rw (select_properties-append u rows (r ∷ [])) (
    lookup-append k (select_properties_by_type_id u rows) (select_properties_by_type_id u (r ∷ []))
    ∙ ap (or_else (lookup k (select_properties_by_type_id u rows))) (one_row u k r))

has_type_property-lookup :
    (t : ℕ) (k : String) (rows : List TypePropertyRow)
    → (has_type_property t k rows ≡ false) ↔ (lookup k (select_properties_by_type_id t rows) ≡ none)
unfolding has_type_property select_properties_by_type_id lookup
has_type_property-lookup t k [] = ground arith
has_type_property-lookup t k (r ∷ rows) = ground (arith, has_type_property-lookup t k rows)

pub or_else-none {ℓ} : {V : Type ℓ} (o : Option V) → o ≡ or_else o none
or_else-none none = refl
or_else-none (some v) = refl

-- What insertions of properties for the type `t` have done.
pub record Adds (t : ℕ) (given : List (String × PropertyType)) (db db' : Db) : Type 0 where
  pub types_kept : db'.types ≡ db.types
  pub parents_kept : db'.parent_types ≡ db.parent_types
  pub last_kept : db'.last_type_id ≡ db.last_type_id
  pub here :
      (k : String) → stored_property db' t k ≡ or_else (stored_property db t k) (lookup k given)
  pub elsewhere : (u : ℕ) (k : String) → t ≢ u → stored_property db' u k ≡ stored_property db u k

pub insert_type_property-Adds :
    (t : ℕ) (name : String) (value : PropertyType) (db : Db)
    → (insert_type_property t name value db).0 ≡ ok tt
    → Adds t ((name, value) ∷ []) db (insert_type_property t name value db).1
unfolding insert_type_property
insert_type_property-Adds t name value db h = record {
  types_kept = ground arith;
  parents_kept = ground arith;
  last_kept = ground arith;
  here = λ k. ground (
    arith,
    stored-append t k db.type_properties (record { type_id = t; name = name; data_type = value }),
  );
  elsewhere = λ u k apart. ground (
    arith,
    stored-append u k db.type_properties (record { type_id = t; name = name; data_type = value }),
  );
}

pub Adds-nil : (t : ℕ) (db : Db) → Adds t [] db db
unfolding lookup
Adds-nil t db = record {
  types_kept = refl;
  parents_kept = refl;
  last_kept = refl;
  here = λ k. or_else-none (stored_property db t k);
  elsewhere = λ u k apart. refl;
}

pub Adds-cons :
    (t : ℕ) (k : String) (v : PropertyType) (given : List (String × PropertyType)) {a b c : Db}
    → Adds t ((k, v) ∷ []) a b
    → Adds t given b c
    → Adds t ((k, v) ∷ given) a c
unfolding lookup
Adds-cons t k v given h g = record {
  types_kept = g.types_kept ∙ h.types_kept;
  parents_kept = g.parents_kept ∙ h.parents_kept;
  last_kept = g.last_kept ∙ h.last_kept;
  here = λ j. ground (arith, h.here j, g.here j);
  elsewhere = λ u j apart. g.elsewhere u j apart ∙ h.elsewhere u j apart;
}

-- Inserting a list of properties that all go through adds exactly these.
pub insert_type_properties-Adds :
    (t : ℕ) (given : List (String × PropertyType)) (db : Db)
    → (insert_type_properties t given db).0 ≡ ok tt
    → Adds t given db (insert_type_properties t given db).1
unfolding insert_type_properties
insert_type_properties-Adds t [] db h = Adds-nil t db
insert_type_properties-Adds t ((k, v) ∷ given) db h =
    let (_, _, q, e) =
      bind-ok (raise_if (same_type v unknown) invalid_argument)
        (λ _. insert_type_property t k v >> insert_type_properties t given) db h in
    let (_, inserted, rest, f) =
      bind-ok (insert_type_property t k v) (λ _. insert_type_properties t given) db q in
    subst (Adds t ((k, v) ∷ given) db) (sym (e ∙ f)) (
      Adds-cons t k v given (insert_type_property-Adds t k v db inserted)
        (insert_type_properties-Adds t given (insert_type_property t k v db).1 rest))
