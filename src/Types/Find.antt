-- ===== src/Types/Find.antt =====
-- What FindTypeImpl by name and version answers, and what its answer depends on.
use ml_metadata_l_metadata_s.Prelude.{
  ℕ, String, ◌≡◌, refl, ap, true, not, ◌||◌, Bool-cases, inl, inr, Option, none, some, List, [],
  ◌∷◌, str_eq, eq_iff, arith,
}
use ml_metadata_l_metadata_s.Status.{invalid_argument, ok}
use ml_metadata_l_metadata_s.Exec.{Exec, lift, gets, raise_if, ◌>>=◌, ◌>>◌}
use ml_metadata_l_metadata_s.Exec.Preserves.{Preserves, bind-Preserves}
use ml_metadata_l_metadata_s.Messages.{Kind, TypeMessage, is_set, number_of, get_type_version}
use ml_metadata_l_metadata_s.Ancestry.{Links, check_cyclic_dependency}
use ml_metadata_l_metadata_s.Tables.{Db, TypeRow, TypePropertyRow}
use ml_metadata_l_metadata_s.Tables.TypeQueries.{
  is_named, same_version, select_type_by_name_and_version, insert_parent_type, has_row,
}
use ml_metadata_l_metadata_s.Types.{
  first_type, find_types_from_rows, find_type_by_name_and_version, walk_status, with_unique_cast,
  create_parent_type_inheritance_link,
}

same_version-eq : (v w : Option String) → same_version v w ≡ true → v ≡ w
same_version-eq none none h = refl
same_version-eq none (some w) h = ground arith
same_version-eq (some v) none h = ground arith
same_version-eq (some v) (some w) h = ap some ((eq_iff v w).0 h)

is_named-eq :
    (name : String) (version : Option String) (kind : Kind) (row : TypeRow)
    → is_named name version kind row ≡ true
    → (row.name ≡ name) × (row.version ≡ version)
unfolding is_named
is_named-eq name version kind row h =
    let a : str_eq row.name name ≡ true = ground arith in
    let b : same_version row.version version ≡ true = ground arith in
    ((eq_iff row.name name).0 a, same_version-eq row.version version b)

first_named :
    (name : String) (version : Option String) (kind : Kind) (rows : List TypeRow)
    (properties : List TypePropertyRow) (m : TypeMessage)
    → first_type
        (find_types_from_rows properties (select_type_by_name_and_version name version kind rows))
      ≡ ok m
    → (m.name ≡ some name) × (m.version ≡ version)
unfolding select_type_by_name_and_version first_type find_types_from_rows
first_named name version kind [] properties m h = ground arith
first_named name version kind (r ∷ rows) properties m h =
    elim (Bool-cases (is_named name version kind r)) [
      | inl hit ↦ let e = is_named-eq name version kind r hit in ground arith
      | inr miss ↦ first_named name version kind rows properties m (rw miss at h)
    ]

-- The type that is found has the name and the version that were asked for.
pub find_type-named :
    (kind : Kind) (name : String) (version : Option String) (db : Db) (m : TypeMessage)
    → (find_type_by_name_and_version kind name version db).0 ≡ ok m
    → (m.name ≡ some name) × (m.version ≡ get_type_version version)
unfolding find_type_by_name_and_version
find_type-named kind name version db m h =
    first_named name (get_type_version version) kind db.types db.type_properties m h

-- A predicate of the two tables that the search reads is preserved by the link to a parent.
module _ {ℓ} (Q : List TypeRow → List TypePropertyRow → Type ℓ) where
  abbrev pub OnTypes : Db → Type ℓ
  OnTypes db = Q db.types db.type_properties

  insert_parent_type-OnTypes :
      (t p : ℕ) → Preserves OnTypes (with_unique_cast (insert_parent_type t p))
  unfolding insert_parent_type
  insert_parent_type-OnTypes t p db q = elim (Bool-cases (has_row t p db.parent_types)) [
    | inl dup ↦ rw dup q
    | inr new ↦ rw new q
  ]

  pub create_parent_type_inheritance_link-OnTypes :
      (type parent : TypeMessage)
      → Preserves OnTypes (create_parent_type_inheritance_link type parent)
  unfolding create_parent_type_inheritance_link
  create_parent_type_inheritance_link-OnTypes type parent =
      let t = number_of type.id in
      let p = number_of parent.id in
      let check : Links → Exec Db (Unit {0}) =
        λ links. lift (walk_status (check_cyclic_dependency links t p)) in
      let insert = with_unique_cast (insert_parent_type t p) in
      bind-Preserves OnTypes
        (raise_if (not (is_set type.id) || not (is_set parent.id)) invalid_argument)
        (λ _. gets (λ (db : Db). db.parent_types) >>= λ links. check links >> insert) (λ s q. q)
        (λ _.
          bind-Preserves OnTypes (gets (λ (db : Db). db.parent_types))
            (λ links. check links >> insert) (λ s q. q)
            (λ links.
              bind-Preserves OnTypes (check links) (λ _. insert) (λ s q. q)
                (λ _. insert_parent_type-OnTypes t p)))
