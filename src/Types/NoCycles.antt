-- ===== src/Types/NoCycles.antt =====
-- What the operations on types do to the links to parent types.
use ml_metadata_l_metadata_s.Prelude.{
  ℕ, String, ◌≡◌, refl, not, ◌||◌, Bool-cases, Option-cases, inl, inr, List, [], ◌∷◌, str_eq, arith,
}
use ml_metadata_l_metadata_s.Status.{invalid_argument}
use ml_metadata_l_metadata_s.Exec.{Exec, pure, raise_if, ◌>>=◌, ◌>>◌}
use ml_metadata_l_metadata_s.Exec.Preserves.{Preserves, bind-Preserves}
use ml_metadata_l_metadata_s.Maps.{lookup}
use ml_metadata_l_metadata_s.Messages.{
  Kind, PropertyType, unknown, same_type, TypeMessage, text_of, is_set, number_of, get_type_version,
}
use ml_metadata_l_metadata_s.Ancestry.{Links}
use ml_metadata_l_metadata_s.Ancestry.Decides.{check_cyclic_dependency_decides}
use ml_metadata_l_metadata_s.Ancestry.Acyclic.{IsAcyclic, add_link, add_link-IsAcyclic}
use ml_metadata_l_metadata_s.Tables.{Db}
use ml_metadata_l_metadata_s.Tables.TypeQueries.{
  insert_type, insert_type_property, insert_parent_type, has_row,
}
use ml_metadata_l_metadata_s.Types.{
  find_type_by_name_and_version, insert_type_properties, create_type, other_id,
  update_type_properties, update_type, with_unique_cast, create_parent_type_inheritance_link,
}

-- A property of the parent links is kept by the methods that do not write them.
module _ {ℓ} (Q : Links → Type ℓ) where
  abbrev OnLinks : Db → Type ℓ
  OnLinks db = Q db.parent_types

  insert_type_property-Preserves :
      (t : ℕ) (k : String) (v : PropertyType) → Preserves OnLinks (insert_type_property t k v)
  unfolding insert_type_property
  insert_type_property-Preserves t k v db q = ground arith

  insert_type_properties-Preserves :
      (t : ℕ) (given : List (String × PropertyType))
      → Preserves OnLinks (insert_type_properties t given)
  unfolding insert_type_properties
  insert_type_properties-Preserves t [] = λ db q. q
  insert_type_properties-Preserves t ((k, v) ∷ given) =
      bind-Preserves OnLinks (raise_if (same_type v unknown) invalid_argument)
        (λ _. insert_type_property t k v >> insert_type_properties t given) (λ s q. q)
        (λ _.
          bind-Preserves OnLinks (insert_type_property t k v) (λ _. insert_type_properties t given)
            (insert_type_property-Preserves t k v) (λ _. insert_type_properties-Preserves t given))

  pub create_type-Preserves :
      (kind : Kind) (type : TypeMessage) → Preserves OnLinks (create_type kind type)
  unfolding create_type insert_type
  create_type-Preserves kind type =
      bind-Preserves OnLinks (raise_if (str_eq (text_of type.name) "") invalid_argument)
        (λ _.
          insert_type kind (text_of type.name) (get_type_version type.version) type.description
          >>= λ id. insert_type_properties id type.properties >> pure id)
        (λ s q. q)
        (λ _.
          bind-Preserves OnLinks
            (insert_type kind (text_of type.name) (get_type_version type.version) type.description)
            (λ id. insert_type_properties id type.properties >> pure id) (λ s q. q)
            (λ id.
              bind-Preserves OnLinks (insert_type_properties id type.properties) (λ _. pure id)
                (insert_type_properties-Preserves id type.properties) (λ _ s q. q)))

  update_type_properties-Preserves :
      (t : ℕ) (stored given : List (String × PropertyType))
      → Preserves OnLinks (update_type_properties t stored given)
  unfolding update_type_properties
  update_type_properties-Preserves t stored [] db q = q
  update_type_properties-Preserves t stored ((k, v) ∷ given) db q =
      elim (Bool-cases (same_type v unknown)) [
        | inl bad ↦ rw bad q
        | inr good ↦ elim (Option-cases (lookup k stored)) [
          | inr (w, found) ↦ elim (Bool-cases (same_type w v)) [
            | inl same ↦
                rw (good, found, same) (update_type_properties-Preserves t stored given db q)
            | inr differs ↦ rw (good, found, differs) q
          ]
          | inl missing ↦
              rw (good, missing)
                (bind-Preserves OnLinks (insert_type_property t k v)
                  (λ _. update_type_properties t stored given)
                  (insert_type_property-Preserves t k v)
                  (λ _. update_type_properties-Preserves t stored given) db q)
        ]
      ]

  pub update_type-Preserves :
      (kind : Kind) (type : TypeMessage) → Preserves OnLinks (update_type kind type)
  unfolding update_type find_type_by_name_and_version
  update_type-Preserves kind type =
      let find =
        find_type_by_name_and_version kind (text_of type.name) (get_type_version type.version) in
      let write : TypeMessage → Exec Db (Unit {0}) =
        λ m. update_type_properties (number_of m.id) m.properties type.properties in
      bind-Preserves OnLinks (raise_if (not (is_set type.name)) invalid_argument)
        (λ _. find >>= λ m. raise_if (other_id type.id m.id) invalid_argument >> write m) (λ s q. q)
        (λ _.
          bind-Preserves OnLinks find
            (λ m. raise_if (other_id type.id m.id) invalid_argument >> write m) (λ s q. q)
            (λ m.
              bind-Preserves OnLinks (raise_if (other_id type.id m.id) invalid_argument)
                (λ _. write m) (λ s q. q)
                (λ _.
                  update_type_properties-Preserves (number_of m.id) m.properties type.properties)))

-- A new link is checked before it is written.
insert_parent_type-IsAcyclic :
    (t p : ℕ) (links : Links) (db : Db)
    → db.parent_types ≡ links
    → IsAcyclic (add_link links t p)
    → IsAcyclic links
    → IsAcyclic (with_unique_cast (insert_parent_type t p) db).1.parent_types
unfolding insert_parent_type
insert_parent_type-IsAcyclic t p links db e h g = elim (Bool-cases (has_row t p db.parent_types)) [
  | inl dup ↦ rw (dup, e) g
  | inr new ↦ rw (new, e) h
]

-- CreateParentTypeInheritanceLink keeps the links to parent types without cycles, whichever way it
-- returns.
pub create_parent_type_inheritance_link-IsAcyclic :
    (type parent_type : TypeMessage)
    → Preserves
        (λ (db : Db). IsAcyclic db.parent_types)
        (create_parent_type_inheritance_link type parent_type)
unfolding create_parent_type_inheritance_link
create_parent_type_inheritance_link-IsAcyclic type parent_type db h =
    let t = number_of type.id in
    let p = number_of parent_type.id in
    let (r, e, d) = check_cyclic_dependency_decides db.parent_types t p in
    elim (Bool-cases (not (is_set type.id) || not (is_set parent_type.id))) [
      | inl unset ↦ rw unset h
      | inr set ↦ elim (d) [
        | inl (good, apart) ↦
            rw (set, e, good)
              (insert_parent_type-IsAcyclic t p db.parent_types db refl
                (add_link-IsAcyclic db.parent_types t p h apart) h)
        | inr (bad, path) ↦ rw (set, e, bad) h
      ]
    ]
