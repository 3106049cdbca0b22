-- ===== src/Upsert/Keeps.antt =====
-- What UpsertTypeInheritanceLink preserves is what CreateParentTypeInheritanceLink preserves.
use ml_metadata_l_metadata_s.Prelude.{ℕ, String, Bool-cases, inl, inr, Option, none, some, [], ◌∷◌}
use ml_metadata_l_metadata_s.Status.{unimplemented, Result, ok, err}
use ml_metadata_l_metadata_s.Exec.{lift, gets, raise_if, ◌>>=◌, ◌>>◌}
use ml_metadata_l_metadata_s.Exec.Preserves.{Preserves, bind-Preserves}
use ml_metadata_l_metadata_s.Messages.{Kind, TypeMessage}
use ml_metadata_l_metadata_s.Tables.{Db}
use ml_metadata_l_metadata_s.Types.{
  find_type_by_name_and_version, create_parent_type_inheritance_link,
}
use ml_metadata_l_metadata_s.Types.Parents.{find_parent_types_by_type_id}
use ml_metadata_l_metadata_s.Upsert.{
  get_system_type_extension, is_unset_base_type, link_base, parent_of, settle_parent,
  upsert_type_inheritance_link,
}

module _ {ℓ} (P : Db → Type ℓ)
    (created : (type parent : TypeMessage)
      → Preserves P (create_parent_type_inheritance_link type parent)) where
  find_type-Preserves :
      (kind : Kind) (name : String) (version : Option String)
      → Preserves P (find_type_by_name_and_version kind name version)
  unfolding find_type_by_name_and_version
  find_type-Preserves kind name version = λ db h. h

  settle_parent-Preserves :
      (kind : Kind) (type : TypeMessage) (id : ℕ) (base_name : String) (parent : Option TypeMessage)
      → Preserves P (settle_parent kind type id base_name parent)
  unfolding settle_parent
  settle_parent-Preserves kind type id base_name (some parent) = λ db h. h
  settle_parent-Preserves kind type id base_name none =
      bind-Preserves P (find_type_by_name_and_version kind base_name none)
        (λ base. create_parent_type_inheritance_link (record type { id = some id }) base)
        (find_type-Preserves kind base_name none)
        (λ base. created (record type { id = some id }) base)

  -- The part that runs on a type with a base type.
  link_to_base-Preserves :
      (kind : Kind) (type : TypeMessage) (id : ℕ) (base_name : Result String)
      → Preserves P (do
        name ← lift base_name
        raise_if (is_unset_base_type name) unimplemented
        parents ← gets (find_parent_types_by_type_id kind (id ∷ []))
        found ← lift parents
        settle_parent kind type id name (parent_of id found))
  link_to_base-Preserves kind type id (err e) db h = h
  link_to_base-Preserves kind type id (ok name) db h = elim (Bool-cases (is_unset_base_type name)) [
    | inl unset ↦ rw unset h
    | inr named ↦ rw named (
        bind-Preserves P (lift (find_parent_types_by_type_id kind (id ∷ []) db))
          (λ found. settle_parent kind type id name (parent_of id found)) (λ s q. q)
          (λ found. settle_parent-Preserves kind type id name (parent_of id found)) db h)
  ]

  link_base-Preserves :
      (kind : Kind) (type : TypeMessage) (id : ℕ) (base : Option ℕ)
      → Preserves P (link_base kind type id base)
  link_base-Preserves kind type id none = λ db h. h
  link_base-Preserves kind type id (some base) =
      link_to_base-Preserves kind type id (get_system_type_extension kind (some base))

  pub upsert_type_inheritance_link-Preserves :
      (kind : Kind) (type : TypeMessage) (id : ℕ)
      → Preserves P (upsert_type_inheritance_link kind type id)
  unfolding upsert_type_inheritance_link
  upsert_type_inheritance_link-Preserves kind type id =
      link_base-Preserves kind type id type.base_type
