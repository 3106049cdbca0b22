-- ===== src/Upsert/NoCycles.antt =====
-- Upserting types keeps the parent links without cycles.
use ml_metadata_l_metadata_s.Prelude.{ℕ, Bool, not, Bool-cases, inl, inr, List, [], ◌∷◌}
use ml_metadata_l_metadata_s.Status.{is_not_found, Result, ok, err}
use ml_metadata_l_metadata_s.Exec.{Exec, pure, ◌>>=◌, ◌>>◌}
use ml_metadata_l_metadata_s.Exec.Preserves.{Preserves, bind-Preserves}
use ml_metadata_l_metadata_s.Messages.{
  Kind, artifact, execution, context, TypeMessage, text_of, number_of,
}
use ml_metadata_l_metadata_s.Ancestry.Acyclic.{IsAcyclic}
use ml_metadata_l_metadata_s.Tables.{Db}
use ml_metadata_l_metadata_s.Consistency.{check_fields_consistent}
use ml_metadata_l_metadata_s.Types.{find_type_by_name_and_version, create_type, update_type}
use ml_metadata_l_metadata_s.Types.NoCycles.{
  create_type-Preserves, update_type-Preserves, create_parent_type_inheritance_link-IsAcyclic,
}
use ml_metadata_l_metadata_s.Upsert.{
  TypeIds, TypeLists, upsert_type_inheritance_link, evolve_type, upsert_found, upsert_type,
  upsert_all, upsert_types,
}
use ml_metadata_l_metadata_s.Upsert.Keeps.{upsert_type_inheritance_link-Preserves}

abbrev pub HasNoCycle : Db → Type 0
HasNoCycle db = IsAcyclic db.parent_types

evolve_type-HasNoCycle :
    (kind : Kind) (type : TypeMessage) (can_add can_omit : Bool) (stored : TypeMessage)
    (r : Result TypeMessage)
    → Preserves HasNoCycle (evolve_type kind type can_add can_omit stored r)
evolve_type-HasNoCycle kind type can_add can_omit stored (err e) = λ db h. h
evolve_type-HasNoCycle kind type can_add can_omit stored (ok out) =
    let link = upsert_type_inheritance_link kind type (number_of stored.id) in
    bind-Preserves HasNoCycle (update_type kind out) (λ _. link >> pure (number_of stored.id))
      (update_type-Preserves IsAcyclic kind out)
      (λ _.
        bind-Preserves HasNoCycle link (λ _. pure (number_of stored.id))
          (upsert_type_inheritance_link-Preserves HasNoCycle
            create_parent_type_inheritance_link-IsAcyclic kind type (number_of stored.id))
          (λ _ s q. q))

upsert_found-HasNoCycle :
    (kind : Kind) (type : TypeMessage) (can_add can_omit : Bool) (r : Result TypeMessage)
    → Preserves HasNoCycle (upsert_found kind type can_add can_omit r)
upsert_found-HasNoCycle kind type can_add can_omit (ok stored) db h =
    evolve_type-HasNoCycle kind type can_add can_omit stored
      (check_fields_consistent stored type can_add can_omit) db h
upsert_found-HasNoCycle kind type can_add can_omit (err c) db h =
    elim (Bool-cases (not (is_not_found c))) [
      | inl other ↦ rw other h
      | inr absent ↦
          let link : ℕ → Exec Db (Unit {0}) = λ id. upsert_type_inheritance_link kind type id in
          rw absent (
            bind-Preserves HasNoCycle (create_type kind type) (λ id. link id >> pure id)
              (create_type-Preserves IsAcyclic kind type)
              (λ id.
                bind-Preserves HasNoCycle (link id) (λ _. pure id)
                  (upsert_type_inheritance_link-Preserves HasNoCycle
                    create_parent_type_inheritance_link-IsAcyclic kind type id)
                  (λ _ s q. q))
              db h)
    ]

-- Upserting a type keeps the links to parent types without cycles, whichever way it returns.
pub upsert_type-HasNoCycle :
    (kind : Kind) (type : TypeMessage) (can_add can_omit : Bool)
    → Preserves HasNoCycle (upsert_type kind type can_add can_omit)
unfolding upsert_type
upsert_type-HasNoCycle kind type can_add can_omit db h =
    upsert_found-HasNoCycle kind type can_add can_omit
      (find_type_by_name_and_version kind (text_of type.name) type.version db).0 db h

upsert_all-HasNoCycle :
    (kind : Kind) (types : List TypeMessage) (can_add can_omit : Bool)
    → Preserves HasNoCycle (upsert_all kind types can_add can_omit)
unfolding upsert_all
upsert_all-HasNoCycle kind [] can_add can_omit = λ db h. h
upsert_all-HasNoCycle kind (type ∷ types) can_add can_omit =
    let rest = upsert_all kind types can_add can_omit in
    bind-Preserves HasNoCycle (upsert_type kind type can_add can_omit)
      (λ id. rest >>= λ ids. pure (id ∷ ids)) (upsert_type-HasNoCycle kind type can_add can_omit)
      (λ id.
        bind-Preserves HasNoCycle rest (λ ids. pure (id ∷ ids))
          (upsert_all-HasNoCycle kind types can_add can_omit) (λ _ s q. q))

-- PutTypes and the start of a new store keep the links to parent types without cycles, whichever way
-- they return.
pub upsert_types-HasNoCycle :
    (types : TypeLists) (can_add can_omit : Bool)
    → Preserves HasNoCycle (upsert_types types can_add can_omit)
unfolding upsert_types
upsert_types-HasNoCycle types can_add can_omit =
    let artifacts = upsert_all artifact types.artifact_types can_add can_omit in
    let executions = upsert_all execution types.execution_types can_add can_omit in
    let contexts = upsert_all context types.context_types can_add can_omit in
    let answer : List ℕ → List ℕ → List ℕ → Exec Db TypeIds = λ a e c.
      pure record { artifact_type_ids = a; execution_type_ids = e; context_type_ids = c } in
    bind-Preserves HasNoCycle artifacts (λ a. executions >>= λ e. contexts >>= λ c. answer a e c)
      (upsert_all-HasNoCycle artifact types.artifact_types can_add can_omit)
      (λ a.
        bind-Preserves HasNoCycle executions (λ e. contexts >>= λ c. answer a e c)
          (upsert_all-HasNoCycle execution types.execution_types can_add can_omit)
          (λ e.
            bind-Preserves HasNoCycle contexts (λ c. answer a e c)
              (upsert_all-HasNoCycle context types.context_types can_add can_omit) (λ _ s q. q)))
