-- ===== src/Links/NoCycles.antt =====
-- The hierarchy of contexts has no cycle.
use ml_metadata_l_metadata_s.Prelude.{
  ℕ, ◌≡◌, refl, not, ◌||◌, Bool-cases, inl, inr, Option, [], ◌∷◌, ltb, length,
}
use ml_metadata_l_metadata_s.Exec.Preserves.{Preserves}
use ml_metadata_l_metadata_s.Messages.{context, is_set, number_of}
use ml_metadata_l_metadata_s.Ancestry.{Links}
use ml_metadata_l_metadata_s.Ancestry.Decides.{check_cyclic_dependency_decides}
use ml_metadata_l_metadata_s.Ancestry.Acyclic.{IsAcyclic, add_link, add_link-IsAcyclic}
use ml_metadata_l_metadata_s.Tables.{Db}
use ml_metadata_l_metadata_s.Tables.TypeQueries.{has_row}
use ml_metadata_l_metadata_s.Tables.LinkQueries.{insert_parent_context}
use ml_metadata_l_metadata_s.Types.{with_unique_cast}
use ml_metadata_l_metadata_s.Nodes.{select_nodes_by_ids}
use ml_metadata_l_metadata_s.Links.{create_parent_context}

insert_parent_context-IsAcyclic :
    (p c : ℕ) (links : Links) (db : Db)
    → db.parent_contexts ≡ links
    → IsAcyclic (add_link links c p)
    → IsAcyclic links
    → IsAcyclic (with_unique_cast (insert_parent_context p c) db).1.parent_contexts
unfolding insert_parent_context
insert_parent_context-IsAcyclic p c links db e h g =
    elim (Bool-cases (has_row c p db.parent_contexts)) [
      | inl dup ↦ rw (dup, e) g
      | inr new ↦ rw (new, e) h
    ]

-- CreateParentContext keeps the hierarchy of contexts without cycles, whichever way it returns.
pub create_parent_context-IsAcyclic :
    (parent_id child_id : Option ℕ)
    → Preserves
        (λ (db : Db). IsAcyclic db.parent_contexts)
        (create_parent_context parent_id child_id)
unfolding create_parent_context
create_parent_context-IsAcyclic parent_id child_id db h =
    let p = number_of parent_id in
    let c = number_of child_id in
    let (r, e, d) = check_cyclic_dependency_decides db.parent_contexts c p in
    elim (Bool-cases (not (is_set parent_id) || not (is_set child_id))) [
      | inl unset ↦ rw unset h
      | inr set ↦
          elim (Bool-cases (ltb (length (select_nodes_by_ids (p ∷ c ∷ []) (db.nodes context))) 2)) [
            | inl missing ↦ rw (set, missing) h
            | inr there ↦ elim d [
              | inl (good, apart) ↦
                  rw (set, there, e, good)
                    (insert_parent_context-IsAcyclic p c db.parent_contexts db refl
                      (add_link-IsAcyclic db.parent_contexts c p h apart) h)
              | inr (bad, path) ↦ rw (set, there, e, bad) h
            ]
          ]
    ]
