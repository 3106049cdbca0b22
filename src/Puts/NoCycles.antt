-- ===== src/Puts/NoCycles.antt =====
-- PutParentContexts and the hierarchy of contexts.
use ml_metadata_l_metadata_s.Prelude.{ℕ, Option, List, [], ◌∷◌}
use ml_metadata_l_metadata_s.Exec.Preserves.{Preserves, bind-Preserves}
use ml_metadata_l_metadata_s.Ancestry.Acyclic.{IsAcyclic}
use ml_metadata_l_metadata_s.Tables.{Db}
use ml_metadata_l_metadata_s.Links.{create_parent_context}
use ml_metadata_l_metadata_s.Links.NoCycles.{create_parent_context-IsAcyclic}
use ml_metadata_l_metadata_s.Puts.{put_parent_contexts}

-- PutParentContexts keeps the hierarchy of contexts without cycles, for links that form a cycle
-- among themselves too and whichever way it returns.
pub put_parent_contexts-IsAcyclic :
    (links : List (Option ℕ × Option ℕ))
    → Preserves (λ (db : Db). IsAcyclic db.parent_contexts) (put_parent_contexts links)
unfolding put_parent_contexts
put_parent_contexts-IsAcyclic [] = λ db h. h
put_parent_contexts-IsAcyclic ((parent_id, child_id) ∷ links) =
    bind-Preserves (λ (db : Db). IsAcyclic db.parent_contexts)
      (create_parent_context parent_id child_id) (λ _. put_parent_contexts links)
      (create_parent_context-IsAcyclic parent_id child_id)
      (λ _. put_parent_contexts-IsAcyclic links)
