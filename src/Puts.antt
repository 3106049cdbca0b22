-- ===== src/Puts.antt =====
-- The handlers PutEvents, PutAttributionsAndAssociations and PutParentContexts of
-- ml_metadata/metadata_store/metadata_store.cc, inside their transactions.
pub mod Linked
pub mod NoCycles
mod Tests
use ml_metadata_l_metadata_s.Prelude.{ℕ, Option, List, [], ◌∷◌}
use ml_metadata_l_metadata_s.Exec.{Exec, pure, ◌>>◌}
use ml_metadata_l_metadata_s.Messages.{Event}
use ml_metadata_l_metadata_s.Tables.{Db}
use ml_metadata_l_metadata_s.Links.{
  create_event, create_parent_context, insert_association_if_not_exist,
  insert_attribution_if_not_exist,
}

-- PutEvents
unfoldable pub put_events : ℕ → List Event → Exec Db (Unit {0})
put_events now [] = pure tt
put_events now (event ∷ events) = create_event now event >> put_events now events

-- The two loops of PutAttributionsAndAssociations. An id that is not set reads as 0.
pub put_attributions : List (ℕ × ℕ) → Exec Db (Unit {0})
put_attributions [] = pure tt
put_attributions ((context_id, artifact_id) ∷ attributions) =
    insert_attribution_if_not_exist context_id artifact_id >> put_attributions attributions

pub put_associations : List (ℕ × ℕ) → Exec Db (Unit {0})
put_associations [] = pure tt
put_associations ((context_id, execution_id) ∷ associations) =
    insert_association_if_not_exist context_id execution_id >> put_associations associations

-- PutAttributionsAndAssociations
pub put_attributions_and_associations : List (ℕ × ℕ) → List (ℕ × ℕ) → Exec Db (Unit {0})
unfolding put_attributions put_associations
put_attributions_and_associations attributions associations =
    put_attributions attributions >> put_associations associations

-- PutParentContexts, of pairs of a parent and a child.
pub put_parent_contexts : List (Option ℕ × Option ℕ) → Exec Db (Unit {0})
put_parent_contexts [] = pure tt
put_parent_contexts ((parent_id, child_id) ∷ links) =
    create_parent_context parent_id child_id >> put_parent_contexts links
