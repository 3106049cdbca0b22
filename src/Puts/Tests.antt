-- ===== src/Puts/Tests.antt =====
-- Links between two contexts, an execution and an artifact.
use ml_metadata_l_metadata_s.Prelude.{ℕ, ◌≡◌, refl, none, some, List, [], ◌∷◌}
use ml_metadata_l_metadata_s.Status.{ok}
use ml_metadata_l_metadata_s.Messages.{Kind, artifact, execution, context}
use ml_metadata_l_metadata_s.Ancestry.Acyclic.{IsAcyclic}
use ml_metadata_l_metadata_s.Tables.{Db, NodeRow, empty_db}
use ml_metadata_l_metadata_s.Tables.NodeQueries.{select_node_by_id}
use ml_metadata_l_metadata_s.Tables.LinkQueries.{has_pair, insert_association, insert_attribution}
use ml_metadata_l_metadata_s.Links.{
  create_association, create_attribution, insert_association_if_not_exist,
  insert_attribution_if_not_exist,
}
use ml_metadata_l_metadata_s.Puts.{put_attributions_and_associations, put_parent_contexts}
use ml_metadata_l_metadata_s.Puts.Linked.{HasAll, put_attributions_and_associations-HasAll}
use ml_metadata_l_metadata_s.Puts.NoCycles.{put_parent_contexts-IsAcyclic}

abbrev row : ℕ → NodeRow
row id = record {
  id = id;
  type_id = 1;
  name = some "a";
  uri = none;
  state = none;
  create_time = 0;
  update_time = 0;
}

abbrev nodes_of : Kind → List NodeRow
nodes_of context = row 1 ∷ row 2 ∷ []
nodes_of execution = row 5 ∷ []
nodes_of artifact = row 3 ∷ []

abbrev linked_db : Db
linked_db = record empty_db { nodes = nodes_of }

put-ok :
    (put_attributions_and_associations ((1, 3) ∷ (2, 3) ∷ (1, 3) ∷ []) ((2, 5) ∷ []) linked_db).0
    ≡ ok tt
unfolding put_attributions_and_associations select_node_by_id has_pair insert_association
    insert_attribution create_association create_attribution insert_association_if_not_exist
    insert_attribution_if_not_exist
put-ok = refl

put_attributions_and_associations-HasAll_example :
    HasAll
      ((1, 3) ∷ (2, 3) ∷ (1, 3) ∷ [])
      (put_attributions_and_associations
        ((1, 3) ∷ (2, 3) ∷ (1, 3) ∷ [])
        ((2, 5) ∷ [])
        linked_db).1.attributions
    × HasAll
        ((2, 5) ∷ [])
        (put_attributions_and_associations
          ((1, 3) ∷ (2, 3) ∷ (1, 3) ∷ [])
          ((2, 5) ∷ [])
          linked_db).1.associations
put_attributions_and_associations-HasAll_example =
    put_attributions_and_associations-HasAll ((1, 3) ∷ (2, 3) ∷ (1, 3) ∷ []) ((2, 5) ∷ []) linked_db
      put-ok

no_parents-IsAcyclic : IsAcyclic []
no_parents-IsAcyclic = record { no_cycle = λ a b l path. absurd l }

put_parent_contexts-IsAcyclic_example :
    IsAcyclic
      (put_parent_contexts ((some 1, some 2) ∷ (some 2, some 1) ∷ []) linked_db).1.parent_contexts
put_parent_contexts-IsAcyclic_example =
    put_parent_contexts-IsAcyclic ((some 1, some 2) ∷ (some 2, some 1) ∷ []) linked_db
      no_parents-IsAcyclic
