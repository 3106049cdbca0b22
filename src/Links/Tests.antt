-- ===== src/Links/Tests.antt =====
-- A store with two contexts, one execution and one artifact.
use ml_metadata_l_metadata_s.Prelude.{ℕ, ◌≡◌, refl, true, none, some, List, [], ◌∷◌, if◌then◌else◌}
use ml_metadata_l_metadata_s.Status.{ok}
use ml_metadata_l_metadata_s.Messages.{Kind, artifact, execution, context}
use ml_metadata_l_metadata_s.Ancestry.Acyclic.{IsAcyclic}
use ml_metadata_l_metadata_s.Tables.{Db, NodeRow, empty_db}
use ml_metadata_l_metadata_s.Tables.NodeQueries.{select_node_by_id}
use ml_metadata_l_metadata_s.Tables.LinkQueries.{has_pair}
use ml_metadata_l_metadata_s.Links.{
  insert_association_if_not_exist, insert_attribution_if_not_exist, create_parent_context,
}
use ml_metadata_l_metadata_s.Links.NoCycles.{create_parent_context-IsAcyclic}
use ml_metadata_l_metadata_s.Links.Linked.{
  count_pair, insert_association_if_not_exist_once, insert_attribution_if_not_exist_once,
}

abbrev row : ℕ → NodeRow
row id = record {
  id = id;
  type_id = 1;
  name = some "a";
  uri = none;
  state = none;
  create_time = 0;
  update_time = 0;
}

abbrev three_nodes : Kind → List NodeRow
three_nodes context = row 1 ∷ row 2 ∷ []
three_nodes execution = row 5 ∷ []
three_nodes artifact = row 3 ∷ []

abbrev node_db : Db
node_db = record empty_db { nodes = three_nodes }

insert_association_if_not_exist_once_example :
    (db' : Db) × (insert_association_if_not_exist 2 5 node_db ≡ (ok tt, db'))
    × (has_pair 2 5 db'.associations ≡ true)
    × (count_pair 2 5 db'.associations
        ≡ (if has_pair 2 5 node_db.associations then count_pair 2 5 node_db.associations else 1))
    × (insert_association_if_not_exist 2 5 db' ≡ (ok tt, db'))
unfolding select_node_by_id
insert_association_if_not_exist_once_example =
    insert_association_if_not_exist_once 2 5 node_db refl refl

insert_attribution_if_not_exist_once_example :
    (db' : Db) × (insert_attribution_if_not_exist 1 3 node_db ≡ (ok tt, db'))
    × (has_pair 1 3 db'.attributions ≡ true)
    × (count_pair 1 3 db'.attributions
        ≡ (if has_pair 1 3 node_db.attributions then count_pair 1 3 node_db.attributions else 1))
    × (insert_attribution_if_not_exist 1 3 db' ≡ (ok tt, db'))
unfolding select_node_by_id
insert_attribution_if_not_exist_once_example =
    insert_attribution_if_not_exist_once 1 3 node_db refl refl

no_links-IsAcyclic : IsAcyclic []
no_links-IsAcyclic = record { no_cycle = λ a b l path. absurd l }

create_parent_context-IsAcyclic_example :
    IsAcyclic (create_parent_context (some 1) (some 2) node_db).1.parent_contexts
create_parent_context-IsAcyclic_example =
    create_parent_context-IsAcyclic (some 1) (some 2) node_db no_links-IsAcyclic
