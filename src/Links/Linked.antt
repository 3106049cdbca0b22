-- ===== src/Links/Linked.antt =====
-- Associations and attributions are there after they were asked for, once.
use ml_metadata_l_metadata_s.Prelude.{
  ℕ, ◌+◌, ◌≡◌, refl, true, false, ◌&&◌, ==_iff, Bool-cases, inl, inr, List, [], ◌∷◌, ◌++◌, ◌==◌,
  if◌then◌else◌, arith,
}
use ml_metadata_l_metadata_s.Status.{ok}
use ml_metadata_l_metadata_s.Messages.{artifact, execution, context}
use ml_metadata_l_metadata_s.Tables.{Db, PairRow}
use ml_metadata_l_metadata_s.Tables.NodeQueries.{select_node_by_id}
use ml_metadata_l_metadata_s.Tables.LinkQueries.{has_pair, insert_association, insert_attribution}
use ml_metadata_l_metadata_s.Links.{
  no_rows, create_association, create_attribution, insert_association_if_not_exist,
  insert_attribution_if_not_exist,
}

pub has_pair_self :
    (c n : ℕ) (rows : List PairRow) (id : ℕ)
    → has_pair c n (rows ++ record { id = id; context_id = c; node_id = n } ∷ []) ≡ true
unfolding has_pair
has_pair_self c n [] id = rw ((==_iff c c).1 refl, (==_iff n n).1 refl) refl
has_pair_self c n (row ∷ rows) id = ground (arith, has_pair_self c n rows id)

true-false : ¬ (true ≡ false)
true-false h = ground arith

-- The number of rows with the pair.
pub count_pair : ℕ → ℕ → List PairRow → ℕ
count_pair c n [] = 0
count_pair c n (row ∷ rows) =
    let rest = count_pair c n rows in
    if row.context_id == c && row.node_id == n then rest + 1 else rest

count_pair-append :
    (c n : ℕ) (rows : List PairRow) (id : ℕ)
    → has_pair c n rows ≡ false
    → count_pair c n (rows ++ record { id = id; context_id = c; node_id = n } ∷ []) ≡ 1
unfolding has_pair count_pair
count_pair-append c n [] id h = rw ((==_iff c c).1 refl, (==_iff n n).1 refl) refl
count_pair-append c n (row ∷ rows) id h =
    elim (Bool-cases (row.context_id == c && row.node_id == n)) [
      | inl hit ↦ absurd (true-false (rw hit at h))
      | inr miss ↦ rw miss (count_pair-append c n rows id (rw miss at h))
    ]

-- InsertAssociationIfNotExist on a context and an execution that are there succeeds and leaves the
-- association in the table: as it was, if it was there, and else as one new row, so that calling it
-- again changes nothing.
pub insert_association_if_not_exist_once :
    (c e : ℕ) (db : Db)
    → no_rows (select_node_by_id c (db.nodes context)) ≡ false
    → no_rows (select_node_by_id e (db.nodes execution)) ≡ false
    → (db' : Db) × (insert_association_if_not_exist c e db ≡ (ok tt, db'))
      × (has_pair c e db'.associations ≡ true)
      × (count_pair c e db'.associations
          ≡ (if has_pair c e db.associations then count_pair c e db.associations else 1))
      × (insert_association_if_not_exist c e db' ≡ (ok tt, db'))
unfolding insert_association_if_not_exist insert_association create_association
insert_association_if_not_exist_once c e db context_there execution_there =
    elim (Bool-cases (has_pair c e db.associations)) [
      | inl there ↦
          let same : insert_association_if_not_exist c e db ≡ (ok tt, db) =
            rw (context_there, execution_there, there) refl in
          (db, same, there, rw there refl, same)
      | inr new ↦
          let row : PairRow = record {
            id = db.last_association_id + 1;
            context_id = c;
            node_id = e;
          } in
          let there = has_pair_self c e db.associations (db.last_association_id + 1) in
          (
            record db {
              associations = db.associations ++ row ∷ [];
              last_association_id = db.last_association_id + 1;
            },
            rw (context_there, execution_there, new) refl,
            there,
            rw new (count_pair-append c e db.associations (db.last_association_id + 1) new),
            rw (context_there, execution_there, there) refl,
          )
    ]

-- InsertAttributionIfNotExist on a context and an artifact that are there does the same for the
-- attribution.
pub insert_attribution_if_not_exist_once :
    (c a : ℕ) (db : Db)
    → no_rows (select_node_by_id c (db.nodes context)) ≡ false
    → no_rows (select_node_by_id a (db.nodes artifact)) ≡ false
    → (db' : Db) × (insert_attribution_if_not_exist c a db ≡ (ok tt, db'))
      × (has_pair c a db'.attributions ≡ true)
      × (count_pair c a db'.attributions
          ≡ (if has_pair c a db.attributions then count_pair c a db.attributions else 1))
      × (insert_attribution_if_not_exist c a db' ≡ (ok tt, db'))
unfolding insert_attribution_if_not_exist insert_attribution create_attribution
insert_attribution_if_not_exist_once c a db context_there artifact_there =
    elim (Bool-cases (has_pair c a db.attributions)) [
      | inl there ↦
          let same : insert_attribution_if_not_exist c a db ≡ (ok tt, db) =
            rw (context_there, artifact_there, there) refl in
          (db, same, there, rw there refl, same)
      | inr new ↦
          let row : PairRow = record {
            id = db.last_attribution_id + 1;
            context_id = c;
            node_id = a;
          } in
          let there = has_pair_self c a db.attributions (db.last_attribution_id + 1) in
          (
            record db {
              attributions = db.attributions ++ row ∷ [];
              last_attribution_id = db.last_attribution_id + 1;
            },
            rw (context_there, artifact_there, new) refl,
            there,
            rw new (count_pair-append c a db.attributions (db.last_attribution_id + 1) new),
            rw (context_there, artifact_there, there) refl,
          )
    ]
