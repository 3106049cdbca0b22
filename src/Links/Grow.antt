-- ===== src/Links/Grow.antt =====
-- The two insertions of Links add rows and take none away.
use ml_metadata_l_metadata_s.Prelude.{
  ℕ, ◌+◌, ◌≡◌, refl, true, ◌&&◌, Bool-cases, inl, inr, List, [], ◌∷◌, ◌++◌, ◌==◌, arith,
}
use ml_metadata_l_metadata_s.Status.{ok, err-ok}
use ml_metadata_l_metadata_s.Exec.Preserves.{Preserves}
use ml_metadata_l_metadata_s.Messages.{artifact, execution, context}
use ml_metadata_l_metadata_s.Tables.{Db, PairRow}
use ml_metadata_l_metadata_s.Tables.NodeQueries.{select_node_by_id}
use ml_metadata_l_metadata_s.Tables.LinkQueries.{has_pair, insert_association, insert_attribution}
use ml_metadata_l_metadata_s.Nodes.Keeps.{OnPairs}
use ml_metadata_l_metadata_s.Links.{
  no_rows, create_association, create_attribution, insert_association_if_not_exist,
  insert_attribution_if_not_exist,
}
use ml_metadata_l_metadata_s.Links.Linked.{has_pair_self}

pub has_pair-append :
    (c n : ℕ) (rows : List PairRow) (row : PairRow)
    → has_pair c n rows ≡ true
    → has_pair c n (rows ++ row ∷ []) ≡ true
unfolding has_pair
has_pair-append c n [] row h = ground arith
has_pair-append c n (r ∷ rows) row h = elim (Bool-cases (r.context_id == c && r.node_id == n)) [
  | inl hit ↦ rw hit refl
  | inr miss ↦ rw miss (has_pair-append c n rows row (rw miss at h))
]

-- After InsertAssociationIfNotExist has succeeded, the association is there.
pub insert_association_if_not_exist-has_pair :
    (c e : ℕ) (db : Db)
    → (insert_association_if_not_exist c e db).0 ≡ ok tt
    → has_pair c e (insert_association_if_not_exist c e db).1.associations ≡ true
unfolding insert_association_if_not_exist insert_association create_association
insert_association_if_not_exist-has_pair c e db h =
    elim (Bool-cases (no_rows (select_node_by_id c (db.nodes context)))) [
      | inl no_context ↦ absurd (err-ok (rw no_context at h))
      | inr a ↦ elim (Bool-cases (no_rows (select_node_by_id e (db.nodes execution)))) [
        | inl no_execution ↦ absurd (err-ok (rw (a, no_execution) at h))
        | inr b ↦ elim (Bool-cases (has_pair c e db.associations)) [
          | inl there ↦ rw (a, b, there) there
          | inr new ↦
              rw (a, b, new) (has_pair_self c e db.associations (db.last_association_id + 1))
        ]
      ]
    ]

pub insert_attribution_if_not_exist-has_pair :
    (c n : ℕ) (db : Db)
    → (insert_attribution_if_not_exist c n db).0 ≡ ok tt
    → has_pair c n (insert_attribution_if_not_exist c n db).1.attributions ≡ true
unfolding insert_attribution_if_not_exist insert_attribution create_attribution
insert_attribution_if_not_exist-has_pair c n db h =
    elim (Bool-cases (no_rows (select_node_by_id c (db.nodes context)))) [
      | inl no_context ↦ absurd (err-ok (rw no_context at h))
      | inr a ↦ elim (Bool-cases (no_rows (select_node_by_id n (db.nodes artifact)))) [
        | inl no_artifact ↦ absurd (err-ok (rw (a, no_artifact) at h))
        | inr b ↦ elim (Bool-cases (has_pair c n db.attributions)) [
          | inl there ↦ rw (a, b, there) there
          | inr new ↦
              rw (a, b, new) (has_pair_self c n db.attributions (db.last_attribution_id + 1))
        ]
      ]
    ]

-- A predicate that more rows keep is preserved.
pub record Grows {ℓ} (Q : List PairRow → List PairRow → Type ℓ) : Type ℓ where
  pub more_associations :
      (pairs others : List PairRow) (row : PairRow) → Q pairs others → Q (pairs ++ row ∷ []) others
  pub more_attributions :
      (pairs others : List PairRow) (row : PairRow) → Q pairs others → Q pairs (others ++ row ∷ [])

pub association-Grows : (c e : ℕ) → Grows (λ pairs others. has_pair c e pairs ≡ true)
association-Grows c e = record {
  more_associations = λ pairs others row h. has_pair-append c e pairs row h;
  more_attributions = λ pairs others row h. h;
}

pub attribution-Grows : (c n : ℕ) → Grows (λ pairs others. has_pair c n others ≡ true)
attribution-Grows c n = record {
  more_associations = λ pairs others row h. h;
  more_attributions = λ pairs others row h. has_pair-append c n others row h;
}

module _ {ℓ} (Q : List PairRow → List PairRow → Type ℓ) (grows : Grows Q) where
  pub insert_association_if_not_exist-OnPairs :
      (c e : ℕ) → Preserves (OnPairs Q) (insert_association_if_not_exist c e)
  unfolding insert_association_if_not_exist insert_association create_association
  insert_association_if_not_exist-OnPairs c e db q =
      elim (Bool-cases (no_rows (select_node_by_id c (db.nodes context)))) [
        | inl no_context ↦ rw no_context q
        | inr a ↦ elim (Bool-cases (no_rows (select_node_by_id e (db.nodes execution)))) [
          | inl no_execution ↦ rw (a, no_execution) q
          | inr b ↦ elim (Bool-cases (has_pair c e db.associations)) [
            | inl there ↦ rw (a, b, there) q
            | inr new ↦ rw (a, b, new) (grows.more_associations db.associations db.attributions _ q)
          ]
        ]
      ]

  pub insert_attribution_if_not_exist-OnPairs :
      (c n : ℕ) → Preserves (OnPairs Q) (insert_attribution_if_not_exist c n)
  unfolding insert_attribution_if_not_exist insert_attribution create_attribution
  insert_attribution_if_not_exist-OnPairs c n db q =
      elim (Bool-cases (no_rows (select_node_by_id c (db.nodes context)))) [
        | inl no_context ↦ rw no_context q
        | inr a ↦ elim (Bool-cases (no_rows (select_node_by_id n (db.nodes artifact)))) [
          | inl no_artifact ↦ rw (a, no_artifact) q
          | inr b ↦ elim (Bool-cases (has_pair c n db.attributions)) [
            | inl there ↦ rw (a, b, there) q
            | inr new ↦ rw (a, b, new) (grows.more_attributions db.associations db.attributions _ q)
          ]
        ]
      ]
