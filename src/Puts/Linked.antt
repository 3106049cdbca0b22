-- ===== src/Puts/Linked.antt =====
-- What PutAttributionsAndAssociations has written when it returns OK.
use ml_metadata_l_metadata_s.Prelude.{ℕ, ◌≡◌, true, List, [], ◌∷◌, ◌++◌}
use ml_metadata_l_metadata_s.Status.{ok}
use ml_metadata_l_metadata_s.Exec.{bind-ok}
use ml_metadata_l_metadata_s.Exec.Preserves.{Preserves, bind-Preserves}
use ml_metadata_l_metadata_s.Tables.{Db, PairRow}
use ml_metadata_l_metadata_s.Tables.LinkQueries.{has_pair}
use ml_metadata_l_metadata_s.Nodes.Keeps.{OnPairs}
use ml_metadata_l_metadata_s.Links.{
  insert_association_if_not_exist, insert_attribution_if_not_exist,
}
use ml_metadata_l_metadata_s.Links.Grow.{
  Grows, association-Grows, attribution-Grows, has_pair-append,
  insert_association_if_not_exist-OnPairs, insert_association_if_not_exist-has_pair,
  insert_attribution_if_not_exist-has_pair, insert_attribution_if_not_exist-OnPairs,
}
use ml_metadata_l_metadata_s.Puts.{
  put_attributions, put_associations, put_attributions_and_associations,
}

-- Every one of the pairs is in the table.
pub HasAll : List (ℕ × ℕ) → List PairRow → Type 0
HasAll [] rows = Unit
HasAll ((c, n) ∷ pairs) rows = (has_pair c n rows ≡ true) × HasAll pairs rows

HasAll-append :
    (pairs : List (ℕ × ℕ)) (rows : List PairRow) (row : PairRow)
    → HasAll pairs rows
    → HasAll pairs (rows ++ row ∷ [])
unfolding HasAll
HasAll-append [] rows row h = tt
HasAll-append ((c, n) ∷ pairs) rows row (first, rest) =
    (has_pair-append c n rows row first, HasAll-append pairs rows row rest)

HasAll-Grows :
    (pairs : List (ℕ × ℕ)) → Grows (λ associations attributions. HasAll pairs attributions)
HasAll-Grows pairs = record {
  more_associations = λ associations attributions row h. h;
  more_attributions = λ associations attributions row h. HasAll-append pairs attributions row h;
}

module _ {ℓ} (Q : List PairRow → List PairRow → Type ℓ) (grows : Grows Q) where
  put_attributions-OnPairs : (pairs : List (ℕ × ℕ)) → Preserves (OnPairs Q) (put_attributions pairs)
  unfolding put_attributions
  put_attributions-OnPairs [] = λ db q. q
  put_attributions-OnPairs ((c, n) ∷ pairs) =
      bind-Preserves (OnPairs Q) (insert_attribution_if_not_exist c n) (λ _. put_attributions pairs)
        (insert_attribution_if_not_exist-OnPairs Q grows c n) (λ _. put_attributions-OnPairs pairs)

  put_associations-OnPairs : (pairs : List (ℕ × ℕ)) → Preserves (OnPairs Q) (put_associations pairs)
  unfolding put_associations
  put_associations-OnPairs [] = λ db q. q
  put_associations-OnPairs ((c, e) ∷ pairs) =
      bind-Preserves (OnPairs Q) (insert_association_if_not_exist c e) (λ _. put_associations pairs)
        (insert_association_if_not_exist-OnPairs Q grows c e) (λ _. put_associations-OnPairs pairs)

put_attributions-HasAll :
    (pairs : List (ℕ × ℕ)) (db : Db)
    → (put_attributions pairs db).0 ≡ ok tt
    → HasAll pairs (put_attributions pairs db).1.attributions
unfolding put_attributions HasAll
put_attributions-HasAll [] db h = tt
put_attributions-HasAll ((c, n) ∷ pairs) db h =
    let (_, first, rest, same) =
      bind-ok (insert_attribution_if_not_exist c n) (λ _. put_attributions pairs) db h in
    let db1 = (insert_attribution_if_not_exist c n db).1 in
    rw same (
      put_attributions-OnPairs (λ _ attributions. has_pair c n attributions ≡ true)
          (attribution-Grows c n) pairs db1 (insert_attribution_if_not_exist-has_pair c n db first),
      put_attributions-HasAll pairs db1 rest,
    )

put_associations-HasAll :
    (pairs : List (ℕ × ℕ)) (db : Db)
    → (put_associations pairs db).0 ≡ ok tt
    → HasAll pairs (put_associations pairs db).1.associations
unfolding put_associations HasAll
put_associations-HasAll [] db h = tt
put_associations-HasAll ((c, e) ∷ pairs) db h =
    let (_, first, rest, same) =
      bind-ok (insert_association_if_not_exist c e) (λ _. put_associations pairs) db h in
    let db1 = (insert_association_if_not_exist c e db).1 in
    rw same (
      put_associations-OnPairs (λ associations _. has_pair c e associations ≡ true)
          (association-Grows c e) pairs db1 (insert_association_if_not_exist-has_pair c e db first),
      put_associations-HasAll pairs db1 rest,
    )

-- When PutAttributionsAndAssociations returns OK, every attribution and every association of the
-- request is in its table.
pub put_attributions_and_associations-HasAll :
    (attributions associations : List (ℕ × ℕ)) (db : Db)
    → (put_attributions_and_associations attributions associations db).0 ≡ ok tt
    → HasAll attributions
        (put_attributions_and_associations attributions associations db).1.attributions
      × HasAll associations
          (put_attributions_and_associations attributions associations db).1.associations
unfolding put_attributions_and_associations
put_attributions_and_associations-HasAll attributions associations db h =
    let (_, first, rest, same) =
      bind-ok (put_attributions attributions) (λ _. put_associations associations) db h in
    let db1 = (put_attributions attributions db).1 in
    rw same (
      put_associations-OnPairs (λ _ rows. HasAll attributions rows) (HasAll-Grows attributions)
          associations db1 (put_attributions-HasAll attributions db first),
      put_associations-HasAll associations db1 rest,
    )
