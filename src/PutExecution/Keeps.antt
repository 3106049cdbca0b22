-- ===== src/PutExecution/Keeps.antt =====
-- The loops of PutExecution keep what more associations and attributions keep.
use ml_metadata_l_metadata_s.Prelude.{
  ℕ, Bool, true, false, not, ◌&&◌, Option, none, some, List, [], ◌∷◌, if◌then◌else◌,
}
use ml_metadata_l_metadata_s.Status.{invalid_argument}
use ml_metadata_l_metadata_s.Exec.{Exec, pure, lift, attempt, raise_if, ◌>>=◌, ◌>>◌}
use ml_metadata_l_metadata_s.Exec.Preserves.{Preserves, bind-Preserves}
use ml_metadata_l_metadata_s.Messages.{context, Node, is_set, number_of, text_of}
use ml_metadata_l_metadata_s.Tables.{Db, PairRow}
use ml_metadata_l_metadata_s.Values.{Codec}
use ml_metadata_l_metadata_s.Nodes.{upsert_node}
use ml_metadata_l_metadata_s.Nodes.Keeps.{OnPairs, upsert_node-OnPairs}
use ml_metadata_l_metadata_s.Links.{
  insert_association_if_not_exist, insert_attribution_if_not_exist,
}
use ml_metadata_l_metadata_s.Links.Grow.{
  Grows, insert_association_if_not_exist-OnPairs, insert_attribution_if_not_exist-OnPairs,
}
use ml_metadata_l_metadata_s.PutExecution.{
  find_context_id, find_reusable, reused_id, upsert_unless_found, race_status,
  upsert_context_with_options, attribute_all, put_contexts,
}

module _ {ℓ} (Q : List PairRow → List PairRow → Type ℓ) (grows : Grows Q) where
  find_reusable-OnPairs :
      (reuse : Bool) (node : Node) → Preserves (OnPairs Q) (find_reusable reuse node)
  unfolding find_context_id
  find_reusable-OnPairs reuse node = branch (reuse && not (is_set node.id))
    where
      branch :
          (b : Bool)
          → Preserves (OnPairs Q) (
              if b
              then (attempt (find_context_id (number_of node.type_id) (text_of node.name))
                  >>= λ status. lift (reused_id status))
              else pure none)
      branch true db q = q
      branch false db q = q

  upsert_unless_found-OnPairs :
      (codec : Codec) (now : ℕ) (node : Node) (reuse : Bool) (found : Option ℕ)
      → Preserves (OnPairs Q) (upsert_unless_found codec now node reuse found)
  upsert_unless_found-OnPairs codec now node reuse (some id) = λ db q. q
  upsert_unless_found-OnPairs codec now node reuse none =
      bind-Preserves (OnPairs Q) (attempt (upsert_node context codec now node))
        (λ status. lift (race_status reuse status)) (upsert_node-OnPairs Q context codec now node)
        (λ _ db q. q)

  upsert_context-OnPairs :
      (codec : Codec) (now : ℕ) (node : Node) (reuse : Bool)
      → Preserves (OnPairs Q) (upsert_context_with_options codec now node reuse)
  unfolding upsert_context_with_options
  upsert_context-OnPairs codec now node reuse =
      let go : Exec Db ℕ = find_reusable reuse node >>= upsert_unless_found codec now node reuse in
      bind-Preserves (OnPairs Q) (raise_if (not (is_set node.type_id)) invalid_argument)
        (λ _. raise_if (not (is_set node.name)) invalid_argument >> go) (λ db q. q)
        (λ _.
          bind-Preserves (OnPairs Q) (raise_if (not (is_set node.name)) invalid_argument) (λ _. go)
            (λ db q. q)
            (λ _.
              bind-Preserves (OnPairs Q) (find_reusable reuse node)
                (upsert_unless_found codec now node reuse) (find_reusable-OnPairs reuse node)
                (upsert_unless_found-OnPairs codec now node reuse)))

  pub attribute_all-OnPairs :
      (c : ℕ) (ids : List (Option ℕ)) → Preserves (OnPairs Q) (attribute_all c ids)
  unfolding attribute_all
  attribute_all-OnPairs c [] = λ db q. q
  attribute_all-OnPairs c (none ∷ ids) = λ db q. q
  attribute_all-OnPairs c (some id ∷ ids) =
      bind-Preserves (OnPairs Q) (insert_attribution_if_not_exist c id) (λ _. attribute_all c ids)
        (insert_attribution_if_not_exist-OnPairs Q grows c id) (λ _. attribute_all-OnPairs c ids)

  pub put_contexts-OnPairs :
      (codec : Codec) (now : ℕ) (reuse : Bool) (e : ℕ) (ids : List (Option ℕ)) (nodes : List Node)
      → Preserves (OnPairs Q) (put_contexts codec now reuse e ids nodes)
  unfolding put_contexts
  put_contexts-OnPairs codec now reuse e ids [] = λ db q. q
  put_contexts-OnPairs codec now reuse e ids (node ∷ nodes) =
      let put_rest = put_contexts codec now reuse e ids nodes in
      let answer : ℕ → Exec Db (List ℕ) = λ c. put_rest >>= λ cs. pure (c ∷ cs) in
      bind-Preserves (OnPairs Q) (upsert_context_with_options codec now node reuse)
        (λ c. insert_association_if_not_exist c e >> (attribute_all c ids >> answer c))
        (upsert_context-OnPairs codec now node reuse)
        (λ c.
          bind-Preserves (OnPairs Q) (insert_association_if_not_exist c e)
            (λ _. attribute_all c ids >> answer c)
            (insert_association_if_not_exist-OnPairs Q grows c e)
            (λ _.
              bind-Preserves (OnPairs Q) (attribute_all c ids) (λ _. answer c)
                (attribute_all-OnPairs c ids)
                (λ _.
                  bind-Preserves (OnPairs Q) put_rest (λ cs. pure (c ∷ cs))
                    (put_contexts-OnPairs codec now reuse e ids nodes) (λ _ db q. q))))
