-- ===== src/PutExecution/Reuse.antt =====
-- UpsertContextWithOptions with `reuse_context_if_already_exist`.
use ml_metadata_l_metadata_s.Prelude.{
  ℕ, String, ◌≡◌, refl, ap, true, false, none, some, List, [], ◌∷◌,
}
use ml_metadata_l_metadata_s.Status.{
  cancelled, invalid_argument, not_found, already_exists, failed_precondition, aborted,
  out_of_range, unimplemented, internal, unique_violation, data_loss, duplicate_key_name, fatal,
  Result, ok, err,
}
use ml_metadata_l_metadata_s.Exec.{continue}
use ml_metadata_l_metadata_s.Messages.{context, Node, is_set, number_of, text_of}
use ml_metadata_l_metadata_s.Tables.{Db}
use ml_metadata_l_metadata_s.Values.{Codec}
use ml_metadata_l_metadata_s.Nodes.{upsert_node}
use ml_metadata_l_metadata_s.PutExecution.{
  context_ids_named, only_id, find_context_id, upsert_context_with_options, race_status, reused_id,
  upsert_unless_found,
}

-- What the caller is told of a creation: of two requests that race, the one that loses is told
-- ABORTED in place of ALREADY_EXISTS, and every other status is handed on.
abbrev pub told : Result ℕ → Result ℕ
told (ok id) = ok id
told (err already_exists) = err aborted
told (err cancelled) = err cancelled
told (err invalid_argument) = err invalid_argument
told (err not_found) = err not_found
told (err failed_precondition) = err failed_precondition
told (err aborted) = err aborted
told (err out_of_range) = err out_of_range
told (err unimplemented) = err unimplemented
told (err internal) = err internal
told (err unique_violation) = err unique_violation
told (err data_loss) = err data_loss
told (err duplicate_key_name) = err duplicate_key_name
told (err fatal) = err fatal

race_status-told : (status : Result ℕ) → race_status true status ≡ told status
race_status-told (ok id) = refl
race_status-told (err already_exists) = refl
race_status-told (err cancelled) = refl
race_status-told (err invalid_argument) = refl
race_status-told (err not_found) = refl
race_status-told (err failed_precondition) = refl
race_status-told (err aborted) = refl
race_status-told (err out_of_range) = refl
race_status-told (err unimplemented) = refl
race_status-told (err internal) = refl
race_status-told (err unique_violation) = refl
race_status-told (err data_loss) = refl
race_status-told (err duplicate_key_name) = refl
race_status-told (err fatal) = refl

-- The answer by the contexts of the type and name, and what a creation would give: one is reused,
-- none is created; two break what the table promises.
abbrev pub reuse_answer : List ℕ → Result ℕ × Db → Db → Result ℕ × Db
reuse_answer [] created db = (told created.0, created.1)
reuse_answer (id ∷ []) created db = (ok id, db)
reuse_answer (id ∷ _ ∷ _) created db = (err fatal, db)

-- A request to reuse a context, with a type and a name and no id, finds the one context of that type
-- and name and writes nothing; where there is none, it creates it, and answers with the status of
-- the creation, but with ABORTED where that is ALREADY_EXISTS; where there are two, it fails.
pub upsert_context_with_options_reuses :
    (codec : Codec) (now : ℕ) (node : Node) (t : ℕ) (name : String) (db : Db)
    → node.id ≡ none
    → node.type_id ≡ some t
    → node.name ≡ some name
    → upsert_context_with_options codec now node true db
      ≡ reuse_answer
          (context_ids_named t name (db.nodes context))
          (upsert_node context codec now node db)
          db
unfolding upsert_context_with_options find_context_id
upsert_context_with_options_reuses codec now node t name db no_id typed named =
    let has_type : is_set node.type_id ≡ true = ap is_set typed in
    let has_name : is_set node.name ≡ true = ap is_set named in
    let has_no_id : is_set node.id ≡ false = ap is_set no_id in
    let type_eq : number_of node.type_id ≡ t = ap number_of typed in
    let name_eq : text_of node.name ≡ name = ap text_of named in
    rw (has_type, has_name, has_no_id, type_eq, name_eq)
      (by_ids (context_ids_named t name (db.nodes context)))
  where
    by_ids :
        (ids : List ℕ)
        → (continue (reused_id (only_id ids)) (upsert_unless_found codec now node true) db)
          ≡ reuse_answer ids (upsert_node context codec now node db) db
    by_ids [] =
        let (status, db') = upsert_node context codec now node db in
        ap (λ answer. (answer, db')) (race_status-told status)
    by_ids (id ∷ []) = refl
    by_ids (id ∷ _ ∷ _) = refl
