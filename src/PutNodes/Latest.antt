-- ===== src/PutNodes/Latest.antt =====
-- PutArtifacts with `abort_if_latest_updated_time_changed` loses no update.
use ml_metadata_l_metadata_s.Prelude.{
  ℕ, ◌<◌, ◌≡◌, ap, sym, subst, ◌∙◌, Bool, true, false, not, ◌==◌, ==_iff, Bool-cases, inl, inr,
  Option, some, List, [], ◌∷◌, arith,
}
use ml_metadata_l_metadata_s.Status.{
  invalid_argument, is_not_found, Result, ok, err, err-ok, ok-injective,
}
use ml_metadata_l_metadata_s.Exec.{Exec, pure, lift, attempt, raise_if, bind-ok, ◌>>=◌}
use ml_metadata_l_metadata_s.Messages.{artifact, Node, is_set, number_of}
use ml_metadata_l_metadata_s.Tables.{Db}
use ml_metadata_l_metadata_s.Values.{Codec}
use ml_metadata_l_metadata_s.Nodes.{
  find_nodes, find_node, first_node, update_stored, same_fields, given_id_found, update_node,
  upsert_by_id, upsert_node,
}
use ml_metadata_l_metadata_s.Finds.{find_by_ids}
use ml_metadata_l_metadata_s.PutNodes.{
  same_latest, check_latest, put_artifact, put_artifacts_from, put_artifacts,
}
use ml_metadata_l_metadata_s.PutNodes.Updated.{
  Updated, update_stored-Updated, IsUpdated, NodesHaveTime, updated-found,
}

-- What an update that succeeds went through.
abbrev Went : Codec → ℕ → Node → ℕ → Db → Type 0
Went codec now node id db =
    (stored : Node) × (mid : Db) × ((find_node artifact codec id db).0 ≡ ok stored)
    × ((update_stored artifact codec now node stored mid).0 ≡ ok tt)
    × ((update_node artifact codec now node db).1
        ≡ (update_stored artifact codec now node stored mid).1)

given_id_found-ok :
    (found : Result Node) (stored : Node) → given_id_found found ≡ ok stored → found ≡ ok stored
given_id_found-ok (err c) stored h = elim (Bool-cases (is_not_found c)) [
  | inl missing ↦ absurd (err-ok (rw missing at h))
  | inr other ↦ absurd (err-ok (rw other at h))
]
given_id_found-ok (ok node) stored h = h

update_node-Went :
    (codec : Codec) (now : ℕ) (node : Node) (id : ℕ) (db : Db)
    → node.id ≡ some id
    → (update_node artifact codec now node db).0 ≡ ok tt
    → Went codec now node id db
unfolding update_node
update_node-Went codec now node id db has h =
    let search = find_node artifact codec (number_of node.id) in
    let give : Result Node → Exec Db (Unit {0}) =
      λ found. lift (given_id_found found) >>= update_stored artifact codec now node in
    let (_, _, searched, same) =
      bind-ok (raise_if (not (is_set node.id)) invalid_argument) (λ _. attempt search >>= give) db
        h in
    let (found, is_found, given, same_given) = bind-ok (attempt search) give db searched in
    let (stored, is_stored, done, same_done) =
      bind-ok (lift (given_id_found found)) (update_stored artifact codec now node) (search db).1
        given in
    (
      stored,
      (search db).1,
      subst (λ i. (find_node artifact codec (number_of i) db).0 ≡ ok stored) has
          (ok-injective is_found ∙ given_id_found-ok found stored is_stored),
      done,
      same ∙ same_given ∙ same_done,
    )

-- An upsert of an artifact with an id is an update.
upsert_node-Went :
    (codec : Codec) (now : ℕ) (node : Node) (id out : ℕ) (db : Db)
    → node.id ≡ some id
    → (upsert_node artifact codec now node db).0 ≡ ok out
    → Went codec now node id db
      × ((upsert_node artifact codec now node db).1 ≡ (update_node artifact codec now node db).1)
unfolding upsert_node
upsert_node-Went codec now node id out db has h =
    let run : Option ℕ → Exec Db ℕ = upsert_by_id artifact codec now node in
    let same_run : run node.id ≡ run (some id) = ap run has in
    let (_, updated, _, same) =
      bind-ok (update_node artifact codec now node) (λ _. pure id) db
        (sym (ap (λ (call : Exec Db ℕ). (call db).0) same_run) ∙ h) in
    (
      update_node-Went codec now node id db has updated,
      ap (λ (call : Exec Db ℕ). (call db).1) same_run ∙ same,
    )

-- A request whose first artifact went through.
put_artifact-Went :
    (codec : Codec) (abort : Bool) (now : ℕ) (node : Node) (id out : ℕ) (db : Db)
    → node.id ≡ some id
    → (put_artifact codec abort now node db).0 ≡ ok out
    → Went codec now node id db
      × ((put_artifact codec abort now node db).1 ≡ (update_node artifact codec now node db).1)
      × (check_latest codec abort node (some id) db ≡ ok tt)
put_artifact-Went codec abort now node id out db has h =
    let (_, checked, upserted, same) =
      bind-ok (λ (d : Db). (check_latest codec abort node node.id d, d))
        (λ _. upsert_node artifact codec now node) db h in
    let (went, same_update) = upsert_node-Went codec now node id out db has upserted in
    (went, same ∙ same_update, subst (λ i. check_latest codec abort node i db ≡ ok tt) has checked)

-- The head of a request.
abbrev put_rest : Codec → Bool → (ℕ → ℕ) → List Node → ℕ → Exec Db (List ℕ)
put_rest codec abort clock nodes id =
    put_artifacts_from codec abort clock 1 nodes >>= λ ids. pure (id ∷ ids)

put_artifacts-first :
    (codec : Codec) (abort : Bool) (clock : ℕ → ℕ) (node : Node) (nodes : List Node) (ids : List ℕ)
    (db : Db)
    → (put_artifacts codec abort clock (node ∷ nodes) db).0 ≡ ok ids
    → (id : ℕ) × ((put_artifact codec abort (clock 0) node db).0 ≡ ok id)
      × ((put_artifacts codec abort clock (node ∷ nodes) db).1
          ≡ (put_rest codec abort clock nodes id (put_artifact codec abort (clock 0) node db).1).1)
unfolding put_artifacts put_artifacts_from
put_artifacts-first codec abort clock node nodes ids db h =
    let (id, first, _, same) =
      bind-ok (put_artifact codec abort (clock 0) node) (put_rest codec abort clock nodes) db h in
    (id, first, same)

-- A node that is found is the first of a search by its id.
find_node-first :
    (codec : Codec) (id : ℕ) (db : Db) (stored : Node)
    → (find_node artifact codec id db).0 ≡ ok stored
    → (nodes : List Node) × (find_by_ids codec artifact (id ∷ []) db ≡ ok nodes)
      × (first_node nodes ≡ ok stored)
unfolding find_node find_nodes
find_node-first codec id db stored h =
    let (nodes, found, first, _) =
      bind-ok (find_nodes artifact codec (id ∷ []) true) (λ nodes. lift (first_node nodes)) db h in
    (nodes, found, first)

-- A check that passes against nodes that all have one time.
same_latest-time :
    (node : Node) (time : ℕ) (nodes : List Node) (stored : Node)
    → first_node nodes ≡ ok stored
    → NodesHaveTime time nodes
    → same_latest node (ok nodes) ≡ ok tt
    → number_of node.last_update_time_since_epoch ≡ time
same_latest-time node time [] stored first times h = absurd (err-ok first)
same_latest-time node time (existing ∷ nodes) stored first (at_time, times) h =
    elim (Bool-cases (
      number_of node.last_update_time_since_epoch
      == number_of existing.last_update_time_since_epoch)) [
        | inl same ↦ (==_iff _ _).0 same ∙ at_time
        | inr other ↦ absurd (err-ok (rw other at h))
      ]

-- After a PutArtifacts of one stored artifact that changes a field other than its properties, at a
-- time later than its last_update_time_since_epoch, has succeeded, a PutArtifacts with
-- abort_if_latest_updated_time_changed whose first artifact has that id and the older
-- last_update_time_since_epoch does not succeed, whatever else the artifact and the request hold.
pub put_artifacts-loses_no_update :
    (codec : Codec) (abort : Bool) (clock later : ℕ → ℕ) (first second : Node) (more : List Node)
    (id : ℕ) (stored : Node) (db : Db) (ids : List ℕ)
    → first.id ≡ some id
    → second.id ≡ some id
    → (find_node artifact codec id db).0 ≡ ok stored
    → number_of second.last_update_time_since_epoch ≡ number_of stored.last_update_time_since_epoch
    → same_fields first stored ≡ false
    → number_of stored.last_update_time_since_epoch < clock 0
    → (put_artifacts codec abort clock (first ∷ []) db).0 ≡ ok ids
    → (answer : List ℕ)
    → ¬ (
        (put_artifacts codec true later
          (second ∷ more)
          (put_artifacts codec abort clock (first ∷ []) db).1).0
        ≡ ok answer)
unfolding put_artifacts_from
put_artifacts-loses_no_update codec abort clock later first second more id stored db ids first_id
      second_id found read changed after h answer again =
    let (out, put, same) = put_artifacts-first codec abort clock first [] ids db h in
    let ((stored', mid, found', done, updated), put_same, _) =
      put_artifact-Went codec abort (clock 0) first id out db first_id put in
    let same_stored : stored ≡ stored' = ok-injective (sym found ∙ found') in
    let db' = (put_artifacts codec abort clock (first ∷ []) db).1 in
    let is_updated : IsUpdated id (clock 0) (db'.nodes artifact) =
      subst (λ (i : Option ℕ). IsUpdated (number_of i) (clock 0) (db'.nodes artifact)) first_id
        (subst (Updated codec (clock 0) first stored) (sym (same ∙ put_same ∙ updated)) (
          update_stored-Updated codec (clock 0) first stored'
            (ap (same_fields first) (sym same_stored) ∙ changed) mid tt done)) in
    let (out', put', _) = put_artifacts-first codec true later second more answer db' again in
    let ((stored2, _, found2, _, _), _, checked) =
      put_artifact-Went codec true (later 0) second id out' db' second_id put' in
    let (nodes, searched, head) = find_node-first codec id db' stored2 found2 in
    let time =
      same_latest-time second (clock 0) nodes stored2 head
        (updated-found codec id (clock 0) db' nodes is_updated searched)
        (ap (same_latest second) (sym searched) ∙ checked) in
    omega arith
