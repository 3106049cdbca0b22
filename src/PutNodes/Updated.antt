-- ===== src/PutNodes/Updated.antt =====
-- What an update leaves in the rows of the artifact, and what a search reads of it.
use ml_metadata_l_metadata_s.Prelude.{
  ℕ, ◌+◌, String, ◌≡◌, refl, ap, sym, subst, ◌∙◌, Bool, true, false, not, ◌||◌, ◌==◌, ==_iff,
  Bool-cases, inl, inr, Option, List, [], ◌∷◌, ltb, if◌then◌else◌, arith,
}
use ml_metadata_l_metadata_s.Status.{invalid_argument, Result, ok, err, err-ok, ok-injective}
use ml_metadata_l_metadata_s.Exec.{Exec, pure, lift, raise_if, bind-ok, ◌>>=◌}
use ml_metadata_l_metadata_s.Messages.{text_of, Value, artifact, TypeMessage, Node, number_of}
use ml_metadata_l_metadata_s.Tables.{Db, NodeRow, PropertyRow}
use ml_metadata_l_metadata_s.Tables.NodeQueries.{
  update_node_rows, update_node_direct, taken_by_other, new_name,
}
use ml_metadata_l_metadata_s.Types.{find_type_by_id}
use ml_metadata_l_metadata_s.Types.Parents.{has_id}
use ml_metadata_l_metadata_s.Values.{Codec}
use ml_metadata_l_metadata_s.Properties.{validate_properties, modify_properties}
use ml_metadata_l_metadata_s.Nodes.{
  on_properties, node_message, read_node, add_node, read_nodes, select_nodes_by_ids, find_nodes,
  run_node_update, update_stored, other_type, same_fields,
}
use ml_metadata_l_metadata_s.Nodes.Found.{all_found-ok}
use ml_metadata_l_metadata_s.Finds.{find_by_ids}

-- Every row has the time.
abbrev HaveTime : ℕ → List NodeRow → Type 0
HaveTime time [] = Unit {0}
HaveTime time (row ∷ rows) = (row.update_time ≡ time) × HaveTime time rows

-- Every row with the id has the time.
abbrev pub IsUpdated : ℕ → ℕ → List NodeRow → Type 0
IsUpdated id time [] = Unit {0}
IsUpdated id time (row ∷ rows) = (row.id ≡ id → row.update_time ≡ time) × IsUpdated id time rows

update_node_rows-IsUpdated :
    (id type_id : ℕ) (uri : String) (state : Option ℕ) (name : Option String) (now : ℕ)
    (rows : List NodeRow)
    → IsUpdated id now (update_node_rows artifact id type_id uri state name now rows)
unfolding update_node_rows
update_node_rows-IsUpdated id type_id uri state name now [] = tt
update_node_rows-IsUpdated id type_id uri state name now (row ∷ rows) =
    let rest = update_node_rows-IsUpdated id type_id uri state name now rows in
    elim (Bool-cases (row.id == id)) [
      | inl same ↦ rw same ((λ _. refl), rest)
      | inr other ↦ rw other ((λ same. absurd (other_id row.id id other same)), rest)
    ]
  where
    other_id : (a b : ℕ) → (a == b) ≡ false → ¬ (a ≡ b)
    other_id a b h e = ground arith

selected-HaveTime :
    (id time : ℕ) (rows : List NodeRow)
    → IsUpdated id time rows
    → HaveTime time (select_nodes_by_ids (id ∷ []) rows)
unfolding select_nodes_by_ids has_id
selected-HaveTime id time [] updated = tt
selected-HaveTime id time (row ∷ rows) (first, updated) =
    let rest = selected-HaveTime id time rows updated in
    elim (Bool-cases (id == row.id)) [
      | inl same ↦ rw same (first (sym ((==_iff id row.id).0 same)), rest)
      | inr other ↦ rw other rest
    ]

node_message-time :
    (row : NodeRow) (properties custom : Result (List (String × Value))) (node : Node)
    → node_message row properties custom ≡ ok node
    → row.update_time ≡ number_of node.last_update_time_since_epoch
node_message-time row (err c) custom node h = absurd (err-ok h)
node_message-time row (ok properties) (err c) node h = absurd (err-ok h)
node_message-time row (ok properties) (ok custom) node h =
    ap (λ (n : Node). number_of n.last_update_time_since_epoch) (ok-injective h)

-- Every node has the time.
abbrev pub NodesHaveTime : ℕ → List Node → Type 0
NodesHaveTime time [] = Unit {0}
NodesHaveTime time (node ∷ nodes) =
    (number_of node.last_update_time_since_epoch ≡ time) × NodesHaveTime time nodes

add_node-HaveTime :
    (time : ℕ) (first : Result Node) (rest : Result (List Node)) (nodes : List Node)
    → ((node : Node) → first ≡ ok node → number_of node.last_update_time_since_epoch ≡ time)
    → ((found : List Node) → rest ≡ ok found → NodesHaveTime time found)
    → add_node first rest ≡ ok nodes
    → NodesHaveTime time nodes
add_node-HaveTime time (err c) rest nodes one more h = absurd (err-ok h)
add_node-HaveTime time (ok node) (err c) nodes one more h = absurd (err-ok h)
add_node-HaveTime time (ok node) (ok found) nodes one more h =
    subst (NodesHaveTime time) (ok-injective h) (one node refl, more found refl)

read_nodes-HaveTime :
    (codec : Codec) (properties : List PropertyRow) (time : ℕ) (rows : List NodeRow)
    (nodes : List Node)
    → HaveTime time rows
    → read_nodes codec properties rows ≡ ok nodes
    → NodesHaveTime time nodes
unfolding read_nodes read_node
read_nodes-HaveTime codec properties time [] nodes times h =
    subst (NodesHaveTime time) (ok-injective h) tt
read_nodes-HaveTime codec properties time (row ∷ rows) nodes (first, times) h =
    add_node-HaveTime time (read_node codec properties row) (read_nodes codec properties rows) nodes
      (λ node e. sym (node_message-time row _ _ node e) ∙ first)
      (λ found e. read_nodes-HaveTime codec properties time rows found times e) h

-- An artifact that was updated is found with the time of the update, if it is found.
pub updated-found :
    (codec : Codec) (id time : ℕ) (db : Db) (nodes : List Node)
    → IsUpdated id time (db.nodes artifact)
    → find_by_ids codec artifact (id ∷ []) db ≡ ok nodes
    → NodesHaveTime time nodes
unfolding find_nodes
updated-found codec id time db nodes updated h =
    let rows = select_nodes_by_ids (id ∷ []) (db.nodes artifact) in
    read_nodes-HaveTime codec (db.properties artifact) time rows nodes
      (selected-HaveTime id time (db.nodes artifact) updated)
      (all_found-ok 1 true (read_nodes codec (db.properties artifact) rows) nodes h)

run_node_update-IsUpdated :
    (now : ℕ) (node : Node) (db : Db)
    → (run_node_update artifact now node db).0 ≡ ok tt
    → IsUpdated (number_of node.id) now ((run_node_update artifact now node db).1.nodes artifact)
unfolding update_node_direct
run_node_update-IsUpdated now node db h =
    let rows =
      update_node_rows artifact (number_of node.id) (number_of node.type_id) (text_of node.uri)
        node.state node.name now (db.nodes artifact) in
    elim (Bool-cases (
      taken_by_other (number_of node.id) (number_of node.type_id)
        (new_name artifact (number_of node.id) node.name (db.nodes artifact))
        (db.nodes artifact))) [
          | inl taken ↦ absurd (err-ok (rw taken at h))
          | inr free ↦ rw free (
              update_node_rows-IsUpdated (number_of node.id) (number_of node.type_id)
                (text_of node.uri) node.state node.name now (db.nodes artifact))
        ]

-- What a method that succeeds leaves.
abbrev Gives : {A : Type 0} → (Db → Type 0) → Exec Db A → Type 0
Gives {A = A} Q call = (db : Db) (out : A) → (call db).0 ≡ ok out → Q (call db).1

bind-Gives :
    {A B : Type 0} (Q : Db → Type 0) (first : Exec Db A) (next : A → Exec Db B)
    → ((a : A) → Gives Q (next a))
    → Gives Q (first >>= next)
bind-Gives Q first next gives db out h =
    let (a, _, later, same) = bind-ok first next db h in
    subst Q (sym same) (gives a (first db).1 out later)

module _ (codec : Codec) (now : ℕ) (node stored : Node) where
  abbrev pub settle : ℕ → ℕ → Exec Db (Unit {0})
  settle m n =
      if not (same_fields node stored) || ltb 0 (m + n)
      then run_node_update artifact now node
      else pure tt

  abbrev write_custom : ℕ → Exec Db (Unit {0})
  write_custom m =
      on_properties artifact (
        modify_properties codec node.custom_properties stored.custom_properties (number_of node.id)
          true)
      >>= settle m

  abbrev write_both : Exec Db (Unit {0})
  write_both =
      on_properties artifact
        (modify_properties codec node.properties stored.properties (number_of node.id) false)
      >>= write_custom

  abbrev validate : TypeMessage → Exec Db (Unit {0})
  validate type = lift (validate_properties node.properties type.properties) >>= λ _. write_both

  abbrev pub Updated : Db → Type 0
  Updated db = IsUpdated (number_of node.id) now (db.nodes artifact)

  settle-Updated : (m n : ℕ) → same_fields node stored ≡ false → Gives Updated (settle m n)
  settle-Updated m n changed db out h =
      let run : Bool → Exec Db (Unit {0}) =
        λ same. if not same || ltb 0 (m + n) then run_node_update artifact now node else pure tt in
      let same_run : settle m n ≡ run_node_update artifact now node = ap run changed in
      subst (λ (call : Exec Db (Unit {0})). Updated (call db).1) (sym same_run)
        (run_node_update-IsUpdated now node db
          (sym (ap (λ (call : Exec Db (Unit {0})). (call db).0) same_run) ∙ h))

  -- An update that changes a field leaves its time in the rows with the id.
  pub update_stored-Updated :
      same_fields node stored ≡ false → Gives Updated (update_stored artifact codec now node stored)
  update_stored-Updated changed =
      bind-Gives Updated (raise_if (other_type node.type_id stored.type_id) invalid_argument)
        (λ _. find_type_by_id artifact (number_of stored.type_id) >>= validate)
        (λ _.
          bind-Gives Updated (find_type_by_id artifact (number_of stored.type_id)) validate (λ type.
            bind-Gives Updated (lift (validate_properties node.properties type.properties))
              (λ _. write_both)
              (λ _.
                bind-Gives Updated
                  (on_properties artifact (
                    modify_properties codec node.properties stored.properties (number_of node.id)
                      false))
                  write_custom
                  (λ m.
                    bind-Gives Updated
                      (on_properties artifact (
                        modify_properties codec node.custom_properties stored.custom_properties
                          (number_of node.id) true))
                      (settle m) (λ n. settle-Updated m n changed)))))
