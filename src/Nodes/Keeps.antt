-- ===== src/Nodes/Keeps.antt =====
-- Creating and updating nodes leaves the associations and attributions as they are.
use ml_metadata_l_metadata_s.Prelude.{
  ℕ, ◌+◌, String, Bool, true, false, not, ◌||◌, Bool-cases, inl, inr, Option, none, some, List, [],
  ◌∷◌, ltb, if◌then◌else◌,
}
use ml_metadata_l_metadata_s.Status.{invalid_argument}
use ml_metadata_l_metadata_s.Exec.{Exec, pure, lift, attempt, raise_if, ◌>>=◌, ◌>>◌}
use ml_metadata_l_metadata_s.Exec.Preserves.{Preserves, bind-Preserves}
use ml_metadata_l_metadata_s.Messages.{text_of, Kind, TypeMessage, Node, is_set, number_of}
use ml_metadata_l_metadata_s.Tables.{Db, PairRow}
use ml_metadata_l_metadata_s.Tables.NodeQueries.{
  insert_node, has_name, update_node_direct, taken_by_other, new_name,
}
use ml_metadata_l_metadata_s.Types.{find_type_by_id}
use ml_metadata_l_metadata_s.Values.{Codec}
use ml_metadata_l_metadata_s.Properties.{validate_properties, modify_properties}
use ml_metadata_l_metadata_s.Nodes.{
  on_properties, name_missing, create_basic_node, find_nodes, find_node, first_node, create_node,
  create, run_node_update, other_type, same_fields, given_id_found, update_node, upsert_by_id,
  upsert_node,
}

module _ {ℓ} (Q : List PairRow → List PairRow → Type ℓ) where
  abbrev pub OnPairs : Db → Type ℓ
  OnPairs db = Q db.associations db.attributions

  insert_node-OnPairs :
      (kind : Kind) (type_id : ℕ) (uri : String) (state : Option ℕ) (name : Option String) (now : ℕ)
      → Preserves OnPairs (insert_node kind type_id uri state name now)
  unfolding insert_node
  insert_node-OnPairs kind type_id uri state name now db q =
      elim (Bool-cases (has_name type_id name (db.nodes kind))) [
        | inl taken ↦ rw taken q
        | inr free ↦ rw free q
      ]

  update_node_direct-OnPairs :
      (kind : Kind) (id type_id : ℕ) (uri : String) (state : Option ℕ) (name : Option String)
      (now : ℕ)
      → Preserves OnPairs (update_node_direct kind id type_id uri state name now)
  unfolding update_node_direct
  update_node_direct-OnPairs kind id type_id uri state name now db q =
      elim (Bool-cases
        (taken_by_other id type_id (new_name kind id name (db.nodes kind)) (db.nodes kind))) [
          | inl taken ↦ rw taken q
          | inr free ↦ rw free q
        ]

  create_basic_node-OnPairs :
      (kind : Kind) (now : ℕ) (node : Node) → Preserves OnPairs (create_basic_node kind now node)
  create_basic_node-OnPairs kind now node =
      bind-Preserves OnPairs (raise_if (name_missing kind node.name) invalid_argument)
        (λ _. insert_node kind (number_of node.type_id) (text_of node.uri) node.state node.name now)
        (λ db q. q)
        (λ _.
          insert_node-OnPairs kind (number_of node.type_id) (text_of node.uri) node.state node.name
            now)

  -- The two calls of ModifyProperties and the answer of CreateNodeImpl.
  store_properties-OnPairs :
      (kind : Kind) (codec : Codec) (node : Node) (id : ℕ)
      → Preserves OnPairs (
          on_properties kind (modify_properties codec node.properties [] id false)
          >> (on_properties kind (modify_properties codec node.custom_properties [] id true)
              >> pure id))
  store_properties-OnPairs kind codec node id =
      let first = on_properties kind (modify_properties codec node.properties [] id false) in
      let second = on_properties kind (modify_properties codec node.custom_properties [] id true) in
      bind-Preserves OnPairs first (λ _. second >> pure id) (λ db q. q)
        (λ _. bind-Preserves OnPairs second (λ _. pure id) (λ db q. q) (λ _ db q. q))

  create_node-OnPairs :
      (kind : Kind) (codec : Codec) (now : ℕ) (node : Node)
      → Preserves OnPairs (create_node kind codec now node)
  unfolding create_node find_type_by_id
  create_node-OnPairs kind codec now node =
      let find = find_type_by_id kind (number_of node.type_id) in
      let store : ℕ → Exec Db ℕ = λ id.
        on_properties kind (modify_properties codec node.properties [] id false)
        >> (on_properties kind (modify_properties codec node.custom_properties [] id true)
            >> pure id) in
      let insert : Exec Db ℕ = create_basic_node kind now node >>= store in
      let validate : TypeMessage → Exec Db (Unit {0}) =
        λ type. lift (validate_properties node.properties type.properties) in
      bind-Preserves OnPairs (raise_if (not (is_set node.type_id)) invalid_argument)
        (λ _. find >>= λ type. validate type >> insert) (λ db q. q)
        (λ _.
          bind-Preserves OnPairs find (λ type. validate type >> insert) (λ db q. q)
            (λ type.
              bind-Preserves OnPairs (validate type) (λ _. insert) (λ db q. q)
                (λ _.
                  bind-Preserves OnPairs (create_basic_node kind now node) store
                    (create_basic_node-OnPairs kind now node)
                    (store_properties-OnPairs kind codec node))))

  run_node_update-OnPairs :
      (kind : Kind) (now : ℕ) (node : Node) → Preserves OnPairs (run_node_update kind now node)
  run_node_update-OnPairs kind now node =
      bind-Preserves OnPairs (raise_if (name_missing kind node.name) invalid_argument)
        (λ _.
          update_node_direct kind (number_of node.id) (number_of node.type_id) (text_of node.uri)
            node.state node.name now)
        (λ db q. q)
        (λ _.
          update_node_direct-OnPairs kind (number_of node.id) (number_of node.type_id)
            (text_of node.uri) node.state node.name now)

  -- The last statement of UpdateNodeImpl.
  update_if-OnPairs :
      (b : Bool) (kind : Kind) (now : ℕ) (node : Node)
      → Preserves OnPairs (if b then run_node_update kind now node else pure tt)
  update_if-OnPairs true kind now node = run_node_update-OnPairs kind now node
  update_if-OnPairs false kind now node = λ db q. q

  update_node-OnPairs :
      (kind : Kind) (codec : Codec) (now : ℕ) (node : Node)
      → Preserves OnPairs (update_node kind codec now node)
  unfolding update_node find_type_by_id find_node find_nodes
  update_node-OnPairs kind codec now node =
      let id = number_of node.id in
      let find = attempt (find_node kind codec id) in
      let first : Node → Exec Db ℕ = λ stored.
        on_properties kind (modify_properties codec node.properties stored.properties id false) in
      let second : Node → Exec Db ℕ = λ stored.
        on_properties kind
          (modify_properties codec node.custom_properties stored.custom_properties id true) in
      let last : Node → ℕ → ℕ → Exec Db (Unit {0}) = λ stored m n.
        if not (same_fields node stored) || ltb 0 (m + n)
        then run_node_update kind now node
        else pure tt in
      let write : Node → Exec Db (Unit {0}) =
        λ stored. first stored >>= λ m. second stored >>= λ n. last stored m n in
      let check : Node → TypeMessage → Exec Db (Unit {0}) =
        λ stored type. lift (validate_properties node.properties type.properties) >> write stored in
      let typed : Node → Exec Db (Unit {0}) =
        λ stored. find_type_by_id kind (number_of stored.type_id) >>= check stored in
      let go : Node → Exec Db (Unit {0}) = λ stored.
        raise_if (other_type node.type_id stored.type_id) invalid_argument >> typed stored in
      bind-Preserves OnPairs (raise_if (not (is_set node.id)) invalid_argument)
        (λ _. find >>= λ found. lift (given_id_found found) >>= go) (λ db q. q)
        (λ _.
          bind-Preserves OnPairs find (λ found. lift (given_id_found found) >>= go) find_keeps
            (λ found.
              bind-Preserves OnPairs (lift (given_id_found found)) go (λ db q. q)
                (λ stored.
                  bind-Preserves OnPairs
                    (raise_if (other_type node.type_id stored.type_id) invalid_argument)
                    (λ _. typed stored) (λ db q. q)
                    (λ _.
                      bind-Preserves OnPairs (find_type_by_id kind (number_of stored.type_id))
                        (check stored) (λ db q. q)
                        (λ type.
                          bind-Preserves OnPairs
                            (lift (validate_properties node.properties type.properties))
                            (λ _. write stored) (λ db q. q)
                            (λ _.
                              bind-Preserves OnPairs (first stored)
                                (λ m. second stored >>= λ n. last stored m n) (λ db q. q)
                                (λ m.
                                  bind-Preserves OnPairs (second stored) (λ n. last stored m n)
                                    (λ db q. q)
                                    (λ n.
                                      update_if-OnPairs
                                        (not (same_fields node stored) || ltb 0 (m + n)) kind now
                                        node))))))))
    where
      find_keeps : Preserves OnPairs (attempt (find_node kind codec (number_of node.id)))
      find_keeps =
          bind-Preserves OnPairs (find_nodes kind codec (number_of node.id ∷ []) true)
            (λ nodes. lift (first_node nodes)) (λ db q. q) (λ nodes db q. q)

  create-OnPairs :
      (kind : Kind) (codec : Codec) (now : ℕ) (node : Node)
      → Preserves OnPairs (create kind codec now node)
  unfolding create
  create-OnPairs kind codec now node = create_node-OnPairs kind codec now node

  upsert_by_id-OnPairs :
      (kind : Kind) (codec : Codec) (now : ℕ) (node : Node) (id : Option ℕ)
      → Preserves OnPairs (upsert_by_id kind codec now node id)
  upsert_by_id-OnPairs kind codec now node (some id) =
      bind-Preserves OnPairs (update_node kind codec now node) (λ _. pure id)
        (update_node-OnPairs kind codec now node) (λ _ db q. q)
  upsert_by_id-OnPairs kind codec now node none = create-OnPairs kind codec now node

  pub upsert_node-OnPairs :
      (kind : Kind) (codec : Codec) (now : ℕ) (node : Node)
      → Preserves OnPairs (upsert_node kind codec now node)
  unfolding upsert_node
  upsert_node-OnPairs kind codec now node = upsert_by_id-OnPairs kind codec now node node.id
