-- ===== src/PutExecution/Linked.antt =====
-- What PutExecution has written when it answers.
use ml_metadata_l_metadata_s.Prelude.{
  ℕ, ◌≡◌, refl, Bool, true, Option, none, some, List, [], ◌∷◌, ◌++◌, length, sym, ◌∙◌,
}
use ml_metadata_l_metadata_s.Status.{ok, err-ok, ok-injective}
use ml_metadata_l_metadata_s.Exec.{Exec, pure, ◌>>=◌, ◌>>◌, bind-ok}
use ml_metadata_l_metadata_s.Messages.{execution, Node}
use ml_metadata_l_metadata_s.Tables.{Db, PairRow}
use ml_metadata_l_metadata_s.Tables.LinkQueries.{has_pair}
use ml_metadata_l_metadata_s.Values.{Codec}
use ml_metadata_l_metadata_s.Nodes.{upsert_node}
use ml_metadata_l_metadata_s.Links.{
  insert_association_if_not_exist, insert_attribution_if_not_exist,
}
use ml_metadata_l_metadata_s.Links.Grow.{
  Grows, association-Grows, attribution-Grows, has_pair-append,
  insert_association_if_not_exist-has_pair, insert_attribution_if_not_exist-has_pair,
}
use ml_metadata_l_metadata_s.PutExecution.{
  upsert_context_with_options, attribute_all, put_pairs, put_contexts, PutExecutionRequest,
  PutExecutionResponse, put_given, put_execution,
}
use ml_metadata_l_metadata_s.PutExecution.Keeps.{attribute_all-OnPairs, put_contexts-OnPairs}

-- The rows attribute every one of the artifacts, none of them missing, to the context.
AttributedTo : ℕ → List (Option ℕ) → List PairRow → Type 0
AttributedTo c [] rows = Unit
AttributedTo c (none ∷ ids) rows = ⊥
AttributedTo c (some id ∷ ids) rows = (has_pair c id rows ≡ true) × AttributedTo c ids rows

-- Every context has the execution in the associations and the artifacts in the attributions.
pub AllLinked : ℕ → List (Option ℕ) → List ℕ → List PairRow → List PairRow → Type 0
unfolding AttributedTo
AllLinked e ids [] associations attributions = Unit
AllLinked e ids (c ∷ cs) associations attributions =
    (has_pair c e associations ≡ true)
    × AttributedTo c ids attributions
    × AllLinked e ids cs associations attributions

AttributedTo-append :
    (c : ℕ) (ids : List (Option ℕ)) (rows : List PairRow) (row : PairRow)
    → AttributedTo c ids rows
    → AttributedTo c ids (rows ++ row ∷ [])
unfolding AttributedTo
AttributedTo-append c [] rows row h = tt
AttributedTo-append c (none ∷ ids) rows row h = h
AttributedTo-append c (some id ∷ ids) rows row (first, rest) =
    (has_pair-append c id rows row first, AttributedTo-append c ids rows row rest)

attributions-Grows :
    (c : ℕ) (ids : List (Option ℕ)) → Grows (λ pairs others. AttributedTo c ids others)
attributions-Grows c ids = record {
  more_associations = λ pairs others row h. h;
  more_attributions = λ pairs others row h. AttributedTo-append c ids others row h;
}

attribute_all-AttributedTo :
    (c : ℕ) (ids : List (Option ℕ)) (db : Db)
    → (attribute_all c ids db).0 ≡ ok tt
    → AttributedTo c ids (attribute_all c ids db).1.attributions
unfolding attribute_all AttributedTo
attribute_all-AttributedTo c [] db h = tt
attribute_all-AttributedTo c (none ∷ ids) db h = absurd (err-ok h)
attribute_all-AttributedTo c (some id ∷ ids) db h =
    let insert = insert_attribution_if_not_exist c id in
    let (_, first, rest, same) = bind-ok insert (λ _. attribute_all c ids) db h in
    rw same (
      attribute_all-OnPairs (λ pairs others. has_pair c id others ≡ true) (attribution-Grows c id) c
          ids (insert db).1 (insert_attribution_if_not_exist-has_pair c id db first),
      attribute_all-AttributedTo c ids (insert db).1 rest,
    )

-- The length and the links of an answer, in a database.
abbrev Done : ℕ → List (Option ℕ) → List Node → List ℕ → Db → Type 0
Done e ids nodes cs db =
    (length cs ≡ length nodes) × AllLinked e ids cs db.associations db.attributions

Done-cons :
    (e : ℕ) (ids : List (Option ℕ)) (node : Node) (nodes : List Node) (c : ℕ) (rest cs : List ℕ)
    (db final : Db)
    → c ∷ rest ≡ cs
    → db ≡ final
    → has_pair c e final.associations ≡ true
    → AttributedTo c ids final.attributions
    → Done e ids nodes rest final
    → Done e ids (node ∷ nodes) cs db
unfolding AllLinked
Done-cons e ids node nodes c rest cs db final answer same associated attributed
      (same_length, linked) =
    rw (sym answer, same) (rw same_length refl, (associated, attributed, linked))

Done-at :
    (e : ℕ) (ids : List (Option ℕ)) (nodes : List Node) (cs : List ℕ) (db final : Db)
    → db ≡ final
    → Done e ids nodes cs final
    → Done e ids nodes cs db
Done-at e ids nodes cs db final same done = rw same done

put_contexts-AllLinked :
    (codec : Codec) (now : ℕ) (reuse : Bool) (e : ℕ) (ids : List (Option ℕ)) (nodes : List Node)
    (db : Db) (cs : List ℕ)
    → (put_contexts codec now reuse e ids nodes db).0 ≡ ok cs
    → Done e ids nodes cs (put_contexts codec now reuse e ids nodes db).1
unfolding put_contexts AllLinked
put_contexts-AllLinked codec now reuse e ids [] db cs h = rw (sym (ok-injective h)) (refl, tt)
put_contexts-AllLinked codec now reuse e ids (node ∷ nodes) db cs h =
    let put_rest = put_contexts codec now reuse e ids nodes in
    let answer : ℕ → Exec Db (List ℕ) = λ c. put_rest >>= λ rest. pure (c ∷ rest) in
    let attribute : ℕ → Exec Db (List ℕ) = λ c. attribute_all c ids >> answer c in
    let (c, upserted, h1, same1) =
      bind-ok (upsert_context_with_options codec now node reuse)
        (λ c. insert_association_if_not_exist c e >> attribute c) db h in
    let db1 = (upsert_context_with_options codec now node reuse db).1 in
    let (_, associated, h2, same2) =
      bind-ok (insert_association_if_not_exist c e) (λ _. attribute c) db1 h1 in
    let db2 = (insert_association_if_not_exist c e db1).1 in
    let (_, attributed, h3, same3) = bind-ok (attribute_all c ids) (λ _. answer c) db2 h2 in
    let db3 = (attribute_all c ids db2).1 in
    let (rest, put, h4, same4) = bind-ok put_rest (λ rest. pure (c ∷ rest)) db3 h3 in
    let linked = put_contexts-AllLinked codec now reuse e ids nodes db3 rest put in
    Done-cons e ids node nodes c rest cs (put_contexts codec now reuse e ids (node ∷ nodes) db).1
      (put_rest db3).1 (ok-injective h4) (same1 ∙ same2 ∙ same3 ∙ same4)
      (put_contexts-OnPairs (λ pairs others. has_pair c e pairs ≡ true) (association-Grows c e)
        codec now reuse e ids nodes db3
        (attribute_all-OnPairs (λ pairs others. has_pair c e pairs ≡ true) (association-Grows c e) c
          ids db2 (insert_association_if_not_exist-has_pair c e db1 associated)))
      (put_contexts-OnPairs (λ pairs others. AttributedTo c ids others) (attributions-Grows c ids)
        codec now reuse e ids nodes db3 (attribute_all-AttributedTo c ids db2 attributed))
      linked

put_given-AllLinked :
    (codec : Codec) (now : ℕ) (request : PutExecutionRequest) (given : Option Node) (db : Db)
    (response : PutExecutionResponse)
    → (put_given codec now request given db).0 ≡ ok response
    → (length response.context_ids ≡ length request.contexts)
      × AllLinked response.execution_id response.artifact_ids response.context_ids
          (put_given codec now request given db).1.associations
          (put_given codec now request given db).1.attributions
put_given-AllLinked codec now request none db response h = absurd (err-ok h)
put_given-AllLinked codec now request (some node) db response h =
    let reuse = request.reuse_context_if_already_exist in
    let answer : ℕ → List (Option ℕ) → List ℕ → Exec Db PutExecutionResponse =
      λ e ids cs. pure record { execution_id = e; artifact_ids = ids; context_ids = cs } in
    let finish : ℕ → List (Option ℕ) → Exec Db PutExecutionResponse =
      λ e ids. put_contexts codec now reuse e ids request.contexts >>= answer e ids in
    let pairs : ℕ → Exec Db (List (Option ℕ)) =
      λ e. put_pairs codec now node e request.artifact_event_pairs in
    let (e, _, h1, same1) =
      bind-ok (upsert_node execution codec now node) (λ e. pairs e >>= finish e) db h in
    let db1 = (upsert_node execution codec now node db).1 in
    let (ids, _, h2, same2) = bind-ok (pairs e) (finish e) db1 h1 in
    let db2 = (pairs e db1).1 in
    let (cs, put, h3, same3) =
      bind-ok (put_contexts codec now reuse e ids request.contexts) (answer e ids) db2 h2 in
    rw (sym (ok-injective h3)) (
      Done-at e ids request.contexts cs _
        (put_contexts codec now reuse e ids request.contexts db2).1 (same1 ∙ same2 ∙ same3)
        (put_contexts-AllLinked codec now reuse e ids request.contexts db2 cs put))

-- When PutExecution returns OK, its response has as many context ids as the request has contexts,
-- and the database it leaves associates every one of these contexts with the execution of the
-- response and attributes every artifact of the response to it, where with a context no artifact id
-- of the response is missing.
pub put_execution-AllLinked :
    (codec : Codec) (now : ℕ) (request : PutExecutionRequest) (db : Db)
    (response : PutExecutionResponse)
    → (put_execution codec now request db).0 ≡ ok response
    → (length response.context_ids ≡ length request.contexts)
      × AllLinked response.execution_id response.artifact_ids response.context_ids
          (put_execution codec now request db).1.associations
          (put_execution codec now request db).1.attributions
unfolding put_execution
put_execution-AllLinked codec now request db response h =
    put_given-AllLinked codec now request request.given_execution db response h
