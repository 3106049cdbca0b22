-- ===== src/EventEdges/Valid.antt =====
-- What CheckEventEdges accepts.
use ml_metadata_l_metadata_s.Prelude.{
  ℕ, ◌≡◌, ◌↔◌, refl, ==_iff, Bool-cases, Option-cases, subst, sym, inl, inr, Option, none, some,
  List, [], ◌∷◌, ◌==◌, arith, All,
}
use ml_metadata_l_metadata_s.Status.{ok, >>=-eq-ok, err-ok}
use ml_metadata_l_metadata_s.Messages.{ℤ, Event, Node}
use ml_metadata_l_metadata_s.EventEdges.{
  EventEdge, node_at, check_id, check_end, check_event, check_event_edges,
}

-- An end of an edge names a node: by an id alone, or by an index in the list, and then an id that is
-- given too is the id of the node at the index.
pub data Names (nodes : List Node) : Option ℤ → Option ℕ → Type 0 where
  names_id : (id : ℕ) → Names nodes none (some id)
  names_index :
      (index : ℤ) (node : Node) → node_at nodes index ≡ some node → Names nodes (some index) none
  names_both :
      (index : ℤ) (node : Node) (id : ℕ)
      → node_at nodes index ≡ some node
      → node.id ≡ some id
      → Names nodes (some index) (some id)

-- An edge has an event, and names an execution and an artifact.
pub record IsValidEdge (executions artifacts : List Node) (edge : EventEdge) : Type 0 where
  pub event : Event
  pub has_event : edge.event ≡ some event
  pub execution : Names executions edge.execution_index event.execution_id
  pub artifact : Names artifacts edge.artifact_index event.artifact_id

check_id-eq : (node_id : Option ℕ) (id : ℕ) → check_id node_id (some id) ≡ ok tt → node_id ≡ some id
check_id-eq none id h = ground arith
check_id-eq (some n) id h = elim (Bool-cases (n == id)) [
  | inl same ↦ cc ((==_iff n id).0 same)
  | inr differs ↦ absurd (err-ok (rw differs at h))
]

check_id-same : (id : ℕ) → check_id (some id) (some id) ≡ ok tt
check_id-same id = rw ((==_iff id id).1 refl) refl

check_end-Names :
    (nodes : List Node) (index : Option ℤ) (id : Option ℕ)
    → check_end nodes index id ≡ ok tt
    → Names nodes index id
check_end-Names nodes none none h = absurd (err-ok h)
check_end-Names nodes none (some id) h = names_id id
check_end-Names nodes (some index) event_id h = elim (Option-cases (node_at nodes index)) [
  | inl outside ↦ absurd (err-ok (rw outside at h))
  | inr (node, at) ↦ elim (Option-cases event_id) [
    | inl unset ↦ subst (Names nodes (some index)) (sym unset) (names_index index node at)
    | inr (id, given) ↦
        subst (Names nodes (some index)) (sym given)
          (names_both index node id at (check_id-eq node.id id (rw (at, given) at h)))
  ]
]

Names-check_end :
    {nodes : List Node} {index : Option ℤ} {id : Option ℕ}
    → Names nodes index id
    → check_end nodes index id ≡ ok tt
Names-check_end (names_id id) = refl
Names-check_end (names_index index node at) = rw at refl
Names-check_end (names_both index node id at same) = rw (at, same) (check_id-same id)

check_event-IsValidEdge :
    (executions artifacts : List Node) (edge : EventEdge)
    → check_event executions artifacts edge edge.event ≡ ok tt
    → IsValidEdge executions artifacts edge
check_event-IsValidEdge executions artifacts edge h = elim (Option-cases edge.event) [
  | inl unset ↦ absurd (err-ok (rw unset at h))
  | inr (event, at) ↦
      let (_, first, second) =
        >>=-eq-ok (check_end executions edge.execution_index event.execution_id)
          (λ _. check_end artifacts edge.artifact_index event.artifact_id) (rw at at h) in
      record {
        event = event;
        has_event = at;
        execution = check_end-Names executions edge.execution_index event.execution_id first;
        artifact = check_end-Names artifacts edge.artifact_index event.artifact_id second;
      }
]

IsValidEdge-check_event :
    (executions artifacts : List Node) (edge : EventEdge)
    → IsValidEdge executions artifacts edge
    → check_event executions artifacts edge edge.event ≡ ok tt
IsValidEdge-check_event executions artifacts edge v =
    rw (v.has_event, Names-check_end v.execution) (Names-check_end v.artifact)

-- The check accepts exactly the requests in which every edge has an event and names an execution and
-- an artifact, by an id, by an index in the bounds of the request's list, or by both where they agree.
pub check_event_edges_iff :
    (executions artifacts : List Node) (edges : List EventEdge)
    → (check_event_edges executions artifacts edges ≡ ok tt)
      ↔ All (IsValidEdge executions artifacts) edges
unfolding check_event_edges
check_event_edges_iff executions artifacts [] = (λ _. tt, λ _. refl)
check_event_edges_iff executions artifacts (edge ∷ edges) =
    let (from, to) = check_event_edges_iff executions artifacts edges in
    (
      (λ h.
          let (_, first, rest) =
            >>=-eq-ok (check_event executions artifacts edge edge.event)
              (λ _. check_event_edges executions artifacts edges) h in
          (check_event-IsValidEdge executions artifacts edge first, from rest)),
      (λ (here, more). rw (IsValidEdge-check_event executions artifacts edge here) (to more)),
    )
