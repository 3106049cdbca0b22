-- ===== src/Finds/Writes.antt =====
-- What a call of CreateEvent that succeeds writes.
use ml_metadata_l_metadata_s.Prelude.{
  ℕ, ◌+◌, ◌≤◌, ◌≡◌, refl, ap, sym, ◌∙◌, Bool, not, Bool-cases, inl, inr, List, [], ◌∷◌, ◌++◌, ◌==◌,
  All,
}
use mathlib.Core.List.{append-nil, append_assoc}
use ml_metadata_l_metadata_s.Status.{ok, err-ok}
use ml_metadata_l_metadata_s.Messages.{
  artifact, execution, Step, index, key, unset_step, Event, is_set, number_of,
}
use ml_metadata_l_metadata_s.Tables.{Db, EventRow}
use ml_metadata_l_metadata_s.Tables.NodeQueries.{select_node_by_id}
use ml_metadata_l_metadata_s.Tables.LinkQueries.{has_event, insert_event, insert_event_path}
use ml_metadata_l_metadata_s.Links.{no_rows, time_of, insert_event_paths, create_event}

-- The keys of the events, in both tables, are ones that were handed out.
pub record HasFreshEvents (db : Db) : Type 0 where
  pub event_ids : All (λ (row : EventRow). row.id ≤ db.last_event_id) db.events
  pub path_ids : All (λ (path : ℕ × Step). path.0 ≤ db.last_event_id) db.event_paths

-- A step without a value is not stored.
pub stored_steps : List Step → List Step
stored_steps [] = []
stored_steps (index i ∷ steps) = index i ∷ stored_steps steps
stored_steps (key k ∷ steps) = key k ∷ stored_steps steps
stored_steps (unset_step ∷ steps) = stored_steps steps

abbrev pub event_row : ℕ → Event → Db → EventRow
event_row now event db = record {
  id = db.last_event_id + 1;
  artifact_id = number_of event.artifact_id;
  execution_id = number_of event.execution_id;
  type = number_of event.type;
  time = time_of event.milliseconds_since_epoch now;
}

abbrev pub path_rows : ℕ → List Step → List (ℕ × Step)
path_rows id [] = []
path_rows id (step ∷ steps) = (id, step) ∷ path_rows id steps

abbrev with_paths : Db → List (ℕ × Step) → Db
with_paths db paths = record db { event_paths = db.event_paths ++ paths }

insert_paths :
    (id : ℕ) (steps : List Step) (db : Db)
    → insert_event_paths id steps db ≡ (ok tt, with_paths db (path_rows id (stored_steps steps)))
unfolding insert_event_paths insert_event_path stored_steps
insert_paths id [] db =
    ap (λ paths. (ok tt, record db { event_paths = paths })) (sym (append-nil db.event_paths))
insert_paths id (index i ∷ steps) db =
    insert_paths id steps (with_paths db ((id, index i) ∷ []))
    ∙ ap (λ paths. (ok tt, record db { event_paths = paths }))
        (append_assoc db.event_paths ((id, index i) ∷ []) (path_rows id (stored_steps steps)))
insert_paths id (key k ∷ steps) db =
    insert_paths id steps (with_paths db ((id, key k) ∷ []))
    ∙ ap (λ paths. (ok tt, record db { event_paths = paths }))
        (append_assoc db.event_paths ((id, key k) ∷ []) (path_rows id (stored_steps steps)))
insert_paths id (unset_step ∷ steps) db = insert_paths id steps db

-- The database after a call of CreateEvent that succeeds.
abbrev pub with_event : ℕ → Event → Db → Db
with_event now event db = record db {
  events = db.events ++ event_row now event db ∷ [];
  last_event_id = db.last_event_id + 1;
  event_paths = db.event_paths ++ path_rows (db.last_event_id + 1) (stored_steps event.path);
}

abbrev end_missing : Event → Db → Bool
end_missing event db = no_rows (select_node_by_id (number_of event.artifact_id) (db.nodes artifact))

pub create_event-writes :
    (now : ℕ) (event : Event) (db : Db) (id : ℕ)
    → (create_event now event db).0 ≡ ok id
    → (create_event now event db).1 ≡ with_event now event db
unfolding create_event insert_event
create_event-writes now event db id h = elim (Bool-cases (not (is_set event.artifact_id))) [
  | inl a ↦ absurd (err-ok (rw a at h))
  | inr a ↦ elim (Bool-cases (not (is_set event.execution_id))) [
    | inl b ↦ absurd (err-ok (rw (a, b) at h))
    | inr b ↦ elim (Bool-cases (number_of event.type == 0)) [
      | inl c ↦ absurd (err-ok (rw (a, b, c) at h))
      | inr c ↦
          elim (Bool-cases
            (no_rows (select_node_by_id (number_of event.artifact_id) (db.nodes artifact)))) [
              | inl d ↦ absurd (err-ok (rw (a, b, c, d) at h))
              | inr d ↦
                  elim (Bool-cases (
                    no_rows
                      (select_node_by_id (number_of event.execution_id) (db.nodes execution)))) [
                        | inl e ↦ absurd (err-ok (rw (a, b, c, d, e) at h))
                        | inr e ↦
                            elim (Bool-cases (
                              has_event (number_of event.artifact_id) (number_of event.execution_id)
                                (number_of event.type) db.events)) [
                                  | inl f ↦ absurd (err-ok (rw (a, b, c, d, e, f) at h))
                                  | inr f ↦
                                      rw (a, b, c, d, e, f)
                                        (rw (insert_paths (db.last_event_id + 1) event.path _) refl)
                                ]
                      ]
            ]
    ]
  ]
]
