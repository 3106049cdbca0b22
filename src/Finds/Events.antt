-- ===== src/Finds/Events.antt =====
-- An event that is created is found again, in whatever order the engine gives the rows.
use ml_metadata_l_metadata_s.Prelude.{
  ℕ, ◌+◌, ◌≤◌, ◌≡◌, refl, ap, sym, subst, ◌∙◌, true, false, ==_iff, Bool-cases, inl, inr, some,
  List, [], ◌∷◌, ◌++◌, ◌==◌, All, arith,
}
use mathlib.Core.List.{append-nil, Permᴰ}
use mathlib.Core.Path.{ap₂}
use ml_metadata_l_metadata_s.Status.{Result, ok}
use ml_metadata_l_metadata_s.Messages.{Step, Event, number_of}
use ml_metadata_l_metadata_s.Tables.{Db, EventRow}
use ml_metadata_l_metadata_s.Types.Parents.{has_id}
use ml_metadata_l_metadata_s.Links.{time_of, create_event}
use ml_metadata_l_metadata_s.Finds.{
  RowOrder, found_events, find_events_by_artifacts, find_events_by_executions, steps_of,
  event_message, events_from_rows, select_events, find_events_by,
}
use ml_metadata_l_metadata_s.Finds.Orders.{Permutes, events_from_rows-perm}
use ml_metadata_l_metadata_s.Finds.Writes.{
  HasFreshEvents, stored_steps, event_row, path_rows, with_event, create_event-writes,
}

-- What is stored of an event: its time, or the current one, and the steps that have a value.
abbrev pub stored_event : ℕ → Event → Event
stored_event now event = record {
  artifact_id = some (number_of event.artifact_id);
  execution_id = some (number_of event.execution_id);
  type = some (number_of event.type);
  milliseconds_since_epoch = some (time_of event.milliseconds_since_epoch now);
  path = stored_steps event.path;
}

-- The events with an end, in the order of the table.
abbrev pub events_at : (EventRow → ℕ) → ℕ → Db → List Event
events_at column x db = events_from_rows db.event_paths (select_events column (x ∷ []) db.events)

pub steps_of-append :
    (id : ℕ) (xs ys : List (ℕ × Step)) → steps_of id (xs ++ ys) ≡ steps_of id xs ++ steps_of id ys
unfolding steps_of
steps_of-append id [] ys = refl
steps_of-append id ((i, step) ∷ xs) ys = elim (Bool-cases (i == id)) [
  | inl same ↦ rw same (ap (◌∷◌ step) (steps_of-append id xs ys))
  | inr other ↦ rw other (steps_of-append id xs ys)
]

steps_of_self : (id : ℕ) (steps : List Step) → steps_of id (path_rows id steps) ≡ steps
unfolding steps_of
steps_of_self id [] = refl
steps_of_self id (step ∷ steps) =
    rw ((==_iff id id).1 refl) (ap (◌∷◌ step) (steps_of_self id steps))

pub steps_of_other :
    (id i : ℕ) (steps : List Step) → i ≤ id → steps_of i (path_rows (id + 1) steps) ≡ []
unfolding steps_of
steps_of_other id i [] h = refl
steps_of_other id i (step ∷ steps) h =
    let other : (id + 1 == i) ≡ false = ground arith in rw other (steps_of_other id i steps h)

steps_of_fresh :
    (id : ℕ) (paths : List (ℕ × Step))
    → All (λ (path : ℕ × Step). path.0 ≤ id) paths
    → steps_of (id + 1) paths ≡ []
unfolding steps_of
steps_of_fresh id [] a = refl
steps_of_fresh id ((i, step) ∷ paths) (h, a) =
    let other : (i == id + 1) ≡ false = ground arith in rw other (steps_of_fresh id paths a)

module _ (column : EventRow → ℕ) (db : Db) (fresh : HasFreshEvents db) where
  -- The events that were there keep their paths, and the new one has its own.
  pub events_from_rows-append :
      (steps : List Step) (new : EventRow) (rows : List EventRow)
      → new.id ≡ db.last_event_id + 1
      → All (λ (row : EventRow). row.id ≤ db.last_event_id) rows
      → events_from_rows
          (db.event_paths ++ path_rows (db.last_event_id + 1) steps)
          (rows ++ new ∷ [])
        ≡ events_from_rows db.event_paths rows
          ++ record (event_message [] new) { path = steps } ∷ []
  unfolding events_from_rows
  events_from_rows-append steps new [] e a =
      ap (λ path. record (event_message [] new) { path = path } ∷ [])
        (ap (λ id. steps_of id (db.event_paths ++ path_rows (db.last_event_id + 1) steps)) e
          ∙ steps_of-append (db.last_event_id + 1) db.event_paths
              (path_rows (db.last_event_id + 1) steps)
          ∙ rw (steps_of_fresh db.last_event_id db.event_paths fresh.path_ids)
              (steps_of_self (db.last_event_id + 1) steps))
  events_from_rows-append steps new (row ∷ rows) e (h, a) =
      let same : steps_of row.id (db.event_paths ++ path_rows (db.last_event_id + 1) steps)
          ≡ steps_of row.id db.event_paths =
        steps_of-append row.id db.event_paths (path_rows (db.last_event_id + 1) steps)
        ∙ rw (steps_of_other db.last_event_id row.id steps h)
            (append-nil (steps_of row.id db.event_paths)) in
      ap₂ (λ path more. record (event_message [] row) { path = path } ∷ more) same
        (events_from_rows-append steps new rows e a)

  pub select_events-append :
      (x : ℕ) (new : EventRow) (rows : List EventRow)
      → column new ≡ x
      → select_events column (x ∷ []) (rows ++ new ∷ [])
        ≡ select_events column (x ∷ []) rows ++ new ∷ []
  unfolding select_events has_id
  select_events-append x new [] e = let hit : (x == column new) ≡ true = ground arith in rw hit refl
  select_events-append x new (row ∷ rows) e = elim (Bool-cases (x == column row)) [
    | inl hit ↦ rw hit (ap (◌∷◌ row) (select_events-append x new rows e))
    | inr miss ↦ rw miss (select_events-append x new rows e)
  ]

  pub select_events-All :
      (ids : List ℕ) (rows : List EventRow)
      → All (λ (row : EventRow). row.id ≤ db.last_event_id) rows
      → All (λ (row : EventRow). row.id ≤ db.last_event_id) (select_events column ids rows)
  unfolding select_events
  select_events-All ids [] a = tt
  select_events-All ids (row ∷ rows) (h, a) = elim (Bool-cases (has_id (column row) ids)) [
    | inl hit ↦ rw hit (h, select_events-All ids rows a)
    | inr miss ↦ rw miss (select_events-All ids rows a)
  ]

  -- What the rows hold after a call of CreateEvent.
  pub events_at-new :
      (now : ℕ) (event : Event) (x : ℕ)
      → column (event_row now event db) ≡ x
      → events_at column x (with_event now event db)
        ≡ events_at column x db ++ stored_event now event ∷ []
  events_at-new now event x e =
      let steps = stored_steps event.path in
      let new = event_row now event db in
      ap (events_from_rows (db.event_paths ++ path_rows (db.last_event_id + 1) steps))
        (select_events-append x new db.events e)
      ∙ events_from_rows-append steps new (select_events column (x ∷ []) db.events) refl
          (select_events-All (x ∷ []) db.events fresh.event_ids)

-- A search that gives a permutation of rows with one more gives them all.
found_events-some :
    (found others : List Event) (event : Event)
    → Permᴰ found (others ++ event ∷ [])
    → found_events found ≡ ok found
found_events-some [] others event p = absurd (one_more others event (keep_none p tt))
  where
    IsNone : List Event → Type 0
    IsNone [] = Unit {0}
    IsNone (e ∷ events) = ⊥

    keep_none : {a b : List Event} → Permᴰ a b → IsNone a → IsNone b
    keep_none Permᴰ.nil n = n
    keep_none (Permᴰ.cons same p) n = absurd n
    keep_none (Permᴰ.swap first second) n = absurd n
    keep_none (Permᴰ.trans p q) n = keep_none q (keep_none p n)

    one_more : (events : List Event) (e : Event) → ¬ IsNone (events ++ e ∷ [])
    one_more [] e n = n
    one_more (first ∷ events) e n = n
found_events-some (first ∷ found) others event p = refl

-- What a search by the column finds, in the order of the engine.
abbrev pub engine_events : RowOrder → (EventRow → ℕ) → ℕ → Db → List Event
engine_events row_order column x db =
    events_from_rows db.event_paths (row_order column (select_events column (x ∷ []) db.events))

pub engine_events-perm :
    (row_order : RowOrder) (permutes : Permutes row_order) (column : EventRow → ℕ) (x : ℕ) (db : Db)
    → Permᴰ (engine_events row_order column x db) (events_at column x db)
engine_events-perm row_order permutes column x db =
    events_from_rows-perm db.event_paths (permutes column (select_events column (x ∷ []) db.events))

-- The search succeeds, and finds these events, in some order.
abbrev pub Answers : Result (List Event) → List Event → Type 0
Answers search events = (found : List Event) × (search ≡ ok found) × Permᴰ found events

Answers-new :
    (row_order : RowOrder) (permutes : Permutes row_order) (column : EventRow → ℕ) (now : ℕ)
    (event : Event) (x : ℕ) (db : Db)
    → HasFreshEvents db
    → column (event_row now event db) ≡ x
    → Answers
        (find_events_by row_order column (x ∷ []) (with_event now event db))
        (events_at column x db ++ stored_event now event ∷ [])
unfolding find_events_by
Answers-new row_order permutes column now event x db fresh at =
    let found = engine_events row_order column x (with_event now event db) in
    let same = events_at-new column db fresh now event x at in
    let p =
      subst (Permᴰ found) same
        (engine_events-perm row_order permutes column x (with_event now event db)) in
    (found, found_events-some found (events_at column x db) (stored_event now event) p, p)

-- An event that CreateEvent has stored is found by its artifact and by its execution, with its
-- type, its time and the steps of its path that have a value, together with the events of that
-- artifact or execution that were there, as they were, and no others; in what order is left to the
-- engine, which gives each row that a query selects once. The keys of the events and of their paths
-- are ones that the database has handed out.
pub create_event-find :
    (row_order : RowOrder) (now : ℕ) (event : Event) (db : Db) (id : ℕ)
    → Permutes row_order
    → HasFreshEvents db
    → (create_event now event db).0 ≡ ok id
    → Answers
        (find_events_by_artifacts row_order
          (number_of event.artifact_id ∷ [])
          (create_event now event db).1)
        (events_at (λ row. row.artifact_id) (number_of event.artifact_id) db
          ++ stored_event now event ∷ [])
      × Answers
          (find_events_by_executions row_order
            (number_of event.execution_id ∷ [])
            (create_event now event db).1)
          (events_at (λ row. row.execution_id) (number_of event.execution_id) db
            ++ stored_event now event ∷ [])
create_event-find row_order now event db id permutes fresh h =
    let writes = create_event-writes now event db id h in
    let artifact_events =
      events_at (λ row. row.artifact_id) (number_of event.artifact_id) db
      ++ stored_event now event ∷ [] in
    let execution_events =
      events_at (λ row. row.execution_id) (number_of event.execution_id) db
      ++ stored_event now event ∷ [] in
    (
      subst
          (λ d.
            Answers (find_events_by_artifacts row_order (number_of event.artifact_id ∷ []) d)
              artifact_events)
          (sym writes)
          (Answers-new row_order permutes (λ row. row.artifact_id) now event
            (number_of event.artifact_id) db fresh refl),
      subst
          (λ d.
            Answers (find_events_by_executions row_order (number_of event.execution_id ∷ []) d)
              execution_events)
          (sym writes)
          (Answers-new row_order permutes (λ row. row.execution_id) now event
            (number_of event.execution_id) db fresh refl),
    )
