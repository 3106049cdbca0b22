-- ===== src/Gets/Events.antt =====
-- GetEventsByArtifactIDs and GetEventsByExecutionIDs after PutEvents.
use ml_metadata_l_metadata_s.Prelude.{
  ℕ, ◌+◌, ◌≤◌, ◌≡◌, refl, ap, sym, subst, ◌∙◌, false, Bool-cases, inl, inr, List, [], ◌∷◌, ◌++◌,
  ◌==◌, All, if◌then◌else◌, arith,
}
use mathlib.Core.List.{append-nil, append_assoc, Permᴰ}
use mathlib.Core.List.Permᴰ
use ml_metadata_l_metadata_s.Status.{ok, ok-injective}
use ml_metadata_l_metadata_s.Exec.{bind-ok}
use ml_metadata_l_metadata_s.Messages.{Step, Event, number_of}
use ml_metadata_l_metadata_s.Tables.{Db, EventRow}
use ml_metadata_l_metadata_s.Types.Parents.{has_id}
use ml_metadata_l_metadata_s.Links.{create_event}
use ml_metadata_l_metadata_s.Puts.{put_events}
use ml_metadata_l_metadata_s.Finds.{
  RowOrder, found_events, find_events_by, events_from_rows, select_events, steps_of, event_message,
}
use ml_metadata_l_metadata_s.Finds.Orders.{Permutes}
use ml_metadata_l_metadata_s.Finds.Writes.{
  HasFreshEvents, stored_steps, event_row, path_rows, with_event, create_event-writes,
}
use ml_metadata_l_metadata_s.Finds.Events.{
  Answers, engine_events, engine_events-perm, steps_of-append, steps_of_other,
  events_from_rows-append, select_events-append, select_events-All, stored_event, events_at,
}
use ml_metadata_l_metadata_s.Gets.{
  or_response, get_events_by_artifact_ids, get_events_by_execution_ids,
}

All-append : {A : Type 0} (P : A → Type 0) (xs ys : List A) → All P xs → All P ys → All P (xs ++ ys)
All-append P [] ys a b = b
All-append P (x ∷ xs) ys (p, a) b = (p, All-append P xs ys a b)

All-grow :
    {A : Type 0} (key : A → ℕ) (n : ℕ) (xs : List A)
    → All (λ x. key x ≤ n) xs
    → All (λ x. key x ≤ n + 1) xs
All-grow key n [] a = tt
All-grow key n (x ∷ xs) (h, a) = (omega arith, All-grow key n xs a)

path_rows-All :
    (id : ℕ) (steps : List Step) → All (λ (path : ℕ × Step). path.0 ≤ id) (path_rows id steps)
path_rows-All id [] = tt
path_rows-All id (step ∷ steps) = (omega arith, path_rows-All id steps)

-- The keys stay ones that were handed out.
with_event-HasFreshEvents :
    (now : ℕ) (event : Event) (db : Db)
    → HasFreshEvents db
    → HasFreshEvents (with_event now event db)
with_event-HasFreshEvents now event db fresh = record {
  event_ids =
      All-append (λ (row : EventRow). row.id ≤ db.last_event_id + 1) db.events
        (event_row now event db ∷ [])
        (All-grow (λ (row : EventRow). row.id) db.last_event_id db.events fresh.event_ids)
        (omega arith, tt);
  path_ids =
      All-append (λ (path : ℕ × Step). path.0 ≤ db.last_event_id + 1) db.event_paths
        (path_rows (db.last_event_id + 1) (stored_steps event.path))
        (All-grow (λ (path : ℕ × Step). path.0) db.last_event_id db.event_paths fresh.path_ids)
        (path_rows-All (db.last_event_id + 1) (stored_steps event.path));
}

-- What is stored of the events with the end.
abbrev pub stored_at : (Event → ℕ) → ℕ → ℕ → List Event → List Event
stored_at end x now [] = []
stored_at end x now (event ∷ events) =
    let rest = stored_at end x now events in
    if end event == x then stored_event now event ∷ rest else rest

stored_at_first :
    (end : Event → ℕ) (x now : ℕ) (event : Event) (events : List Event)
    → stored_at end x now (event ∷ []) ++ stored_at end x now events
      ≡ stored_at end x now (event ∷ events)
stored_at_first end x now event events = elim (Bool-cases (end event == x)) [
  | inl hit ↦ rw hit refl
  | inr miss ↦ rw miss refl
]

get_found : (events : List Event) → or_response [] (found_events events) ≡ ok events
get_found [] = refl
get_found (event ∷ events) = refl

module _ (column : EventRow → ℕ) (end : Event → ℕ)
    (agree : (now : ℕ) (event : Event) (db : Db)
      → column (event_row now event db) ≡ end event) where
  -- Rows that were there keep their paths.
  events_from_rows-same :
      (db : Db) (steps : List Step) (rows : List EventRow)
      → All (λ (row : EventRow). row.id ≤ db.last_event_id) rows
      → events_from_rows (db.event_paths ++ path_rows (db.last_event_id + 1) steps) rows
        ≡ events_from_rows db.event_paths rows
  unfolding events_from_rows
  events_from_rows-same db steps [] a = refl
  events_from_rows-same db steps (row ∷ rows) (h, a) =
      let same : steps_of row.id (db.event_paths ++ path_rows (db.last_event_id + 1) steps)
          ≡ steps_of row.id db.event_paths =
        steps_of-append row.id db.event_paths (path_rows (db.last_event_id + 1) steps)
        ∙ rw (steps_of_other db.last_event_id row.id steps h)
            (append-nil (steps_of row.id db.event_paths)) in
      ap
        (λ path.
          record (event_message [] row) { path = path }
          ∷ events_from_rows (db.event_paths ++ path_rows (db.last_event_id + 1) steps) rows)
        same
      ∙ ap (◌∷◌ (event_message db.event_paths row)) (events_from_rows-same db steps rows a)

  select_events-other :
      (x : ℕ) (new : EventRow) (rows : List EventRow)
      → (column new == x) ≡ false
      → select_events column (x ∷ []) (rows ++ new ∷ []) ≡ select_events column (x ∷ []) rows
  unfolding select_events has_id
  select_events-other x new [] e =
      let miss : (x == column new) ≡ false = ground arith in rw miss refl
  select_events-other x new (row ∷ rows) e = elim (Bool-cases (x == column row)) [
    | inl hit ↦ rw hit (ap (◌∷◌ row) (select_events-other x new rows e))
    | inr miss ↦ rw miss (select_events-other x new rows e)
  ]

  events_at-with_event :
      (x now : ℕ) (event : Event) (db : Db)
      → HasFreshEvents db
      → events_at column x (with_event now event db)
        ≡ events_at column x db ++ stored_at end x now (event ∷ [])
  events_at-with_event x now event db fresh =
      let new = event_row now event db in
      let steps = stored_steps event.path in
      let paths = db.event_paths ++ path_rows (db.last_event_id + 1) steps in
      let rows = select_events column (x ∷ []) db.events in
      let old = select_events-All column db fresh (x ∷ []) db.events fresh.event_ids in
      elim (Bool-cases (end event == x)) [
        | inl hit ↦
            let at : column new ≡ x = agree now event db ∙ ground arith in
            rw hit (
              ap (events_from_rows paths) (select_events-append column db fresh x new db.events at)
              ∙ events_from_rows-append column db fresh steps new rows refl old)
        | inr miss ↦
            let away : (column new == x) ≡ false = ap (λ i. i == x) (agree now event db) ∙ miss in
            rw miss (
              ap (events_from_rows paths) (select_events-other x new db.events away)
              ∙ events_from_rows-same db steps rows old
              ∙ sym (append-nil (events_at column x db)))
      ]

  put_events-events_at :
      (x now : ℕ) (events : List Event) (db : Db)
      → HasFreshEvents db
      → (put_events now events db).0 ≡ ok tt
      → events_at column x (put_events now events db).1
        ≡ events_at column x db ++ stored_at end x now events
  unfolding put_events
  put_events-events_at x now [] db fresh h = sym (append-nil (events_at column x db))
  put_events-events_at x now (event ∷ events) db fresh h =
      let (id, created, rest, same) =
        bind-ok (create_event now event) (λ _. put_events now events) db h in
      let after = (create_event now event db).1 in
      let writes : after ≡ with_event now event db = create_event-writes now event db id created in
      let still_fresh =
        subst HasFreshEvents (sym writes) (with_event-HasFreshEvents now event db fresh) in
      ap (events_at column x) same
      ∙ put_events-events_at x now events after still_fresh rest
      ∙ ap (λ (d : Db). events_at column x d ++ stored_at end x now events) writes
      ∙ ap (λ found. found ++ stored_at end x now events)
          (events_at-with_event x now event db fresh)
      ∙ append_assoc (events_at column x db) (stored_at end x now (event ∷ []))
          (stored_at end x now events)
      ∙ ap (λ found. events_at column x db ++ found) (stored_at_first end x now event events)

  -- The search by the column, with no events where it says NOT_FOUND.
  put_events-get :
      (row_order : RowOrder) (permutes : Permutes row_order) (x now : ℕ) (events : List Event)
      (db : Db) (before : List Event)
      → HasFreshEvents db
      → or_response [] (find_events_by row_order column (x ∷ []) db) ≡ ok before
      → (put_events now events db).0 ≡ ok tt
      → Answers
          (or_response [] (find_events_by row_order column (x ∷ []) (put_events now events db).1))
          (before ++ stored_at end x now events)
  unfolding find_events_by
  put_events-get row_order permutes x now events db before fresh found h =
      let db' = (put_events now events db).1 in
      let after = engine_events row_order column x db' in
      let new = stored_at end x now events in
      let was : engine_events row_order column x db ≡ before =
        ok-injective (sym (get_found (engine_events row_order column x db)) ∙ found) in
      let then_all : Permᴰ after (events_at column x db ++ new) =
        subst (Permᴰ after) (put_events-events_at x now events db fresh h)
          (engine_events-perm row_order permutes column x db') in
      let old : Permᴰ (events_at column x db) before =
        subst (Permᴰ (events_at column x db)) was
          (Permᴰ.symm (engine_events-perm row_order permutes column x db)) in
      (after, get_found after, Permᴰ.trans then_all (Permᴰ.append_right new old))

-- After a PutEvents that succeeds, GetEventsByArtifactIDs of an artifact answers with the events
-- that it answered with before and those of the request at that artifact, each with its type, its
-- time or else the current one, and the steps of its path that have a value, and with no others; and
-- so does GetEventsByExecutionIDs of an execution. In what order is left to the engine, which gives
-- each row that a query selects once. The keys of the events and of their paths are ones that the
-- database has handed out.
pub put_events-get_events :
    (row_order : RowOrder) (artifact_id execution_id now : ℕ) (events : List Event) (db : Db)
    (at_artifact at_execution : List Event)
    → Permutes row_order
    → HasFreshEvents db
    → get_events_by_artifact_ids row_order (artifact_id ∷ []) db ≡ ok at_artifact
    → get_events_by_execution_ids row_order (execution_id ∷ []) db ≡ ok at_execution
    → (put_events now events db).0 ≡ ok tt
    → Answers
        (get_events_by_artifact_ids row_order (artifact_id ∷ []) (put_events now events db).1)
        (at_artifact ++ stored_at (λ event. number_of event.artifact_id) artifact_id now events)
      × Answers
          (get_events_by_execution_ids row_order (execution_id ∷ []) (put_events now events db).1)
          (at_execution
            ++ stored_at (λ event. number_of event.execution_id) execution_id now events)
put_events-get_events row_order artifact_id execution_id now events db at_artifact at_execution
      permutes fresh artifacts executions h =
    (
      put_events-get (λ row. row.artifact_id) (λ event. number_of event.artifact_id) (λ n e d. refl)
          row_order permutes artifact_id now events db at_artifact fresh artifacts h,
      put_events-get (λ row. row.execution_id) (λ event. number_of event.execution_id)
          (λ n e d. refl) row_order permutes execution_id now events db at_execution fresh
          executions h,
    )
