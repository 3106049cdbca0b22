-- ===== src/Lineage/Leads.antt =====
-- The ends of events that an expansion follows.
use mathlib.Core.List.{Permᴰ}
use ml_metadata_l_metadata_s.Prelude.{
  ℕ, zero, suc, String, ◌≡◌, ◌⊎◌, refl, ap, sym, subst, ◌∙◌, true, not, Bool-cases, inl, inr,
  Option, none, some, List, [], ◌∷◌, length, take, drop, if◌then◌else◌, arith,
}
use ml_metadata_l_metadata_s.Status.{Result, ok, ok-injective, >>=-eq-ok}
use ml_metadata_l_metadata_s.Messages.{Kind, artifact, execution, Step}
use ml_metadata_l_metadata_s.Tables.{Db, EventRow}
use ml_metadata_l_metadata_s.Types.Parents.{has_id, dedup_ids}
use ml_metadata_l_metadata_s.ListQuery.{TokenCodec, FilterQuery, list_node_ids}
use ml_metadata_l_metadata_s.Finds.{RowOrder, event_message, events_from_rows, select_events}
use ml_metadata_l_metadata_s.Finds.Orders.{Permutes}
use ml_metadata_l_metadata_s.Expand.{
  Side, from_artifacts, from_executions, far_kind, near_column, far_id, erase_ids, skip_batches,
  boundary_options, erase_extra, unvisited_ends, skip_boundary_nodes,
}

-- The row is one of the table's.
abbrev pub Among : EventRow → List EventRow → Type 0
Among row [] = ⊥
Among row (first ∷ rows) = (row ≡ first) ⊎ Among row rows

abbrev pub near_kind : Side → Kind
near_kind from_artifacts = artifact
near_kind from_executions = execution

abbrev pub far_column : Side → EventRow → ℕ
far_column from_artifacts row = row.execution_id
far_column from_executions row = row.artifact_id

-- A node that a chain of so many events links to one of the query artifacts.
pub data Reached (db : Db) (query : List ℕ) : ℕ → Kind → ℕ → Type 0 where
  at_query : {id : ℕ} → has_id id query ≡ true → Reached db query zero artifact id
  along :
      (side : Side) (row : EventRow) {hops : ℕ}
      → Among row db.events
      → Reached db query hops (near_kind side) (near_column side row)
      → Reached db query (suc hops) (far_kind side) (far_column side row)

pub has_id-dedup : (x : ℕ) (ids : List ℕ) → has_id x (dedup_ids ids) ≡ true → has_id x ids ≡ true
unfolding has_id dedup_ids
has_id-dedup x [] h = h
has_id-dedup x (id ∷ ids) h = ground (arith, has_id-dedup x ids)

pub has_id-erase_extra :
    (x max_nodes : ℕ) (ids : List ℕ)
    → has_id x (erase_extra max_nodes ids) ≡ true
    → has_id x ids ≡ true
unfolding has_id erase_extra
has_id-erase_extra x max_nodes [] h = h
has_id-erase_extra x max_nodes (id ∷ ids) h = ground (arith, has_id-erase_extra x max_nodes ids)

has_id-erase_ids :
    (x : ℕ) (skipped ids : List ℕ) → has_id x (erase_ids skipped ids) ≡ true → has_id x ids ≡ true
unfolding has_id erase_ids
has_id-erase_ids x skipped [] h = h
has_id-erase_ids x skipped (id ∷ ids) h = ground (arith, has_id-erase_ids x skipped ids)

has_id-skip_batches :
    (x fuel : ℕ) (query : List ℕ → Result (List ℕ)) (candidates unvisited kept : List ℕ)
    → skip_batches fuel query candidates unvisited ≡ ok kept
    → has_id x kept ≡ true
    → has_id x unvisited ≡ true
unfolding skip_batches
has_id-skip_batches x zero query candidates unvisited kept e h =
    subst (λ ids. has_id x ids ≡ true) (sym (ok-injective e)) h
has_id-skip_batches x (suc fuel) query [] unvisited kept e h =
    subst (λ ids. has_id x ids ≡ true) (sym (ok-injective e)) h
has_id-skip_batches x (suc fuel) query (id ∷ ids) unvisited kept e h =
    let (skipped, _, more) = >>=-eq-ok (query (take 100 (id ∷ ids))) _ e in
    has_id-erase_ids x skipped unvisited (
      has_id-skip_batches x fuel query (drop 100 (id ∷ ids)) (erase_ids skipped unvisited) kept more
        h)

-- Skipping boundary nodes leaves nodes out and adds none.
pub has_id-skip_boundary :
    (filter : FilterQuery) (tokens : TokenCodec) (kind : Kind) (boundary : Option String)
    (unvisited kept : List ℕ) (db : Db) (x : ℕ)
    → skip_boundary_nodes filter tokens kind boundary unvisited db ≡ ok kept
    → has_id x kept ≡ true
    → has_id x unvisited ≡ true
unfolding skip_boundary_nodes
has_id-skip_boundary filter tokens kind none unvisited kept db x e h =
    subst (λ ids. has_id x ids ≡ true) (sym (ok-injective e)) h
has_id-skip_boundary filter tokens kind (some condition) unvisited kept db x e h =
    has_id-skip_batches x (length unvisited)
      (λ batch. list_node_ids filter tokens kind (boundary_options condition) (some batch) db)
      unvisited unvisited kept e h

-- What a row is worth to an expansion: it has an end at one of the ids, and the other is x.
abbrev Leads : Side → List ℕ → ℕ → List EventRow → Type 0
Leads side ids x rows =
    (row : EventRow) × Among row rows
    × (has_id (near_column side row) ids ≡ true)
    × (far_column side row ≡ x)

far_id-event_message :
    (side : Side) (paths : List (ℕ × Step)) (row : EventRow)
    → far_id side (event_message paths row) ≡ far_column side row
far_id-event_message from_artifacts paths row = refl
far_id-event_message from_executions paths row = refl

first_or_later :
    (x : ℕ) (visited ends : List ℕ) (far : ℕ)
    → has_id x (if not (has_id far visited) then far ∷ ends else ends) ≡ true
    → (far ≡ x) ⊎ (has_id x ends ≡ true)
unfolding has_id
first_or_later x visited ends far h = ground arith

-- An end that was not visited is the end of an event.
unvisited_ends-row :
    (side : Side) (x : ℕ) (visited : List ℕ) (paths : List (ℕ × Step)) (rows : List EventRow)
    → has_id x (unvisited_ends side visited (events_from_rows paths rows)) ≡ true
    → (row : EventRow) × Among row rows × (far_column side row ≡ x)
unfolding unvisited_ends events_from_rows has_id
unvisited_ends-row side x visited paths [] h = cc
unvisited_ends-row side x visited paths (row ∷ rows) h =
    elim (first_or_later x visited (unvisited_ends side visited (events_from_rows paths rows))
      (far_id side (event_message paths row)) h) [
        | inl same ↦ (row, inl refl, sym (far_id-event_message side paths row) ∙ same)
        | inr more ↦
            let (found, among, far) = unvisited_ends-row side x visited paths rows more in
            (found, inr among, far)
      ]

Among-perm :
    (row : EventRow) {rows others : List EventRow}
    → Permᴰ rows others
    → Among row rows
    → Among row others
Among-perm row Permᴰ.nil m = m
Among-perm row (Permᴰ.cons same p) (inl first) = inl (first ∙ same)
Among-perm row (Permᴰ.cons same p) (inr rest) = inr (Among-perm row p rest)
Among-perm row (Permᴰ.swap first second) (inl m) = inr (inl (m ∙ first))
Among-perm row (Permᴰ.swap first second) (inr (inl m)) = inl (m ∙ second)
Among-perm row (Permᴰ.swap first second) (inr (inr m)) = inr (inr m)
Among-perm row (Permᴰ.trans p q) m = Among-perm row q (Among-perm row p m)

Among-select_events :
    (column : EventRow → ℕ) (ids : List ℕ) (rows : List EventRow) (row : EventRow)
    → Among row (select_events column ids rows)
    → Among row rows × (has_id (column row) ids ≡ true)
unfolding select_events
Among-select_events column ids [] row m = absurd m
Among-select_events column ids (first ∷ rows) row m =
    elim (Bool-cases (has_id (column first) ids)) [
      | inr miss ↦
          let (among, hit) = Among-select_events column ids rows row (rw miss at m) in
          (inr among, hit)
      | inl hit ↦ selected hit (Among-select_events column ids rows row) (rw hit at m)
    ]
  where
    selected :
        has_id (column first) ids ≡ true
        → (Among row (select_events column ids rows)
            → Among row rows × (has_id (column row) ids ≡ true))
        → Among row (first ∷ select_events column ids rows)
        → Among row (first ∷ rows) × (has_id (column row) ids ≡ true)
    selected hit later (inl same) = (inl same, ap (λ r. has_id (column r) ids) same ∙ hit)
    selected hit later (inr more) = let (among, other) = later more in (inr among, other)

-- An end that was not visited is the end of an event at one of the ids, whatever the order of the
-- rows.
pub unvisited_ends-Leads :
    (row_order : RowOrder) (permutes : Permutes row_order) (side : Side) (x : ℕ)
    (visited ids : List ℕ) (paths : List (ℕ × Step)) (rows : List EventRow)
    → has_id x (
        unvisited_ends side visited (
          events_from_rows paths
            (row_order (near_column side) (select_events (near_column side) ids rows))))
      ≡ true
    → Leads side ids x rows
unvisited_ends-Leads row_order permutes side x visited ids paths rows h =
    let selected = select_events (near_column side) ids rows in
    let (row, among, far) =
      unvisited_ends-row side x visited paths (row_order (near_column side) selected) h in
    let (there, near) =
      Among-select_events (near_column side) ids rows row
        (Among-perm row (permutes (near_column side) selected) among) in
    (row, there, near, far)
