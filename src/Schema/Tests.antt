-- ===== src/Schema/Tests.antt =====
-- An engine whose database is the rows of `MLMDEnv`, if that table is there: "create" makes it, and
-- every other query leaves it.
use ml_metadata_l_metadata_s.Prelude.{
  ℕ, String, ◌≡◌, ◌⊎◌, refl, true, false, Bool-cases, inl, inr, Option, none, some, List, [], ◌∷◌,
  ◌++◌, ◌+◌, str_eq, if◌then◌else◌, arith,
}
use ml_metadata_l_metadata_s.Status.{internal, not_found, Result, ok, err, err-ok}
use ml_metadata_l_metadata_s.Messages.{pos}
use ml_metadata_l_metadata_s.Schema.{
  QueryConfig, Engine, execute_all, get_schema_version, upgrade_metadata_source_if_out_of_date,
  downgrade_metadata_source, init_metadata_source_if_not_exists,
}
use ml_metadata_l_metadata_s.Schema.Upgrade.{
  HasOneRow, IsVersioned, upgrade_disabled_keeps, upgrade-version, downgrade-version,
}
use ml_metadata_l_metadata_s.Schema.Init.{IsEmptyEnv, IsInserting, init_if_not_exists-version}

abbrev Env : Type 0
Env = Option (List ℕ)

abbrev create_env : Env → Env
create_env none = some []
create_env (some rows) = some rows

abbrev rows_of : Env → Result (List ℕ)
rows_of none = err internal
rows_of (some rows) = ok rows

abbrev table_check : Env → Result (Unit {0})
table_check none = err internal
table_check (some rows) = ok tt

abbrev insert_row : ℕ → Env → Result (Unit {0}) × Env
insert_row v none = (err internal, none)
insert_row v (some rows) = (ok tt, some (rows ++ v ∷ []))

abbrev update_row : ℕ → Env → Result (Unit {0}) × Env
update_row v none = (err internal, none)
update_row v (some rows) = (ok tt, some (v ∷ []))

abbrev env_engine : Engine Env
env_engine = record {
  execute_query = λ q env. (ok tt, if str_eq q "create" then create_env env else env);
  check_table = λ q env. table_check env;
  check_mlmd_env_table = rows_of;
  check_tables_in_v0_13_2 = λ env. err internal;
  insert_schema_version = insert_row;
  update_schema_version = update_row;
}

abbrev config : QueryConfig
config = record {
  schema_version = 3;
  migration_schemes =
      (2, record { upgrade_queries = "up" ∷ []; downgrade_queries = "down" ∷ [] })
      ∷ (3, record { upgrade_queries = "up" ∷ []; downgrade_queries = [] })
      ∷ (1, record { upgrade_queries = []; downgrade_queries = "down" ∷ [] })
      ∷ [];
  create_tables = "create" ∷ [];
  secondary_indices = "index" ∷ [];
  check_tables = "check" ∷ [];
}

updated_rows :
    (v : ℕ) (env : Env)
    → HasOneRow env_engine env
    → (update_row v env).0 ≡ ok tt
    → rows_of (update_row v env).1 ≡ ok (v ∷ [])
updated_rows v none one h = ground arith
updated_rows v (some rows) one h = refl

-- No migration touches the table.
same_env :
    (queries : List String) (env : Env)
    → HasOneRow env_engine env
    → HasOneRow env_engine (execute_all env_engine queries env).1
unfolding execute_all
same_env [] env one = one
same_env (q ∷ queries) none one = absurd (err-ok one.1)
same_env (q ∷ queries) (some rows) one = elim (Bool-cases (str_eq q "create")) [
  | inl create ↦ rw create (same_env queries (some rows) one)
  | inr other ↦ rw other (same_env queries (some rows) one)
]

version_row :
    (v : ℕ) (env : Env) → get_schema_version env_engine env ≡ ok v → HasOneRow env_engine env
version_row v none h = absurd (err-ok h)
version_row v (some []) h = absurd (err-ok h)
version_row v (some (w ∷ [])) h = (w, refl)
version_row v (some (w ∷ x ∷ rows)) h = absurd (err-ok h)

env-IsVersioned : IsVersioned env_engine config
env-IsVersioned = record {
  updated = updated_rows;
  upgrades =
      λ v scheme env found known ran. same_env scheme.upgrade_queries env (version_row v env known);
  downgrades = λ v scheme env found positive known ran.
      same_env scheme.downgrade_queries env (version_row (v + 1) env known);
}

env-IsInserting : IsInserting env_engine config
env-IsInserting = record {
  inserted = inserted_rows;
  tables_empty = (created, tt);
  indices_empty = (λ db h. h, tt);
}
  where
    inserted_rows :
        (v : ℕ) (env : Env)
        → IsEmptyEnv (rows_of env)
        → (insert_row v env).0 ≡ ok tt
        → rows_of (insert_row v env).1 ≡ ok (v ∷ [])
    inserted_rows v none empty h = ground arith
    inserted_rows v (some []) empty h = refl
    inserted_rows v (some (w ∷ rows)) empty h = absurd empty

    created : (env : Env) → IsEmptyEnv (rows_of env) → IsEmptyEnv (rows_of (create_env env))
    created none h = tt
    created (some rows) h = h

upgraded :
    upgrade_metadata_source_if_out_of_date env_engine config true (some (1 ∷ []))
    ≡ (ok tt, some (3 ∷ []))
unfolding upgrade_metadata_source_if_out_of_date
upgraded = refl

upgrade_disabled_keeps_example :
    (upgrade_metadata_source_if_out_of_date env_engine config false (some (1 ∷ []))).1
    ≡ some (1 ∷ [])
upgrade_disabled_keeps_example = upgrade_disabled_keeps env_engine config (some (1 ∷ []))

upgrade-version_example :
    (get_schema_version env_engine
        (upgrade_metadata_source_if_out_of_date env_engine config true (some (1 ∷ []))).1
      ≡ ok 3)
    ⊎ ((get_schema_version env_engine (some (1 ∷ [])) ≡ err not_found)
        × ((upgrade_metadata_source_if_out_of_date env_engine config true (some (1 ∷ []))).1
            ≡ some (1 ∷ [])))
unfolding upgrade_metadata_source_if_out_of_date
upgrade-version_example =
    upgrade-version env_engine config env-IsVersioned true (some (1 ∷ [])) refl

downgrade-version_example :
    get_schema_version env_engine
      (downgrade_metadata_source env_engine config (pos 1) (some (3 ∷ []))).1
    ≡ ok 1
unfolding downgrade_metadata_source
downgrade-version_example =
    downgrade-version env_engine config env-IsVersioned 1 3 (some (3 ∷ [])) (omega arith)
      (omega arith) refl refl

init_if_not_exists-version_example :
    get_schema_version env_engine
      (init_metadata_source_if_not_exists env_engine config none false none).1
    ≡ ok 3
unfolding init_metadata_source_if_not_exists
init_if_not_exists-version_example =
    init_if_not_exists-version env_engine config false none (omega arith) env-IsVersioned
      env-IsInserting refl
