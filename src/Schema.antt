-- ===== src/Schema.antt =====
-- The versions of the schema: GetSchemaVersion, UpgradeMetadataSourceIfOutOfDate,
-- DowngradeMetadataSource, InitMetadataSource and InitMetadataSourceIfNotExists of
-- ml_metadata/metadata_store/query_config_executor.cc, and CheckSchemaVersionAlignsWithQueryVersion of
-- query_executor.cc. What a query does is the engine's: a parameter here, with the database as `D`.
pub mod Upgrade
pub mod Init
mod Tests
use ml_metadata_l_metadata_s.Prelude.{
  ℕ, zero, suc, ◌+◌, ◌-◌, String, Bool, true, false, not, ◌&&◌, ◌||◌, Option, none, some, List, [],
  ◌∷◌, ◌==◌, ltb, length, if◌then◌else◌,
}
use ml_metadata_l_metadata_s.Status.{
  Code, invalid_argument, not_found, failed_precondition, aborted, internal, data_loss,
  duplicate_key_name, is_not_found, Result, ok, err,
}
use ml_metadata_l_metadata_s.Exec.{Exec, pure, raise, lift, gets, attempt, raise_if, ◌>>=◌, ◌>>◌}
use ml_metadata_l_metadata_s.Messages.{ℤ, pos, negsuc}

-- The queries of MetadataSourceQueryConfig that matter here.
pub record Scheme : Type 0 where
  pub upgrade_queries : List String
  pub downgrade_queries : List String

pub record QueryConfig : Type 0 where
  pub schema_version : ℕ
  pub migration_schemes : List (ℕ × Scheme)
  -- The queries that create the tables, in order, and those of the secondary indices.
  pub create_tables : List String
  pub secondary_indices : List String
  -- The queries that check that a table is there, but for the one of `MLMDEnv`.
  pub check_tables : List String

-- ExecuteQuery. A SELECT leaves the database as it is.
pub record Engine (D : Type 0) : Type 0 where
  pub execute_query : String → Exec D (Unit {0})
  pub check_table : String → D → Result (Unit {0})
  -- check_mlmd_env_table: the rows of `schema_version`.
  pub check_mlmd_env_table : D → Result (List ℕ)
  pub check_tables_in_v0_13_2 : D → Result (Unit {0})
  pub insert_schema_version : ℕ → Exec D (Unit {0})
  pub update_schema_version : ℕ → Exec D (Unit {0})

-- `migration_schemes.find(version)`
pub find_scheme : ℕ → List (ℕ × Scheme) → Option Scheme
find_scheme version [] = none
find_scheme version ((v, scheme) ∷ rest) =
    if v == version then some scheme else find_scheme version rest

-- IsCompatible
abbrev pub is_compatible : ℕ → ℕ → Bool
is_compatible db_version lib_version = db_version == lib_version

-- GetSchemaVersion by the rows of `MLMDEnv`, and by the tables of v0.13.2 if it is not there.
abbrev pub old_version : Result (Unit {0}) → Result ℕ
old_version (ok _) = ok 0
old_version (err c) = err not_found

abbrev pub version_of : Result (List ℕ) → Result (Unit {0}) → Result ℕ
version_of (ok []) old = err aborted
version_of (ok (v ∷ [])) old = ok v
version_of (ok (v ∷ w ∷ rest)) old = err data_loss
version_of (err c) old = old_version old

-- `if (!check.ok())` over the checks.
abbrev pub count_error {ℓ} : {A : Type ℓ} → Result A → ℕ → ℕ
count_error (ok _) n = n
count_error (err c) n = n + 1

module _ {D : Type 0} (engine : Engine D) where
  abbrev pub get_schema_version : D → Result ℕ
  get_schema_version db =
      version_of (engine.check_mlmd_env_table db) (engine.check_tables_in_v0_13_2 db)

  -- The queries of one migration.
  pub execute_all : List String → Exec D (Unit {0})
  execute_all [] = pure tt
  execute_all (query ∷ queries) = engine.execute_query query >> execute_all queries

  module _ (config : QueryConfig) where
    abbrev run_upgrade : ℕ → Option Scheme → Exec D (Unit {0})
    run_upgrade to_version none = raise internal
    run_upgrade to_version (some scheme) =
        execute_all scheme.upgrade_queries >> engine.update_schema_version to_version

    -- The loop while the database is behind; the first argument is how far.
    pub upgrade_loop : ℕ → ℕ → Exec D (Unit {0})
    unfolding execute_all find_scheme
    upgrade_loop zero db_version = pure tt
    upgrade_loop (suc behind) db_version =
        let upgrade_rest = upgrade_loop behind (db_version + 1) in
        run_upgrade (db_version + 1) (find_scheme (db_version + 1) config.migration_schemes)
        >> upgrade_rest

    -- UpgradeMetadataSourceIfOutOfDate, once the version is known.
    pub upgrade_from : Bool → ℕ → Exec D (Unit {0})
    unfolding upgrade_loop
    upgrade_from enable_migration db_version =
        if is_compatible db_version config.schema_version
        then pure tt
        else if ltb config.schema_version db_version
        then raise failed_precondition
        else if ltb db_version config.schema_version && not enable_migration
        then raise failed_precondition
        else upgrade_loop (config.schema_version - db_version) db_version

    -- An empty database counts as one of the library's version.
    abbrev pub upgrade_by_status : Bool → Result ℕ → Exec D (Unit {0})
    upgrade_by_status enable_migration (ok db_version) = upgrade_from enable_migration db_version
    upgrade_by_status enable_migration (err c) =
        if is_not_found c then upgrade_from enable_migration config.schema_version else raise c

    pub upgrade_metadata_source_if_out_of_date : Bool → Exec D (Unit {0})
    unfolding upgrade_from
    upgrade_metadata_source_if_out_of_date enable_migration db =
        upgrade_by_status enable_migration (get_schema_version db) db

    -- At version 0 there is no schema version to write.
    abbrev write_lower : ℕ → Exec D (Unit {0})
    write_lower zero = pure tt
    write_lower (suc v) = engine.update_schema_version (suc v)

    abbrev run_downgrade : ℕ → Option Scheme → Exec D (Unit {0})
    run_downgrade to_version none = raise internal
    run_downgrade to_version (some scheme) =
        execute_all scheme.downgrade_queries >> write_lower to_version

    -- The loop while the database is above the target; the first argument is how far.
    pub downgrade_loop : ℕ → ℕ → Exec D (Unit {0})
    unfolding execute_all find_scheme
    downgrade_loop zero target = pure tt
    downgrade_loop (suc above) target =
        let downgrade_rest = downgrade_loop above target in
        run_downgrade (above + target) (find_scheme (above + target) config.migration_schemes)
        >> downgrade_rest

    abbrev pub downgrade_from : ℕ → Result ℕ → Exec D (Unit {0})
    downgrade_from target (err c) = raise (if is_not_found c then invalid_argument else c)
    downgrade_from target (ok db_version) =
        if ltb config.schema_version db_version
        then raise failed_precondition
        else downgrade_loop (db_version - target) target

    pub downgrade_metadata_source : ℤ → Exec D (Unit {0})
    unfolding downgrade_loop
    downgrade_metadata_source (negsuc n) db = (err invalid_argument, db)
    downgrade_metadata_source (pos target) db =
        if ltb config.schema_version target
        then (err invalid_argument, db)
        else downgrade_from target (get_schema_version db) db

    -- An index that is there already is no error.
    abbrev forgive : Result (Unit {0}) → Result (Unit {0})
    forgive (err duplicate_key_name) = ok tt
    forgive status = status

    pub create_indices : List String → Exec D (Unit {0})
    create_indices [] = pure tt
    create_indices (query ∷ queries) =
        (attempt (engine.execute_query query) >>= λ status. lift (forgive status))
        >> create_indices queries

    -- The version on record after an insertion that failed.
    abbrev pub recorded_version : Result ℕ → Result (Unit {0})
    recorded_version (err c) = err c
    recorded_version (ok db_version) =
        if not (db_version == config.schema_version) then err data_loss else ok tt

    abbrev pub after_insert : Result (Unit {0}) → Exec D (Unit {0})
    after_insert (ok _) db = (ok tt, db)
    after_insert (err c) db = (recorded_version (get_schema_version db), db)

    pub init_metadata_source : Exec D (Unit {0})
    unfolding execute_all create_indices
    init_metadata_source = do
      execute_all config.create_tables
      create_indices config.secondary_indices
      status ← attempt (engine.insert_schema_version config.schema_version)
      after_insert status

    -- The checks of the tables. The one of `MLMDEnv` is the query that reads the version.
    pub failing : List String → D → ℕ
    failing [] db = 0
    failing (query ∷ queries) db = count_error (engine.check_table query db) (failing queries db)

    abbrev pub all_failing : D → ℕ
    all_failing db = count_error (engine.check_mlmd_env_table db) (failing config.check_tables db)

    -- All tables are there, or a part of them, or none.
    pub init_by_checks : ℕ → Exec D (Unit {0})
    unfolding init_metadata_source
    init_by_checks missing =
        if missing == 0
        then pure tt
        else if not (length config.check_tables + 1 == missing)
        then raise aborted
        else init_metadata_source

    -- CheckSchemaVersionAlignsWithQueryVersion
    abbrev pub check_aligned : ℕ → Result ℕ → Result (Unit {0})
    check_aligned query_version (err c) = err (if is_not_found c then failed_precondition else c)
    check_aligned query_version (ok db_version) =
        if not (db_version == query_version) then err failed_precondition else ok tt

    -- InitMetadataSourceIfNotExists; the first argument is `query_schema_version_`.
    pub init_metadata_source_if_not_exists : Option ℕ → Bool → Exec D (Unit {0})
    unfolding upgrade_metadata_source_if_out_of_date failing init_by_checks
    init_metadata_source_if_not_exists (some query_version) enable_upgrade_migration db =
        (check_aligned query_version (get_schema_version db), db)
    init_metadata_source_if_not_exists none enable_upgrade_migration db =
        (upgrade_metadata_source_if_out_of_date enable_upgrade_migration
            >> (gets all_failing >>= λ missing. init_by_checks missing))
          db
