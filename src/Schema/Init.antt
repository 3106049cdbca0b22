-- ===== src/Schema/Init.antt =====
-- InitMetadataSourceIfNotExists leaves a database of the library's version.
use ml_metadata_l_metadata_s.Prelude.{
  ℕ, suc, ◌+◌, ◌≤◌, ◌<◌, String, ◌≡◌, refl, ap, sym, ◌∙◌, subst, Bool, false, ==_iff, Bool-cases,
  inl, inr, none, List, [], ◌∷◌, ◌==◌, length, arith, All,
}
use ml_metadata_l_metadata_s.Status.{
  Code, not_found, aborted, data_loss, Result, ok, err, Result-cases, err-ok, ok-injective,
}
use ml_metadata_l_metadata_s.Exec.{Exec, lift, gets, attempt, bind-ok, ◌>>=◌, ◌>>◌}
use ml_metadata_l_metadata_s.Exec.Preserves.{Preserves, bind-Preserves}
use ml_metadata_l_metadata_s.Schema.{
  QueryConfig, Engine, count_error, version_of, get_schema_version, execute_all, create_indices,
  forgive, recorded_version, after_insert, init_metadata_source, failing, all_failing,
  init_by_checks, upgrade_metadata_source_if_out_of_date, init_metadata_source_if_not_exists,
}
use ml_metadata_l_metadata_s.Schema.Upgrade.{IsVersioned, upgrade-version}

-- The table of versions is not there, or has no row.
abbrev pub IsEmptyEnv : Result (List ℕ) → Type 0
IsEmptyEnv (err c) = Unit
IsEmptyEnv (ok []) = Unit
IsEmptyEnv (ok (v ∷ rows)) = ⊥

abbrev pub WritesNoVersion : {D : Type 0} → Engine D → String → Type 0
WritesNoVersion {D} engine query =
    Preserves (λ (db : D). IsEmptyEnv (engine.check_mlmd_env_table db)) (engine.execute_query query)

-- `INSERT INTO MLMDEnv`, where it goes through on a database without a version, leaves the version
-- as the one row; the queries that create tables and indices write no version.
pub record IsInserting {D : Type 0} (engine : Engine D) (config : QueryConfig) : Type 0 where
  pub inserted :
      (v : ℕ) (db : D)
      → IsEmptyEnv (engine.check_mlmd_env_table db)
      → (engine.insert_schema_version v db).0 ≡ ok tt
      → engine.check_mlmd_env_table (engine.insert_schema_version v db).1 ≡ ok (v ∷ [])
  pub tables_empty : All (WritesNoVersion engine) config.create_tables
  pub indices_empty : All (WritesNoVersion engine) config.secondary_indices

module _ {D : Type 0} (engine : Engine D) (config : QueryConfig) where
  abbrev EmptyDb : D → Type 0
  EmptyDb db = IsEmptyEnv (engine.check_mlmd_env_table db)

  execute_all-EmptyDb :
      (queries : List String)
      → All (WritesNoVersion engine) queries
      → Preserves EmptyDb (execute_all engine queries)
  unfolding execute_all
  execute_all-EmptyDb [] laws = λ db h. h
  execute_all-EmptyDb (q ∷ queries) laws =
      bind-Preserves EmptyDb (engine.execute_query q) (λ _. execute_all engine queries) laws.0
        (λ _. execute_all-EmptyDb queries laws.1)

  create_indices-EmptyDb :
      (queries : List String)
      → All (WritesNoVersion engine) queries
      → Preserves EmptyDb (create_indices engine config queries)
  unfolding create_indices
  create_indices-EmptyDb [] laws = λ db h. h
  create_indices-EmptyDb (q ∷ queries) laws =
      let create = attempt (engine.execute_query q) in
      bind-Preserves EmptyDb (create >>= λ status. lift (forgive engine config status))
        (λ _. create_indices engine config queries)
        (bind-Preserves EmptyDb create (λ status. lift (forgive engine config status)) laws.0
          (λ _ db h. h))
        (λ _. create_indices-EmptyDb queries laws.1)

  failing_le : (queries : List String) (db : D) → failing engine config queries db ≤ length queries
  unfolding failing
  failing_le [] db = omega arith
  failing_le (q ∷ queries) db =
      count_le (engine.check_table q db) (failing engine config queries db) (length queries)
        (failing_le queries db)
    where
      count_le : (r : Result (Unit {0})) (n m : ℕ) → n ≤ m → count_error r n ≤ suc m
      count_le (ok u) n m h = omega (arith, h)
      count_le (err c) n m h = omega (arith, h)

  recorded_version-eq :
      (r : Result ℕ) → recorded_version engine config r ≡ ok tt → r ≡ ok config.schema_version
  recorded_version-eq (err c) h = absurd (err-ok h)
  recorded_version-eq (ok v) h = elim (Bool-cases (v == config.schema_version)) [
    | inl same ↦ ap ok ((==_iff v config.schema_version).0 same)
    | inr differs ↦ absurd (err-ok (rw differs at h))
  ]

  module _ (laws : IsInserting engine config) where
    -- The insertion of the version and what follows it.
    insert_version :
        (db : D)
        → EmptyDb db
        → ((attempt (engine.insert_schema_version config.schema_version)
              >>= after_insert engine config)
            db).0
          ≡ ok tt
        → get_schema_version engine
            ((attempt (engine.insert_schema_version config.schema_version)
                >>= after_insert engine config)
              db).1
          ≡ ok config.schema_version
    insert_version db e h =
        elim (Result-cases (engine.insert_schema_version config.schema_version db).0) [
          | inl (u, good) ↦
              let after = laws.inserted config.schema_version db e good in
              rw good (
                ap
                  (λ r. version_of r (
                    engine.check_tables_in_v0_13_2
                      (engine.insert_schema_version config.schema_version db).1))
                  after)
          | inr (c, bad) ↦ rw bad (
              recorded_version-eq
                (get_schema_version engine
                  (engine.insert_schema_version config.schema_version db).1)
                (rw bad at h))
        ]

    init_metadata_source-version :
        (db : D)
        → EmptyDb db
        → (init_metadata_source engine config db).0 ≡ ok tt
        → get_schema_version engine (init_metadata_source engine config db).1
          ≡ ok config.schema_version
    unfolding init_metadata_source
    init_metadata_source-version db e h =
        let tables = execute_all engine config.create_tables in
        let indices = create_indices engine config config.secondary_indices in
        let insert =
          attempt (engine.insert_schema_version config.schema_version)
          >>= after_insert engine config in
        let (_, _, q, f) = bind-ok tables (λ _. indices >> insert) db h in
        let (_, _, r, g) = bind-ok indices (λ _. insert) (tables db).1 q in
        ap (get_schema_version engine) (f ∙ g)
        ∙ insert_version (indices (tables db).1).1
            (create_indices-EmptyDb config.secondary_indices laws.indices_empty (tables db).1
              (execute_all-EmptyDb config.create_tables laws.tables_empty db e))
            r

    -- The checks after an upgrade.
    by_checks-present :
        (rows : List ℕ) (db : D)
        → engine.check_mlmd_env_table db ≡ ok rows
        → (init_by_checks engine config (all_failing engine config db) db).0 ≡ ok tt
        → (init_by_checks engine config (all_failing engine config db) db).1 ≡ db
    unfolding init_by_checks
    by_checks-present rows db there h =
        elim (Bool-cases (failing engine config config.check_tables db == 0)) [
          | inl none_missing ↦ rw (there, none_missing) refl
          | inr some_missing ↦
              let part : (length config.check_tables + 1
                    == failing engine config config.check_tables db)
                  ≡ false =
                ground (
                  arith,
                  failing_le config.check_tables db,
                  ==_iff (length config.check_tables + 1)
                      (failing engine config config.check_tables db),
                ) in
              absurd (err-ok (rw (there, some_missing, part) at h))
        ]

    by_checks-absent :
        (c : Code) (db : D)
        → engine.check_mlmd_env_table db ≡ err c
        → (init_by_checks engine config (all_failing engine config db) db).0 ≡ ok tt
        → get_schema_version engine
            (init_by_checks engine config (all_failing engine config db) db).1
          ≡ ok config.schema_version
    unfolding init_by_checks
    by_checks-absent c db absent h =
        let n = failing engine config config.check_tables db in
        let not_zero : (n + 1 == 0) ≡ false = ground (arith, ==_iff (n + 1) 0) in
        elim (Bool-cases (length config.check_tables + 1 == n + 1)) [
          | inr part ↦ absurd (err-ok (rw (absent, not_zero, part) at h))
          | inl all ↦
              rw (absent, not_zero, all)
                (init_metadata_source-version db (subst IsEmptyEnv (sym absent) tt)
                  (rw (absent, not_zero, all) at h))
        ]

  has_rows :
      (env : Result (List ℕ)) (old : Result (Unit {0})) (v : ℕ)
      → 0 < v
      → version_of env old ≡ ok v
      → (rows : List ℕ) × (env ≡ ok rows)
  has_rows (ok rows) old v positive h = (rows, refl)
  has_rows (err c) (ok u) v positive h = absurd (omega (arith, positive, ok-injective h))
  has_rows (err c) (err d) v positive h = absurd (err-ok h)

  has_no_table :
      (env : Result (List ℕ)) (old : Result (Unit {0}))
      → version_of env old ≡ err not_found
      → (c : Code) × (env ≡ err c)
  has_no_table (err c) old h = (c, refl)
  has_no_table (ok []) old h = absurd (other_code h)
    where
      other_code : ¬ (Path (Result ℕ) (err aborted) (err not_found))
      other_code h = ground arith
  has_no_table (ok (v ∷ [])) old h = absurd (err-ok (sym h))
  has_no_table (ok (v ∷ w ∷ rows)) old h = absurd (other_code h)
    where
      other_code : ¬ (Path (Result ℕ) (err data_loss) (err not_found))
      other_code h = ground arith

  -- If InitMetadataSourceIfNotExists succeeds at head, the database is at the version of the library:
  -- it was there, or it was upgraded to it, or the tables and the version were written. The library's
  -- version is positive; an update of the version is read back, and so is an insertion where there is
  -- none yet; each migration leaves one row in the table of versions, and the queries that create
  -- tables and indices write none.
  pub init_if_not_exists-version :
      (enable_upgrade_migration : Bool) (db : D)
      → 0 < config.schema_version
      → IsVersioned engine config
      → IsInserting engine config
      → (init_metadata_source_if_not_exists engine config none enable_upgrade_migration db).0
        ≡ ok tt
      → get_schema_version engine
          (init_metadata_source_if_not_exists engine config none enable_upgrade_migration db).1
        ≡ ok config.schema_version
  unfolding init_metadata_source_if_not_exists
  init_if_not_exists-version enable db positive versioned inserting h =
      let upgrade = upgrade_metadata_source_if_out_of_date engine config enable in
      let check : Exec D (Unit {0}) =
        gets (all_failing engine config) >>= λ missing. init_by_checks engine config missing in
      let (_, upgraded, q, e) = bind-ok upgrade (λ _. check) db h in
      let db1 = (upgrade db).1 in
      elim (upgrade-version engine config versioned enable db upgraded) [
        | inl current ↦
            let (rows, there) =
              has_rows (engine.check_mlmd_env_table db1) (engine.check_tables_in_v0_13_2 db1)
                config.schema_version positive current in
            ap (get_schema_version engine) (e ∙ by_checks-present inserting rows db1 there q)
            ∙ current
        | inr (empty, kept) ↦
            let (c, absent) =
              has_no_table (engine.check_mlmd_env_table db) (engine.check_tables_in_v0_13_2 db)
                empty in
            ap (get_schema_version engine) e
            ∙ by_checks-absent inserting c db1 (ap engine.check_mlmd_env_table kept ∙ absent) q
      ]
