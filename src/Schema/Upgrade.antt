-- ===== src/Schema/Upgrade.antt =====
-- Where the migrations of the schema end.
use ml_metadata_l_metadata_s.Prelude.{
  ℕ, zero, suc, ◌+◌, ◌-◌, ◌≤◌, ◌<◌, ◌≡◌, ◌⊎◌, refl, ap, ◌∙◌, Bool, true, false, not, ◌&&◌, ==_iff,
  Bool-cases, inl, inr, Option, none, some, [], ◌∷◌, ◌==◌, ltb, arith,
}
use ml_metadata_l_metadata_s.Status.{not_found, is_not_found, ok, err, Result-cases, err-ok}
use ml_metadata_l_metadata_s.Exec.{bind-ok}
use ml_metadata_l_metadata_s.Messages.{pos}
use ml_metadata_l_metadata_s.Schema.{
  Scheme, QueryConfig, Engine, find_scheme, version_of, get_schema_version, execute_all,
  run_upgrade, upgrade_loop, upgrade_from, upgrade_metadata_source_if_out_of_date, write_lower,
  run_downgrade, downgrade_loop, downgrade_metadata_source,
}

-- `MLMDEnv` has one row.
abbrev pub HasOneRow : {D : Type 0} → Engine D → D → Type 0
HasOneRow engine db = (w : ℕ) × (engine.check_mlmd_env_table db ≡ ok (w ∷ []))

-- `UPDATE MLMDEnv SET schema_version = v`, where it goes through, writes the version to the one row of
-- the table. The queries that migrate by one version, to one that is not 0, leave the table with one
-- row: those to version 1 create it with a row, the others do not touch it.
pub record IsVersioned {D : Type 0} (engine : Engine D) (config : QueryConfig) : Type 0 where
  pub updated :
      (v : ℕ) (db : D)
      → HasOneRow engine db
      → (engine.update_schema_version v db).0 ≡ ok tt
      → engine.check_mlmd_env_table (engine.update_schema_version v db).1 ≡ ok (v ∷ [])
  pub upgrades :
      (v : ℕ) (scheme : Scheme) (db : D)
      → find_scheme (v + 1) config.migration_schemes ≡ some scheme
      → get_schema_version engine db ≡ ok v
      → (execute_all engine scheme.upgrade_queries db).0 ≡ ok tt
      → HasOneRow engine (execute_all engine scheme.upgrade_queries db).1
  pub downgrades :
      (v : ℕ) (scheme : Scheme) (db : D)
      → find_scheme v config.migration_schemes ≡ some scheme
      → 0 < v
      → get_schema_version engine db ≡ ok (v + 1)
      → (execute_all engine scheme.downgrade_queries db).0 ≡ ok tt
      → HasOneRow engine (execute_all engine scheme.downgrade_queries db).1

module _ {D : Type 0} (engine : Engine D) (config : QueryConfig) where
  -- A migration that is disabled writes nothing.
  upgrade_from-disabled : (v : ℕ) (db : D) → (upgrade_from engine config false v db).1 ≡ db
  unfolding upgrade_from
  upgrade_from-disabled v db = elim (Bool-cases (v == config.schema_version)) [
    | inl same ↦ rw same refl
    | inr differs ↦ elim (Bool-cases (ltb config.schema_version v)) [
      | inl ahead ↦ rw (differs, ahead) refl
      | inr not_ahead ↦
          let behind : ltb v config.schema_version ≡ true =
            ground (arith, ==_iff v config.schema_version) in
          rw (differs, not_ahead, behind) refl
    ]
  ]

  -- A migration that is disabled writes nothing, whatever the version of the database is.
  pub upgrade_disabled_keeps :
      (db : D) → (upgrade_metadata_source_if_out_of_date engine config false db).1 ≡ db
  unfolding upgrade_metadata_source_if_out_of_date
  upgrade_disabled_keeps db = elim (Result-cases (get_schema_version engine db)) [
    | inl (v, known) ↦ rw known (upgrade_from-disabled v db)
    | inr (c, failed) ↦ elim (Bool-cases (is_not_found c)) [
      | inl empty ↦ rw (failed, empty) (upgrade_from-disabled config.schema_version db)
      | inr other ↦ rw (failed, other) refl
    ]
  ]

  module _ (laws : IsVersioned engine config) where
    env-version :
        (db : D) (v : ℕ)
        → engine.check_mlmd_env_table db ≡ ok (v ∷ [])
        → get_schema_version engine db ≡ ok v
    env-version db v h = ap (λ e. version_of e (engine.check_tables_in_v0_13_2 db)) h

    -- One round of the upgrade.
    run_upgrade-version :
        (v : ℕ) (scheme : Option Scheme) (db : D)
        → find_scheme (v + 1) config.migration_schemes ≡ scheme
        → get_schema_version engine db ≡ ok v
        → (run_upgrade engine config (v + 1) scheme db).0 ≡ ok tt
        → get_schema_version engine (run_upgrade engine config (v + 1) scheme db).1 ≡ ok (v + 1)
    run_upgrade-version v none db found known h = absurd (err-ok h)
    run_upgrade-version v (some scheme) db found known h =
        let run = execute_all engine scheme.upgrade_queries in
        let (_, ran, updated, e) = bind-ok run (λ _. engine.update_schema_version (v + 1)) db h in
        ap (get_schema_version engine) e
        ∙ env-version (engine.update_schema_version (v + 1) (run db).1).1 (v + 1)
            (laws.updated (v + 1) (run db).1 (laws.upgrades v scheme db found known ran) updated)

    upgrade_loop-version :
        (behind v : ℕ) (db : D)
        → get_schema_version engine db ≡ ok v
        → (upgrade_loop engine config behind v db).0 ≡ ok tt
        → get_schema_version engine (upgrade_loop engine config behind v db).1 ≡ ok (v + behind)
    unfolding upgrade_loop
    upgrade_loop-version zero v db known h = known ∙ ap ok (omega arith)
    upgrade_loop-version (suc behind) v db known h =
        let scheme = find_scheme (v + 1) config.migration_schemes in
        let step = run_upgrade engine config (v + 1) scheme in
        let (_, ran, rest, e) =
          bind-ok step (λ _. upgrade_loop engine config behind (v + 1)) db h in
        ap (get_schema_version engine) e
        ∙ upgrade_loop-version behind (v + 1) (step db).1
            (run_upgrade-version v scheme db refl known ran) rest
        ∙ ap ok (omega arith)

    -- From a version that is known.
    known-version :
        (enable_migration : Bool) (v : ℕ) (db : D)
        → get_schema_version engine db ≡ ok v
        → (upgrade_from engine config enable_migration v db).0 ≡ ok tt
        → get_schema_version engine (upgrade_from engine config enable_migration v db).1
          ≡ ok config.schema_version
    unfolding upgrade_from
    known-version enable v db known h = elim (Bool-cases (v == config.schema_version)) [
      | inl same ↦ rw same (known ∙ ap ok ((==_iff v config.schema_version).0 same))
      | inr differs ↦ elim (Bool-cases (ltb config.schema_version v)) [
        | inl ahead ↦ absurd (err-ok (rw (differs, ahead) at h))
        | inr not_ahead ↦ elim (Bool-cases (ltb v config.schema_version && not enable)) [
          | inl disabled ↦ absurd (err-ok (rw (differs, not_ahead, disabled) at h))
          | inr goes ↦
              let behind : v < config.schema_version =
                ground (arith, ==_iff v config.schema_version) in
              rw (differs, not_ahead, goes)
                (upgrade_loop-version (config.schema_version - v) v db known
                    (rw (differs, not_ahead, goes) at h)
                  ∙ ap ok (omega (arith, behind)))
        ]
      ]
    ]

    upgrade_from-same :
        (enable_migration : Bool) (db : D)
        → (upgrade_from engine config enable_migration config.schema_version db).1 ≡ db
    unfolding upgrade_from
    upgrade_from-same enable db =
        rw ((==_iff config.schema_version config.schema_version).1 refl) refl

    -- An upgrade that succeeds ends at the version of the library, if the database had a version; a
    -- database without one, which counts as empty, is left as it was. An update of the version is
    -- read back, and each migration leaves one row in the table of versions.
    pub upgrade-version :
        (enable_migration : Bool) (db : D)
        → (upgrade_metadata_source_if_out_of_date engine config enable_migration db).0 ≡ ok tt
        → let db' = (upgrade_metadata_source_if_out_of_date engine config enable_migration db).1 in
          (get_schema_version engine db' ≡ ok config.schema_version)
          ⊎ ((get_schema_version engine db ≡ err not_found) × (db' ≡ db))
    unfolding upgrade_metadata_source_if_out_of_date
    upgrade-version enable db h = elim (Result-cases (get_schema_version engine db)) [
      | inl (v, known) ↦ inl (rw known (known-version enable v db known (rw known at h)))
      | inr (c, failed) ↦ elim (Bool-cases (is_not_found c)) [
        | inl empty ↦
            let missing : c ≡ not_found = ground arith in
            inr (failed ∙ ap err missing, rw (failed, empty) (upgrade_from-same enable db))
        | inr other ↦ absurd (err-ok (rw (failed, other) at h))
      ]
    ]

    write_lower-version :
        (v : ℕ) (db : D)
        → 0 < v
        → HasOneRow engine db
        → (write_lower engine config v db).0 ≡ ok tt
        → get_schema_version engine (write_lower engine config v db).1 ≡ ok v
    write_lower-version zero db positive one h = absurd (omega (arith, positive))
    write_lower-version (suc v) db positive one h =
        env-version (engine.update_schema_version (suc v) db).1 (suc v)
          (laws.updated (suc v) db one h)

    -- One round of the downgrade.
    run_downgrade-version :
        (v : ℕ) (scheme : Option Scheme) (db : D)
        → find_scheme v config.migration_schemes ≡ scheme
        → 0 < v
        → get_schema_version engine db ≡ ok (v + 1)
        → (run_downgrade engine config v scheme db).0 ≡ ok tt
        → get_schema_version engine (run_downgrade engine config v scheme db).1 ≡ ok v
    run_downgrade-version v none db found positive known h = absurd (err-ok h)
    run_downgrade-version v (some scheme) db found positive known h =
        let run = execute_all engine scheme.downgrade_queries in
        let (_, ran, written, e) = bind-ok run (λ _. write_lower engine config v) db h in
        ap (get_schema_version engine) e
        ∙ write_lower-version v (run db).1 positive
            (laws.downgrades v scheme db found positive known ran) written

    downgrade_loop-version :
        (above target : ℕ) (db : D)
        → 0 < target
        → get_schema_version engine db ≡ ok (above + target)
        → (downgrade_loop engine config above target db).0 ≡ ok tt
        → get_schema_version engine (downgrade_loop engine config above target db).1 ≡ ok target
    unfolding downgrade_loop
    downgrade_loop-version zero target db positive known h = known ∙ ap ok (omega arith)
    downgrade_loop-version (suc above) target db positive known h =
        let scheme = find_scheme (above + target) config.migration_schemes in
        let step = run_downgrade engine config (above + target) scheme in
        let (_, ran, rest, e) =
          bind-ok step (λ _. downgrade_loop engine config above target) db h in
        ap (get_schema_version engine) e
        ∙ downgrade_loop-version above target (step db).1 positive
            (run_downgrade-version (above + target) scheme db refl (omega (arith, positive))
              (known ∙ ap ok (omega arith)) ran)
            rest

    -- A downgrade that succeeds, of a database that is not below the target, ends at the target, unless
    -- this is version 0, which has no table of versions. An update of the version is read back, and
    -- each migration leaves one row in the table of versions.
    pub downgrade-version :
        (target v : ℕ) (db : D)
        → 0 < target
        → target ≤ v
        → get_schema_version engine db ≡ ok v
        → (downgrade_metadata_source engine config (pos target) db).0 ≡ ok tt
        → get_schema_version engine (downgrade_metadata_source engine config (pos target) db).1
          ≡ ok target
    unfolding downgrade_metadata_source
    downgrade-version target v db positive below known h =
        elim (Bool-cases (ltb config.schema_version target)) [
          | inl above ↦ absurd (err-ok (rw above at h))
          | inr in_range ↦ elim (Bool-cases (ltb config.schema_version v)) [
            | inl newer ↦ absurd (err-ok (rw (in_range, known, newer) at h))
            | inr older ↦
                rw (in_range, known, older)
                  (downgrade_loop-version (v - target) target db positive
                    (known ∙ ap ok (omega (arith, below))) (rw (in_range, known, older) at h))
          ]
        ]
