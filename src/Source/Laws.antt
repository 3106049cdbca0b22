-- ===== src/Source/Laws.antt =====
-- What a transactional driver promises, and what the source makes of it.
use ml_metadata_l_metadata_s.Prelude.{String, ◌≡◌, arith}
use ml_metadata_l_metadata_s.Status.{Code, Result, ok, err, ◌>>=◌}
use ml_metadata_l_metadata_s.Source.{Driver, Source, execute_query, begin, after_begin, execute}

-- A driver as a database documents it: `durable` is what a new connection would read, `current`
-- what this one reads. Queries write to `current` alone.
pub record IsTransactional {D R V : Type 0} (driver : Driver D R) (durable current : D → V)
    : Type 0 where
  pub begin_durable : (d : D) → durable (driver.begin_impl d).1 ≡ durable d
  pub query_durable : (q : String) (d : D) → durable (driver.execute_query_impl q d).1 ≡ durable d
  pub commit_ok :
      (d : D) → (driver.commit_impl d).0 ≡ ok tt → durable (driver.commit_impl d).1 ≡ current d
  pub commit_err :
      (d : D) (e : Code)
      → (driver.commit_impl d).0 ≡ err e
      → durable (driver.commit_impl d).1 ≡ durable d
  pub rollback_durable : (d : D) → durable (driver.rollback_impl d).1 ≡ durable d

-- A body of a transaction keeps both flags, as `execute_query` does.
pub record KeepsFlags {D : Type 0} (body : Source D → Result (Unit {0}) × Source D) : Type 0 where
  pub connected : (s : Source D) → (body s).1.is_connected ≡ s.is_connected
  pub opened : (s : Source D) → (body s).1.transaction_open ≡ s.transaction_open

-- It changes no durable data either.
pub record IsBody {D V : Type 0} (durable : D → V) (body : Source D → Result (Unit {0}) × Source D)
    : Type 0 where
  pub keeps : KeepsFlags body
  pub durable_kept : (s : Source D) → durable (body s).1.impl ≡ durable s.impl

-- The body that runs one query and drops what it read.
abbrev pub run_query :
    {D R : Type 0} → Driver D R → String → Source D → Result (Unit {0}) × Source D
run_query driver query s = let (r, t) = execute_query driver query s in (r >>= λ _. ok tt, t)

-- Without a connection Begin fails in the same way, so the test in front of it decides nothing.
pub execute_lem :
    {D R : Type 0} (driver : Driver D R) (body : Source D → Result (Unit {0}) × Source D)
    (s : Source D)
    → execute driver body s ≡ after_begin driver body (begin driver s)
unfolding execute
execute_lem driver body s = ground arith

module _ {D R V : Type 0} (driver : Driver D R) {durable current : D → V} where
  pub run_query-IsBody :
      (query : String)
      → IsTransactional driver durable current
      → IsBody durable (run_query driver query)
  unfolding execute_query
  run_query-IsBody query t = record {
    keeps = record { connected = λ s. ground arith; opened = λ s. ground arith };
    durable_kept = λ s. ground (arith, t.query_durable query s.impl);
  }
