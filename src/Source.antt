-- ===== src/Source.antt =====
-- ml_metadata/metadata_store/metadata_source.cc, and RdbmsTransactionExecutor of
-- transaction_executor.cc. The class is abstract: its private virtual functions are a `Driver`,
-- whose state `D` holds what the connection and the database behind it hold.
pub mod Laws
pub mod Atomic
pub mod Flags
mod Tests
use ml_metadata_l_metadata_s.Prelude.{Bool, true, false, not, String, if◌then◌else◌}
use ml_metadata_l_metadata_s.Status.{failed_precondition, Result, ok, err}

-- ConnectImpl, CloseImpl, ExecuteQueryImpl, BeginImpl, CommitImpl and RollbackImpl; `R` is RecordSet.
pub record Driver (D R : Type 0) : Type 0 where
  pub connect_impl : D → Result (Unit {0}) × D
  pub close_impl : D → Result (Unit {0}) × D
  pub execute_query_impl : String → D → Result R × D
  pub begin_impl : D → Result (Unit {0}) × D
  pub commit_impl : D → Result (Unit {0}) × D
  pub rollback_impl : D → Result (Unit {0}) × D

pub record Source (D : Type 0) : Type 0 where
  pub impl : D
  pub is_connected : Bool
  pub transaction_open : Bool

module _ {D R : Type 0} (driver : Driver D R) where
  -- The flag is set only if the driver's call succeeds.
  settle_connected : Bool → Source D → Result (Unit {0}) × D → Result (Unit {0}) × Source D
  settle_connected b s (ok _, d) = (ok tt, record s { impl = d; is_connected = b })
  settle_connected b s (err e, d) = (err e, record s { impl = d })

  settle_open : Bool → Source D → Result (Unit {0}) × D → Result (Unit {0}) × Source D
  settle_open b s (ok _, d) = (ok tt, record s { impl = d; transaction_open = b })
  settle_open b s (err e, d) = (err e, record s { impl = d })

  pub connect : Source D → Result (Unit {0}) × Source D
  unfolding settle_connected
  connect s =
      if s.is_connected
      then (err failed_precondition, s)
      else settle_connected true s (driver.connect_impl s.impl)

  pub close : Source D → Result (Unit {0}) × Source D
  unfolding settle_connected
  close s =
      if not s.is_connected
      then (err failed_precondition, s)
      else settle_connected false s (driver.close_impl s.impl)

  pub execute_query : String → Source D → Result R × Source D
  execute_query query s =
      if not s.is_connected
      then (err failed_precondition, s)
      else if not s.transaction_open
      then (err failed_precondition, s)
      else let (r, d) = driver.execute_query_impl query s.impl in (r, record s { impl = d })

  pub begin : Source D → Result (Unit {0}) × Source D
  unfolding settle_open
  begin s =
      if not s.is_connected
      then (err failed_precondition, s)
      else if s.transaction_open
      then (err failed_precondition, s)
      else settle_open true s (driver.begin_impl s.impl)

  pub commit : Source D → Result (Unit {0}) × Source D
  unfolding settle_open
  commit s =
      if not s.is_connected
      then (err failed_precondition, s)
      else if not s.transaction_open
      then (err failed_precondition, s)
      else settle_open false s (driver.commit_impl s.impl)

  pub rollback : Source D → Result (Unit {0}) × Source D
  unfolding settle_open
  rollback s =
      if not s.is_connected
      then (err failed_precondition, s)
      else if not s.transaction_open
      then (err failed_precondition, s)
      else settle_open false s (driver.rollback_impl s.impl)

  -- absl::Status::Update keeps the first error, so the status of the rollback is never returned.
  after_commit : Result (Unit {0}) × Source D → Result (Unit {0}) × Source D
  unfolding rollback
  after_commit (ok _, s) = (ok tt, s)
  after_commit (err e, s) = let (_, s') = rollback s in (err e, s')

  after_body : Result (Unit {0}) × Source D → Result (Unit {0}) × Source D
  unfolding commit after_commit
  after_body (ok _, s) = after_commit (commit s)
  after_body (err e, s) = after_commit (err e, s)

  pub after_begin :
      (Source D → Result (Unit {0}) × Source D)
      → Result (Unit {0}) × Source D
      → Result (Unit {0}) × Source D
  unfolding after_body
  after_begin txn_body (ok _, s) = after_body (txn_body s)
  after_begin txn_body (err e, s) = (err e, s)

  -- Execute. The body is a closure over the same source.
  pub execute : (Source D → Result (Unit {0}) × Source D) → Source D → Result (Unit {0}) × Source D
  unfolding begin after_begin
  execute txn_body s =
      if not s.is_connected then (err failed_precondition, s) else after_begin txn_body (begin s)
