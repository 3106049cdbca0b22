-- ===== src/Source/Flags.antt =====
-- The two flags: when the source is ready for the next transaction, and when it never is again.
use ml_metadata_l_metadata_s.Prelude.{true, false, ◌≡◌, ◌≢◌, refl, ◌∙◌, arith}
use ml_metadata_l_metadata_s.Status.{Code, failed_precondition, Result, ok, err}
use ml_metadata_l_metadata_s.Source.{
  Driver, Source, connect, close, begin, commit, after_commit, after_body, after_begin, execute,
}
use ml_metadata_l_metadata_s.Source.Laws.{KeepsFlags, execute_lem}

-- The source can take a transaction.
pub record IsReady {D : Type 0} (s : Source D) : Type 0 where
  pub connected : s.is_connected ≡ true
  pub idle : s.transaction_open ≡ false

-- A transaction was left open.
pub record IsStuck {D : Type 0} (s : Source D) : Type 0 where
  pub connected : s.is_connected ≡ true
  pub opened : s.transaction_open ≡ true

module _ {D R : Type 0} (driver : Driver D R) where
  -- On a source with an open transaction Execute refuses every body and changes nothing.
  execute_stuck :
      (body : Source D → Result (Unit {0}) × Source D) (s : Source D)
      → IsStuck s
      → execute driver body s ≡ (err failed_precondition, s)
  unfolding execute
  execute_stuck body s h = ground arith

  begin_flags :
      (s : Source D)
      → IsReady s
      → ((begin driver s).1.is_connected ≡ true)
        × ((begin driver s).0 ≡ ok tt → (begin driver s).1.transaction_open ≡ true)
        × ((e : Code) → (begin driver s).0 ≡ err e → (begin driver s).1.transaction_open ≡ false)
  unfolding begin
  begin_flags s h = (ground arith, ground arith, λ e x. ground arith)

  failed_rollback-IsStuck :
      (body : Source D → Result (Unit {0}) × Source D) (s : Source D) (e : Code)
      → KeepsFlags body
      → IsReady s
      → (driver.begin_impl s.impl).0 ≡ ok tt
      → (body (begin driver s).1).0 ≡ err e
      → (driver.rollback_impl (body (begin driver s).1).1.impl).0 ≢ ok tt
      → IsStuck (after_begin driver body (begin driver s)).1
  unfolding begin after_begin after_body
  failed_rollback-IsStuck body s e k h begun failed broken =
      ground (arith, k.connected (begin driver s).1, k.opened (begin driver s).1)

  reconnect-IsStuck :
      (s : Source D)
      → IsStuck s
      → (close driver s).0 ≡ ok tt
      → (connect driver (close driver s).1).0 ≡ ok tt
      → IsStuck (connect driver (close driver s).1).1
  unfolding close connect
  reconnect-IsStuck s h closed connected = ground arith

  module _ (rolls_back : (d : D) → (driver.rollback_impl d).0 ≡ ok tt) where
    after_commit-IsReady :
        (e : Code) (s : Source D) → IsStuck s → IsReady (after_commit driver (err e, s)).1
    unfolding after_commit
    after_commit-IsReady e s h = ground (arith, rolls_back s.impl)

    after_body-IsReady :
        (p : Result (Unit {0}) × Source D) → IsStuck p.1 → IsReady (after_body driver p).1
    unfolding after_body commit
    after_body-IsReady (ok _, s) h = ground (arith, rolls_back (driver.commit_impl s.impl).1)
    after_body-IsReady (err e, s) h = after_commit-IsReady e s h

    after_begin-IsReady :
        {body : Source D → Result (Unit {0}) × Source D} (p : Result (Unit {0}) × Source D)
        → KeepsFlags body
        → p.1.is_connected ≡ true
        → (p.0 ≡ ok tt → p.1.transaction_open ≡ true)
        → ((e : Code) → p.0 ≡ err e → p.1.transaction_open ≡ false)
        → IsReady (after_begin driver body p).1
    unfolding after_begin
    after_begin-IsReady {body} (ok _, s) k c opened closed =
        after_body-IsReady (body s)
          (record { connected = k.connected s ∙ c; opened = k.opened s ∙ opened refl })
    after_begin-IsReady (err e, s) k c opened closed = record {
      connected = c;
      idle = closed e refl;
    }

    -- A source that is ready is ready again after Execute, whether it returns OK or an error, if the
    -- body keeps the flags and the driver's rollback always works.
    pub execute-IsReady :
        (body : Source D → Result (Unit {0}) × Source D) (s : Source D)
        → KeepsFlags body
        → IsReady s
        → IsReady (execute driver body s).1
    execute-IsReady body s k h = rw (execute_lem driver body s) (
        after_begin-IsReady (begin driver s) k (begin_flags s h).0 (begin_flags s h).1
          (begin_flags s h).2)

  -- If the body fails and the rollback fails too, the source is stuck: Execute then refuses every
  -- body from there on and changes nothing.
  pub stuck_after_failed_rollback :
      (body later : Source D → Result (Unit {0}) × Source D) (s : Source D) (e : Code)
      → KeepsFlags body
      → IsReady s
      → (driver.begin_impl s.impl).0 ≡ ok tt
      → (body (begin driver s).1).0 ≡ err e
      → (driver.rollback_impl (body (begin driver s).1).1.impl).0 ≢ ok tt
      → execute driver later (execute driver body s).1
        ≡ (err failed_precondition, (execute driver body s).1)
  stuck_after_failed_rollback body later s e k h begun failed broken =
      execute_stuck later (execute driver body s).1
        (rw (execute_lem driver body s) (failed_rollback-IsStuck body s e k h begun failed broken))

  -- Close does not look at the open transaction, so after Close and Connect the new connection is
  -- stuck before it has run anything: Execute refuses every body and changes nothing.
  pub stuck_after_reconnect :
      (later : Source D → Result (Unit {0}) × Source D) (s : Source D)
      → IsStuck s
      → (close driver s).0 ≡ ok tt
      → (connect driver (close driver s).1).0 ≡ ok tt
      → let t = (connect driver (close driver s).1).1 in
        execute driver later t ≡ (err failed_precondition, t)
  stuck_after_reconnect later s h closed connected =
      execute_stuck later _ (reconnect-IsStuck s h closed connected)
