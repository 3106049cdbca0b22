-- ===== src/Source/Tests.antt =====
-- An in-memory driver: the database is one number, and each query adds one to it.
use ml_metadata_l_metadata_s.Prelude.{ℕ, ◌+◌, Bool, true, false, ◌≡◌, refl, arith, if◌then◌else◌}
use ml_metadata_l_metadata_s.Status.{Code, failed_precondition, internal, Result, ok, err}
use ml_metadata_l_metadata_s.Source.{Driver, Source, execute_query, execute, begin, connect, close}
use ml_metadata_l_metadata_s.Source.Laws.{IsTransactional, KeepsFlags, run_query, run_query-IsBody}
use ml_metadata_l_metadata_s.Source.Atomic.{execute_atomic}
use ml_metadata_l_metadata_s.Source.Flags.{
  IsReady, execute-IsReady, stuck_after_failed_rollback, stuck_after_reconnect,
}

record Memory : Type 0 where
  saved : ℕ
  seen : ℕ
  undo_works : Bool

abbrev memory_driver : Driver Memory ℕ
memory_driver = record {
  connect_impl = λ d. (ok tt, d);
  close_impl = λ d. (ok tt, d);
  execute_query_impl = λ q d. (ok d.seen, record d { seen = d.seen + 1 });
  begin_impl = λ d. (ok tt, record d { seen = d.saved });
  commit_impl = λ d. (ok tt, record d { saved = d.seen });
  rollback_impl =
      λ d. if d.undo_works then (ok tt, record d { seen = d.saved }) else (err internal, d);
}

memory-IsTransactional : IsTransactional memory_driver (λ d. d.saved) (λ d. d.seen)
memory-IsTransactional = record {
  begin_durable = λ d. refl;
  query_durable = λ q d. refl;
  commit_ok = λ d h. refl;
  commit_err = λ d e h. cc;
  rollback_durable = λ d. ground arith;
}

abbrev ready : Source Memory
ready = record {
  impl = record { saved = 7; seen = 7; undo_works = true };
  is_connected = true;
  transaction_open = false;
}

abbrev no_undo : Source Memory
no_undo = record ready { impl = record { saved = 7; seen = 7; undo_works = false } }

abbrev add_one : Source Memory → Result (Unit {0}) × Source Memory
add_one = run_query memory_driver "UPDATE"

abbrev failing : Source Memory → Result (Unit {0}) × Source Memory
failing s = (err internal, s)

failing-KeepsFlags : KeepsFlags failing
failing-KeepsFlags = record { connected = λ s. refl; opened = λ s. refl }

commit_runs : (execute memory_driver add_one ready).1.impl.saved ≡ 8
unfolding execute execute_query
commit_runs = refl

execute_atomic_example :
    ((execute memory_driver add_one ready).0 ≡ ok tt
      → (execute memory_driver add_one ready).1.impl.saved
        ≡ (add_one (begin memory_driver ready).1).1.impl.seen)
    × ((e : Code)
        → (execute memory_driver add_one ready).0 ≡ err e
        → (execute memory_driver add_one ready).1.impl.saved ≡ 7)
execute_atomic_example =
    execute_atomic memory_driver memory-IsTransactional
      (run_query-IsBody memory_driver "UPDATE" memory-IsTransactional) ready

-- The driver above, with a rollback that always works.
abbrev sound_driver : Driver Memory ℕ
sound_driver = record memory_driver { rollback_impl = λ d. (ok tt, record d { seen = d.saved }) }

execute-IsReady_example : IsReady (execute sound_driver failing ready).1
execute-IsReady_example =
    execute-IsReady sound_driver (λ d. refl) failing ready failing-KeepsFlags
      (record { connected = refl; idle = refl })

stuck_after_failed_rollback_example :
    execute memory_driver add_one (execute memory_driver failing no_undo).1
    ≡ (err failed_precondition, (execute memory_driver failing no_undo).1)
unfolding begin
stuck_after_failed_rollback_example =
    stuck_after_failed_rollback memory_driver failing add_one no_undo internal failing-KeepsFlags
      (record { connected = refl; idle = refl }) refl refl (λ e. cc)

abbrev left_open : Source Memory
left_open = record ready { transaction_open = true }

stuck_after_reconnect_example :
    let t = (connect memory_driver (close memory_driver left_open).1).1 in
    execute memory_driver add_one t ≡ (err failed_precondition, t)
unfolding connect close
stuck_after_reconnect_example =
    stuck_after_reconnect memory_driver add_one left_open
      (record { connected = refl; opened = refl }) refl refl
