-- ===== src/Source/Atomic.antt =====
-- Transactions are all or nothing, and what a failed rollback leaves behind.
use ml_metadata_l_metadata_s.Prelude.{◌≡◌, refl, ◌∙◌, arith}
use ml_metadata_l_metadata_s.Status.{Code, Result, ok, err}
use ml_metadata_l_metadata_s.Source.{
  Driver, Source, begin, commit, after_commit, after_body, after_begin, execute,
}
use ml_metadata_l_metadata_s.Source.Laws.{IsTransactional, IsBody, execute_lem}

module _ {D R V : Type 0} (driver : Driver D R) {durable current : D → V}
    (t : IsTransactional driver durable current) {body : Source D → Result (Unit {0}) × Source D}
    (b : IsBody durable body) where
  durable-after_commit_err :
      (e : Code) (s : Source D) → durable (after_commit driver (err e, s)).1.impl ≡ durable s.impl
  unfolding after_commit
  durable-after_commit_err e s = ground (arith, t.rollback_durable s.impl)

  -- The two halves of the theorem below, for a state `s` in which the body has run.
  abbrev Settles : Source D → Result (Unit {0}) × Source D → Type 0
  Settles s p =
      (p.0 ≡ ok tt → durable p.1.impl ≡ current s.impl)
      × ((e : Code) → p.0 ≡ err e → durable p.1.impl ≡ durable s.impl)

  commit-Settles : (s : Source D) → Settles s (commit driver s)
  unfolding commit
  commit-Settles s =
      (ground (arith, t.commit_ok s.impl), λ e h. ground (arith, t.commit_err s.impl e))

  after_commit-Settles :
      (s : Source D) (p : Result (Unit {0}) × Source D)
      → Settles s p
      → Settles s (after_commit driver p)
  unfolding after_commit
  after_commit-Settles s (ok _, q) h = (λ _. h.0 refl, λ e x. cc)
  after_commit-Settles s (err e, q) h = (λ x. cc, λ _ _. durable-after_commit_err e q ∙ h.1 e refl)

  -- After the body, from a state in which `before` was durable.
  after_body_settles :
      (p : Result (Unit {0}) × Source D) (before : V)
      → durable p.1.impl ≡ before
      → ((after_body driver p).0 ≡ ok tt → durable (after_body driver p).1.impl ≡ current p.1.impl)
        × ((e : Code)
            → (after_body driver p).0 ≡ err e
            → durable (after_body driver p).1.impl ≡ before)
  unfolding after_body
  after_body_settles (ok _, s) before h =
      let settled = after_commit-Settles s (commit driver s) (commit-Settles s) in
      (settled.0, λ e x. settled.1 e x ∙ h)
  after_body_settles (err e, s) before h = (λ x. cc, λ _ _. durable-after_commit_err e s ∙ h)

  durable-begin : (s : Source D) → durable (begin driver s).1.impl ≡ durable s.impl
  unfolding begin
  durable-begin s = ground (arith, t.begin_durable s.impl)

  after_begin_settles :
      (p : Result (Unit {0}) × Source D) {before : V}
      → durable p.1.impl ≡ before
      → ((after_begin driver body p).0 ≡ ok tt
          → durable (after_begin driver body p).1.impl ≡ current (body p.1).1.impl)
        × ((e : Code)
            → (after_begin driver body p).0 ≡ err e
            → durable (after_begin driver body p).1.impl ≡ before)
  unfolding after_begin
  after_begin_settles (ok _, s) h = after_body_settles (body s) _ (b.durable_kept s ∙ h)
  after_begin_settles (err e, s) h = (λ x. cc, λ _ _. h)

  -- Execute is all or nothing: if it returns OK, what is durable is what the body left in its view
  -- of the database; if it returns an error, whether for want of a connection, of Begin, of the
  -- body or of Commit, and whether or not the rollback works, what is durable is what was durable
  -- before. The driver is transactional, and the body works through it alone.
  pub execute_atomic :
      (s : Source D)
      → ((execute driver body s).0 ≡ ok tt
          → durable (execute driver body s).1.impl ≡ current (body (begin driver s).1).1.impl)
        × ((e : Code)
            → (execute driver body s).0 ≡ err e
            → durable (execute driver body s).1.impl ≡ durable s.impl)
  execute_atomic s =
      rw (execute_lem driver body s) (after_begin_settles (begin driver s) (durable-begin s))
