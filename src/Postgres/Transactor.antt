-- ===== src/Postgres/Transactor.antt =====
-- pkg/postgres/transactor.go. The driver's answer to each of its calls (begin, bind, query, close,
-- commit, rollback) is a parameter: the error of the n-th call, if it has one. A commit that fails
-- commits nothing. Transactions run one at a time, and the mutex is left out.
pub mod Ending
pub mod Invariant
use iotencoder.Common.{
  ℕ, ◌+◌, String, Bool, true, false, Option, none, some, Error, Result, ok, err, panic, wrap,
  if◌then◌else◌,
}
use iotencoder.Postgres.Tables.{Tables, Db}
use iotencoder.Postgres.Statements.{Reply, answer, refusal, Statement}

-- The database and the calls of the driver so far.
pub record Session (F : Type 0) : Type 0 where
  pub db : Db F
  pub calls : ℕ

-- An open transaction: the tables as they were committed, and as the transaction has them.
pub record Transactor (F : Type 0) : Type 0 where
  pub committed : Tables F
  pub work : Db F
  pub finalised : Bool
  pub finalised_err : Option Error
  pub calls : ℕ

abbrev pub Tx : Type 0 → Type 0 → Type 0
Tx F A = Transactor F → Result A × Transactor F

module _ {F A B : Type 0} where
  abbrev bound : (A → Tx F B) → Result A × Transactor F → Result B × Transactor F
  bound f (ok a, t) = f a t
  bound f (err e, t) = (err e, t)
  bound f (panic, t) = (panic, t)

  infixl 5 ◌>>=◌
  abbrev pub ◌>>=◌ : Tx F A → (A → Tx F B) → Tx F B
  ◌>>=◌ m f t = bound f (m t)

module _ {F A : Type 0} where
  abbrev pub return : A → Tx F A
  return a t = (ok a, t)

  abbrev wrap_outcome : String → Result A × Transactor F → Result A × Transactor F
  wrap_outcome m (ok a, t) = (ok a, t)
  wrap_outcome m (err e, t) = (err (wrap e m), t)
  wrap_outcome m (panic, t) = (panic, t)

  -- `if err != nil { return nil, errors.Wrap(err, m) }`
  abbrev pub wrapping : String → Tx F A → Tx F A
  wrapping m tx t = wrap_outcome m (tx t)

  -- A call of code that does not touch the transaction.
  abbrev pub outside : Result A → Tx F A
  outside r t = (r, t)

-- The deferred call: an error of the commit becomes the result of a method that succeeded, if the
-- method's error is a named result (`named`).
module _ {A : Type 0} where
  deferred : Bool → Result A → Option Error → Result A
  deferred named (ok a) none = ok a
  deferred named (ok a) (some e) = if named then err e else ok a
  deferred named (err e) c = err e
  deferred named panic c = panic

module _ {F : Type 0} (faults : ℕ → Option Error) where
  abbrev called : Transactor F → Transactor F
  called t = record t { calls = t.calls + 1 }

  module _ {A : Type 0} where
    rolled_back : Error → Transactor F → Option Error → Result A × Transactor F
    rolled_back e t none = (err e, t)
    rolled_back e t (some _) = (err e, record t { finalised_err = some e })

    -- A second rollback of a transactor whose first one succeeded reads the message of a nil error.
    twice : Error → Transactor F → Option Error → Result A × Transactor F
    twice e t none = (panic, t)
    twice e t (some _) = (err (wrap e "finalised"), t)

    -- `rollback`: the database forgets the work of the transaction.
    unfoldable pub rollback : Error → Tx F A
    unfolding rolled_back twice
    rollback e t =
        if t.finalised
        then twice e t t.finalised_err
        else rolled_back e
            (record (called t) { work = record t.work { tables = t.committed }; finalised = true })
            (faults t.calls)

    -- A statement's own outcome.
    executed : Transactor F → Reply A × Db F → Result A × Transactor F
    unfolding rollback
    executed t (answer a, db) = (ok a, record t { work = db })
    executed t (refusal e, db) = rollback e (record t { work = db })

    query_answered : Statement F A → Transactor F → Option Error → Result A × Transactor F
    unfolding executed
    query_answered statement t none = executed t (statement t.work)
    query_answered statement t (some e) = rollback e t

    bind_answered : Statement F A → Transactor F → Option Error → Result A × Transactor F
    unfolding query_answered
    bind_answered statement t none = query_answered statement (called t) (faults t.calls)
    bind_answered statement t (some e) =
        rollback (wrap e "error converting named sql to bindvar version") t

    -- `Get` and `Exec` with named arguments: `normalizeSql`, and then the statement.
    unfoldable pub get : Statement F A → Tx F A
    unfolding bind_answered
    get statement t = bind_answered statement (called t) (faults t.calls)

  -- `CommitOrRollback`. That a commit which answers an error has committed nothing is taken of the driver.
  committed_answer : Transactor F → Option Error → Option Error × Transactor F
  committed_answer t none = (none, record t { committed = t.work.tables })
  committed_answer t (some e) =
      (some e, record t { work = record t.work { tables = t.committed }; finalised_err = some e })

  unfoldable pub commit_or_rollback : Transactor F → Option Error × Transactor F
  unfolding committed_answer
  commit_or_rollback t =
      if t.finalised
      then (t.finalised_err, t)
      else committed_answer (record (called t) { finalised = true }) (faults t.calls)

  -- What the session has after a transaction.
  abbrev closed : Transactor F → Session F
  closed t = record {
    db = record { tables = t.committed; next_id = t.work.next_id };
    calls = t.calls;
  }

  abbrev opened : Session F → Transactor F
  opened s = record {
    committed = s.db.tables;
    work = s.db;
    finalised = false;
    finalised_err = none;
    calls = s.calls + 1;
  }

  module _ {A : Type 0} where
    ended : Bool → Result A → Option Error × Transactor F → Result A × Session F
    ended named r (e, t) = (deferred named r e, closed t)

    finish : Bool → Result A × Transactor F → Result A × Session F
    unfolding commit_or_rollback deferred ended
    finish named (r, t) = ended named r (commit_or_rollback t)

    begun : Bool → String → Tx F A → Session F → Option Error → Result A × Session F
    unfolding finish
    begun named m body s none = finish named (body (opened s))
    begun named m body s (some e) = (
      err (wrap (wrap e "failed to start transaction for Transactor") m),
      record s { calls = s.calls + 1 },
    )

    -- `BeginTX`, the body of a method, and the deferred `CommitOrRollback`.
    unfoldable pub with_tx : Bool → String → Tx F A → Session F → Result A × Session F
    unfolding begun
    with_tx named m body s = begun named m body s (faults s.calls)
