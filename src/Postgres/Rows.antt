-- ===== src/Postgres/Rows.antt =====
-- `Map` of pkg/postgres/transactor.go with the row mappers of pkg/postgres/postgres.go: a query whose
-- rows are scanned one by one. `rows.Err` is not called, so a failure of `rows.Next` ends the loop
-- as the end of the rows does.
pub mod Quiet
pub mod Invariant
use iotencoder.Common.{
  ℕ, ◌+◌, String, Bool, List, [], ◌∷◌, ◌++◌, Option, none, some, Error, Result, ok, err, panic,
  wrap, if◌then◌else◌,
}
use iotencoder.Postgres.Tables.{Db}
use iotencoder.Postgres.Statements.{Reply, answer, refusal, Statement}
use iotencoder.Postgres.Transactor.{Transactor, Tx, rollback}

module _ {F R A : Type 0} (faults : ℕ → Option Error) (scan : R → Result A) (message : String) where
  abbrev stepped : Transactor F → Transactor F
  stepped t = record t { calls = t.calls + 1 }

  -- `StructScan` of one row, and what follows it.
  scanned :
      (A → Tx F (List A)) → Transactor F → Option Error → Result A → Result (List A) × Transactor F
  scanned rest t (some e) r = (err (wrap e message), t)
  scanned rest t none (ok a) = rest a t
  scanned rest t none (err e) = (err (wrap e message), t)
  scanned rest t none panic = (panic, t)

  -- `rows.Next` before a row.
  advanced : List A → Tx F (List A) → Transactor F → Option Error → Result (List A) × Transactor F
  advanced acc row t none = row t
  advanced acc row t (some _) = (ok acc, t)

  scan_rows : List R → List A → Tx F (List A)
  unfolding scanned advanced
  scan_rows [] acc t = (ok acc, stepped t)
  scan_rows (r ∷ rs) acc t =
      advanced acc
        (λ u. scanned (λ a. scan_rows rs (acc ++ (a ∷ []))) (stepped u) (faults u.calls) (scan r))
        (stepped t) (faults t.calls)

  -- The deferred `rows.Close`.
  close_answered : List A → Transactor F → Option Error → Result (List A) × Transactor F
  close_answered read t none = (ok read, t)
  close_answered read t (some e) = (err e, t)

  -- The outcome of the row mapper.
  mapped : Result (List A) × Transactor F → Result (List A) × Transactor F
  unfolding close_answered
  mapped (ok read, t) = close_answered read (stepped t) (faults t.calls)
  mapped (err e, t) = let (r, t') = rollback faults e t in (r, stepped t')
  mapped (panic, t) = (panic, stepped t)

  fetched : Transactor F → Reply (List R) × Db F → Result (List A) × Transactor F
  unfolding mapped scan_rows
  fetched t (answer rows, db) = mapped (scan_rows rows [] (record t { work = db }))
  fetched t (refusal e, db) = rollback faults e (record t { work = db })

  queried : Statement F (List R) → Transactor F → Option Error → Result (List A) × Transactor F
  unfolding fetched
  queried statement t (some e) = rollback faults e t
  queried statement t none = fetched t (statement t.work)

  map_bound : Statement F (List R) → Transactor F → Option Error → Result (List A) × Transactor F
  unfolding queried
  map_bound statement t (some e) =
      rollback faults (wrap e "error converting named sql to bindvar version") t
  map_bound statement t none = queried statement (stepped t) (faults t.calls)

  -- `Map`, for named arguments or a slice of arguments.
  unfoldable pub map_rows : Bool → Statement F (List R) → Tx F (List A)
  unfolding map_bound
  map_rows named statement t =
      if named
      then map_bound statement (stepped t) (faults t.calls)
      else queried statement (stepped t) (faults t.calls)
