-- ===== src/Postgres/Rows/Invariant.antt =====
-- `Map` of pkg/postgres/transactor.go under an invariant of the database: the rows are read from the answer of the
-- statement, and the database stays as the statement left it.
use iotencoder.Common.{
  ℕ, String, Bool, List, [], ◌∷◌, ◌++◌, Option, none, some, Error, Result, ok, err, panic,
  Bool-cases, inl, inr,
}
use iotencoder.Postgres.Tables.{Db}
use iotencoder.Postgres.Statements.{Reply, answer, refusal, Statement}
use iotencoder.Postgres.Transactor.{Transactor, Tx, rollback}
use iotencoder.Postgres.Transactor.Invariant.{
  Raised, Holds, After, Triple, Kept, Keeps, rollback-After,
}
use iotencoder.Postgres.Rows.{
  stepped, scan_rows, map_rows, scanned, advanced, mapped, close_answered, fetched, queried,
  map_bound,
}

module _ {F R A : Type 0} (I : Db F → Type 0) (raised : Raised I) (faults : ℕ → Option Error)
    (scan : R → Result A) (message : String) (P : Db F → Type 0) where
  abbrev Q : List A → Db F → Type 0
  Q _ = P

  -- A row mapper leaves the database alone, and the transaction open or rolled back as it was.
  abbrev Leaves : Result (List A) × Transactor F → Type 0
  Leaves (r, t) = Holds I t × P t.work

  scanned-Leaves :
      (rest : A → Tx F (List A)) (t : Transactor F) (o : Option Error) (r : Result A)
      → Holds I t × P t.work
      → ((a : A) (u : Transactor F) → Holds I u × P u.work → Leaves (rest a u))
      → Leaves (scanned faults scan message rest t o r)
  unfolding scanned
  scanned-Leaves rest t (some e) r h k = h
  scanned-Leaves rest t none (ok a) h k = k a t h
  scanned-Leaves rest t none (err e) h k = h
  scanned-Leaves rest t none panic h k = h

  advanced-Leaves :
      (acc : List A) (row : Tx F (List A)) (t : Transactor F) (o : Option Error)
      → Holds I t × P t.work
      → ((u : Transactor F) → Holds I u × P u.work → Leaves (row u))
      → Leaves (advanced faults scan message acc row t o)
  unfolding advanced
  advanced-Leaves acc row t none h k = k t h
  advanced-Leaves acc row t (some e) h k = h

  scan_rows-Leaves :
      (rows : List R) (acc : List A) (t : Transactor F)
      → Holds I t × P t.work
      → Leaves (scan_rows faults scan message rows acc t)
  unfolding scan_rows
  scan_rows-Leaves [] acc t h = h
  scan_rows-Leaves (r ∷ rs) acc t h =
      advanced-Leaves acc row (stepped faults scan message t) (faults t.calls) h λ u hu.
        scanned-Leaves rest (stepped faults scan message u) (faults u.calls) (scan r) hu
          λ a v hv. scan_rows-Leaves rs (acc ++ (a ∷ [])) v hv
    where
      rest : A → Tx F (List A)
      rest a = scan_rows faults scan message rs (acc ++ (a ∷ []))

      row : Tx F (List A)
      row u =
          scanned faults scan message rest (stepped faults scan message u) (faults u.calls) (scan r)

  close_answered-After :
      (read : List A) (t : Transactor F) (o : Option Error)
      → Holds I t × P t.work
      → After I Q (close_answered faults scan message read t o)
  unfolding close_answered
  close_answered-After read t none h = h
  close_answered-After read t (some e) h = h.0

  stepped-After :
      (r : Result (List A)) (t : Transactor F)
      → After I Q (r, t)
      → After I Q (r, stepped faults scan message t)
  stepped-After (ok a) t h = h
  stepped-After (err e) t h = h
  stepped-After panic t h = h

  mapped-After :
      (r : Result (List A) × Transactor F) → Leaves r → After I Q (mapped faults scan message r)
  unfolding mapped
  mapped-After (ok read, t) h =
      close_answered-After read (stepped faults scan message t) (faults t.calls) h
  mapped-After (err e, t) h =
      let (r, t') = rollback faults e t in
      stepped-After r t' (rollback-After I raised faults Q e t h.0)
  mapped-After (panic, t) h = h.0

  fetched-After :
      (t : Transactor F) (r : Reply (List R) × Db F)
      → Holds I t
      → Kept I (λ _. P) t.work r
      → After I Q (fetched faults scan message t r)
  unfolding fetched
  fetched-After t (answer rows, db) h (i, up, p) = mapped-After _ (
      scan_rows-Leaves rows [] (record t { work = db })
        ((i, raised t.committed t.work.next_id db.next_id up h.1), p))
  fetched-After t (refusal e, db) h (i, up) =
      rollback-After I raised faults Q e (record t { work = db })
        (i, raised t.committed t.work.next_id db.next_id up h.1)

  queried-After :
      (statement : Statement F (List R)) (t : Transactor F) (o : Option Error)
      → Keeps I P statement (λ _. P)
      → Holds I t
      → P t.work
      → After I Q (queried faults scan message statement t o)
  unfolding queried
  queried-After statement t (some e) k h p = rollback-After I raised faults Q e t h
  queried-After statement t none k h p = fetched-After t (statement t.work) h (k t.work h.0 p)

  map_bound-After :
      (statement : Statement F (List R)) (t : Transactor F) (o : Option Error)
      → Keeps I P statement (λ _. P)
      → Holds I t
      → P t.work
      → After I Q (map_bound faults scan message statement t o)
  unfolding map_bound
  map_bound-After statement t (some e) k h p = rollback-After I raised faults Q _ t h
  map_bound-After statement t none k h p =
      queried-After statement (stepped faults scan message t) (faults t.calls) k h p

  pub map_rows-Triple :
      (named : Bool) (statement : Statement F (List R))
      → Keeps I P statement (λ _. P)
      → Triple I P (map_rows faults scan message named statement) Q
  unfolding map_rows
  map_rows-Triple named statement k t h p = elim (Bool-cases named) [
    | inl e ↦
        rw e (map_bound-After statement (stepped faults scan message t) (faults t.calls) k h p)
    | inr e ↦ rw e (queried-After statement (stepped faults scan message t) (faults t.calls) k h p)
  ]
