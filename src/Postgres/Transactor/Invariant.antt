-- ===== src/Postgres/Transactor/Invariant.antt =====
-- Invariants of the database under the calls of a transactor (pkg/postgres/transactor.go), whether they
-- succeed or fail: a triple says what a part of a method's body needs and what it gives when it
-- succeeds, and the invariant holds in either case, of the transaction's work and of what a rollback
-- leaves.
use iotencoder.Common.{
  ℕ, ◌≤◌, String, Bool, true, false, Option, none, some, Error, Result, ok, err, panic, Bool-cases,
  inl, inr, arith, subst, ◌≡◌,
}
use iotencoder.Postgres.Tables.{Tables, Db}
use iotencoder.Postgres.Statements.{Reply, answer, refusal, Statement}
use iotencoder.Postgres.Transactor.{
  Session, Transactor, Tx, ◌>>=◌, wrapping, outside, rollback, rolled_back, twice, executed,
  query_answered, bind_answered, get, commit_or_rollback, committed_answer, with_tx, begun, finish,
  deferred, opened, bound, wrap_outcome, called, ended,
}

-- A rollback keeps the sequence of ids as it has become.
abbrev pub Raised : {F : Type 0} → (Db F → Type 0) → Type 0
Raised {F = F} I =
    (tables : Tables F) (n m : ℕ)
    → n ≤ m
    → I (record { tables = tables; next_id = n })
    → I (record { tables = tables; next_id = m })

module _ {F : Type 0} where
  abbrev pub Always : Db F → Type 0
  Always db = Unit {0}

  abbrev pub Anything : {A : Type 0} → A → Db F → Type 0
  Anything a db = Unit {0}

module _ {F : Type 0} (I : Db F → Type 0) where
  -- The invariant of the work, and of the committed tables.
  abbrev pub Holds : Transactor F → Type 0
  Holds t = I t.work × I (record { tables = t.committed; next_id = t.work.next_id })

  abbrev pub After : {A : Type 0} → (A → Db F → Type 0) → Result A × Transactor F → Type 0
  After Q (ok a, t) = Holds t × Q a t.work
  After Q (err e, t) = Holds t
  After Q (panic, t) = Holds t

  abbrev pub Triple : {A : Type 0} → (Db F → Type 0) → Tx F A → (A → Db F → Type 0) → Type 0
  Triple P m Q = (t : Transactor F) → Holds t → P t.work → After Q (m t)

  -- What a statement makes of a database where the invariant holds.
  abbrev pub Kept : {A : Type 0} → (A → Db F → Type 0) → Db F → Reply A × Db F → Type 0
  Kept Q db (answer a, db') = I db' × (db.next_id ≤ db'.next_id) × Q a db'
  Kept Q db (refusal e, db') = I db' × (db.next_id ≤ db'.next_id)

  abbrev pub Keeps : {A : Type 0} → (Db F → Type 0) → Statement F A → (A → Db F → Type 0) → Type 0
  Keeps P statement Q = (db : Db F) → I db → P db → Kept Q db (statement db)

  module _ {A B : Type 0} (Q : A → Db F → Type 0) (R : B → Db F → Type 0) where
    bound-After :
        (f : A → Tx F B) (r : Result A × Transactor F)
        → After Q r
        → ((a : A) → Triple (Q a) (f a) R)
        → After R (bound f r)
    bound-After f (ok a, t) (h, q) k = k a t h q
    bound-After f (err e, t) h k = h
    bound-After f (panic, t) h k = h

    pub >>=-Triple :
        (P : Db F → Type 0) (m : Tx F A) (f : A → Tx F B)
        → Triple P m Q
        → ((a : A) → Triple (Q a) (f a) R)
        → Triple P (m >>= f) R
    >>=-Triple P m f km kf t h p = bound-After f (m t) (km t h p) kf

  module _ {A : Type 0} (Q : A → Db F → Type 0) where
    wrap_outcome-After :
        (m : String) (r : Result A × Transactor F) → After Q r → After Q (wrap_outcome m r)
    wrap_outcome-After m (ok a, t) h = h
    wrap_outcome-After m (err e, t) h = h
    wrap_outcome-After m (panic, t) h = h

    pub wrapping-Triple :
        (P : Db F → Type 0) (m : String) (tx : Tx F A) → Triple P tx Q → Triple P (wrapping m tx) Q
    wrapping-Triple P m tx k t h p = wrap_outcome-After m (tx t) (k t h p)

    pub outside-Triple :
        (P : Db F → Type 0) (r : Result A)
        → ((a : A) (db : Db F) → P db → Q a db)
        → Triple P (outside r) Q
    outside-Triple P (ok a) k t h p = (h, k a t.work p)
    outside-Triple P (err e) k t h p = h
    outside-Triple P panic k t h p = h

    After-Holds : (r : Result A × Transactor F) → After Q r → Holds r.1
    After-Holds (ok a, t) h = h.0
    After-Holds (err e, t) h = h
    After-Holds (panic, t) h = h

  module _ (raised : Raised I) (faults : ℕ → Option Error) where
    module _ {A : Type 0} (Q : A → Db F → Type 0) where
      rolled_back-After :
          (e : Error) (t : Transactor F) (o : Option Error)
          → Holds t
          → After Q (rolled_back faults e t o)
      unfolding rolled_back
      rolled_back-After e t none h = h
      rolled_back-After e t (some x) h = h

      twice-After :
          (e : Error) (t : Transactor F) (o : Option Error) → Holds t → After Q (twice faults e t o)
      unfolding twice
      twice-After e t none h = h
      twice-After e t (some x) h = h

      pub rollback-After : (e : Error) (t : Transactor F) → Holds t → After Q (rollback faults e t)
      unfolding rollback
      rollback-After e t h = elim (Bool-cases t.finalised) [
        | inl done ↦ rw done (twice-After e _ _ h)
        | inr opn ↦ rw opn (rolled_back-After e _ (faults t.calls) (h.1, h.1))
      ]

      executed-After :
          (t : Transactor F) (r : Reply A × Db F)
          → Holds t
          → Kept Q t.work r
          → After Q (executed faults t r)
      unfolding executed
      executed-After t (answer a, db) h (i, up, q) =
          ((i, raised t.committed t.work.next_id db.next_id up h.1), q)
      executed-After t (refusal e, db) h (i, up) =
          rollback-After e (record t { work = db })
            (i, raised t.committed t.work.next_id db.next_id up h.1)

      query_answered-After :
          (P : Db F → Type 0) (statement : Statement F A) (t : Transactor F) (o : Option Error)
          → Keeps P statement Q
          → Holds t
          → P t.work
          → After Q (query_answered faults statement t o)
      unfolding query_answered
      query_answered-After P statement t none k h p =
          executed-After t (statement t.work) h (k t.work h.0 p)
      query_answered-After P statement t (some e) k h p = rollback-After e t h

      bind_answered-After :
          (P : Db F → Type 0) (statement : Statement F A) (t : Transactor F) (o : Option Error)
          → Keeps P statement Q
          → Holds t
          → P t.work
          → After Q (bind_answered faults statement t o)
      unfolding bind_answered
      bind_answered-After P statement t none k h p =
          query_answered-After P statement (called faults t) (faults t.calls) k h p
      bind_answered-After P statement t (some e) k h p = rollback-After _ t h

      pub get-Triple :
          (P : Db F → Type 0) (statement : Statement F A)
          → Keeps P statement Q
          → Triple P (get faults statement) Q
      unfolding get
      get-Triple P statement k t h p =
          bind_answered-After P statement (called faults t) (faults t.calls) k h p

    -- The invariant of the database after the deferred call.
    committed_answer-Holds :
        (t : Transactor F) (o : Option Error) → Holds t → Holds (committed_answer faults t o).1
    unfolding committed_answer
    committed_answer-Holds t none h = (h.0, h.0)
    committed_answer-Holds t (some e) h = (h.1, h.1)

    commit_or_rollback-Holds : (t : Transactor F) → Holds t → Holds (commit_or_rollback faults t).1
    unfolding commit_or_rollback
    commit_or_rollback-Holds t h = elim (Bool-cases t.finalised) [
      | inl done ↦ rw done h
      | inr opn ↦ rw opn (
          committed_answer-Holds (record (called faults t) { finalised = true }) (faults t.calls) h)
    ]

    module _ {A : Type 0} (Q : A → Db F → Type 0) (P : Db F → Type 0) where
      finish-keeps :
          (named : Bool) (r : Result A × Transactor F) → After Q r → I (finish faults named r).1.db
      unfolding finish ended
      finish-keeps named (r, t) h = (commit_or_rollback-Holds t (After-Holds Q (r, t) h)).1

      begun-keeps :
          (named : Bool) (m : String) (body : Tx F A) (s : Session F) (o : Option Error)
          → Triple P body Q
          → I s.db
          → P s.db
          → I (begun faults named m body s o).1.db
      unfolding begun
      begun-keeps named m body s none k i p =
          finish-keeps named (body (opened faults s)) (k (opened faults s) (i, i) p)
      begun-keeps named m body s (some e) k i p = i

      -- A method whose body has a triple keeps the invariant, committed or rolled back.
      pub with_tx-keeps :
          (named : Bool) (m : String) (body : Tx F A) (s : Session F)
          → Triple P body Q
          → I s.db
          → P s.db
          → I (with_tx faults named m body s).1.db
      unfolding with_tx
      with_tx-keeps named m body s k i p = begun-keeps named m body s (faults s.calls) k i p

      deferred-gives :
          (named : Bool) (r : Result A × Transactor F) (o : Option Error) (a : A)
          → After Q r
          → deferred named r.0 o ≡ ok a
          → (db : Db F) × Q a db
      unfolding deferred
      deferred-gives named (ok b, t) none a h e =
          (t.work, subst (λ x. Q x t.work) (ground arith) h.1)
      deferred-gives true (ok b, t) (some x) a h e = ground arith
      deferred-gives false (ok b, t) (some x) a h e =
          (t.work, subst (λ y. Q y t.work) (ground arith) h.1)
      deferred-gives named (err x, t) o a h e = ground arith
      deferred-gives named (panic, t) o a h e = ground arith

      begun-gives :
          (named : Bool) (m : String) (body : Tx F A) (s : Session F) (o : Option Error) (a : A)
          → Triple P body Q
          → I s.db
          → P s.db
          → (begun faults named m body s o).0 ≡ ok a
          → (db : Db F) × Q a db
      unfolding begun finish ended
      begun-gives named m body s none a k i p e =
          deferred-gives named (body (opened faults s)) _ a (k (opened faults s) (i, i) p) e
      begun-gives named m body s (some x) a k i p e = ground arith

      -- What a method answers is what its body gave.
      pub with_tx-gives :
          (named : Bool) (m : String) (body : Tx F A) (s : Session F) (a : A)
          → Triple P body Q
          → I s.db
          → P s.db
          → (with_tx faults named m body s).0 ≡ ok a
          → (db : Db F) × Q a db
      unfolding with_tx
      with_tx-gives named m body s a k i p e = begun-gives named m body s (faults s.calls) a k i p e
