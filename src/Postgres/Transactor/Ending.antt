-- ===== src/Postgres/Transactor/Ending.antt =====
-- How the calls of a transactor (pkg/postgres/transactor.go) leave it: open as long as they succeed,
-- rolled back once one fails, and the committed tables as they were.
use iotencoder.Common.{
  ℕ, ◌≡◌, refl, String, true, false, Option, none, some, Error, Result, ok, err, panic, subst,
}
use iotencoder.Postgres.Tables.{Tables, Db}
use iotencoder.Postgres.Statements.{Reply, answer, refusal, Statement}
use iotencoder.Postgres.Transactor.{
  Session, Transactor, Tx, ◌>>=◌, return, wrapping, outside, rollback, executed, query_answered,
  bind_answered, get, commit_or_rollback, with_tx, begun, finish, opened, bound, wrap_outcome,
  called, rolled_back, committed_answer, deferred, ended,
}

-- What a part of a method's body does to the database, and what it returns, when it succeeds.
abbrev pub Effect : Type 0 → Type 0 → Type 1
Effect F A = Db F → A → Db F → Type 0

module _ {F A : Type 0} where
  -- The transactor after a call that began with the database `db` and the committed tables `c`.
  abbrev pub Stays : Effect F A → Db F → Tables F → Result A × Transactor F → Type 0
  Stays E db c (ok a, t) = (t.committed ≡ c) × (t.finalised ≡ false) × E db a t.work
  Stays E db c (err e, t) = (t.committed ≡ c) × (t.finalised ≡ true)
  Stays E db c (panic, t) = ⊥

  -- On an open transaction the part has the effect and leaves it open, or fails and rolls it back.
  abbrev pub Follows : Effect F A → Tx F A → Type 0
  Follows E m = (t : Transactor F) → t.finalised ≡ false → Stays E t.work t.committed (m t)

module _ {F A B : Type 0} where
  abbrev pub Then : Effect F A → (A → Effect F B) → Effect F B
  Then E G db b db2 = (a : A) × (db1 : Db F) × E db a db1 × G a db1 b db2

  -- The rest of a body, when its first part has succeeded.
  then-Stays :
      (E : Effect F A) (G : A → Effect F B) (db db1 : Db F) (c : Tables F) (a : A)
      (r : Result B × Transactor F)
      → E db a db1
      → Stays (G a) db1 c r
      → Stays (Then E G) db c r
  then-Stays E G db db1 c a (ok b, t) e (same, opn, g) = (same, opn, (a, db1, e, g))
  then-Stays E G db db1 c a (err x, t) e h = h
  then-Stays E G db db1 c a (panic, t) e h = h

  bound-Stays :
      (E : Effect F A) (G : A → Effect F B) (db : Db F) (c : Tables F) (f : A → Tx F B)
      (r : Result A × Transactor F)
      → Stays E db c r
      → ((a : A) → Follows (G a) (f a))
      → Stays (Then E G) db c (bound f r)
  bound-Stays E G db c f (ok a, t) (same, opn, e) k =
      then-Stays E G db t.work c a (f a t) e
        (subst (λ x. Stays (G a) t.work x (f a t)) same (k a t opn))
  bound-Stays E G db c f (err e, t) h k = h
  bound-Stays E G db c f (panic, t) h k = h

  pub >>=-Follows :
      (E : Effect F A) (G : A → Effect F B) (m : Tx F A) (f : A → Tx F B)
      → Follows E m
      → ((a : A) → Follows (G a) (f a))
      → Follows (Then E G) (m >>= f)
  >>=-Follows E G m f km kf t opn = bound-Stays E G t.work t.committed f (m t) (km t opn) kf

module _ {F A : Type 0} where
  abbrev pub Returns : A → Effect F A
  Returns a db b db' = (b ≡ a) × (db' ≡ db)

  pub return-Follows : (a : A) → Follows (Returns a) (return a)
  return-Follows a t opn = (refl, opn, (refl, refl))

  pub outside-Follows : (a : A) (r : Result A) → r ≡ ok a → Follows (Returns a) (outside r)
  outside-Follows a r e t opn = rw e (refl, opn, (refl, refl))

  wrap_outcome-Stays :
      (E : Effect F A) (db : Db F) (c : Tables F) (m : String) (r : Result A × Transactor F)
      → Stays E db c r
      → Stays E db c (wrap_outcome m r)
  wrap_outcome-Stays E db c m (ok a, t) h = h
  wrap_outcome-Stays E db c m (err e, t) h = h
  wrap_outcome-Stays E db c m (panic, t) h = h

  pub wrapping-Follows :
      (E : Effect F A) (m : String) (tx : Tx F A) → Follows E tx → Follows E (wrapping m tx)
  wrapping-Follows E m tx k t opn = wrap_outcome-Stays E t.work t.committed m (tx t) (k t opn)

  weaken-Stays :
      (E G : Effect F A) (db : Db F) (c : Tables F) (r : Result A × Transactor F)
      → ((a : A) (db' : Db F) → E db a db' → G db a db')
      → Stays E db c r
      → Stays G db c r
  weaken-Stays E G db c (ok a, t) k (same, opn, e) = (same, opn, k a t.work e)
  weaken-Stays E G db c (err e, t) k h = h
  weaken-Stays E G db c (panic, t) k h = h

  pub weaken-Follows :
      (E G : Effect F A) (m : Tx F A)
      → ((db : Db F) (a : A) (db' : Db F) → E db a db' → G db a db')
      → Follows E m
      → Follows G m
  weaken-Follows E G m k h t opn = weaken-Stays E G t.work t.committed (m t) (k t.work) (h t opn)

  -- The statement was answered, and it left the database so.
  abbrev pub Answers : Statement F A → Effect F A
  Answers statement db a db' = statement db ≡ (answer a, db')

module _ {F A : Type 0} (faults : ℕ → Option Error) where
  rolled_back-Stays :
      (E : Effect F A) (db : Db F) (c : Tables F) (e : Error) (t : Transactor F) (o : Option Error)
      → t.committed ≡ c
      → t.finalised ≡ true
      → Stays E db c (rolled_back faults e t o)
  unfolding rolled_back
  rolled_back-Stays E db c e t none same done = (same, done)
  rolled_back-Stays E db c e t (some x) same done = (same, done)

  rollback-Stays :
      (E : Effect F A) (db : Db F) (e : Error) (t : Transactor F)
      → t.finalised ≡ false
      → Stays E db t.committed (rollback faults e t)
  unfolding rollback
  rollback-Stays E db e t opn =
      rw opn (rolled_back-Stays E db t.committed e _ (faults t.calls) refl refl)

  executed-Stays :
      (E : Effect F A) (db : Db F) (t : Transactor F) (r : Reply A × Db F)
      → t.finalised ≡ false
      → ((a : A) → r.0 ≡ answer a → E db a r.1)
      → Stays E db t.committed (executed faults t r)
  unfolding executed
  executed-Stays E db t (answer a, db') opn k = (refl, opn, k a refl)
  executed-Stays E db t (refusal e, db') opn k = rollback-Stays E db e (record t { work = db' }) opn

  query_answered-Stays :
      (statement : Statement F A) (t : Transactor F) (o : Option Error)
      → t.finalised ≡ false
      → Stays (Answers statement) t.work t.committed (query_answered faults statement t o)
  unfolding query_answered
  query_answered-Stays statement t none opn =
      executed-Stays (Answers statement) t.work t (statement t.work) opn
        (λ a e. λ i. (e i, (statement t.work).1))
  query_answered-Stays statement t (some e) opn = rollback-Stays (Answers statement) t.work e t opn

  bind_answered-Stays :
      (statement : Statement F A) (t : Transactor F) (o : Option Error)
      → t.finalised ≡ false
      → Stays (Answers statement) t.work t.committed (bind_answered faults statement t o)
  unfolding bind_answered
  bind_answered-Stays statement t none opn =
      query_answered-Stays statement (called faults t) (faults t.calls) opn
  bind_answered-Stays statement t (some e) opn = rollback-Stays (Answers statement) t.work _ t opn

  pub get-Follows : (statement : Statement F A) → Follows (Answers statement) (get faults statement)
  unfolding get
  get-Follows statement t opn = bind_answered-Stays statement (called faults t) (faults t.calls) opn

  -- How a transaction with a named error ends: it had the effect and was committed, or it failed and
  -- the tables are as before.
  abbrev pub Ended : Effect F A → Session F → Result A × Session F → Type 0
  Ended E s (ok a, s') = E s.db a s'.db
  Ended E s (err e, s') = s'.db.tables ≡ s.db.tables
  Ended E s (panic, s') = ⊥

  ended-Ended :
      (E : Effect F A) (s : Session F) (a : A) (t : Transactor F) (o : Option Error)
      → t.committed ≡ s.db.tables
      → E s.db a t.work
      → Ended E s (ended faults true (ok a) (committed_answer faults t o))
  unfolding ended committed_answer deferred
  ended-Ended E s a t none same e = e
  ended-Ended E s a t (some x) same e = same

  finish-Ended :
      (E : Effect F A) (s : Session F) (r : Result A × Transactor F)
      → Stays E s.db s.db.tables r
      → Ended E s (finish faults true r)
  unfolding finish commit_or_rollback
  finish-Ended E s (ok a, t) (same, opn, e) =
      rw opn
        (ended-Ended E s a (record (called faults t) { finalised = true }) (faults t.calls) same e)
  finish-Ended E s (err e, t) (same, done) = rw done (unfold ended deferred in same)
  finish-Ended E s (panic, t) h = elim h [ ]

  begun-Ended :
      (E : Effect F A) (m : String) (body : Tx F A) (s : Session F) (o : Option Error)
      → Follows E body
      → Ended E s (begun faults true m body s o)
  unfolding begun
  begun-Ended E m body s none k =
      finish-Ended E s (body (opened faults s)) (k (opened faults s) refl)
  begun-Ended E m body s (some e) k = refl

  -- A method whose body follows an effect either has that effect, committed, or returns an error
  -- and leaves the tables as they were, whatever calls of the driver fail; it does not panic.
  pub with_tx-Ended :
      (E : Effect F A) (m : String) (body : Tx F A) (s : Session F)
      → Follows E body
      → Ended E s (with_tx faults true m body s)
  unfolding with_tx
  with_tx-Ended E m body s k = begun-Ended E m body s (faults s.calls) k
