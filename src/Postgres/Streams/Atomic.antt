-- ===== src/Postgres/Streams/Atomic.antt =====
-- `CreateStream` and `DeleteStream` (pkg/postgres/postgres.go) are atomic against every failure of the
-- driver and the server: they do all of their work, committed, or return an error and leave the
-- tables as they were. A failure of the source of randomness is the exception.
use iotencoder.Common.{
  ℕ, ◌==◌, ◌≡◌, ◌≢◌, refl, Text, Option, none, some, Result, ok, err, panic, Bool-cases, inl, inr,
  subst, ◌⊎◌, arith, unique_violation, sym, ==_iff,
}
use iotencoder.Postgres.Types.{DeviceRow, Stream, token_length}
use iotencoder.Postgres.Tables.{Db, Tables}
use iotencoder.Postgres.Statements.{
  answer, upsert_device, insert_stream, delete_stream_row, select_count, delete_device,
  count_streams,
}
use iotencoder.Postgres.Transactor.{Session, Transactor, get, return}
use iotencoder.Postgres.Transactor.Ending.{
  Effect, Stays, Follows, Then, Returns, Answers, >>=-Follows, return-Follows, outside-Follows,
  wrapping-Follows, weaken-Follows, get-Follows, Ended, with_tx-Ended,
}
use iotencoder.Postgres.Token.{generate_token}
use iotencoder.Postgres.Streams.{
  Server, Entropy, stream_row, insert_printed, insert_reported, created, insert_tx, create_body,
  create_with, create_stream, delete_last, delete_body, delete_stream,
}

module _ {F : Type 0} (server : Server F) where
  open server use {password, pgp, json, faults}

  -- What a creation does: the device is saved, and a row of the stream with the new uuid and the
  -- encrypted new token is inserted for it; both are returned with the stream.
  abbrev pub Creates : Stream F → DeviceRow F → Text → Text → Effect F (Stream F)
  Creates stream row uuid token db s db' =
      (id : ℕ) × (saved : Db F) × (operations : Text) × (upsert_device row db ≡ (answer id, saved))
      × (json.print_operations stream.operations ≡ ok operations)
      × (insert_stream (stream_row server id stream uuid token operations) saved ≡ (answer tt, db'))
      × (s ≡ created server stream uuid token)

  abbrev Inserts : ℕ → Stream F → Text → Text → Effect F (Unit {0})
  Inserts id stream uuid token db a db' =
      (operations : Text) × (json.print_operations stream.operations ≡ ok operations)
      × (insert_stream (stream_row server id stream uuid token operations) db ≡ (answer tt, db'))

  insert_reported-Stays :
      (E : Effect F (Unit {0})) (db : Db F) (c : Tables F) (r : Result (Unit {0}) × Transactor F)
      → Stays E db c r
      → Stays E db c (insert_reported server r)
  unfolding insert_reported
  insert_reported-Stays E db c (ok a, t) h = h
  insert_reported-Stays E db c (err unique_violation, t) h = h
  insert_reported-Stays E db c (err e, t) h = h
  insert_reported-Stays E db c (panic, t) h = h

  printed-Inserts :
      (id : ℕ) (stream : Stream F) (uuid token : Text) (printed : Result Text) (db : Db F)
      (a : Unit {0}) (db' : Db F)
      → json.print_operations stream.operations ≡ printed
      → insert_printed server id stream uuid token printed db ≡ (answer a, db')
      → Inserts id stream uuid token db a db'
  unfolding insert_printed
  printed-Inserts id stream uuid token (ok operations) db tt db' p e = (operations, p, e)
  printed-Inserts id stream uuid token (err x) db a db' p e = ground arith
  printed-Inserts id stream uuid token panic db a db' p e = ground arith

  insert_tx-Follows :
      (id : ℕ) (stream : Stream F) (uuid token : Text)
      → Follows (Inserts id stream uuid token) (insert_tx server id stream uuid token)
  unfolding insert_tx
  insert_tx-Follows id stream uuid token t opn =
      let printed = json.print_operations stream.operations in
      let statement = insert_printed server id stream uuid token printed in
      insert_reported-Stays (Inserts id stream uuid token) t.work t.committed
        (get faults statement t)
        (weaken-Follows (Answers statement) (Inserts id stream uuid token) (get faults statement)
          (λ db a db' e. printed-Inserts id stream uuid token printed db a db' refl e)
          (get-Follows faults statement) t opn)

  module _ (entropy : Entropy) (uuid token : Text) (fresh : entropy.new_uuid ≡ ok uuid)
      (drawn : generate_token entropy.random_bytes token_length ≡ ok token) where
    abbrev CreateSteps : Stream F → DeviceRow F → Effect F (Stream F)
    CreateSteps stream row = Then (Answers (upsert_device row)) λ id. Then (Returns uuid) λ u.
        Then (Returns token)
          λ t. Then (Inserts id stream u t) λ _. Returns (created server stream u t)

    create_body-Follows :
        (stream : Stream F) (row : DeviceRow F)
        → Follows (CreateSteps stream row) (create_body server entropy stream row)
    unfolding create_body
    create_body-Follows stream row =
        >>=-Follows _ _ _ _ (wrapping-Follows _ _ _ (get-Follows faults (upsert_device row))) λ id.
          >>=-Follows _ _ _ _ (wrapping-Follows _ _ _ (outside-Follows uuid _ fresh)) λ u.
            >>=-Follows _ _ _ _ (wrapping-Follows _ _ _ (outside-Follows token _ drawn)) λ t.
              >>=-Follows _ _ _ _ (insert_tx-Follows id stream u t)
                λ _. return-Follows (created server stream u t)

    steps-Creates :
        (stream : Stream F) (row : DeviceRow F) (db : Db F) (s : Stream F) (db' : Db F)
        → CreateSteps stream row db s db'
        → Creates stream row uuid token db s db'
    steps-Creates stream row db s db'
          (id, db1, e1, (u, db2, (eu, e2), (t, db3, (et, e3), (_, db4, (ops, p, ins), (es, e4))))) =
        (id, db1, ops, e1, p, ground arith, ground arith)

    create_with-Ended :
        (stream : Stream F) (row : DeviceRow F) (s : Session F)
        → Ended faults
            (Creates stream row uuid token)
            s
            (create_with server entropy stream (some row) s)
    unfolding create_with
    create_with-Ended stream row s =
        with_tx-Ended faults (Creates stream row uuid token) _
          (create_body server entropy stream row) s
          (weaken-Follows (CreateSteps stream row) (Creates stream row uuid token) _
            (steps-Creates stream row) (create_body-Follows stream row))

    -- With a uuid and a token drawn, `create_stream` either saves the device and inserts the stream,
    -- both committed, or returns an error and leaves the tables as they were, whatever calls of the
    -- driver or statements fail; it does not panic.
    pub create_stream_atomic :
        (stream : Stream F) (row : DeviceRow F) (s : Session F)
        → stream.device ≡ some row
        → Ended faults (Creates stream row uuid token) s (create_stream server entropy stream s)
    unfolding create_stream
    create_stream_atomic stream row s e =
        subst
          (λ o.
            Ended faults (Creates stream row uuid token) s (create_with server entropy stream o s))
          (sym e) (create_with-Ended stream row s)

  -- What a deletion does: the stream's row is deleted, and with the last stream of a device the
  -- device, whose token is then returned.
  abbrev pub Deletes : Stream F → Effect F (Option Text)
  Deletes stream db o db' =
      (id : ℕ) × (gone : Db F) × (delete_stream_row pgp password stream.stream_id stream.token db
        ≡ (answer id, gone))
      × (((o ≡ none) × (count_streams id gone.tables.streams ≢ 0) × (db' ≡ gone))
          ⊎ ((token : Text) × (o ≡ some token)
              × (count_streams id gone.tables.streams ≡ 0)
              × (delete_device id gone ≡ (answer token, db'))))

  abbrev LastDeletes : ℕ → ℕ → Effect F (Option Text)
  LastDeletes id n db o db' =
      ((o ≡ none) × (n ≢ 0) × (db' ≡ db))
      ⊎ ((token : Text) × (o ≡ some token) × (n ≡ 0) × (delete_device id db ≡ (answer token, db')))

  last_steps :
      (id n : ℕ) (db : Db F) (o : Option Text) (db' : Db F)
      → n ≡ 0
      → Then (Answers (delete_device id)) (λ token. Returns (some token)) db o db'
      → LastDeletes id n db o db'
  last_steps id n db o db' z (token, db1, e1, (eo, e2)) = inr (token, eo, z, ground arith)

  delete_last-Follows : (id n : ℕ) → Follows (LastDeletes id n) (delete_last server id n)
  unfolding delete_last
  delete_last-Follows id n = elim (Bool-cases (n == 0)) [
    | inl zero ↦ rw zero (
        weaken-Follows _ (LastDeletes id n) _
          (λ db o db'. last_steps id n db o db' ((==_iff n 0).0 zero))
          (>>=-Follows _ _ _ _ (wrapping-Follows _ _ _ (get-Follows faults (delete_device id)))
            λ token. return-Follows (some token)))
    | inr more ↦ rw more (
        weaken-Follows (Returns none) (LastDeletes id n) (return none)
          (λ db o db' (eo, e). inl (eo, ground (arith, ==_iff n 0), e))
          (return-Follows {A = Option Text} none))
  ]

  abbrev DeleteSteps : Stream F → Effect F (Option Text)
  DeleteSteps stream =
      Then (Answers (delete_stream_row pgp password stream.stream_id stream.token))
        λ id. Then (Answers (select_count id)) λ n. LastDeletes id n

  delete_body-Follows :
      (stream : Stream F) → Follows (DeleteSteps stream) (delete_body server stream)
  unfolding delete_body
  delete_body-Follows stream =
      >>=-Follows _ _ _ _
        (wrapping-Follows _ _ _
          (get-Follows faults (delete_stream_row pgp password stream.stream_id stream.token)))
        λ id.
          >>=-Follows _ _ _ _ (wrapping-Follows _ _ _ (get-Follows faults (select_count id)))
            λ n. delete_last-Follows id n

  steps-Deletes :
      (stream : Stream F) (db : Db F) (o : Option Text) (db' : Db F)
      → DeleteSteps stream db o db'
      → Deletes stream db o db'
  unfolding select_count
  steps-Deletes stream db o db' (id, db1, e1, (n, db2, en, inl (eo, nz, e))) =
      (id, db1, e1, inl (eo, ground arith, ground arith))
  steps-Deletes stream db o db' (id, db1, e1, (n, db2, en, inr (token, eo, z, e))) =
      (id, db1, e1, inr (token, eo, ground arith, ground arith))

  -- `delete_stream` either deletes the stream, and its device with the last stream, all committed,
  -- or returns an error and leaves the tables as they were, whatever calls of the driver or
  -- statements fail; it does not panic.
  pub delete_stream_atomic :
      (stream : Stream F) (s : Session F)
      → Ended faults (Deletes stream) s (delete_stream server stream s)
  unfolding delete_stream
  delete_stream_atomic stream s =
      with_tx-Ended faults (Deletes stream) _ (delete_body server stream) s (
        weaken-Follows (DeleteSteps stream) (Deletes stream) _ (steps-Deletes stream)
          (delete_body-Follows stream))
