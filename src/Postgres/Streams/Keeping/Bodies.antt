-- ===== src/Postgres/Streams/Keeping/Bodies.antt =====
-- The bodies of the methods of pkg/postgres/postgres.go that write keep the database consistent.
use iotencoder.Common.{
  ℕ, String, unique_violation, ◌==◌, Text, Result, ok, err, panic, arith, Bool-cases, inl, inr,
}
use iotencoder.Postgres.Types.{DeviceRow, Stream, token_length}
use iotencoder.Postgres.Tables.{Db}
use iotencoder.Postgres.Statements.{
  Statement, upsert_device, select_count, delete_device, delete_stream_row,
}
use iotencoder.Postgres.Transactor.{Transactor, get, wrapping}
use iotencoder.Postgres.Transactor.Invariant.{
  Always, Anything, After, Triple, Keeps, >>=-Triple, wrapping-Triple, outside-Triple, get-Triple,
}
use iotencoder.Postgres.Token.{generate_token}
use iotencoder.Postgres.Streams.{
  Server, Entropy, stream_row, insert_printed, insert_reported, insert_tx, create_body, delete_last,
  delete_body,
}
use iotencoder.Postgres.Streams.Schema.{IsConsistent}
use iotencoder.Postgres.Streams.Keeping.{
  Has, IsConsistent-Raised, upsert_device-Keeps, insert_stream-Keeps, delete_device-Keeps,
  delete_stream_row-Keeps,
}

module _ {F : Type 0} (server : Server F) where
  open server use {password, pgp, json, faults}

  insert_printed-Keeps :
      (id : ℕ) (stream : Stream F) (uuid token : Text) (printed : Result Text)
      → Keeps IsConsistent (Has id) (insert_printed server id stream uuid token printed) Anything
  unfolding insert_printed
  insert_printed-Keeps id stream uuid token (ok operations) db h has =
      insert_stream-Keeps (stream_row server id stream uuid token operations) db h has
  insert_printed-Keeps id stream uuid token (err e) db h has = (h, omega arith)
  insert_printed-Keeps id stream uuid token panic db h has = (h, omega arith)

  insert_reported-After :
      (r : Result (Unit {0}) × Transactor F)
      → After IsConsistent Anything r
      → After IsConsistent Anything (insert_reported server r)
  unfolding insert_reported
  insert_reported-After (ok a, t) h = h
  insert_reported-After (err unique_violation, t) h = h
  insert_reported-After (err e, t) h = h
  insert_reported-After (panic, t) h = h

  get_keeping :
      {A : Type 0} (P : Db F → Type 0) (Q : A → Db F → Type 0) (m : String)
      (statement : Statement F A)
      → Keeps IsConsistent P statement Q
      → Triple IsConsistent P (wrapping m (get faults statement)) Q
  get_keeping P Q m statement k =
      wrapping-Triple IsConsistent Q P m (get faults statement)
        (get-Triple IsConsistent IsConsistent-Raised faults Q P statement k)

  insert_tx-Triple :
      (id : ℕ) (stream : Stream F) (uuid token : Text)
      → Triple IsConsistent (Has id) (insert_tx server id stream uuid token) Anything
  unfolding insert_tx
  insert_tx-Triple id stream uuid token t h has = insert_reported-After _ (
      get-Triple IsConsistent IsConsistent-Raised faults Anything (Has id) _
        (insert_printed-Keeps id stream uuid token (json.print_operations stream.operations)) t h
        has)

  pub create_body-Triple :
      (entropy : Entropy) (stream : Stream F) (row : DeviceRow F)
      → Triple IsConsistent Always (create_body server entropy stream row) Anything
  unfolding create_body
  create_body-Triple entropy stream row =
      >>=-Triple IsConsistent Has Anything Always _ _
        (get_keeping Always Has _ (upsert_device row) (upsert_device-Keeps row))
        λ id.
          >>=-Triple IsConsistent (λ _. Has id) Anything (Has id) _ _
            (wrapping-Triple IsConsistent _ (Has id) _ _
              (outside-Triple IsConsistent _ (Has id) entropy.new_uuid (λ a db p. p)))
            λ uuid.
              >>=-Triple IsConsistent (λ _. Has id) Anything (Has id) _ _
                (wrapping-Triple IsConsistent _ (Has id) _ _ (
                  outside-Triple IsConsistent _ (Has id)
                    (generate_token entropy.random_bytes token_length) (λ a db p. p)))
                λ token.
                  >>=-Triple IsConsistent Anything Anything (Has id) _ _
                    (insert_tx-Triple id stream uuid token) λ _ t h p. (h, tt)

  delete_last-Triple : (id n : ℕ) → Triple IsConsistent Always (delete_last server id n) Anything
  unfolding delete_last
  delete_last-Triple id n = elim (Bool-cases (n == 0)) [
    | inl e ↦ rw e (
        >>=-Triple IsConsistent Anything Anything Always _ _
          (get_keeping Always Anything _ (delete_device id) (delete_device-Keeps id))
          λ token t h p. (h, tt))
    | inr e ↦ rw e (λ t h p. (h, tt))
  ]

  pub delete_body-Triple :
      (stream : Stream F) → Triple IsConsistent Always (delete_body server stream) Anything
  unfolding delete_body
  delete_body-Triple stream =
      >>=-Triple IsConsistent Anything Anything Always _ _
        (get_keeping Always Anything _
          (delete_stream_row pgp password stream.stream_id stream.token)
          (delete_stream_row-Keeps pgp password stream.stream_id stream.token))
        λ id.
          >>=-Triple IsConsistent Anything Anything Always _ _
            (get_keeping Always Anything _ (select_count id)
              (unfold select_count in λ db h _. (h, omega arith, tt)))
            λ n. delete_last-Triple id n
