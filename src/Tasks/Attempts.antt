-- ===== src/Tasks/Attempts.antt =====
-- What the attempts of the server command of pkg/tasks/server.go leave of the servers they made.
use iotencoder.Common.{
  ℕ, zero, suc, ◌+◌, ◌≡◌, refl, arith, ap, Text, List, ◌∷◌, map, replicate, none, Error, Result, ok,
  err, panic,
}
use iotencoder.Common.Float.{Float64}
use iotencoder.Postgres.Migrate.{migrate_up}
use iotencoder.Postgres.Transactor.{Session}
use iotencoder.Mqtt.{Client}
use iotencoder.Rpc.Encoder.{Encoder}
use iotencoder.Server.{
  Request, Platform, ServerState, Pool, pool_open, new_server, migrated, db_started, start_server,
}
use iotencoder.Tasks.{attempted, retry}

module _ {F P V : Type 0} ⦃f : Float64 F⦄ (platforms : ℕ → Platform V)
    (encoders : ℕ → Encoder F Client P) (domains : List Text) (requests : ℕ → List (Request F))
    (work : P) (exhausted : Error) where
  migrated-open :
      (k : ℕ) (s : ServerState F P V) (r : Result (Unit {0}) × V) (x : Error)
      → r.0 ≡ err x
      → let a = migrated (platforms k) (encoders k) domains (requests k) s r in
        ((e : Error) × (a.0 ≡ err e)) × (a.1.pool ≡ s.pool)
  unfolding migrated
  migrated-open k s (ok _, v) x h = ground (arith, h)
  migrated-open k s (err e, v) x h = ((_, refl), refl)
  migrated-open k s (panic, v) x h = ground (arith, h)

  attempted-open :
      (again : V → Session F → Result (Unit {0}) × List (ServerState F P V))
      (a : Result (Unit {0}) × ServerState F P V) (e : Error) (pools : List Pool)
      → a.0 ≡ err e
      → a.1.pool ≡ pool_open
      → ((v : V) (session : Session F) → map (λ s. s.pool) (again v session).1 ≡ pools)
      → map (λ s. s.pool) (attempted platforms encoders domains requests work exhausted again a).1
        ≡ pool_open ∷ pools
  unfolding attempted
  attempted-open again (ok _, s) e pools h p k = ground (arith, h)
  attempted-open again (err x, s) e pools h p k =
      rw p (ap (λ ps. pool_open ∷ ps) (k s.schema s.state.session))
  attempted-open again (panic, s) e pools h p k = ground (arith, h)

  -- When the database can be opened and no migration succeeds, every attempt that the policy grants is
  -- made, and each leaves a pool of connections open.
  pub retry_pools :
      (grants k : ℕ) (schema : V) (session : Session F)
      → ((i : ℕ) → (platforms i).open_error ≡ none)
      → ((i : ℕ) (v : V)
          → (e : Error) × ((migrate_up (platforms i).migrations (platforms i).asset_names v).0
              ≡ err e))
      → map
          (λ s. s.pool)
          (retry platforms encoders domains requests work exhausted grants k schema session).1
        ≡ replicate grants pool_open
  unfolding retry start_server db_started
  retry_pools zero k schema session o m = refl
  retry_pools (suc grants) k schema session o m =
      let s : ServerState F P V = record (new_server schema session work) { pool = pool_open } in
      let (x, failed) = m k schema in
      let ((e, answer), left) =
        migrated-open k s (migrate_up (platforms k).migrations (platforms k).asset_names schema) x
          failed in
      rw (o k) (
        attempted-open (retry platforms encoders domains requests work exhausted grants (k + 1)) _ e
          _ answer left (λ v u. retry_pools grants (k + 1) v u o m))
