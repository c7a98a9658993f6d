-- ===== src/Mqtt/Threads.antt =====
-- `getClient` of pkg/mqtt/mqtt.go as the several steps that other goroutines can come between: the
-- read of the map under its lock, the connection, for which no lock is held, and the write of the map.
pub mod Running
pub mod Ending
pub mod Race
mod Tests
use iotencoder.Common.{
  ℕ, suc, ◌+◌, ◌<◌, ◌==◌, ◌≡◌, refl, Text, List, [], ◌∷◌, ◌++◌, Option, none, some, Error, Result,
  ok, err, wrap, Bool, if◌then◌else◌,
}
use iotencoder.Common.Dict.{lookup, insert}
use iotencoder.Mqtt.{Event, connected, Client}

-- Where a call of `getClient` is: before it reads the map, with no client found, with a connection
-- that is not in the map yet, or returned.
pub data Phase : Type 0 where
  waiting : Phase
  missed : Phase
  connecting : ℕ → Phase
  returned : Result ℕ → Phase

-- What the read of the map gives.
unfoldable pub looked : Client → Option ℕ → Phase × Client
looked c (some n) = (returned (ok n), c)
looked c none = (missed, c)

-- `connect`, whose error ends the call.
unfoldable pub dialled : Text → Client → Option Error → Phase × Client
dialled key c none = (
  connecting c.calls,
  record c { calls = c.calls + 1; log = c.log ++ (connected key c.calls ∷ []) },
)
dialled key c (some e) = (
  returned (err (wrap (wrap e "failed to connect to broker") "failed to connect to broker")),
  record c { calls = c.calls + 1 },
)

-- The map that the goroutines share, and the phase of each one's call.
pub record System : Type 0 where
  pub client : Client
  pub phase : ℕ → Phase

unfoldable pub put : ℕ → Phase → (ℕ → Phase) → ℕ → Phase
put i p phase j = if i == j then p else phase j

module _ (faults : ℕ → Option Error) where
  -- The next step of a call for a key.
  unfoldable pub advance : Text → Phase → Client → Phase × Client
  unfolding looked dialled
  advance key waiting c = looked c (lookup key c.clients)
  advance key missed c = dialled key c (faults c.calls)
  advance key (connecting n) c = (returned (ok n), record c { clients = insert key n c.clients })
  advance key (returned r) c = (returned r, c)

  -- The goroutine `i` takes its next step; `keys` are those of the calls.
  unfoldable pub move : (ℕ → Text) → ℕ → System → System
  unfolding advance put
  move keys i s =
      let (p, c) = advance (keys i) (s.phase i) s.client in
      record { client = c; phase = put i p s.phase }
