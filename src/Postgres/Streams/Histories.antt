-- ===== src/Postgres/Streams/Histories.antt =====
-- The database over any calls of the methods of pkg/postgres/postgres.go, whatever fails in them.
use iotencoder.Common.{true, false, Text, Option, none, some}
use iotencoder.Postgres.Types.{DeviceRow, Stream}
use iotencoder.Postgres.Tables.{Db}
use iotencoder.Postgres.Transactor.{Session}
use iotencoder.Postgres.Transactor.Invariant.{Always, Anything, with_tx-keeps}
use iotencoder.Postgres.Certificates.{get_certificate, put_certificate, delete_certificate}
use iotencoder.Postgres.Certificates.Apart.{
  Apart, get_certificate-Apart, put_certificate-Apart, delete_certificate-Apart,
}
use iotencoder.Postgres.Streams.{
  Server, Entropy, create_with, create_stream, delete_stream, get_devices, get_device,
}
use iotencoder.Postgres.Streams.Schema.{IsConsistent}
use iotencoder.Postgres.Streams.Keeping.{IsConsistent-Raised}
use iotencoder.Postgres.Streams.Keeping.Bodies.{create_body-Triple, delete_body-Triple}
use iotencoder.Postgres.Streams.Untouched.{devices_body-Triple, device_body-Triple}

-- One call of a method, however it ends.
pub data Call (F : Type 0) : Type 0 where
  creating : Entropy → Stream F → Call F
  deleting : Stream F → Call F
  listing : Call F
  reading : Text → Call F
  caching : Text → Text → Call F
  dropping : Text → Call F
  fetching : Text → Call F

module _ {F : Type 0} where
  Apart-IsConsistent : (db db' : Db F) → Apart db db' → IsConsistent db → IsConsistent db'
  Apart-IsConsistent db db' (devices, streams, ids) h = record {
    below = rw (ids, devices) h.below;
    distinct_devices = rw devices h.distinct_devices;
    distinct_streams = rw streams h.distinct_streams;
    owned = rw (devices, streams) h.owned;
  }

  module _ (server : Server F) where
    open server use {faults}

    unfoldable pub after : Call F → Session F → Session F
    after (creating entropy stream) s = (create_stream server entropy stream s).1
    after (deleting stream) s = (delete_stream server stream s).1
    after listing s = (get_devices server s).1
    after (reading token) s = (get_device server token s).1
    after (caching key cert) s = (put_certificate faults key cert s).1
    after (dropping key) s = (delete_certificate faults key s).1
    after (fetching key) s = (get_certificate faults key s).1

    pub data Reaches : Session F → Session F → Type 0 where
      stay : {s : Session F} → Reaches s s
      go_on : {s t : Session F} → (c : Call F) → Reaches (after c s) t → Reaches s t

    create_with-keeps :
        (entropy : Entropy) (stream : Stream F) (o : Option (DeviceRow F)) (s : Session F)
        → IsConsistent s.db
        → IsConsistent (create_with server entropy stream o s).1.db
    unfolding create_with
    create_with-keeps entropy stream none s h = h
    create_with-keeps entropy stream (some row) s h =
        with_tx-keeps IsConsistent IsConsistent-Raised faults Anything Always true _ _ s
          (create_body-Triple server entropy stream row) h tt

    pub after-IsConsistent :
        (c : Call F) (s : Session F) → IsConsistent s.db → IsConsistent (after c s).db
    unfolding after create_stream delete_stream get_devices get_device
    after-IsConsistent (creating entropy stream) s h =
        create_with-keeps entropy stream stream.device s h
    after-IsConsistent (deleting stream) s h =
        with_tx-keeps IsConsistent IsConsistent-Raised faults Anything Always true _ _ s
          (delete_body-Triple server stream) h tt
    after-IsConsistent listing s h =
        with_tx-keeps IsConsistent IsConsistent-Raised faults Anything Always false _ _ s
          (devices_body-Triple IsConsistent IsConsistent-Raised server) h tt
    after-IsConsistent (reading token) s h =
        with_tx-keeps IsConsistent IsConsistent-Raised faults Anything Always true _ _ s
          (device_body-Triple IsConsistent IsConsistent-Raised server token) h tt
    after-IsConsistent (caching key cert) s h =
        Apart-IsConsistent s.db _ (put_certificate-Apart faults key cert s) h
    after-IsConsistent (dropping key) s h =
        Apart-IsConsistent s.db _ (delete_certificate-Apart faults key s) h
    after-IsConsistent (fetching key) s h =
        Apart-IsConsistent s.db _ (get_certificate-Apart faults key s) h

    -- Over any calls of the store's methods and of the cache of certificates, whatever calls of the
    -- driver, statements or sources of randomness fail: if the database is consistent, then it is so
    -- afterwards. That is, no two devices share an id or a token, no two streams a uuid or both the
    -- device and the community, every stream belongs to a device of the tables, and every id of a
    -- device is below the sequence.
    pub Reaches-IsConsistent :
        {s t : Session F} → Reaches s t → IsConsistent s.db → IsConsistent t.db
    Reaches-IsConsistent stay h = h
    Reaches-IsConsistent (go_on c rest) h = Reaches-IsConsistent rest (after-IsConsistent c _ h)
