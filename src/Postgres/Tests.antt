-- ===== src/Postgres/Tests.antt =====
-- The theorems on pkg/postgres at concrete inputs: an empty database, and a server whose encryption
-- puts the password before the text.
use iotencoder.Common.{
  List, ℕ, ◌≡◌, refl, Text, codes, Option, Error, [], ◌∷◌, ◌++◌, replicate, length, none, some, new,
  wrap, ok, err, pos, text_eq, if◌then◌else◌, ◌==◌,
}
use iotencoder.Common.Float.{Whole}
use iotencoder.Postgres.Types.{DeviceRow, Stream}
use iotencoder.Postgres.Tables.{Tables, Db}
use iotencoder.Postgres.Statements.{
  as_stored, Pgp, Decrypts, find_device, upsert_device, insert_stream, is_exposure, conflicts,
}
use iotencoder.Postgres.Transactor.{Session}
use iotencoder.Postgres.Transactor.Ending.{Ended}
use iotencoder.Postgres.Token.{base64, generate_token, length-generate_token}
use iotencoder.Postgres.Certificates.Histories.{
  Call, putting, dropping, calls, remembered, calls-Remembered,
}
use iotencoder.Postgres.Certificates.Reading.{read_back}
use iotencoder.Postgres.Streams.{Server, Entropy, stream_row, created, create_stream, delete_stream}
use iotencoder.Postgres.Streams.Atomic.{
  Creates, Deletes, create_stream_atomic, delete_stream_atomic,
}
use iotencoder.Postgres.Streams.Orphan.{create_stream_orphan}
use iotencoder.Postgres.Streams.Schema.{IsConsistent}
use iotencoder.Postgres.Streams.Histories
use iotencoder.Postgres.Streams.Histories.{
  creating, deleting, listing, stay, go_on, Reaches-IsConsistent,
}
use iotencoder.Postgres.Streams.RoundTrip.{quiet, create_delete_round_trip}

drop_prefix : Text → Text → Text
drop_prefix [] t = t
drop_prefix (c ∷ p) [] = []
drop_prefix (c ∷ p) (d ∷ t) = drop_prefix p t

drop_prefix-append : (p t : Text) → drop_prefix p (p ++ t) ≡ t
unfolding drop_prefix
drop_prefix-append [] t = refl
drop_prefix-append (c ∷ p) t = drop_prefix-append p t

abbrev pgp : Pgp
pgp = record { encrypt = λ pw t. pw ++ t; decrypt = λ pw t. some (drop_prefix pw t) }

pgp-Decrypts : Decrypts pgp
pgp-Decrypts = record { decrypt-encrypt = λ pw t. rw (drop_prefix-append pw t) refl }

-- The third call of the driver fails.
abbrev server : Server Whole
server = record {
  password = codes "secret";
  pgp = pgp;
  json = record { print_operations = λ ops. ok (codes "[]"); parse_operations = λ t. ok [] };
  faults = λ n. if n == 2 then some (new "connection lost") else none;
  device_order = as_stored;
  stream_order = as_stored;
}

abbrev row : DeviceRow Whole
row = record {
  id = 0;
  device_token = codes "device";
  label = codes "label";
  longitude = some (pos 2);
  latitude = some (pos 41);
  exposure = codes "indoor";
}

abbrev stream : Stream Whole
stream = record {
  community_id = codes "community";
  public_key = codes "key";
  operations = [];
  stream_id = [];
  token = [];
  device = some row;
}

abbrev no_tables : Tables Whole
no_tables = record { devices = []; streams = []; certificates = [] }

abbrev session : Session Whole
session = record { db = record { tables = no_tables; next_id = 1 }; calls = 0 }

abbrev uuid : Text
uuid = codes "uuid"

abbrev drawn : Entropy
drawn = record { new_uuid = ok uuid; random_bytes = λ n. ok (replicate n 0) }

abbrev token : Text
token = replicate 32 b'A'

create_stream_atomic_example :
    Ended server.faults
      (Creates server stream row uuid token)
      session
      (create_stream server drawn stream session)
unfolding generate_token base64
create_stream_atomic_example =
    create_stream_atomic server drawn uuid token refl refl stream row session refl

delete_stream_atomic_example :
    Ended server.faults (Deletes server stream) session (delete_stream server stream session)
delete_stream_atomic_example = delete_stream_atomic server stream session

abbrev saved_device : Db Whole
saved_device = record {
  tables = record no_tables { devices = record row { id = 1 } ∷ [] };
  next_id = 2;
}

abbrev saved_stream : Db Whole
saved_stream = record saved_device {
  tables = record saved_device.tables {
    streams = stream_row server 1 stream uuid token (codes "[]") ∷ [];
  };
}

abbrev after : Session Whole
after = record { db = saved_stream; calls = 0 }

created_first :
    Creates server stream row uuid token session.db (created server stream uuid token) saved_stream
unfolding upsert_device find_device is_exposure insert_stream conflicts text_eq
created_first = (1, saved_device, codes "[]", refl, refl, refl, refl)

create_delete_round_trip_example :
    let (r, s') =
      delete_stream
        (quiet (quiet server))
        (created server stream uuid token)
        (create_stream (quiet server) drawn stream session).1 in
    (r ≡ ok (some (codes "device"))) × (s'.db.tables ≡ no_tables)
unfolding find_device create_stream generate_token base64 upsert_device is_exposure insert_stream
    conflicts text_eq iotencoder.Postgres.Transactor.with_tx iotencoder.Postgres.Transactor.get
create_delete_round_trip_example =
    create_delete_round_trip (quiet server) pgp-Decrypts drawn stream
      (created server stream uuid token) row uuid token session refl refl refl
      (record { devices_below = tt; streams_below = tt }) refl refl

abbrev not_drawn : Entropy
not_drawn = record { new_uuid = err (new "entropy"); random_bytes = λ n. err (new "entropy") }

create_stream_orphan_example :
    ((create_stream (quiet server) not_drawn stream session).0
      ≡ err (wrap (new "entropy") "failed to generate stream UUID"))
    × ((create_stream (quiet server) not_drawn stream session).1.db ≡ saved_device)
unfolding upsert_device find_device is_exposure text_eq
create_stream_orphan_example =
    create_stream_orphan server not_drawn stream row session (new "entropy") 1 saved_device refl
      refl refl

length-generate_token_example :
    (t : Text) × (generate_token (λ n. ok (replicate n 7)) 4 ≡ ok t) × (length t ≡ 8)
length-generate_token_example =
    length-generate_token (λ n. ok (replicate n 7)) 4 (replicate 4 7) refl refl

-- The commit, which is the fourth call, fails.
abbrev commit_fails : ℕ → Option Error
commit_fails n = if n == 3 then some (new "lost") else none

abbrev writes : List Call
writes =
    putting (codes "a") (codes "cert")
    ∷ putting (codes "a") (codes "new")
    ∷ dropping (codes "b")
    ∷ []

calls-Remembered_example :
    let (answers, t) = calls commit_fails writes session in
    (read_back (codes "a") t).0 ≡ remembered (codes "a") (read_back (codes "a") session).0 answers
calls-Remembered_example = calls-Remembered commit_fails (codes "a") writes session

session-IsConsistent : IsConsistent session.db
session-IsConsistent = record {
  below = tt;
  distinct_devices = tt;
  distinct_streams = tt;
  owned = tt;
}

-- A creation, a listing and a deletion on the server whose third call fails.
Reaches-IsConsistent_example :
    IsConsistent
      (Histories.after server (deleting stream) (
        Histories.after server listing (Histories.after server (creating drawn stream) session))).db
Reaches-IsConsistent_example =
    Reaches-IsConsistent server
      (go_on (creating drawn stream) (go_on listing (go_on (deleting stream) stay)))
      session-IsConsistent
