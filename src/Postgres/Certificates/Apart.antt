-- ===== src/Postgres/Certificates/Apart.antt =====
-- The cache of certificates of pkg/postgres/postgres.go keeps off the other tables.
use iotencoder.Common.{ℕ, ◌≡◌, refl, Text, Option, none, some, Error}
use iotencoder.Common.Dict.{Dict, insert, remove}
use iotencoder.Postgres.Tables.{Db}
use iotencoder.Postgres.Transactor.{Session}
use iotencoder.Postgres.Certificates.{
  called, commit, committed, put_executed, put_bound, put_begun, put_certificate, delete_executed,
  delete_begun, delete_certificate, get_certificate, read_answered,
}

module _ {F : Type 0} where
  -- The databases agree but for the certificates.
  abbrev pub Apart : Db F → Db F → Type 0
  Apart db db' =
      (db'.tables.devices ≡ db.tables.devices)
      × (db'.tables.streams ≡ db.tables.streams)
      × (db'.next_id ≡ db.next_id)

  module _ (faults : ℕ → Option Error) where
    committed-Apart :
        (m : Dict Text) (s : Session F) (o : Option Error)
        → Apart s.db (committed faults m s o).1.db
    unfolding committed
    committed-Apart m s none = (refl, refl, refl)
    committed-Apart m s (some e) = (refl, refl, refl)

    commit-Apart : (m : Dict Text) (s : Session F) → Apart s.db (commit faults m s).1.db
    unfolding commit
    commit-Apart m s = committed-Apart m (called faults s) (faults s.calls)

    put_executed-Apart :
        (key cert : Text) (s : Session F) (o : Option Error)
        → Apart s.db (put_executed faults key cert s o).1.db
    unfolding put_executed
    put_executed-Apart key cert s none = commit-Apart (insert key cert s.db.tables.certificates) s
    put_executed-Apart key cert s (some e) = (refl, refl, refl)

    put_bound-Apart :
        (key cert : Text) (s : Session F) (o : Option Error)
        → Apart s.db (put_bound faults key cert s o).1.db
    unfolding put_bound
    put_bound-Apart key cert s none = put_executed-Apart key cert (called faults s) (faults s.calls)
    put_bound-Apart key cert s (some e) = (refl, refl, refl)

    put_begun-Apart :
        (key cert : Text) (s : Session F) (o : Option Error)
        → Apart s.db (put_begun faults key cert s o).1.db
    unfolding put_begun
    put_begun-Apart key cert s none = put_bound-Apart key cert (called faults s) (faults s.calls)
    put_begun-Apart key cert s (some e) = (refl, refl, refl)

    pub put_certificate-Apart :
        (key cert : Text) (s : Session F) → Apart s.db (put_certificate faults key cert s).1.db
    unfolding put_certificate
    put_certificate-Apart key cert s = put_begun-Apart key cert (called faults s) (faults s.calls)

    delete_executed-Apart :
        (key : Text) (s : Session F) (o : Option Error)
        → Apart s.db (delete_executed faults key s o).1.db
    unfolding delete_executed
    delete_executed-Apart key s none = commit-Apart (remove key s.db.tables.certificates) s
    delete_executed-Apart key s (some e) = (refl, refl, refl)

    delete_begun-Apart :
        (key : Text) (s : Session F) (o : Option Error)
        → Apart s.db (delete_begun faults key s o).1.db
    unfolding delete_begun
    delete_begun-Apart key s none = delete_executed-Apart key (called faults s) (faults s.calls)
    delete_begun-Apart key s (some e) = (refl, refl, refl)

    pub delete_certificate-Apart :
        (key : Text) (s : Session F) → Apart s.db (delete_certificate faults key s).1.db
    unfolding delete_certificate
    delete_certificate-Apart key s = delete_begun-Apart key (called faults s) (faults s.calls)

    read_answered-Apart :
        (key : Text) (s : Session F) (o : Option Error)
        → Apart s.db (read_answered faults key s o).1.db
    unfolding read_answered
    read_answered-Apart key s none = (refl, refl, refl)
    read_answered-Apart key s (some e) = (refl, refl, refl)

    pub get_certificate-Apart :
        (key : Text) (s : Session F) → Apart s.db (get_certificate faults key s).1.db
    unfolding get_certificate
    get_certificate-Apart key s = read_answered-Apart key (called faults s) (faults s.calls)
