-- ===== src/Postgres/Certificates.antt =====
-- The cache of certificates of pkg/postgres/postgres.go: `Get`, `Put` and `Delete` of `DB`, as calls of the
-- driver. The key of the table is unique, so it is a map. A commit that fails commits nothing, and the
-- errors of a rollback are ignored by the code.
pub mod Reading
pub mod Histories
pub mod Apart
use iotencoder.Common.{
  ℕ, ◌+◌, ◌≡◌, refl, Text, text_eq, Option, none, some, Error, Result, ok, err, panic, wrap,
  cache_miss, if◌then◌else◌, arith, subst, sym, ap, ◌∙◌,
}
use iotencoder.Common.Dict.{Dict, lookup, insert, remove, lookup-insert, lookup-remove}
use iotencoder.Postgres.Tables.{Tables, Db}
use iotencoder.Postgres.Transactor.{Session}

-- The row that `SELECT certificate` finds.
cached : Option Text → Result Text
cached none = err cache_miss
cached (some cert) = ok cert

module _ {F : Type 0} (faults : ℕ → Option Error) where
  abbrev called : Session F → Session F
  called s = record s { calls = s.calls + 1 }

  abbrev with_certificates : Dict Text → Session F → Session F
  with_certificates m s = record s {
    db = record s.db { tables = record s.db.tables { certificates = m } };
  }

  read_answered : Text → Session F → Option Error → Result Text × Session F
  unfolding cached
  read_answered key s none = (cached (lookup key s.db.tables.certificates), s)
  read_answered key s (some e) = (err (wrap e "failed to read certificate from DB"), s)

  -- `Get`
  unfoldable pub get_certificate : Text → Session F → Result Text × Session F
  unfolding read_answered
  get_certificate key s = read_answered key (called s) (faults s.calls)

  -- The answer of `Commit`, with the certificates that the transaction has.
  committed : Dict Text → Session F → Option Error → Result (Unit {0}) × Session F
  committed m s none = (ok tt, with_certificates m s)
  committed m s (some e) = (err e, s)

  commit : Dict Text → Session F → Result (Unit {0}) × Session F
  unfolding committed
  commit m s = committed m (called s) (faults s.calls)

  -- The answers of `Exec` and `BindNamed`; the rollback is one more call.
  put_executed : Text → Text → Session F → Option Error → Result (Unit {0}) × Session F
  unfolding commit
  put_executed key cert s none = commit (insert key cert s.db.tables.certificates) s
  put_executed key cert s (some e) = (err (wrap e "failed to insert certificate"), called s)

  put_bound : Text → Text → Session F → Option Error → Result (Unit {0}) × Session F
  unfolding put_executed
  put_bound key cert s none = put_executed key cert (called s) (faults s.calls)
  put_bound key cert s (some e) = (err (wrap e "failed to bind named parameters"), called s)

  put_begun : Text → Text → Session F → Option Error → Result (Unit {0}) × Session F
  unfolding put_bound
  put_begun key cert s none = put_bound key cert (called s) (faults s.calls)
  put_begun key cert s (some e) =
      (err (wrap e "failed to begin transaction when writing certificate"), s)

  -- `Put`
  unfoldable pub put_certificate : Text → Text → Session F → Result (Unit {0}) × Session F
  unfolding put_begun
  put_certificate key cert s = put_begun key cert (called s) (faults s.calls)

  delete_executed : Text → Session F → Option Error → Result (Unit {0}) × Session F
  unfolding commit
  delete_executed key s none = commit (remove key s.db.tables.certificates) s
  delete_executed key s (some e) = (err (wrap e "failed to delete certificate"), called s)

  delete_begun : Text → Session F → Option Error → Result (Unit {0}) × Session F
  unfolding delete_executed
  delete_begun key s none = delete_executed key (called s) (faults s.calls)
  delete_begun key s (some e) =
      (err (wrap e "failed to begin transaction when deleting certificate"), s)

  -- `Delete`
  unfoldable pub delete_certificate : Text → Session F → Result (Unit {0}) × Session F
  unfolding delete_begun
  delete_certificate key s = delete_begun key (called s) (faults s.calls)
