-- ===== src/Postgres/Certificates/Reading.antt =====
-- What the cache of certificates (pkg/postgres/postgres.go) reads after its writes, whether they succeed or
-- fail.
use iotencoder.Common.{
  ℕ, ◌≡◌, refl, Text, text_eq, Option, none, some, Error, Result, ok, err, panic, cache_miss,
  if◌then◌else◌, arith, sym, ap, ◌∙◌,
}
use iotencoder.Common.Dict.{Dict, lookup, insert, remove, lookup-insert, lookup-remove}
use iotencoder.Postgres.Transactor.{Session}
use iotencoder.Postgres.Certificates.{
  called, cached, read_answered, get_certificate, committed, commit, put_executed, put_bound,
  put_begun, put_certificate, delete_executed, delete_begun, delete_certificate,
}

-- What a key is read as.
unfoldable pub reads : Text → Dict Text → Result Text
unfolding cached
reads key m = cached (lookup key m)

module _ {F : Type 0} (faults : ℕ → Option Error) where
  -- A call that succeeded changed the certificates to `m` and nothing else; one that failed changed no
  -- table, and none panics.
  abbrev pub Writes : Dict Text → Session F → Result (Unit {0}) × Session F → Type 0
  Writes m s (ok _, s') = s'.db ≡ record s.db { tables = record s.db.tables { certificates = m } }
  Writes m s (err e, s') = s'.db ≡ s.db
  Writes m s (panic, s') = ⊥

  committed-Writes :
      (m : Dict Text) (s : Session F) (o : Option Error) → Writes m s (committed faults m s o)
  unfolding committed
  committed-Writes m s none = refl
  committed-Writes m s (some e) = refl

  put_executed-Writes :
      (key cert : Text) (s : Session F) (o : Option Error)
      → Writes (insert key cert s.db.tables.certificates) s (put_executed faults key cert s o)
  unfolding put_executed commit
  put_executed-Writes key cert s none = committed-Writes _ (called faults s) (faults s.calls)
  put_executed-Writes key cert s (some e) = refl

  put_bound-Writes :
      (key cert : Text) (s : Session F) (o : Option Error)
      → Writes (insert key cert s.db.tables.certificates) s (put_bound faults key cert s o)
  unfolding put_bound
  put_bound-Writes key cert s none = put_executed-Writes key cert (called faults s) (faults s.calls)
  put_bound-Writes key cert s (some e) = refl

  put_begun-Writes :
      (key cert : Text) (s : Session F) (o : Option Error)
      → Writes (insert key cert s.db.tables.certificates) s (put_begun faults key cert s o)
  unfolding put_begun
  put_begun-Writes key cert s none = put_bound-Writes key cert (called faults s) (faults s.calls)
  put_begun-Writes key cert s (some e) = refl

  delete_executed-Writes :
      (key : Text) (s : Session F) (o : Option Error)
      → Writes (remove key s.db.tables.certificates) s (delete_executed faults key s o)
  unfolding delete_executed commit
  delete_executed-Writes key s none = committed-Writes _ (called faults s) (faults s.calls)
  delete_executed-Writes key s (some e) = refl

  delete_begun-Writes :
      (key : Text) (s : Session F) (o : Option Error)
      → Writes (remove key s.db.tables.certificates) s (delete_begun faults key s o)
  unfolding delete_begun
  delete_begun-Writes key s none = delete_executed-Writes key (called faults s) (faults s.calls)
  delete_begun-Writes key s (some e) = refl

reads-insert :
    (key cert j : Text) (m : Dict Text)
    → reads j (insert key cert m) ≡ (if text_eq key j then ok cert else reads j m)
unfolding reads cached
reads-insert key cert j m = ground (arith, lookup-insert key j cert m)

reads-remove :
    (key j : Text) (m : Dict Text)
    → reads j (remove key m) ≡ (if text_eq key j then err cache_miss else reads j m)
unfolding reads cached
reads-remove key j m = ground (arith, lookup-remove key j m)

module _ {F : Type 0} where
  -- A read whose call does not fail.
  abbrev pub read_back : Text → Session F → Result Text × Session F
  read_back = get_certificate (λ _. none)

  -- What a read of a key answers after a call that writes: `new` if the write succeeded, and as before
  -- if it failed.
  abbrev pub ThenReads : Text → Result Text → Session F → Result (Unit {0}) × Session F → Type 0
  ThenReads j new s (ok _, s') = (read_back j s').0 ≡ new
  ThenReads j new s (err e, s') = (read_back j s').0 ≡ (read_back j s).0
  ThenReads j new s (panic, s') = ⊥

  read_back-reads :
      (key : Text) (s : Session F) → (read_back key s).0 ≡ reads key s.db.tables.certificates
  unfolding get_certificate read_answered reads
  read_back-reads key s = refl

  module _ (faults : ℕ → Option Error) where
    Writes-ThenReads :
        (j : Text) (m : Dict Text) (new : Result Text) (s : Session F)
        (r : Result (Unit {0}) × Session F)
        → reads j m ≡ new
        → Writes faults m s r
        → ThenReads j new s r
    Writes-ThenReads j m new s (ok _, s') e h =
        read_back-reads j s' ∙ ap (λ db. reads j db.tables.certificates) h ∙ e
    Writes-ThenReads j m new s (err x, s') e h =
        read_back-reads j s'
        ∙ ap (λ db. reads j db.tables.certificates) h
        ∙ sym (read_back-reads j s)
    Writes-ThenReads j m new s (panic, s') e h = h

    -- After a `put_certificate` that succeeded, a read of its key answers the certificate, and a read
    -- of another key answers as before; after one that failed, whatever call of the driver did, every
    -- read answers as before. It does not panic.
    pub put_certificate-ThenReads :
        (key cert j : Text) (s : Session F)
        → ThenReads j
            (if text_eq key j then ok cert else (read_back j s).0)
            s
            (put_certificate faults key cert s)
    unfolding put_certificate
    put_certificate-ThenReads key cert j s =
        let m = s.db.tables.certificates in
        Writes-ThenReads j (insert key cert m) _ s _
          (reads-insert key cert j m
            ∙ ap (λ x. if text_eq key j then ok cert else x) (sym (read_back-reads j s)))
          (put_begun-Writes faults key cert (called faults s) (faults s.calls))

    -- After a `delete_certificate` that succeeded, a read of its key is a cache miss, and a read of
    -- another key answers as before; after one that failed, whatever call of the driver did, every
    -- read answers as before. It does not panic.
    pub delete_certificate-ThenReads :
        (key j : Text) (s : Session F)
        → ThenReads j
            (if text_eq key j then err cache_miss else (read_back j s).0)
            s
            (delete_certificate faults key s)
    unfolding delete_certificate
    delete_certificate-ThenReads key j s =
        let m = s.db.tables.certificates in
        Writes-ThenReads j (remove key m) _ s _
          (reads-remove key j m
            ∙ ap (λ x. if text_eq key j then err cache_miss else x) (sym (read_back-reads j s)))
          (delete_begun-Writes faults key (called faults s) (faults s.calls))
