-- ===== src/Postgres/Certificates/Histories.antt =====
-- The cache of certificates of pkg/postgres/postgres.go over any calls of its methods: a map that the calls
-- that succeeded wrote.
use iotencoder.Common.{
  ℕ, ◌≡◌, refl, Text, text_eq, List, [], ◌∷◌, Option, Error, Result, ok, err, panic, cache_miss,
  if◌then◌else◌, ap, ◌∙◌,
}
use iotencoder.Postgres.Transactor.{Session}
use iotencoder.Postgres.Certificates.{put_certificate, delete_certificate}
use iotencoder.Postgres.Certificates.Reading.{
  read_back, ThenReads, put_certificate-ThenReads, delete_certificate-ThenReads,
}

-- A call of a method that writes.
pub data Call : Type 0 where
  putting : Text → Text → Call
  dropping : Text → Call

-- What a key is read as after a call that succeeded, by what it was read as before.
unfoldable pub wrote : Text → Call → Result Text → Result Text
wrote j (putting key cert) before = if text_eq key j then ok cert else before
wrote j (dropping key) before = if text_eq key j then err cache_miss else before

-- The abstract map: what a key is read as after calls with their answers.
unfoldable pub remembered : Text → Result Text → List (Call × Result (Unit {0})) → Result Text
unfolding wrote
remembered j before [] = before
remembered j before ((x, ok _) ∷ xs) = remembered j (wrote j x before) xs
remembered j before ((x, _) ∷ xs) = remembered j before xs

module _ {F : Type 0} (faults : ℕ → Option Error) where
  unfoldable pub call : Call → Session F → Result (Unit {0}) × Session F
  call (putting key cert) s = put_certificate faults key cert s
  call (dropping key) s = delete_certificate faults key s

  -- The calls one after the other, with their answers.
  unfoldable pub calls : List Call → Session F → List (Call × Result (Unit {0})) × Session F
  unfolding call
  calls [] s = ([], s)
  calls (x ∷ xs) s = let (r, s') = call x s in let (rs, t) = calls xs s' in ((x, r) ∷ rs, t)

  call-ThenReads :
      (j : Text) (x : Call) (s : Session F) → ThenReads j (wrote j x (read_back j s).0) s (call x s)
  unfolding call wrote
  call-ThenReads j (putting key cert) s = put_certificate-ThenReads faults key cert j s
  call-ThenReads j (dropping key) s = delete_certificate-ThenReads faults key j s

  remembered-ThenReads :
      (j : Text) (x : Call) (rs : List (Call × Result (Unit {0}))) (s t : Session F)
      (a : Result (Unit {0}) × Session F)
      → ThenReads j (wrote j x (read_back j s).0) s a
      → (read_back j t).0 ≡ remembered j (read_back j a.1).0 rs
      → (read_back j t).0 ≡ remembered j (read_back j s).0 ((x, a.0) ∷ rs)
  unfolding remembered
  remembered-ThenReads j x rs s t (ok _, s') h e = e ∙ ap (λ b. remembered j b rs) h
  remembered-ThenReads j x rs s t (err _, s') h e = e ∙ ap (λ b. remembered j b rs) h
  remembered-ThenReads j x rs s t (panic, s') h e = elim h [ ]

  -- After any writes and deletions, whatever calls of the driver fail, a read of a key answers the
  -- certificate that the last successful call about the key wrote, a cache miss if it was a deletion,
  -- and as before them if there was none.
  pub calls-Remembered :
      (j : Text) (xs : List Call) (s : Session F)
      → let (answers, t) = calls xs s in (read_back j t).0 ≡ remembered j (read_back j s).0 answers
  unfolding calls
  calls-Remembered j [] s = unfold remembered in refl
  calls-Remembered j (x ∷ xs) s =
      remembered-ThenReads j x _ s _ (call x s) (call-ThenReads j x s)
        (calls-Remembered j xs (call x s).1)
