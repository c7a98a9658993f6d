-- ===== src/Postgres/Rows/Quiet.antt =====
-- `Map` of pkg/postgres/transactor.go with a row mapper, when no call of the driver fails.
use mathlib.Core.List.{Permᴰ}
use iotencoder.Common.{
  ℕ, ◌+◌, ◌≡◌, refl, true, false, List, [], ◌∷◌, ◌++◌, sym, none, Result, ok, String, ◌∙◌, ap,
}
use mathlib.Core.List.{append_assoc, append-nil}
use iotencoder.Postgres.Statements.{Statement, answer}
use iotencoder.Postgres.Transactor.{Transactor}
use iotencoder.Postgres.Rows.{
  scan_rows, map_rows, scanned, advanced, mapped, close_answered, fetched, queried, map_bound,
}

module _ {R A : Type 0} where
  -- Every row can be scanned, to the element at its place.
  abbrev pub AllScan : (R → Result A) → List R → List A → Type 0
  AllScan scan [] [] = Unit {0}
  AllScan scan [] (a ∷ as') = ⊥
  AllScan scan (r ∷ rs) [] = ⊥
  AllScan scan (r ∷ rs) (a ∷ as') = (scan r ≡ ok a) × AllScan scan rs as'

module _ {F R A : Type 0} (scan : R → Result A) (message : String) where
  scan_rows-quiet :
      (rows : List R) (acc read : List A) (t : Transactor F)
      → AllScan scan rows read
      → (n : ℕ) × (scan_rows (λ _. none) scan message rows acc t
          ≡ (ok (acc ++ read), record t { calls = n }))
  unfolding scan_rows advanced scanned
  scan_rows-quiet [] acc [] t h = (t.calls + 1, rw (append-nil acc) refl)
  scan_rows-quiet [] acc (a ∷ read) t h = elim h [ ]
  scan_rows-quiet (r ∷ rows) acc [] t h = elim h [ ]
  scan_rows-quiet (r ∷ rows) acc (a ∷ read) t h =
      let (n, e) =
        scan_rows-quiet rows (acc ++ (a ∷ [])) read (record t { calls = t.calls + 1 + 1 }) h.1 in
      (n, rw h.0 (e ∙ ap (λ x. (ok x, record t { calls = n })) (append_assoc acc (a ∷ []) read)))

  pub map_rows-quiet :
      (statement : Statement F (List R)) (rows : List R) (read : List A) (t : Transactor F)
      → statement t.work ≡ (answer rows, t.work)
      → AllScan scan rows read
      → (n : ℕ) × (map_rows (λ _. none) scan message true statement t
          ≡ (ok read, record t { calls = n }))
  unfolding map_rows map_bound queried fetched mapped close_answered
  map_rows-quiet statement rows read t e h =
      let (n, scanned_all) =
        scan_rows-quiet rows [] read (record t { calls = t.calls + 1 + 1 }) h in
      (n + 1, rw (e, scanned_all) refl)

  -- The same for a slice of arguments.
  pub map_rows_plain-quiet :
      (statement : Statement F (List R)) (rows : List R) (read : List A) (t : Transactor F)
      → statement t.work ≡ (answer rows, t.work)
      → AllScan scan rows read
      → (n : ℕ) × (map_rows (λ _. none) scan message false statement t
          ≡ (ok read, record t { calls = n }))
  unfolding map_rows queried fetched mapped close_answered
  map_rows_plain-quiet statement rows read t e h =
      let (n, scanned_all) = scan_rows-quiet rows [] read (record t { calls = t.calls + 1 }) h in
      (n + 1, rw (e, scanned_all) refl)

module _ {R : Type 0} where
  pub AllScan-ok : (rows : List R) → AllScan (λ r. ok r) rows rows
  AllScan-ok [] = tt
  AllScan-ok (r ∷ rows) = (refl, AllScan-ok rows)

module _ {R A : Type 0} (scan : R → Result A) where
  -- Rows in another order scan to the same values in another order.
  pub AllScan-Permᴰ :
      (rs rs' : List R)
      → Permᴰ rs rs'
      → (read : List A) → AllScan scan rs read
      → (read' : List A) × Permᴰ read read' × AllScan scan rs' read'
  AllScan-Permᴰ _ _ Permᴰ.nil [] h = ([], Permᴰ.nil, tt)
  AllScan-Permᴰ _ _ Permᴰ.nil (a ∷ read) h = elim h [ ]
  AllScan-Permᴰ _ _ (Permᴰ.cons e p) [] h = elim h [ ]
  AllScan-Permᴰ _ _ (Permᴰ.cons {l₁ = rs} {l₂ = rs'} e p) (a ∷ read) h =
      let (read', q, k) = AllScan-Permᴰ rs rs' p read h.1 in
      (a ∷ read', Permᴰ.cons refl q, (ap scan (sym e) ∙ h.0, k))
  AllScan-Permᴰ _ _ (Permᴰ.swap e1 e2) [] h = elim h [ ]
  AllScan-Permᴰ _ _ (Permᴰ.swap e1 e2) (a ∷ []) h = elim h.1 [ ]
  AllScan-Permᴰ _ _ (Permᴰ.swap e1 e2) (a ∷ (b ∷ read)) h = (
    b ∷ (a ∷ read),
    Permᴰ.swap refl refl,
    (ap scan (sym e2) ∙ h.1.0, (ap scan (sym e1) ∙ h.0, h.1.1)),
  )
  AllScan-Permᴰ _ _ (Permᴰ.trans {l₁ = rs} {l₂ = ss} {l₃ = ts} p q) read h =
      let (read1, p1, h1) = AllScan-Permᴰ rs ss p read h in
      let (read2, p2, h2) = AllScan-Permᴰ ss ts q read1 h1 in (read2, Permᴰ.trans p1 p2, h2)
