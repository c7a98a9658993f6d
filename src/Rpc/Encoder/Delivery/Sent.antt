-- ===== src/Rpc/Encoder/Delivery/Sent.antt =====
-- Streams and requests in any order: the lemmas on what is written for a device's streams
-- (pkg/pipeline/pipeline.go) whose rows a SELECT answers in some order (pkg/postgres/postgres.go).
use iotencoder.Common.{
  ◌≡◌, ◌≢◌, sym, text_eq, refl, ap, ◌∙◌, subst, Text, false, List, [], ◌∷◌, ◌++◌, length, arith,
}
use mathlib.Core.List.{Permᴰ, Memᴰ}
use iotencoder.Postgres.Types.{DeviceRow, Stream, Operation, bin}
use iotencoder.Pipeline.Operations.Succeeding.{NoBin}
use iotencoder.Pipeline.Processor.{WriteRequest}
use iotencoder.Pipeline.Processor.Requests.{Served}
use iotencoder.Pipeline.Processor.Serving.{BinsLast}
use iotencoder.Rpc.Requests.{RequestOperation, bin_code}
use iotencoder.Rpc.Requests.Translation.{AllTranslate, Translates, sharing, binning, averaging}

-- One of the requests is for a stream.
abbrev pub SentFor : Text → Text → List WriteRequest → Type 0
SentFor community token sent =
    (q : WriteRequest) × Memᴰ q sent × (q.community_id ≡ community) × (q.device_token ≡ token)

module _ {F : Type 0} where
  -- No stream puts a sensor in bins.
  abbrev pub NoneBin : List (Stream F) → Type 0
  NoneBin [] = Unit {0}
  NoneBin (s ∷ ss) = NoBin s.operations × NoneBin ss

  pub NoneBin-BinsLast : (ss : List (Stream F)) → NoneBin ss → BinsLast ss
  NoneBin-BinsLast [] h = tt
  NoneBin-BinsLast (x ∷ []) h = tt
  NoneBin-BinsLast (x ∷ (y ∷ ss)) h = (h.0, NoneBin-BinsLast (y ∷ ss) h.1)

  pub NoneBin-append :
      (ss : List (Stream F)) (s : Stream F)
      → NoneBin ss
      → NoBin s.operations
      → NoneBin (ss ++ (s ∷ []))
  NoneBin-append [] s h n = (n, tt)
  NoneBin-append (x ∷ ss) s h n = (h.0, NoneBin-append ss s h.1 n)

  pub NoneBin-Permᴰ : (ss ts : List (Stream F)) → Permᴰ ss ts → NoneBin ss → NoneBin ts
  NoneBin-Permᴰ _ _ Permᴰ.nil h = tt
  NoneBin-Permᴰ _ _ (Permᴰ.cons {l₁ = ss} {l₂ = ts} e p) h =
      (subst (λ (s : Stream F). NoBin s.operations) e h.0, NoneBin-Permᴰ ss ts p h.1)
  NoneBin-Permᴰ _ _ (Permᴰ.swap e1 e2) h = (
    subst (λ (s : Stream F). NoBin s.operations) e2 h.1.0,
    (subst (λ (s : Stream F). NoBin s.operations) e1 h.0, h.1.1),
  )
  NoneBin-Permᴰ _ _ (Permᴰ.trans {l₁ = ss} {l₂ = ts} {l₃ = us} p q) h =
      NoneBin-Permᴰ ts us q (NoneBin-Permᴰ ss ts p h)

  -- No operation of a request puts its sensor in bins.
  abbrev pub Unbinned : List (RequestOperation F) → Type 0
  Unbinned [] = Unit {0}
  Unbinned (op ∷ ops) = (op.action ≢ bin_code) × Unbinned ops

  Translates-NoBin :
      (op : RequestOperation F) (o : Operation F)
      → Translates op o
      → op.action ≢ bin_code
      → text_eq o.action bin ≡ false
  unfolding text_eq
  Translates-NoBin op _ (sharing nz e) n = refl
  Translates-NoBin op _ (binning nz e some_bins) n = absurd (n e)
  Translates-NoBin op _ (averaging nz e some_interval) n = refl

  pub AllTranslate-NoBin :
      (ops : List (RequestOperation F)) (os : List (Operation F))
      → AllTranslate ops os
      → Unbinned ops
      → NoBin os
  AllTranslate-NoBin [] [] h n = tt
  AllTranslate-NoBin [] (o ∷ os) h n = elim h [ ]
  AllTranslate-NoBin (op ∷ ops) [] h n = elim h [ ]
  AllTranslate-NoBin (op ∷ ops) (o ∷ os) h n =
      (Translates-NoBin op o h.0 n.0, AllTranslate-NoBin ops os h.1 n.1)

  -- When there are as many requests as streams, there is one for each.
  pub Served-SentFor :
      (row : DeviceRow F) (ss : List (Stream F)) (sent : List WriteRequest) (s : Stream F)
      → Served row ss sent
      → length sent ≡ length ss
      → Memᴰ s ss
      → SentFor s.community_id row.device_token sent
  Served-SentFor row _ [] s h l (Memᴰ.head e) = ground (arith, l)
  Served-SentFor row _ (q ∷ sent) s h l (Memᴰ.head e) =
      (q, Memᴰ.head refl, h.0 ∙ ap (λ (x : Stream F). x.community_id) (sym e), h.1)
  Served-SentFor row _ [] s h l (Memᴰ.tail m) = ground (arith, l)
  Served-SentFor row (x ∷ ss) (q ∷ sent) s h l (Memᴰ.tail m) =
      let (r, n, c, d) = Served-SentFor row ss sent s h.2 (omega (arith, l)) m in
      (r, Memᴰ.tail n, c, d)

pub length-Permᴰ : {A : Type 0} (xs ys : List A) → Permᴰ xs ys → length xs ≡ length ys
length-Permᴰ _ _ Permᴰ.nil = refl
length-Permᴰ _ _ (Permᴰ.cons {l₁ = xs} {l₂ = ys} e p) = omega (arith, length-Permᴰ xs ys p)
length-Permᴰ _ _ (Permᴰ.swap e1 e2) = refl
length-Permᴰ _ _ (Permᴰ.trans {l₁ = xs} {l₂ = ys} {l₃ = zs} p q) =
    length-Permᴰ xs ys p ∙ length-Permᴰ ys zs q

-- What is in a list is in the list in another order.
pub Memᴰ-Permᴰ : {A : Type 0} (a : A) (xs ys : List A) → Permᴰ xs ys → Memᴰ a xs → Memᴰ a ys
Memᴰ-Permᴰ a _ _ Permᴰ.nil m = elim m [ ]
Memᴰ-Permᴰ a _ _ (Permᴰ.cons e p) (Memᴰ.head h) = Memᴰ.head (h ∙ e)
Memᴰ-Permᴰ a _ _ (Permᴰ.cons {l₁ = xs} {l₂ = ys} e p) (Memᴰ.tail m) =
    Memᴰ.tail (Memᴰ-Permᴰ a xs ys p m)
Memᴰ-Permᴰ a _ _ (Permᴰ.swap e1 e2) (Memᴰ.head h) = Memᴰ.tail (Memᴰ.head (h ∙ e1))
Memᴰ-Permᴰ a _ _ (Permᴰ.swap e1 e2) (Memᴰ.tail (Memᴰ.head h)) = Memᴰ.head (h ∙ e2)
Memᴰ-Permᴰ a _ _ (Permᴰ.swap e1 e2) (Memᴰ.tail (Memᴰ.tail m)) = Memᴰ.tail (Memᴰ.tail m)
Memᴰ-Permᴰ a _ _ (Permᴰ.trans {l₁ = xs} {l₂ = ys} {l₃ = zs} p q) m =
    Memᴰ-Permᴰ a ys zs q (Memᴰ-Permᴰ a xs ys p m)
