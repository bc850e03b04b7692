-- ===== src/Quark/Upload/Parts/Attempts.antt =====
-- The attempts to send a part.
use pan_client.Base.{
  ℕ, zero, suc, ◌+◌, ◌-◌, ◌<◌, ◌≡◌, refl, sym, subst, ◌∙◌, Bool, true, false, half64, List, ◌∷◌,
  All, Text, codes, ok, err, arith,
}
use pan_client.Errors.{GoError, other}
use pan_client.Drive.Reader.{ProgressReader, next_chunk, reads, reset_chunk}
use pan_client.Drive.Reader.Chunks.{total, Positive}
use pan_client.Drive.Reader.Retry.{reads-chunk_size}
use pan_client.Drive.Reader.Place.{
  IsAt, end_of, end_of-bounds, next_chunk-IsAt, next_chunk-reads-IsAt,
}
use pan_client.Quark.Upload.Parts.{Sent, max_part_retry, retry_wait, retry_part, upload_part}

module _ {S D : Type 0} (P : ℕ → ℕ → S → Type 0) (Failed : GoError D → Type 0) where
  -- What sending part `n` from byte `p` on may do: it reads from the reader and no more; an error is one
  -- that can happen and the part is not sent; without an error the reader was read to the end of its
  -- chunk, and the part is sent.
  abbrev pub Outcome : ℕ → ℕ → ProgressReader → Sent S D Text → Type 0
  Outcome n p pr (err e, (qr, t)) = (ns : List ℕ) × (qr ≡ reads ns pr) × Failed e × P n p t
  Outcome n p pr (ok m, (qr, t)) =
      (k : ℕ) × (ns : List ℕ) × (qr ≡ reads (k ∷ ns) pr)
      × All Positive (k ∷ ns)
      × (total (k ∷ ns) ≡ pr.current_size)
      × P (suc n) (p + pr.current_size) t

  -- A part that begins at `p` and ends at `q`, after all its attempts.
  abbrev pub PartDone : ℕ → ℕ → ℕ → ℕ → ℕ → Sent S D Text → Type 0
  PartDone size chunk n p q (err e, (qr, t)) = Failed e × P n p t
  PartDone size chunk n p q (ok m, (qr, t)) = IsAt size chunk q qr × P (suc n) q t

module _ {S D : Type 0} (seeks : S → Bool) (sleep : ℕ → S → S)
    (send : ℕ → ProgressReader → S → Sent S D Text) (P : ℕ → ℕ → S → Type 0)
    (Failed : GoError D → Type 0) (size chunk : ℕ) (some_bytes : 0 < chunk)
    (small : size + chunk < half64) (waits : (n p ms : ℕ) (s : S) → P n p s → P n p (sleep ms s))
    (stuck : Failed (other (codes "seek failed")))
    (honest : (n p : ℕ) (pr : ProgressReader) (s : S)
      → pr.position ≡ p
      → 0 < pr.current_size
      → P n p s
      → Outcome P Failed n p pr (send n pr s)) where
  IsCut : ProgressReader → Type 0
  IsCut pr = (pr.total_size ≡ size) × (pr.chunk_size ≡ chunk)

  chunk-positive :
      (p : ℕ) (pr : ProgressReader)
      → IsAt size chunk p pr
      → p < size
      → 0 < (next_chunk pr).1.current_size
  chunk-positive p pr at inside = omega (
    arith,
    (next_chunk-IsAt size chunk p pr at (omega arith) small).2,
    (end_of-bounds size chunk p some_bytes inside).0,
  )

  -- An attempt and what follows it if it fails.
  attempt-PartDone :
      (n p : ℕ) (pr : ProgressReader)
      → IsAt size chunk p pr
      → p < size
      → (f : GoError D → ProgressReader × S → Sent S D Text)
      → ((e : GoError D) (qr : ProgressReader) (t : S)
          → Failed e
          → IsCut qr
          → P n p t
          → PartDone P Failed size chunk n p (end_of size chunk p) (f e (qr, t)))
      → (sent : Sent S D Text) → Outcome P Failed n p (next_chunk pr).1 sent
      → PartDone P Failed size chunk n p
          (end_of size chunk p)
          (elim (sent.0) [ ok m ↦ (ok m, sent.1) | err e ↦ f e sent.1 ])
  unfolding IsCut next_chunk
  attempt-PartDone n p pr at inside f again (ok m, (qr, t)) (k, ns, read, pos, whole, sent) =
      let started = next_chunk-IsAt size chunk p pr at (omega arith) small in
      (
        rw read (next_chunk-reads-IsAt size chunk p pr at (omega arith) small k ns pos whole),
        subst (λ q. P (suc n) q t)
            (omega (arith, started.2, (end_of-bounds size chunk p some_bytes inside).0)) sent,
      )
  attempt-PartDone n p pr at inside f again (err e, (qr, t)) (ns, read, failed, kept) =
      let cut = reads-chunk_size ns (next_chunk pr).1 in
      again e qr t failed (rw read (cut.1 ∙ at.2, cut.0 ∙ at.3)) kept

  -- A retry, of which the file can be moved or not, as `retry_part` has it.
  abbrev retry : Bool → ℕ → ℕ → ℕ → ℕ → ProgressReader → S → Sent S D Text
  retry can_seek left attempt n p qr t =
      let reset = reset_chunk can_seek p qr in
      let sent = send n (next_chunk reset.1).1 (sleep (retry_wait attempt) t) in
      elim (reset.0) [
        | false ↦ (err (other (codes "seek failed")), (reset.1, t))
        | true ↦ elim (sent.0) [
          | ok m ↦ (ok m, sent.1)
          | err e ↦ retry_part seeks sleep send left (suc attempt) p e n sent.1
        ]
      ]

  Retries : ℕ → Type 0
  Retries left =
      (attempt n p : ℕ) (e : GoError D) (qr : ProgressReader) (t : S)
      → p < size
      → Failed e
      → IsCut qr
      → P n p t
      → PartDone P Failed size chunk n p (end_of size chunk p)
          (retry_part seeks sleep send left attempt p e n (qr, t))

  retry-PartDone :
      (can_seek : Bool) (left attempt n p : ℕ) (qr : ProgressReader) (t : S)
      → Retries left
      → p < size
      → IsCut qr
      → P n p t
      → PartDone P Failed size chunk n p
          (end_of size chunk p)
          (retry can_seek left attempt n p qr t)
  unfolding IsCut Retries reset_chunk next_chunk
  retry-PartDone false left attempt n p qr t rest inside cut kept = (stuck, kept)
  retry-PartDone true left attempt n p qr t rest inside cut kept =
      let back = (reset_chunk true p qr).1 in
      attempt-PartDone n p back (refl, refl, cut.0, cut.1) inside
        (λ e s. retry_part seeks sleep send left (suc attempt) p e n s)
        (λ e qr' t' failed cut' kept'. rest (suc attempt) n p e qr' t' inside failed cut' kept')
        (send n (next_chunk back).1 (sleep (retry_wait attempt) t))
        (honest n p (next_chunk back).1 (sleep (retry_wait attempt) t) refl
          (chunk-positive p back (refl, refl, cut.0, cut.1) inside)
          (waits n p (retry_wait attempt) t kept))

  retry_part-PartDone : (left : ℕ) → Retries left
  unfolding retry_part Retries
  retry_part-PartDone zero attempt n p e qr t inside failed cut kept = (failed, kept)
  retry_part-PartDone (suc left) attempt n p e qr t inside failed cut kept =
      retry-PartDone (seeks t) left attempt n p qr t (retry_part-PartDone left) inside cut kept

  pub upload_part-PartDone :
      (n p : ℕ) (pr : ProgressReader) (s : S)
      → IsAt size chunk p pr
      → p < size
      → P n p s
      → PartDone P Failed size chunk n p (end_of size chunk p) (upload_part seeks sleep send n pr s)
  unfolding upload_part Retries next_chunk
  upload_part-PartDone n p pr s at inside kept =
      attempt-PartDone n p pr at inside
        (λ e t. retry_part seeks sleep send (max_part_retry - 1) 1 pr.uploaded e n t)
        (λ e qr t failed cut still.
          subst
            (λ q.
              PartDone P Failed size chunk n p (end_of size chunk p)
                (retry_part seeks sleep send (max_part_retry - 1) 1 q e n (qr, t)))
            (sym at.1)
            (retry_part-PartDone (max_part_retry - 1) 1 n p e qr t inside failed cut still))
        (send n (next_chunk pr).1 s)
        (honest n p (next_chunk pr).1 s (at.0) (chunk-positive p pr at inside) kept)
