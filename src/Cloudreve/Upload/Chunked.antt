-- ===== src/Cloudreve/Upload/Chunked.antt =====
-- The loop over the chunks of a file.
use pan_client.Base.{
  ℕ, zero, suc, ◌+◌, ◌-◌, ◌<◌, ◌≤◌, ◌≡◌, refl, ap, ◌∙◌, subst, Bool, true, false, inl, inr,
  Bool-cases, if◌then◌else◌, List, ◌∷◌, All, Text, half64, ok, err, arith, ◌==◌,
}
use pan_client.Errors.{only_msg}
use pan_client.Drive.Reader.{ProgressReader, next_chunk, reads}
use pan_client.Drive.Reader.Chunks.{total, Positive, next_chunk-reads}
use pan_client.Drive.Reader.Place.{
  IsAt, end_of, end_of-bounds, next_chunk-IsAt, next_chunk-reads-IsAt,
}
use pan_client.Cloudreve.{SentChunk}
use pan_client.Cloudreve.Upload.{Uploaded, after_chunk, upload_loop}

module _ {W D : Type 0} (send : ℕ × ℕ → ProgressReader → W → SentChunk W D) where
  -- The request of a chunk that reads its body to the end, with this answer.
  abbrev pub Reads : ℕ → ProgressReader → Bool → Text → ℕ → List ℕ → W → W → Type 0
  Reads size pr bad text n ns w after =
      (send (next_chunk pr).0 (next_chunk pr).1 w ≡ (ok (bad, text), (n ∷ ns, after)))
      × All Positive (n ∷ ns)
      × (total (n ∷ ns) ≡ (next_chunk pr).1.current_size)

  -- A chunk is refused after its body was read: the size that is reported as uploaded counts the chunk all the same.
  pub upload_loop-refused :
      (size chunk p fuel n : ℕ) (ns : List ℕ) (text : Text) (pr : ProgressReader) (w after : W)
      → p ≤ size
      → size + chunk < half64
      → IsAt size chunk p pr
      → Reads size pr true text n ns w after
      → upload_loop send (suc fuel) pr w ≡ ((end_of size chunk p, err (only_msg text)), after)
  unfolding upload_loop after_chunk
  upload_loop-refused size chunk p fuel n ns text pr w after inside small at sent =
      let there = next_chunk-reads-IsAt size chunk p pr at inside small n ns sent.1 sent.2 in
      rw (sent.0, there.1) refl

  -- An accepted chunk, with which the reader is not finished, or is.
  pub after_chunk-next :
      (next : ProgressReader → W → Uploaded W D) (started : ProgressReader) (text : Text)
      (given : List ℕ) (after : W)
      → (reads given started).finish ≡ false
      → after_chunk next started (ok (false, text), (given, after))
        ≡ next (reads given started) after
  unfolding after_chunk
  after_chunk-next next started text given after more =
      ap
        (λ b.
          if b
          then (((reads given started).uploaded, ok tt), after)
          else next (reads given started) after)
        more

  after_chunk-last :
      (next : ProgressReader → W → Uploaded W D) (started : ProgressReader) (text : Text)
      (given : List ℕ) (after : W)
      → (reads given started).finish ≡ true
      → after_chunk next started (ok (false, text), (given, after))
        ≡ (((reads given started).uploaded, ok tt), after)
  unfolding after_chunk
  after_chunk-last next started text given after last =
      ap
        (λ b.
          if b
          then (((reads given started).uploaded, ok tt), after)
          else next (reads given started) after)
        last

  module _ (P : ℕ → W → Type 0) (size chunk : ℕ) where
    -- A chunk that begins at a place is read and accepted, which takes `P` from this place to where the chunk ends.
    abbrev pub Accepted : ℕ → ProgressReader → W → Type 0
    Accepted p pr w =
        (n : ℕ) × (ns : List ℕ) × (text : Text) × (after : W) × Reads size pr false text n ns w
          after
        × P (end_of size chunk p) after

    -- From a place inside the file, with a server that accepts every chunk there and with as many rounds as bytes are left,
    -- the loop ends without an error, says that the whole file is uploaded, and has taken `P` from the place to the end.
    pub upload_loop_lem :
        (fuel p : ℕ) (pr : ProgressReader) (w : W)
        → 0 < chunk
        → size + chunk < half64
        → ((p : ℕ) (pr : ProgressReader) (w : W)
            → p < size
            → IsAt size chunk p pr
            → P p w
            → Accepted p pr w)
        → p < size
        → size - p ≤ fuel
        → IsAt size chunk p pr
        → pr.finish ≡ false
        → P p w
        → (v : W) × (upload_loop send fuel pr w ≡ ((size, ok tt), v)) × P size v
    unfolding upload_loop
    upload_loop_lem zero p pr w pos small accepts inside enough at going here = absurd (omega arith)
    upload_loop_lem (suc fuel) p pr w pos small accepts inside enough at going here =
        let (n, ns, text, after, sent, there) = accepts p pr w inside at here in
        let next =
          next_chunk-reads-IsAt size chunk p pr at (omega arith) small n ns sent.1 sent.2 in
        let cut = next_chunk-IsAt size chunk p pr at (omega arith) small in
        let bounds = end_of-bounds size chunk p pos inside in
        let done = reads (n ∷ ns) (next_chunk pr).1 in
        let whole : total (n ∷ ns) ≡ (next_chunk pr).0.1 - (next_chunk pr).0.0 =
          sent.2 ∙ cut.2 ∙ rw (cut.0, cut.1) refl in
        let ended : done.finish ≡ (end_of size chunk p == size) =
          (next_chunk-reads n ns pr (omega (arith, at.1, at.2, inside), omega (arith, at.2, at.3))
            going sent.1 whole).1
          ∙ rw (cut.1, at.2) refl in
        elim (Bool-cases (end_of size chunk p == size)) [
          | inl last ↦
              let all : end_of size chunk p ≡ size = ground (arith, last) in
              (
                after,
                ap (after_chunk (upload_loop send fuel) (next_chunk pr).1) sent.0
                    ∙ after_chunk-last (upload_loop send fuel) (next_chunk pr).1 text (n ∷ ns) after
                        (ended ∙ last)
                    ∙ ap (λ q. ((q, ok tt), after)) (next.1 ∙ all),
                subst (λ q. P q after) all there,
              )
          | inr more ↦
              let left : end_of size chunk p < size = ground (arith, more, bounds) in
              let rest =
                upload_loop_lem fuel (end_of size chunk p) done after pos small accepts left
                  (omega (arith, bounds, enough)) next (ended ∙ more) there in
              (
                rest.0,
                ap (after_chunk (upload_loop send fuel) (next_chunk pr).1) sent.0
                    ∙ after_chunk-next (upload_loop send fuel) (next_chunk pr).1 text (n ∷ ns) after
                        (ended ∙ more)
                    ∙ rest.1,
                rest.2,
              )
        ]
