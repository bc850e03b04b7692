-- ===== src/Quark/Upload/Parts/Whole.antt =====
-- The loop over the parts sends the whole file, and ends.
use pan_client.Base.{
  ℕ, zero, suc, ◌+◌, ◌-◌, ◌≤◌, ◌<◌, ◌≡◌, refl, sym, subst, ◌∙◌, inl, inr, Bool, true, false, ltb,
  lt64_small, add64, add64_small, sub64, sub64_small, half64, List, [], ◌∷◌, ◌++◌, Text, codes,
  text_eq, length, length-append, ok, err, Bool-cases, ltb→lt, ltb→le, arith,
}
use pan_client.Errors.{GoError, other}
use pan_client.Drive.Reader.{ProgressReader, next_chunk}
use pan_client.Drive.Reader.Place.{IsAt, end_of, end_of-bounds, next_chunk-IsAt}
use pan_client.Quark.Upload.Parts.{Sent, Tags, finish, tags, upload_part, upload_parts}
use pan_client.Quark.Upload.Parts.Attempts.{Outcome, PartDone, upload_part-PartDone}

module _ {S D : Type 0} (P : ℕ → ℕ → S → Type 0) (Failed : GoError D → Type 0) where
  -- The loop ends with an error that can happen, or since the server says so, behind some part; or with
  -- one tag for each part, and the parts are the whole file.
  abbrev pub Uploaded : ℕ → Sent S D Tags → Type 0
  Uploaded size (err e, (qr, t)) = (n p : ℕ) × Failed e × P n p t × (p ≤ size)
  Uploaded size (ok finish, (qr, t)) = (n p : ℕ) × P n p t × (p ≤ size)
  Uploaded size (ok (tags md5s), (qr, t)) = P (suc (length md5s)) size t

module _ {S D : Type 0} (seeks : S → Bool) (sleep : ℕ → S → S)
    (send : ℕ → ProgressReader → S → Sent S D Text) (P : ℕ → ℕ → S → Type 0)
    (Failed : GoError D → Type 0) (size chunk : ℕ) (some_bytes : 0 < chunk)
    (small : size + chunk < half64) (waits : (n p ms : ℕ) (s : S) → P n p s → P n p (sleep ms s))
    (stuck : Failed (other (codes "seek failed")))
    (honest : (n p : ℕ) (pr : ProgressReader) (s : S)
      → pr.position ≡ p
      → 0 < pr.current_size
      → P n p s
      → Outcome P Failed n p pr (send n pr s)) where
  -- What follows a part, as `upload_parts` has it.
  abbrev after_part : (Text → ProgressReader × S → Sent S D Tags) → Sent S D Text → Sent S D Tags
  after_part go sent = elim (sent.0) [
    | err e ↦ (err e, sent.1)
    | ok m ↦ elim (text_eq m (codes "finish")) [ true ↦ (ok finish, sent.1) | false ↦ go m sent.1 ]
  ]

  after_part-Uploaded :
      (n p q : ℕ) (go : Text → ProgressReader × S → Sent S D Tags) (sent : Sent S D Text)
      → p ≤ size
      → q ≤ size
      → PartDone P Failed size chunk n p q sent
      → ((m : Text) (qr : ProgressReader) (t : S)
          → IsAt size chunk q qr
          → P (suc n) q t
          → Uploaded P Failed size (go m (qr, t)))
      → Uploaded P Failed size (after_part go sent)
  after_part-Uploaded n p q go (err e, (qr, t)) began ends (failed, kept) rest =
      (n, p, failed, kept, began)
  after_part-Uploaded n p q go (ok m, (qr, t)) began ends (at, sent) rest =
      let Told : Bool → Type 0 = λ b.
        Uploaded P Failed size (elim b [ true ↦ (ok finish, (qr, t)) | false ↦ go m (qr, t) ]) in
      elim (Bool-cases (text_eq m (codes "finish"))) [
        | inl whole ↦ subst Told (sym whole) (suc n, q, sent, ends)
        | inr more ↦ subst Told (sym more) (rest m qr t at sent)
      ]

  -- A round of the loop.
  abbrev round : Bool → ℕ → ℕ → List Text → ProgressReader → S → Sent S D Tags
  round more fuel left md5s pr s =
      let bounds = (next_chunk pr).0 in
      elim more [
        | false ↦ (ok (tags md5s), (pr, s))
        | true ↦
            after_part
              (λ m t.
                upload_parts seeks sleep send fuel (sub64 left (sub64 (bounds.1) (bounds.0)))
                  (add64 (suc (length md5s)) 1) (md5s ++ m ∷ []) (t.0) (t.1))
              (upload_part seeks sleep send (suc (length md5s)) pr s)
      ]

  -- What is left behind a part.
  rest-left :
      (left p : ℕ) (pr : ProgressReader)
      → IsAt size chunk p pr
      → p < size
      → left ≡ size - p
      → sub64 left (sub64 (next_chunk pr).0.1 (next_chunk pr).0.0) ≡ size - end_of size chunk p
  rest-left left p pr at more rem =
      let bounds = end_of-bounds size chunk p some_bytes more in
      let cut = next_chunk-IsAt size chunk p pr at (omega arith) small in
      let part =
        sub64_small (end_of size chunk p) p (omega (arith, bounds)) (omega (arith, bounds)) in
      let behind =
        sub64_small left (end_of size chunk p - p) (omega (arith, bounds))
          (omega (arith, bounds)) in
      rw (cut.0, cut.1) (rw part (omega (arith, bounds, behind)))

  parts_from :
      (fuel left p : ℕ) (md5s : List Text) (pr : ProgressReader) (s : S)
      → left ≡ size - p
      → p ≤ size
      → left < fuel
      → length md5s ≤ p
      → IsAt size chunk p pr
      → P (suc (length md5s)) p s
      → Uploaded P Failed size
          (upload_parts seeks sleep send fuel left (suc (length md5s)) md5s pr s)
  unfolding upload_parts
  parts_from zero left p md5s pr s rem inside enough few at kept = absurd (omega (arith, enough))
  parts_from (suc fuel) left p md5s pr s rem inside enough few at kept =
      let open_end = lt64_small 0 left (omega arith) (omega arith) in
      elim (Bool-cases (ltb 0 left)) [
        | inr none_left ↦
            let all : p ≡ size = omega (arith, ltb→le 0 left none_left) in
            let shut = sym (open_end ∙ none_left) in
            subst (λ b. Uploaded P Failed size (round b fuel left md5s pr s)) shut
              (subst (λ q. P (suc (length md5s)) q s) all kept)
        | inl some_left ↦
            let more : p < size = omega (arith, ltb→lt 0 left some_left) in
            let bounds = end_of-bounds size chunk p some_bytes more in
            let step = rest-left left p pr at more rem in
            let shut = sym (open_end ∙ some_left) in
            subst (λ b. Uploaded P Failed size (round b fuel left md5s pr s)) shut
              (after_part-Uploaded (suc (length md5s)) p (end_of size chunk p)
                (λ m t.
                  upload_parts seeks sleep send fuel
                    (sub64 left (sub64 (next_chunk pr).0.1 (next_chunk pr).0.0))
                    (add64 (suc (length md5s)) 1) (md5s ++ m ∷ []) (t.0) (t.1))
                (upload_part seeks sleep send (suc (length md5s)) pr s) inside (bounds.1)
                (upload_part-PartDone seeks sleep send P Failed size chunk some_bytes small waits
                  stuck honest (suc (length md5s)) p pr s at more kept)
                (λ m qr t there sent.
                  let one_more : length (md5s ++ m ∷ []) ≡ suc (length md5s) =
                    length-append md5s (m ∷ []) ∙ omega arith in
                  let next : add64 (suc (length md5s)) 1 ≡ suc (length (md5s ++ m ∷ [])) =
                    add64_small (suc (length md5s)) 1 (omega arith) ∙ omega (arith, one_more) in
                  rw (next, step)
                    (parts_from fuel (size - end_of size chunk p) (end_of size chunk p)
                      (md5s ++ m ∷ []) qr t refl (bounds.1) (omega (arith, bounds))
                      (omega (arith, one_more, bounds)) there
                      (subst (λ k. P (suc k) (end_of size chunk p) t) (sym one_more) sent))))
      ]

  -- The loop over the parts of a file, with more rounds than the file has bytes, ends; for chunks that are
  -- not empty and sizes that an int64 holds. Where its requests read from the reader they are given, to
  -- the end of the chunk if they succeed, it ends with an error of a request or of a seek; or since the
  -- server says that the file is whole; or with one tag for each part, of which each began where the one
  -- before it ended, and the last ended with the file.
  pub upload_parts_lem :
      (fuel : ℕ) (pr : ProgressReader) (s : S)
      → IsAt size chunk 0 pr
      → P 1 0 s
      → size < fuel
      → Uploaded P Failed size (upload_parts seeks sleep send fuel size 1 [] pr s)
  upload_parts_lem fuel pr s at start enough =
      parts_from fuel size 0 [] pr s (omega arith) (omega arith) enough (omega arith) at start
