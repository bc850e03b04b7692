-- ===== src/Quark/Upload/Parts.antt =====
-- pan/driver/quark/driver.go: the loop of `UploadFile` over the parts of the file, with the retries of a
-- part. `send` is `FileUpPart` for a part number and a reader, `sleep` the wait in milliseconds.
pub mod Attempts
pub mod Whole
use pan_client.Base.{
  ℕ, zero, suc, ◌+◌, ◌-◌, ◌*◌, ◌^◌, Bool, true, false, ltb, lt64, add64, sub64, if◌then◌else◌, List,
  [], ◌∷◌, ◌++◌, Text, codes, text_eq, Result, ok, err,
}
use pan_client.Errors.{GoError, other}
use pan_client.Drive.Reader.{ProgressReader, next_chunk, reset_chunk}
use pan_client.Quark.Replies.{no_return}

abbrev pub Sent : Type 0 → Type 0 → Type 0 → Type 0
Sent S D A = Result (GoError D) A × (ProgressReader × S)

-- How the loop ends: the server says that the file is whole, or every part has its tag.
pub data Tags : Type 0 where
  finish : Tags
  tags : List Text → Tags

abbrev pub max_part_retry : ℕ
max_part_retry = 10

-- `1<<(attempt-1)` seconds, 30 at most.
unfoldable pub retry_wait : ℕ → ℕ
retry_wait attempt = let wait = 1000 * 2 ^ (attempt - 1) in if ltb 30000 wait then 30000 else wait

module _ {S D : Type 0} (seeks : S → Bool) (sleep : ℕ → S → S)
    (send : ℕ → ProgressReader → S → Sent S D Text) where
  -- The text of the system's error of a seek stands for all of them.
  -- The attempts behind the first: `left` of them, of which the next has the given number.
  unfoldable pub retry_part : ℕ → ℕ → ℕ → GoError D → ℕ → ProgressReader × S → Sent S D Text
  retry_part zero attempt saved last_err part_number (pr, s) = (err last_err, (pr, s))
  retry_part (suc left) attempt saved last_err part_number (pr, s) =
      let reset = reset_chunk (seeks s) saved pr in
      let sent = send part_number (next_chunk reset.1).1 (sleep (retry_wait attempt) s) in
      elim (reset.0) [
        | false ↦ (err (other (codes "seek failed")), (reset.1, s))
        | true ↦ elim (sent.0) [
          | ok m ↦ (ok m, sent.1)
          | err e ↦ retry_part left (suc attempt) saved e part_number sent.1
        ]
      ]

  -- A part: the first attempt and its retries.
  unfoldable pub upload_part : ℕ → ProgressReader → S → Sent S D Text
  unfolding retry_part
  upload_part part_number pr s =
      let sent = send part_number (next_chunk pr).1 s in
      elim (sent.0) [
        | ok m ↦ (ok m, sent.1)
        | err e ↦ retry_part (max_part_retry - 1) 1 pr.uploaded e part_number sent.1
      ]

  -- The loop `for left > 0`, on fuel.
  unfoldable pub upload_parts : ℕ → ℕ → ℕ → List Text → ProgressReader → S → Sent S D Tags
  unfolding upload_part
  upload_parts zero left part_number md5s pr s = (err no_return, (pr, s))
  upload_parts (suc fuel) left part_number md5s pr s =
      let bounds = (next_chunk pr).0 in
      let sent = upload_part part_number pr s in
      elim (lt64 0 left) [
        | false ↦ (ok (tags md5s), (pr, s))
        | true ↦ elim (sent.0) [
          | err e ↦ (err e, sent.1)
          | ok m ↦ elim (text_eq m (codes "finish")) [
            | true ↦ (ok finish, sent.1)
            | false ↦
                upload_parts fuel (sub64 left (sub64 (bounds.1) (bounds.0))) (add64 part_number 1)
                  (md5s ++ m ∷ []) (sent.1.0) (sent.1.1)
          ]
        ]
      ]
