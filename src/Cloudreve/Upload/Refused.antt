-- ===== src/Cloudreve/Upload/Refused.antt =====
-- A chunk that the server refuses, and where the next attempt begins.
use pan_client.Base.{
  ℕ, suc, ◌+◌, ◌<◌, ◌≡◌, refl, ap, ◌∙◌, Bool, true, false, ltb, if◌then◌else◌, none, some, List,
  Text, half64, Result, ok, err, arith,
}
use pan_client.Errors.{GoError, only_msg}
use pan_client.Cache.{Cache, GroupDo}
use pan_client.Cache.View.{view}
use pan_client.Cache.Loading.{get-hit, get-miss}
use pan_client.Local.{Files}
use pan_client.Drive.{◌>>◌, bind-ok, fail}
use pan_client.Drive.Reader.{ProgressReader}
use pan_client.Drive.Reader.Place.{IsAt, end_of, end_of-bounds}
use pan_client.Cloudreve.{UploadCredential, Value, uploaded, err_times, SentChunk, Server, State}
use pan_client.Cloudreve.Upload.{
  Uploaded, chunk_key, session_err_key, upload_err_after, upload_loop, uploaded_before, run_upload,
}
use pan_client.Cloudreve.Upload.Chunked.{Reads, upload_loop-refused}
use pan_client.Cloudreve.Upload.Sessions.{upload_err_after_lem}

module _ {W D : Type 0} (server : Server W D) (files : Files W D)
    (group_do : GroupDo Value W (GoError D)) (fuel : ℕ) where
  uploaded_before-view :
      (gone : Bool) (key : Text) (n : ℕ) (s : State W)
      → view (server.clock s.1) s.0 (chunk_key key) ≡ (if gone then none else some (uploaded n))
      → (uploaded_before server files group_do fuel key s).0 ≡ ok (if gone then 0 else n)
  unfolding uploaded_before
  uploaded_before-view true key n (c, w) seen =
      rw (get-miss (server.clock w) (chunk_key key) c seen, uploaded_before) refl
  uploaded_before-view false key n (c, w) seen =
      rw (get-hit (server.clock w) (chunk_key key) c (uploaded n) seen, uploaded_before) refl

  -- What follows the loop over the chunks, as `run_upload` has it.
  abbrev after_loop :
      Text → UploadCredential → Cache Value → Uploaded W D → Result (GoError D) ℕ × State W
  after_loop key cred c r = elim r.0.1 [
    | ok u ↦ (ok r.0.0, (c, r.1))
    | err e ↦ (upload_err_after server files group_do fuel key r.0.0 cred >> fail e) (c, r.1)
  ]

  run_upload-err :
      (key : Text) (cred : UploadCredential) (go : W → Uploaded W D) (c : Cache Value) (w after : W)
      (size : ℕ) (e : GoError D)
      → go w ≡ ((size, err e), after)
      → (upload_err_after server files group_do fuel key size cred (c, after)).0 ≡ ok tt
      → run_upload server files group_do fuel key cred go (c, w)
        ≡ (err e, (upload_err_after server files group_do fuel key size cred (c, after)).1)
  unfolding run_upload
  run_upload-err key cred go c w after size e fails counted =
      ap (after_loop key cred c) fails
      ∙ bind-ok (λ u. fail e) (upload_err_after server files group_do fuel key size cred (c, after))
          tt counted

  -- A chunk that begins inside the file and is refused after its body was read, of a file that failed
  -- `i` times before, as the count in the cache says: the loop over the chunks ends with the text of the
  -- answer as its error; and what the driver then knows of the file, which is where the next attempt
  -- begins if it is resumed, is the end of the refused chunk, so that the bytes which the server refused
  -- are left out, or nothing after more than three failures.
  pub run_upload-refused :
      (send : ℕ × ℕ → ProgressReader → W → SentChunk W D) (key : Text) (cred : UploadCredential)
      (size chunk p rounds n i : ℕ) (ns : List ℕ) (text : Text) (pr : ProgressReader)
      (c : Cache Value) (w after : W)
      → 0 < chunk
      → p < size
      → size + chunk < half64
      → IsAt size chunk p pr
      → Reads send size pr true text n ns w after
      → view (server.clock after) c (session_err_key key) ≡ some (err_times i)
      → let r =
          run_upload server files group_do fuel key cred
            (upload_loop send (suc rounds) pr)
            (c, w) in
        (r.0 ≡ err (only_msg text))
        × ((uploaded_before server files group_do fuel key r.1).0
            ≡ ok (if ltb 3 i then 0 else end_of size chunk p))
        × (p < end_of size chunk p)
  run_upload-refused send key cred size chunk p rounds n i ns text pr c w after pos inside small at
        sent failed =
      let size' = end_of size chunk p in
      let kept = upload_err_after_lem server files group_do fuel key size' i cred c after failed in
      let run =
        run_upload-err key cred (upload_loop send (suc rounds) pr) c w after size' (only_msg text)
          (upload_loop-refused send size chunk p rounds n ns text pr w after (omega arith) small at
            sent)
          kept.0 in
      (
        ap (λ r. r.0) run,
        ap (λ r. (uploaded_before server files group_do fuel key r.1).0) run
            ∙ uploaded_before-view (ltb 3 i) key size'
                (upload_err_after server files group_do fuel key size' cred (c, after)).1 (kept.3),
        (end_of-bounds size chunk p pos inside).0,
      )
