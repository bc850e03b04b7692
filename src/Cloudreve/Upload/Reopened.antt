-- ===== src/Cloudreve/Upload/Reopened.antt =====
-- The upload of a file that is opened at the place to which an earlier attempt came.
use pan_client.Base.{
  ℕ, zero, suc, ◌+◌, ◌-◌, ◌<◌, ◌≤◌, ◌≡◌, refl, ap, ◌∙◌, false, ◌==◌, [], Text, half64, lt64_small,
  lt→ltb, ok, err, arith,
}
use pan_client.Drive.Reader.{FileStat, ProgressReader, next_chunk, reads, new_process_reader}
use pan_client.Drive.Reader.Place.{IsAt}
use pan_client.Cloudreve.{SentChunk, Server}
use pan_client.Cloudreve.Upload.{
  after_chunk, send_ranged, send_numbered, upload_loop, one_drive_upload, not_know_upload,
}
use pan_client.Cloudreve.Replies.{no_return}
use pan_client.Cloudreve.Upload.Chunked.{Accepted, after_chunk-next, upload_loop_lem}

-- A reader at a place of a file, as it is opened.
abbrev pub reopened : ℕ → ℕ → ℕ → ProgressReader
reopened chunk before size = record {
  position = before;
  limit = 0;
  uploaded = before;
  chunk_size = chunk;
  total_size = size;
  current_size = 0;
  current_uploaded = 0;
  finish = false;
  events = [];
}

-- The offset of the file is moved unless the upload begins.
new_process_reader-reopened :
    {D : Type 0} (local_file : Text) (chunk before : ℕ) (stat : FileStat) (seek : ℕ → ℕ)
    → stat.is_dir ≡ false
    → before < half64
    → seek before ≡ before
    → new_process_reader {D = D} local_file chunk before (ok stat) seek
      ≡ ok (reopened chunk before stat.size)
unfolding new_process_reader
new_process_reader-reopened local_file chunk zero stat seek file small moved =
    let begun = lt64_small 0 0 (omega arith) (omega arith) in rw (file, begun) refl
new_process_reader-reopened local_file chunk (suc n) stat seek file small moved =
    let begun = lt64_small 0 (suc n) (omega arith) small ∙ lt→ltb 0 (suc n) (omega arith) in
    let there : (suc n == 0) ≡ false = ground arith in rw (file, begun, moved, there) refl

-- The upload of a file from a place inside it, where its offset can be moved to, by chunks that are not empty and sizes that
-- an int64 holds, to a server that accepts every chunk, with as many rounds as bytes are left: it ends without an error,
-- says that the whole file is uploaded, and takes `P`, which each chunk takes from its begin to its end, from the place to the
-- end of the file.
pub one_drive_upload_lem :
    {W D : Type 0} (server : Server W D) (P : ℕ → W → Type 0) (fuel : ℕ) (url local_file : Text)
    (before chunk : ℕ) (stat : FileStat) (seek : ℕ → ℕ) (w : W)
    → 0 < chunk
    → stat.size + chunk < half64
    → stat.is_dir ≡ false
    → seek before ≡ before
    → before < stat.size
    → stat.size - before ≤ fuel
    → ((p : ℕ) (pr : ProgressReader) (w : W)
        → p < stat.size
        → IsAt stat.size chunk p pr
        → P p w
        → Accepted (send_ranged server url stat.size) P stat.size chunk p pr w)
    → P before w
    → (v : W) × (one_drive_upload server fuel url local_file before chunk (ok stat, seek) w
        ≡ ((stat.size, ok tt), v))
      × P stat.size v
unfolding one_drive_upload
one_drive_upload_lem {D = D} server P fuel url local_file before chunk stat seek w pos small file
      moved inside enough accepts here =
    let some_bytes : (chunk == 0) ≡ false = ground arith in
    let opened =
      new_process_reader-reopened {D = D} local_file chunk before stat seek file (omega arith)
        moved in
    let run =
      upload_loop_lem (send_ranged server url stat.size) P stat.size chunk fuel before
        (reopened chunk before stat.size) w pos small accepts inside enough (refl, refl, refl, refl)
        refl here in
    (run.0, rw (some_bytes, opened) run.1, run.2)

-- An upload to a server that gets the number of each chunk instead.
not_know_upload_lem :
    {W D : Type 0} (server : Server W D) (P : ℕ → W → Type 0) (fuel : ℕ)
    (url credential local_file : Text) (before chunk : ℕ) (stat : FileStat) (seek : ℕ → ℕ) (w : W)
    → 0 < chunk
    → stat.size + chunk < half64
    → stat.is_dir ≡ false
    → seek before ≡ before
    → before < stat.size
    → stat.size - before ≤ fuel
    → ((p : ℕ) (pr : ProgressReader) (w : W)
        → p < stat.size
        → IsAt stat.size chunk p pr
        → P p w
        → Accepted (send_numbered server url credential chunk) P stat.size chunk p pr w)
    → P before w
    → (v : W) × (not_know_upload server fuel url credential local_file before chunk
          (ok stat, seek)
          w
        ≡ ((stat.size, ok tt), v))
      × P stat.size v
unfolding not_know_upload
not_know_upload_lem {D = D} server P fuel url credential local_file before chunk stat seek w pos
      small file moved inside enough accepts here =
    let some_bytes : (chunk == 0) ≡ false = ground arith in
    let opened =
      new_process_reader-reopened {D = D} local_file chunk before stat seek file (omega arith)
        moved in
    let run =
      upload_loop_lem (send_numbered server url credential chunk) P stat.size chunk fuel before
        (reopened chunk before stat.size) w pos small accepts inside enough (refl, refl, refl, refl)
        refl here in
    (run.0, rw (some_bytes, opened) run.1, run.2)

-- An empty file has no byte that would finish the reader: with a server that accepts its chunks, of which nothing can be read,
-- the loop goes on for any number of rounds.
upload_loop-empty :
    {W D : Type 0} (send : ℕ × ℕ → ProgressReader → W → SentChunk W D) (fuel : ℕ)
    (pr : ProgressReader) (w : W)
    → ((bounds : ℕ × ℕ) (pr : ProgressReader) (w : W)
        → pr.total_size ≡ 0
        → (text : Text) × (v : W) × (send bounds pr w ≡ (ok (false, text), ([], v))))
    → pr.total_size ≡ 0
    → pr.finish ≡ false
    → (upload_loop send fuel pr w).0.1 ≡ err no_return
unfolding upload_loop next_chunk reads
upload_loop-empty send zero pr w accepts empty going = refl
upload_loop-empty send (suc fuel) pr w accepts empty going =
    let next = (next_chunk pr).1 in
    let (text, v, sent) = accepts (next_chunk pr).0 next w empty in
    ap (λ x. (after_chunk (upload_loop send fuel) next x).0.1) sent
    ∙ ap (λ x. x.0.1) (after_chunk-next send (upload_loop send fuel) next text [] v going)
    ∙ upload_loop-empty send fuel next v accepts empty going
