-- ===== src/Quark/Upload/Requests.antt =====
-- pan/driver/quark/methods.go: the requests of an upload. The texts of the requests are as the source
-- formats them; the time, the hash and the encodings are the standard library's.
use pan_client.Base.{
  ℕ, suc, ◌==◌, Bool, not, if◌then◌else◌, List, [], ◌∷◌, ◌++◌, Text, codes, drop, Result, ok, err,
}
use pan_client.Errors.{GoError, other}
use pan_client.Download.Names.{format_int}
use pan_client.Drive.{Call, ◌>>=◌}
use pan_client.Drive.Reader.{ProgressReader, reads}
use pan_client.Http.{Reply, ask}
use pan_client.Quark.{State}
use pan_client.Quark.Replies.{return_upload}

pub record FileUpPreReq : Type 0 where
  pub parent_id : Text
  pub file_name : Text
  pub file_size : ℕ
  pub mime_type : Text

-- `FileUpPre`, with `PartSize` of its metadata and the callback as the JSON that is sent back.
pub record FileUpPre : Type 0 where
  pub task_id : Text
  pub upload_id : Text
  pub obj_key : Text
  pub upload_url : Text
  pub fid : Text
  pub bucket : Text
  pub auth_info : Text
  pub callback : Text
  pub part_size : ℕ

pub record FileUpHashReq : Type 0 where
  pub md5 : Text
  pub sha1 : Text
  pub task_id : Text

-- A request to the object store: the address, the key, the date, the type, and the part with the
-- upload id, or the hash, the callback and the body of the last request.
pub record StoreReq : Type 0 where
  pub url : Text
  pub authorization : Text
  pub date : Text
  pub content_type : Text
  pub content_md5 : Text
  pub callback : Text
  pub part_number : ℕ
  pub upload_id : Text
  pub body : Text

-- What the object store answers: the status, the tag and the text of the answer.
pub record StoreResp : Type 0 where
  pub status_code : ℕ
  pub etag : Text
  pub text : Text

-- The server and the object store. A `put_part` reads from the reader of the request: the last part of
-- its answer lists how many bytes each read gave.
pub record Uploads (W D : Type 0) : Type 0 where
  pub http_time : W → Text
  pub post_upload_pre : FileUpPreReq → W → Reply D FileUpPre × W
  pub post_update_hash : FileUpHashReq → W → Reply D Bool × W
  pub post_upload_auth : Text → Text → Text → W → Result (GoError D) Text × W
  pub put_part : StoreReq → ProgressReader → W → Result (GoError D) StoreResp × (List ℕ × W)
  pub post_parts : StoreReq → W → Result (GoError D) StoreResp × W
  pub post_upload_finish : Text → Text → W → Reply D (Unit {0}) × W
  pub md5 : Text → Text
  pub base64 : Text → Text

abbrev lines : List Text → Text
lines [] = []
lines (l ∷ []) = l
lines (l ∷ m ∷ ls) = l ++ b'\n' ∷ lines (m ∷ ls)

abbrev pub user_agent : Text
user_agent = codes "x-oss-user-agent:aliyun-sdk-js/6.6.1 Chrome 98.0.4758.80 on Windows 10 64-bit"

abbrev object_path : FileUpPre → Text
object_path pre = codes "/" ++ (pre.bucket ++ (codes "/" ++ pre.obj_key))

-- `https://<bucket>.<url without its first seven bytes>/<key>`; a shorter address, on which the slice
-- panics, counts as empty behind them.
unfoldable pub object_url : FileUpPre → Text
object_url pre =
    codes "https://"
    ++ (pre.bucket ++ (codes "." ++ (drop 7 pre.upload_url ++ (codes "/" ++ pre.obj_key))))

unfoldable pub part_meta : FileUpPre → Text → Text → ℕ → Text
part_meta pre mime time part_number = lines (
    codes "PUT"
    ∷ []
    ∷ mime
    ∷ time
    ∷ (codes "x-oss-date:" ++ time)
    ∷ user_agent
    ∷ (object_path pre
        ++ (codes "?partNumber="
            ++ (format_int part_number ++ (codes "&uploadId=" ++ pre.upload_id))))
    ∷ [])

unfoldable pub commit_meta : FileUpPre → Text → Text → Text → Text
commit_meta pre content_md5 callback time = lines (
    codes "POST"
    ∷ content_md5
    ∷ codes "application/xml"
    ∷ time
    ∷ (codes "x-oss-callback:" ++ callback)
    ∷ (codes "x-oss-date:" ++ time)
    ∷ user_agent
    ∷ (object_path pre ++ (codes "?uploadId=" ++ pre.upload_id))
    ∷ [])

-- The parts with their numbers and tags, from a number on.
unfoldable pub commit_parts : ℕ → List Text → Text
commit_parts n [] = []
commit_parts n (m ∷ ms) =
    (codes "<Part>" ++ b'\n' ∷ [])
    ++ ((codes "<PartNumber>" ++ (format_int n ++ (codes "</PartNumber>" ++ b'\n' ∷ [])))
        ++ ((codes "<ETag>" ++ (m ++ (codes "</ETag>" ++ b'\n' ∷ [])))
            ++ ((codes "</Part>" ++ b'\n' ∷ []) ++ commit_parts (suc n) ms)))

abbrev quote : Text
quote = b'"' ∷ []

unfoldable pub commit_body : List Text → Text
unfolding commit_parts
commit_body md5s =
    (codes "<?xml version="
      ++ (quote
          ++ (codes "1.0"
              ++ (quote
                  ++ (codes " encoding=" ++ (quote ++ (codes "UTF-8" ++ (quote ++ codes "?>"))))))))
    ++ b'\n'
      ∷ (codes "<CompleteMultipartUpload>"
          ++ b'\n' ∷ (commit_parts 1 md5s ++ codes "</CompleteMultipartUpload>"))

module _ {D : Type 0} where
  -- `res.StatusCode != 200`.
  unfoldable pub check_store : Result (GoError D) StoreResp → Result (GoError D) Text
  check_store (err e) = err e
  check_store (ok res) =
      if not (res.status_code == 200)
      then err (
          other (
            codes "up status: " ++ (format_int res.status_code ++ (codes ", error: " ++ res.text))))
      else ok res.etag

module _ {W D : Type 0} (uploads : Uploads W D) where
  open uploads use {
    http_time, post_upload_pre, post_update_hash, post_upload_auth, put_part, post_parts,
    post_upload_finish, md5, base64,
  }

  unfoldable pub file_upload_pre : FileUpPreReq → Call (State W) D FileUpPre
  file_upload_pre req = ask return_upload (post_upload_pre req)

  unfoldable pub file_upload_hash : FileUpHashReq → Call (State W) D Bool
  file_upload_hash req = ask return_upload (post_update_hash req)

  part_req : FileUpPre → Text → Text → ℕ → Text → StoreReq
  part_req pre mime time part_number key = record {
    url = object_url pre;
    authorization = key;
    date = time;
    content_type = mime;
    content_md5 = [];
    callback = [];
    part_number = part_number;
    upload_id = pre.upload_id;
    body = [];
  }

  put_and_check :
      StoreReq → ProgressReader → State W → Result (GoError D) Text × (ProgressReader × State W)
  put_and_check req pr (c, w) =
      let sent = put_part req pr w in (check_store sent.0, (reads (sent.1.0) pr, (c, sent.1.1)))

  after_auth :
      FileUpPre
      → Text
      → Text
      → ℕ
      → ProgressReader
      → Result (GoError D) Text × State W
      → Result (GoError D) Text × (ProgressReader × State W)
  unfolding put_and_check part_req
  after_auth pre mime time part_number pr (err e, s) = (err e, (pr, s))
  after_auth pre mime time part_number pr (ok key, s) =
      put_and_check (part_req pre mime time part_number key) pr s

  -- `FileUpPart`: the tag of the part, and the reader as the request leaves it.
  unfoldable pub file_up_part :
      FileUpPre
      → Text
      → ℕ
      → ProgressReader
      → State W
      → Result (GoError D) Text × (ProgressReader × State W)
  unfolding after_auth
  file_up_part pre mime part_number pr (c, w) =
      let time = http_time w in
      let auth =
        post_upload_auth pre.auth_info (part_meta pre mime time part_number) pre.task_id w in
      after_auth pre mime time part_number pr (auth.0, (c, auth.1))

  commit_req : FileUpPre → Text → Text → Text → Text → Text → StoreReq
  commit_req pre time content_md5 callback body key = record {
    url = object_url pre;
    authorization = key;
    date = time;
    content_type = codes "application/xml";
    content_md5 = content_md5;
    callback = callback;
    part_number = 0;
    upload_id = pre.upload_id;
    body = body;
  }

  abbrev drop_tag : Result (GoError D) Text → Result (GoError D) (Unit {0})
  drop_tag (ok t) = ok tt
  drop_tag (err e) = err e

  unfoldable pub file_up_commit : FileUpPre → List Text → Call (State W) D (Unit {0})
  unfolding commit_req
  file_up_commit pre md5s (c, w) =
      let time = http_time w in
      let body = commit_body md5s in
      let content_md5 = base64 (md5 body) in
      let callback = base64 pre.callback in
      let authorize : Call (State W) D Text = λ s.
        let auth =
          post_upload_auth pre.auth_info (commit_meta pre content_md5 callback time) pre.task_id
            s.1 in
        (auth.0, (s.0, auth.1)) in
      let send : Text → Call (State W) D (Unit {0}) = λ key s.
        let sent = post_parts (commit_req pre time content_md5 callback body key) s.1 in
        (drop_tag (check_store sent.0), (s.0, sent.1)) in
      (authorize >>= send) (c, w)

  unfoldable pub file_up_finish : FileUpPre → Call (State W) D (Unit {0})
  file_up_finish pre = ask return_upload (post_upload_finish pre.obj_key pre.task_id)
