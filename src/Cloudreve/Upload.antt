-- ===== src/Cloudreve/Upload.antt =====
-- pan/driver/cloudreve/driver.go and methods.go: `UploadFile`, with the session that the driver keeps between the attempts
-- for a file, and the two loops over the chunks. Logging, progress and the cancelling of a context are left out.
pub mod Sessions
pub mod Chunked
pub mod Refused
pub mod Reopened
use pan_client.Base.{
  ℕ, zero, suc, ◌+◌, ◌-◌, ◌/◌, ◌==◌, Bool, true, false, not, ◌&&◌, ◌||◌, ltb, sub64, div64,
  if◌then◌else◌, Option, none, some, List, [], ◌∷◌, ◌++◌, Text, codes, text_eq, is_empty,
  trim_right, slash, Result, ok, err,
}
use pan_client.Errors.{
  GoError, nil, other, wrapped, driver, only_error, only_msg, code_msg, msg_error,
}
use pan_client.Cache.{Cache, GroupDo, get_or_load}
use pan_client.Cache as Store
use pan_client.Download.Names.{format_int}
use pan_client.Gcid.File.{hex}
use pan_client.Local.{Files}
use pan_client.Drive.{PanObj, Call, ◌>>=◌, ◌>>◌, return, fail, map_error, on_error}
use pan_client.Drive.Tree.{transfer}
use pan_client.Drive.Reader.{FileStat, ProgressReader, next_chunk, reads, new_process_reader, min64}
use pan_client.Drive.Upload.{UploadFileReq}
use pan_client.Cloudreve.{
  CloudreveProperties, CreateUploadSessionReq, UploadCredential, Value, listing, policy, session,
  uploaded, err_times, SentChunk, Server, State,
}
use pan_client.Cloudreve.Replies.{
  no_return, file_upload_get_upload_session, file_upload_delete_upload_session,
  file_upload_delete_all_upload_session, one_drive_callback,
}
use pan_client.Cloudreve.Directory.{cache_policy, set_value, lookup_obj, mkdir}

abbrev pub code_object_exist : ℕ
code_object_exist = 40004

abbrev pub code_conflict_upload_ongoing : ℕ
code_conflict_upload_ongoing = 40054

abbrev pub session_key : Text → Text
session_key md5_key = codes "session_" ++ md5_key

abbrev pub chunk_key : Text → Text
chunk_key md5_key = codes "chunk_" ++ md5_key

abbrev pub session_err_key : Text → Text
session_err_key md5_key = codes "session_err_" ++ md5_key

-- The count that a value of the cache is; the type assertion panics on another.
abbrev pub count_of : Value → Option ℕ
count_of (err_times n) = some n
count_of (listing objs) = none
count_of (policy p) = none
count_of (session s) = none
count_of (uploaded n) = none

abbrev pub size_of : Value → Option ℕ
size_of (uploaded n) = some n
size_of (listing objs) = none
size_of (policy p) = none
size_of (session s) = none
size_of (err_times n) = none

abbrev pub session_of : Value → Option UploadCredential
session_of (session s) = some s
session_of (listing objs) = none
session_of (policy p) = none
session_of (uploaded n) = none
session_of (err_times n) = none

-- The id of the policy, of which a nil one panics.
abbrev pub policy_of : Value → Option Text
policy_of (policy p) = p
policy_of (listing objs) = none
policy_of (session s) = none
policy_of (uploaded n) = none
policy_of (err_times n) = none

abbrev pub has_code : {D : Type 0} → ℕ → GoError D → Bool
has_code n (driver code msg cause extra) = code == n
has_code n nil = false
has_code n (other m) = false
has_code n (wrapped m e) = false

-- The header Content-Range of a chunk.
unfoldable pub content_range : ℕ × ℕ → ℕ → Text
content_range (start, end) total =
    codes "bytes "
    ++ (format_int start
        ++ (codes "-" ++ (format_int (sub64 end 1) ++ (codes "/" ++ format_int total))))

-- How much is uploaded, with the error if there is one.
abbrev pub Uploaded : Type 0 → Type 0 → Type 0
Uploaded W D = (ℕ × Result (GoError D) (Unit {0})) × W

-- A file that is opened, of this size and whose offsets are moved so.
abbrev pub Opened : Type 0 → Type 0
Opened D = Result (GoError D) FileStat × (ℕ → ℕ)

-- The chunks of a file are counted, where a size of 0 panics, before its offset is moved.
abbrev pub panics : {D : Type 0} → ℕ → Result (GoError D) FileStat → Bool
panics chunk_size (err e) = false
panics chunk_size (ok stat) = (chunk_size == 0) && not stat.is_dir

module _ {W : Type 0} where
  -- `Del` of what is kept of an upload.
  unfoldable pub forget : Text → State W → State W
  forget md5_key (c, w) = (
    Store.del (session_err_key md5_key)
        (Store.del (chunk_key md5_key) (Store.del (session_key md5_key) c)),
    w,
  )

module _ {W D : Type 0} where
  -- A value that must be there.
  abbrev pub present : {A : Type 0} → Option A → Call (State W) D A
  present none = fail no_return
  present (some a) = return a

  -- What follows the answer to a chunk; `next` is the next round.
  unfoldable pub after_chunk :
      (ProgressReader → W → Uploaded W D) → ProgressReader → SentChunk W D → Uploaded W D
  after_chunk next started (err e, (given, after)) =
      (((reads given started).uploaded, err (only_error e)), after)
  after_chunk next started (ok (bad, text), (given, after)) =
      let done = reads given started in
      if bad
      then ((done.uploaded, err (only_msg text)), after)
      else (if done.finish then ((done.uploaded, ok tt), after) else next done after)

  -- The loop over the chunks, with a round for each, over the request that sends one.
  unfoldable pub upload_loop :
      (ℕ × ℕ → ProgressReader → W → SentChunk W D) → ℕ → ProgressReader → W → Uploaded W D
  unfolding after_chunk
  upload_loop send zero pr w = ((pr.uploaded, err no_return), w)
  upload_loop send (suc fuel) pr w =
      after_chunk (upload_loop send fuel) (next_chunk pr).1
        (send (next_chunk pr).0 (next_chunk pr).1 w)

module _ {W D : Type 0} (server : Server W D) where
  unfoldable pub send_ranged : Text → ℕ → ℕ × ℕ → ProgressReader → W → SentChunk W D
  send_ranged url total bounds pr w =
      server.put_chunk url (format_int (sub64 bounds.1 bounds.0)) (content_range bounds total) pr w

  unfoldable pub send_numbered : Text → Text → ℕ → ℕ × ℕ → ProgressReader → W → SentChunk W D
  send_numbered url credential chunk_size bounds pr w =
      server.post_chunk url (format_int (sub64 bounds.1 bounds.0)) credential
        (format_int (div64 bounds.0 chunk_size)) pr w

module _ {W D : Type 0} (server : Server W D) (fuel : ℕ) where
  with_reader :
      ℕ → Result (GoError D) ProgressReader → W → (ProgressReader → Uploaded W D) → Uploaded W D
  with_reader size (err e) w go = ((size, err e), w)
  with_reader size (ok pr) w go = go pr

  unfoldable pub one_drive_upload : Text → Text → ℕ → ℕ → Opened D → W → Uploaded W D
  unfolding with_reader upload_loop send_ranged
  one_drive_upload url local_file size chunk_size (opened, seek) w =
      if panics chunk_size opened
      then ((size, err no_return), w)
      else with_reader size (new_process_reader local_file chunk_size size opened seek) w
          (λ pr. upload_loop (send_ranged server url pr.total_size) fuel pr w)

  unfoldable pub not_know_upload : Text → Text → Text → ℕ → ℕ → Opened D → W → Uploaded W D
  unfolding with_reader upload_loop send_numbered
  not_know_upload url credential local_file size chunk_size (opened, seek) w =
      if panics chunk_size opened
      then ((size, err no_return), w)
      else with_reader size (new_process_reader local_file chunk_size size opened seek) w
          (λ pr. upload_loop (send_numbered server url credential chunk_size) fuel pr w)

module _ {W D : Type 0} (server : Server W D) (files : Files W D)
    (group_do : GroupDo Value W (GoError D)) (fuel : ℕ) where
  -- The session is given up, at the server and in the cache.
  give_up : Text → UploadCredential → State W → State W
  unfolding forget
  give_up md5_key cred s = forget md5_key (
      if not (is_empty cred.session_id)
      then (file_upload_delete_upload_session server cred.session_id s).1
      else (file_upload_delete_all_upload_session server s).1)

  unfoldable pub upload_err_after : Text → ℕ → UploadCredential → Call (State W) D (Unit {0})
  unfolding give_up
  upload_err_after md5_key uploaded_size cred s =
      let load : Call (State W) D Value =
        get_or_load server.clock group_do (session_err_key md5_key) (return (err_times 0)) in
      let counted : Call (State W) D (Option ℕ) =
        λ t. on_error (λ e. return (some 0)) ((load >>= λ v. return (count_of v)) t) in
      (counted >>= present >>= λ i t. (
        ok tt,
        set_value server (session_err_key md5_key) (err_times (suc i))
            (if ltb 3 i then give_up md5_key cred t else t),
      ))
        (set_value server (chunk_key md5_key) (uploaded uploaded_size) s)

  abbrev policy_id : State W → Result (GoError D) Text × State W
  policy_id (c, w) =
      let (left, found) = Store.get (server.clock w) cache_policy c in
      elim found [
        | none ↦ (err (only_msg (cache_policy ++ codes " is not exist")), (left, w))
        | some v ↦ present (policy_of v) (left, w)
      ]

  -- The loader of a session: a conflict with another upload drops all sessions, before a second attempt.
  unfoldable pub load_session : Text → Text → ℕ → Call (State W) D Value
  load_session remote_path name size = policy_id >>= λ id.
      let create : Call (State W) D UploadCredential =
        file_upload_get_upload_session server
          (record { path = slash ∷ remote_path; size = size; name = name; policy_id = id }) in
      let again : Call (State W) D UploadCredential =
        λ s. create (file_upload_delete_all_upload_session server s).1 in
      (λ s.
        on_error (λ e. if has_code code_conflict_upload_ongoing e then again else fail e)
          (create s))
      >>= λ made. return (session made)

  -- How much of the file an earlier attempt has uploaded.
  unfoldable pub uploaded_before : Text → Call (State W) D ℕ
  uploaded_before md5_key (c, w) =
      let (left, found) = Store.get (server.clock w) (chunk_key md5_key) c in
      elim found [ none ↦ (ok 0, (left, w)) | some v ↦ present (size_of v) (left, w) ]

  -- A loop over the chunks as a call, with what follows its error.
  pub run_upload : Text → UploadCredential → (W → Uploaded W D) → Call (State W) D ℕ
  unfolding upload_err_after
  run_upload md5_key cred go (c, w) =
      let ((size, result), after) = go w in
      elim result [
        | ok u ↦ (ok size, (c, after))
        | err e ↦ (upload_err_after md5_key size cred >> fail e) (c, after)
      ]

  abbrev one_of : Text → List Text → Bool
  one_of t [] = false
  one_of t (u ∷ us) = text_eq t u || one_of t us

  abbrev first_url : List Text → Option Text
  first_url [] = none
  first_url (u ∷ us) = some u

  abbrev open_file : Text → W → Opened D
  open_file local_file w =
      (elim (files.stat local_file w) [ err e ↦ err e | ok (name, stat) ↦ ok stat ], files.seek w)

  -- The chunks, by the type of the server.
  send_file : CloudreveProperties → Text → Text → ℕ → UploadCredential → Call (State W) D (Unit {0})
  unfolding run_upload
  send_file props local_file md5_key before cred =
      let numbered : Text → Call (State W) D (Unit {0}) = λ url.
        run_upload md5_key cred (λ w.
          not_know_upload server fuel url cred.credential local_file before cred.chunk_size
            (open_file local_file w) w)
        >>= λ size. return tt in
      let ranged : Text → Call (State W) D (Unit {0}) = λ url.
        run_upload md5_key cred (λ w.
          one_drive_upload server fuel url local_file before
            (min64 cred.chunk_size props.chunk_size) (open_file local_file w) w)
        >>= λ size s.
            on_error (λ e. upload_err_after md5_key size cred >> fail e)
              (one_drive_callback server cred.session_id s) in
      if one_of props.type (codes "now61" ∷ codes "yiandrive" ∷ codes "wuaipan" ∷ [])
      then (present (first_url cred.upload_urls) >>= numbered)
      else (if one_of props.type (codes "huang1111" ∷ codes "hefamily" ∷ codes "hucl" ∷ [])
          then (present (first_url cred.upload_urls) >>= ranged)
          else fail (only_msg (codes "not support Type")))

  -- What is left to do with the remote names: the id of the session is the id of the task.
  upload_new : CloudreveProperties → UploadFileReq → Text → Text → ℕ → Call (State W) D Text
  unfolding send_file uploaded_before load_session hex
  upload_new props req remote_path name size =
      let all = remote_path ++ slash ∷ name in
      let md5_key = hex (files.md5 all) in
      let forget_if : Bool → State W → State W = λ b s. (if b then forget md5_key s else s) in
      let load : Call (State W) D Value =
        get_or_load server.clock group_do (session_key md5_key)
          (load_session remote_path name size) in
      map_error (msg_error (remote_path ++ codes " create error"))
        (mkdir server group_do fuel (record { new_path = remote_path; parent = none }))
      >>= λ dir s.
          (uploaded_before md5_key >>= λ before. load >>= λ v. present (session_of v) >>= λ cred.
          send_file props req.local_file md5_key before cred >> λ t.
          let (c, w) = forget_if req.resumable t in
          (ok cred.session_id, (c, if req.success_del then files.remove req.local_file w else w)))
            (forget_if (not req.resumable) s)

  unfoldable pub upload_file : CloudreveProperties → UploadFileReq → Call (State W) D Text
  unfolding upload_new
  upload_file props req =
      let stat : Call (State W) D (Text × FileStat) =
        λ (c, w). (files.stat req.local_file w, (c, w)) in
      let go : Text × FileStat → Call (State W) D Text = λ (local_name, stat).
        (let remote_path = transfer req.remote_path_transfer (trim_right slash req.remote_path) in
          let name = transfer req.remote_name_transfer local_name in
          let all = remote_path ++ slash ∷ name in
          λ s.
            let found = lookup_obj server group_do all true s in
            elim (found.0) [
              | ok obj ↦ (err (code_msg code_object_exist (all ++ codes " is exist")), found.1)
              | err e ↦ upload_new props req remote_path name stat.size found.1
            ]) in
      if req.only_fast
      then fail (only_msg (codes "cloudreve is not support fast upload"))
      else (stat >>= go)
