-- ===== src/Quark/Upload/Whole.antt =====
-- pan/driver/quark/driver.go: `UploadFile` as a whole. Logging and the progress callback are left out; a
-- cancelled context shows as an answer of the object store that is an error. Where the source returns
-- the id of the task beside an error, the error is the result here.
use pan_client.Base.{
  ℕ, ◌==◌, true, if◌then◌else◌, none, List, [], ◌∷◌, ◌++◌, Text, codes, trim_right, slash, Result,
  ok, err,
}
use pan_client.Errors.{GoError, code_msg, only_msg, msg_error}
use pan_client.Cache.{GroupDo}
use pan_client.Local.{Files, get_file_md5, get_file_sha1, get_mime_type}
use pan_client.Drive.{PanObj, Call, ◌>>=◌, ◌>>◌, return, fail, map_error}
use pan_client.Drive.Lookup.{get_pan_obj}
use pan_client.Drive.Reader.{FileStat, ProgressReader, new_process_reader, min64}
use pan_client.Drive.Tree.{transfer}
use pan_client.Drive.Upload.{UploadFileReq}
use pan_client.Quark.{Server, State}
use pan_client.Quark.Replies.{no_return}
use pan_client.Quark.Directory.{list}
use pan_client.Quark.Directory.Making.{mkdir}
use pan_client.Quark.Upload.Requests.{
  FileUpPre, Uploads, file_upload_pre, file_upload_hash, file_up_part, file_up_commit,
  file_up_finish,
}
use pan_client.Quark.Upload.Parts.{Sent, Tags, finish, tags, upload_parts}

abbrev pub code_object_exist : ℕ
code_object_exist = 40004

module _ {W D : Type 0} (server : Server W D) (uploads : Uploads W D) (files : Files W D)
    (group_do : GroupDo (List PanObj) W (GoError D)) (chunk_size fuel depth : ℕ) where
  -- An answer of the local files, which do not change.
  abbrev local : {A : Type 0} → (W → Result (GoError D) A) → Call (State W) D A
  local f (c, w) = (f w, (c, w))

  -- `if req.SuccessDel`: an error of the removal is only logged.
  delete_local : UploadFileReq → Call (State W) D (Unit {0})
  delete_local req (c, w) =
      (ok tt, (c, if req.success_del then files.remove req.local_file w else w))

  -- What follows the loop over the parts.
  after_parts :
      UploadFileReq → FileUpPre → Sent (State W) D Tags → Result (GoError D) Text × State W
  unfolding delete_local
  after_parts req pre (err e, (pr, s)) = (err e, s)
  after_parts req pre (ok finish, (pr, s)) = (delete_local req >> return pre.fid) s
  after_parts req pre (ok (tags md5s), (pr, s)) =
      (file_up_commit uploads pre md5s
          >> (file_up_finish uploads pre >> (delete_local req >> return pre.fid)))
        s

  -- The loop over the parts, of the smaller of the server's part size and the client's chunk size; a
  -- part size of 0 panics in `NewProcessReader`.
  send_parts : UploadFileReq → FileUpPre → Text → ℕ → ProgressReader → Call (State W) D Text
  unfolding after_parts
  send_parts req pre mime total pr s =
      if min64 pre.part_size chunk_size == 0
      then (err no_return, s)
      else after_parts req pre (
          upload_parts (λ t. files.seeks t.1) (λ ms t. (t.0, server.sleep ms t.1))
            (file_up_part uploads pre mime) fuel total 1 [] pr s)

  upload_slow : UploadFileReq → FileUpPre → Text → FileStat → Call (State W) D Text
  unfolding send_parts
  upload_slow req pre mime stat =
      if req.only_fast
      then fail (only_msg (codes "only support fast error:" ++ req.local_file))
      else (local (λ w.
            new_process_reader req.local_file (min64 pre.part_size chunk_size) 0 (ok stat)
              (files.seek w))
          >>= send_parts req pre mime stat.size)

  -- From the request of the upload on.
  upload_to : UploadFileReq → Text → Text → FileStat → Call (State W) D Text
  unfolding upload_slow delete_local
  upload_to req dir_id name stat =
      let mime = get_mime_type files req.local_file in
      local (get_file_md5 files req.local_file) >>= λ md5.
      local (get_file_sha1 files req.local_file) >>= λ sha1.
      file_upload_pre uploads
        (record { parent_id = dir_id; file_name = name; file_size = stat.size; mime_type = mime })
      >>= λ pre.
          file_upload_hash uploads (record { md5 = md5; sha1 = sha1; task_id = pre.task_id })
          >>= λ fast.
              if fast then (delete_local req >> return pre.fid) else upload_slow req pre mime stat

  -- A path that is found is an error; any error of the lookup is taken to say that it is not.
  unless_exists :
      Text
      → Call (State W) D Text
      → Result (GoError D) PanObj × State W
      → Result (GoError D) Text × State W
  unless_exists path m (ok obj, s) =
      (err (code_msg code_object_exist (path ++ codes " is exist")), s)
  unless_exists path m (err e, s) = m s

  unfoldable pub upload_file : UploadFileReq → Call (State W) D Text
  unfolding upload_to unless_exists
  upload_file req = local (files.stat req.local_file) >>= λ (local_name, stat).
      let path = transfer req.remote_path_transfer (trim_right slash req.remote_path) in
      let name = transfer req.remote_name_transfer local_name in
      let all_path = path ++ slash ∷ name in
      λ s.
        unless_exists all_path
          (map_error (msg_error (path ++ codes " create error"))
              (mkdir server group_do fuel depth (record { new_path = path; parent = none }))
            >>= λ dir. upload_to req dir.id name stat)
          (get_pan_obj (list server group_do fuel depth) all_path true s)
