-- ===== src/Cloudreve/Replies.antt =====
-- pan/driver/cloudreve/methods.go: how the replies of the server become results, and the small requests.
use pan_client.Base.{true, false, not, ◌==◌, ◌&&◌, if◌then◌else◌, List, Text, Result, ok, err}
use pan_client.Errors.{GoError, nil, only_error, code_msg}
use pan_client.Drive.{Call}
use pan_client.Http.{Reply, failed, answered, ask}
use pan_client.Cloudreve.{
  Storage, ObjectList, Item, ItemRenameReq, ItemMoveReq, CreateUploadSessionReq, UploadCredential,
  Sources, Server, State,
}

module _ {D : Type 0} where
  -- What stands for a call that gives nothing back, since it panics or ran out of rounds: a nil error,
  -- which no call of the source gives.
  abbrev pub no_return : GoError D
  no_return = nil

  -- `funReturn`, whose two results are one variable, and whose value no caller reads.
  unfoldable pub fun_return : Reply D (Unit {0}) → Result (GoError D) (Unit {0})
  fun_return (failed e) = err (only_error e)
  fun_return (answered error_state error_result success_result) =
      let result = if error_state then error_result else success_result in
      if error_state && not (result.code == 0) then err (code_msg result.code result.msg) else ok tt

  unfoldable pub fun_return_by_success : {T : Type 0} → Reply D T → Result (GoError D) T
  fun_return_by_success (failed e) = err (only_error e)
  fun_return_by_success (answered true error_result result) =
      err (code_msg error_result.code error_result.msg)
  fun_return_by_success (answered false error_result result) =
      if not (result.code == 0) then err (code_msg result.code result.msg) else ok result.body

module _ {W D : Type 0} (server : Server W D) where
  unfoldable pub user_storage : Call (State W) D Storage
  user_storage = ask fun_return_by_success server.get_storage

  unfoldable pub file_upload_get_upload_session :
      CreateUploadSessionReq → Call (State W) D UploadCredential
  file_upload_get_upload_session req = ask fun_return_by_success (server.put_upload req)

  unfoldable pub file_upload_delete_upload_session : Text → Call (State W) D (Unit {0})
  file_upload_delete_upload_session session_id = ask fun_return (server.delete_upload session_id)

  unfoldable pub file_upload_delete_all_upload_session : Call (State W) D (Unit {0})
  file_upload_delete_all_upload_session = ask fun_return server.delete_uploads

  unfoldable pub file_create_download_session : Text → Call (State W) D Text
  file_create_download_session id = ask fun_return_by_success (server.put_download id)

  unfoldable pub file_get_source : List Text → Call (State W) D (List Sources)
  file_get_source ids = ask fun_return_by_success (server.post_source ids)

  unfoldable pub create_directory : Text → Call (State W) D (Unit {0})
  create_directory path = ask fun_return (server.put_directory path)

  unfoldable pub list_directory : Text → Call (State W) D ObjectList
  list_directory path = ask fun_return_by_success (server.get_directory path)

  unfoldable pub object_delete : Item → Call (State W) D (Unit {0})
  object_delete src = ask fun_return (server.delete_object src)

  unfoldable pub object_move : ItemMoveReq → Call (State W) D (Unit {0})
  object_move req = ask fun_return (server.patch_object req)

  unfoldable pub object_rename : ItemRenameReq → Call (State W) D (Unit {0})
  object_rename req = ask fun_return (server.post_rename req)

  unfoldable pub one_drive_callback : Text → Call (State W) D (Unit {0})
  one_drive_callback session_id = ask fun_return (server.post_callback session_id)
