-- ===== src/Quark/Replies.antt =====
-- pan/driver/quark/methods.go: how the replies of the server become results, and the small requests.
pub mod Polling
use pan_client.Base.{
  ℕ, zero, suc, Bool, true, false, not, ◌==◌, ◌&&◌, ◌||◌, lt64, if◌then◌else◌, [], ◌∷◌, ◌++◌, List,
  Text, codes, is_empty, Result, ok, err,
}
use pan_client.Errors.{GoError, nil, other, only_error, code_msg}
use pan_client.Download.Names.{format_int}
use pan_client.Drive.{Call, ◌>>=◌, return, fail}
use pan_client.Http.{Resp, Reply, failed, answered, ask, world}
use pan_client.Quark.{TaskDoing, Task, MemberData, Server, State}

-- `result.Status >= 400 || result.Code != 0`.
abbrev pub is_refused : {T : Type 0} → Resp T → Bool
is_refused result = not (lt64 result.status 400) || not (result.code == 0)

module _ {D : Type 0} where
  -- What stands for a call that gives nothing back, since it panics or ran out of rounds: a nil
  -- error, which no call of the source gives.
  abbrev pub no_return : GoError D
  no_return = nil

  -- `funReturn`, whose two results are one variable.
  unfoldable pub fun_return : Reply D (Unit {0}) → Result (GoError D) (Resp (Unit {0}))
  fun_return (failed e) = err (only_error e)
  fun_return (answered error_state error_result success_result) =
      let result = if error_state then error_result else success_result in
      if error_state && not (result.code == 0)
      then err (code_msg result.code result.msg)
      else ok result

  -- `funReturnBySuccess` and `funReturnBySuccessMeta`.
  unfoldable pub fun_return_by_success : {T : Type 0} → Reply D T → Result (GoError D) T
  fun_return_by_success (failed e) = err (only_error e)
  fun_return_by_success (answered true error_result result) =
      err (code_msg error_result.code error_result.msg)
  fun_return_by_success (answered false error_result result) =
      if not (result.code == 0) then err (code_msg result.code result.msg) else ok result.body

  -- The tests of `fileSort`, `objectMove` and `objectRename`.
  unfoldable pub return_by_status : {T : Type 0} → Reply D T → Result (GoError D) T
  return_by_status (failed e) = err (only_error e)
  return_by_status (answered true error_result result) =
      err (code_msg error_result.code error_result.msg)
  return_by_status (answered false error_result result) =
      if is_refused result then err (code_msg result.code result.msg) else ok result.body

  -- `fmt.Errorf("code: %d, msg: %s", …)`.
  abbrev pub code_error : {T : Type 0} → Resp T → GoError D
  code_error result =
      other (codes "code: " ++ (format_int result.code ++ (codes ", msg: " ++ result.msg)))

  -- The tests of the upload requests, which keep the error of the transport as it is.
  unfoldable pub return_upload : {T : Type 0} → Reply D T → Result (GoError D) T
  return_upload (failed e) = err e
  return_upload (answered true error_result result) = err (code_error error_result)
  return_upload (answered false error_result result) =
      if is_refused result then err (code_error result) else ok result.body

module _ {W D : Type 0} (server : Server W D) where
  open server use {
    sleep, get_member, get_task, post_file, post_file_delete, post_file_move, post_file_rename,
    post_file_download,
  }

  unfoldable pub task_query : Text → Call (State W) D Task
  task_query task_id = ask fun_return_by_success (get_task task_id)

  unfoldable pub member : Call (State W) D MemberData
  member = ask fun_return_by_success get_member

  unfoldable pub create_directory : Text → Text → Call (State W) D Text
  create_directory dir_name dst_id = ask fun_return_by_success (post_file dir_name dst_id)

  -- The loop of `checkTaskSuccess`, on fuel.
  unfoldable pub check_task_success : ℕ → Bool → TaskDoing → Call (State W) D (Unit {0})
  unfolding task_query
  check_task_success zero is_finish doing = fail no_return
  check_task_success (suc fuel) is_finish doing =
      let wait =
        world (sleep doing.tq_gap) (
          task_query doing.task_id >>= λ query.
          check_task_success fuel (query.status == 2) doing) in
      if is_finish || is_empty doing.task_id then return tt else wait

  unfoldable pub object_delete : ℕ → List Text → Call (State W) D (Unit {0})
  unfolding check_task_success
  object_delete fuel obj_ids = ask fun_return_by_success (post_file_delete obj_ids) >>= λ doing.
      check_task_success fuel doing.finish doing

  unfoldable pub object_move : ℕ → List Text → Text → Call (State W) D (Unit {0})
  unfolding check_task_success
  object_move fuel obj_ids dst_id =
      ask return_by_status (post_file_move obj_ids dst_id) >>= λ doing.
      check_task_success fuel doing.finish doing

  unfoldable pub object_rename : ℕ → Text → Text → Call (State W) D (Unit {0})
  unfolding check_task_success
  object_rename fuel obj_id new_name =
      ask return_by_status (post_file_rename obj_id new_name) >>= λ doing.
      check_task_success fuel doing.finish doing

  unfoldable pub file_download : Text → Call (State W) D (List Text)
  file_download file_id = ask fun_return_by_success (post_file_download (file_id ∷ []))
