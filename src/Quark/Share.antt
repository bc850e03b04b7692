-- ===== src/Quark/Share.antt =====
-- pan/driver/quark: shares, downloads and the capacity of the drive.
pub mod Links
use pan_client.Base.{
  div64, ℕ, zero, suc, ◌-◌, ◌/◌, ◌%◌, ◌+◌, ◌^◌, ◌==◌, Bool, true, false, not, ◌&&◌, ◌||◌, lt64,
  sub64, if◌then◌else◌, Option, none, some, List, [], ◌∷◌, ◌++◌, map, Text, codes, text_eq,
  is_empty, slash, Result, ok, err,
}
use pan_client.Errors.{GoError, only_msg}
use pan_client.Cache.{GroupDo}
use pan_client.Drive.{MkdirReq, DiskResp, PanObj, Call, ◌>>=◌, ◌>>◌, return, fail}
use pan_client.Drive.Tree.{DownloadFileReq}
use pan_client.Http.{Reply, ask, world}
use pan_client.Quark.{
  File, TaskDoing, Task, MemberData, ShareList, ShareReq, SharePasswordData, RestoreReq, Server,
  State,
}
use pan_client.Quark.Replies.{
  no_return, fun_return, fun_return_by_success, task_query, member, check_task_success,
  file_download,
}
use pan_client.Quark.Pages.{get_share_list, share_detail}
use pan_client.Quark.Directory.Making.{mkdir}

pub record ShareData : Type 0 where
  pub share_id : Text
  pub share_url : Text
  pub pass_code : Text
  pub title : Text

pub record NewShareReq : Type 0 where
  pub fids : List Text
  pub title : Text
  pub need_pass_code : Bool
  pub expired_type : ℕ

pub record ShareRestoreReq : Type 0 where
  pub share_url : Text
  pub pass_code : Text
  pub target_dir : Text

abbrev pub megabytes : ℕ → ℕ
megabytes n = div64 (div64 n 1024) 1024

unfoldable pub contains_id : List Text → Text → Bool
contains_id [] id = false
contains_id (x ∷ xs) id = if text_eq x id then true else contains_id xs id

abbrev pub share_data : ShareList → ShareData
share_data share = record {
  share_id = share.share_id;
  share_url = share.share_url;
  pass_code = share.passcode;
  title = share.title;
}

-- The loop of `ShareList`; without ids every share is taken.
unfoldable pub filter_shares : List Text → List ShareList → List ShareData
unfolding contains_id
filter_shares ids [] = []
filter_shares ids (share ∷ shares) =
    let rest = filter_shares ids shares in
    if not (is_empty ids) && not (contains_id ids share.share_id)
    then rest
    else share_data share ∷ rest

-- `strings.TrimLeft` at a cut set.
unfoldable pub trim_left_set : List ℕ → Text → Text
trim_left_set cut [] = []
trim_left_set cut (b ∷ s) = if has_byte cut b then trim_left_set cut s else b ∷ s
  where
    has_byte : List ℕ → ℕ → Bool
    has_byte [] b = false
    has_byte (c ∷ cs) b = (c == b) || has_byte cs b

-- The id of a share from the path of its address.
unfoldable pub pwd_id_of : Text → Text
unfolding trim_left_set
pwd_id_of path = trim_left_set (codes "/s/") path

abbrev pub first_or_panic : {W D : Type 0} → List Text → Call (State W) D Text
first_or_panic [] = fail no_return
first_or_panic (u ∷ us) = return u

abbrev pub first_or_error : {W D : Type 0} → List Text → Call (State W) D Text
first_or_error [] = fail (only_msg (codes "no download data"))
first_or_error (u ∷ us) = return u

module _ {W D : Type 0} (server : Server W D) (group_do : GroupDo (List PanObj) W (GoError D))
    (fuel depth : ℕ) where
  open server use {
    sleep, random_word, post_share, post_share_password, post_share_delete, post_share_token,
    post_sharepage_save,
  }

  unfoldable pub disk : Call (State W) D DiskResp
  disk = member server >>= λ m. return (record {
    total = megabytes m.total_capacity;
    free = megabytes (sub64 m.total_capacity m.use_capacity);
    used = megabytes m.use_capacity;
  })

  unfoldable pub share_list : List Text → Call (State W) D (List ShareData)
  unfolding filter_shares
  share_list ids = get_share_list server fuel >>= λ shares. return (filter_shares ids shares)

  -- A passcode is made up where one is wanted and none is given.
  with_passcode : ShareReq → W → ShareReq × W
  with_passcode req w =
      if (req.url_type == 2) && is_empty req.passcode
      then (record req { passcode = (random_word w).0 }, (random_word w).1)
      else (req, w)

  -- The loop of `share` until its task is finished, on fuel.
  unfoldable pub wait_share : ℕ → TaskDoing → Call (State W) D Text
  wait_share zero doing = fail no_return
  wait_share (suc rounds) doing = world (sleep doing.tq_gap) (
      task_query server doing.task_id >>= λ query.
      let again = wait_share rounds doing in
      if query.status == 2 then return query.share_id else again)

  share : ShareReq → Call (State W) D Text
  unfolding wait_share with_passcode
  share req (c, w) =
      let start = with_passcode req w in
      (ask fun_return_by_success (post_share start.0) >>= wait_share fuel) (c, start.1)

  unfoldable pub new_share : NewShareReq → Call (State W) D ShareData
  unfolding share
  new_share req =
      share (record {
        fid_list = req.fids;
        title = req.title;
        url_type = if req.need_pass_code then 2 else 1;
        expired_type = req.expired_type;
        passcode = [];
      })
      >>= λ share_id. ask fun_return_by_success (post_share_password share_id) >>= λ resp.
          return (record {
            share_id = share_id;
            share_url = resp.share_url;
            pass_code = resp.passcode;
            title = resp.title;
          })

  unfoldable pub delete_share : List Text → Call (State W) D (Unit {0})
  delete_share share_ids = ask fun_return (post_share_delete share_ids) >>= λ resp. return tt

  share_restore_to : ShareRestoreReq → Text → Call (State W) D (Unit {0})
  share_restore_to req pwd_id =
      mkdir server group_do fuel depth (record { new_path = req.target_dir; parent = none })
      >>= λ target. ask fun_return_by_success (post_share_token pwd_id req.pass_code) >>= λ stoken.
          share_detail server fuel pwd_id stoken >>= λ files.
          ask fun_return_by_success (
            post_sharepage_save (record {
              fid_list = map (λ (f : File). f.fid) files;
              fid_token_list = map (λ (f : File). f.share_fid_token) files;
              to_pdir_fid = target.id;
              pwd_id = pwd_id;
              stoken = stoken;
              pdir_fid = target.id;
              scene = codes "link";
            }))
          >>= check_task_success server fuel false

  -- `url_path` is the path that `url.Parse` finds.
  unfoldable pub share_restore :
      (Text → Result (GoError D) Text) → ShareRestoreReq → Call (State W) D (Unit {0})
  unfolding share_restore_to pwd_id_of
  share_restore url_path req =
      let parsed : Call (State W) D Text = λ s. (url_path req.share_url, s) in
      if is_empty req.share_url
      then fail (only_msg (codes "share url must not null"))
      else (parsed >>= λ path. share_restore_to req (pwd_id_of path))

  -- What `DownloadFile` and `ProxyFile` ask for an address.
  unfoldable pub download_url : DownloadFileReq → Call (State W) D Text
  download_url req = file_download server req.remote_file.id >>= first_or_panic

  unfoldable pub proxy_url : DownloadFileReq → Call (State W) D Text
  proxy_url req = file_download server req.remote_file.id >>= first_or_error
