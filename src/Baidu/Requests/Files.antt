-- ===== src/Baidu/Requests/Files.antt =====
-- pan/driver/baidu_netdisk/methods.go: the requests for files and for their upload.
use pan_client.Base.{
  ℕ, zero, suc, ◌+◌, ◌==◌, Bool, false, not, ◌&&◌, ◌||◌, add64, ltb, leb, if◌then◌else◌, List, [],
  ◌∷◌, ◌++◌, map, Text, codes, is_empty, length, contains, Result, ok, err,
}
use pan_client.Errors.{GoError, nil, other, wrapped, driver, only_error, only_msg}
use pan_client.Download.Names.{format_int}
use pan_client.Drive.{Call, map_error, ◌>>◌, ◌>>=◌, return, fail, on_error}
use pan_client.Baidu.{BaiduFile, ApiResp, SliceResp, Server, State}
use pan_client.Baidu.Requests.{refresh_token, no_return, request, get, post_form}

abbrev pub files_limit : ℕ
files_limit = 1000

-- What `manage` is given, and its JSON.
pub data FileList : Type 0 where
  renames : List (Text × Text) → FileList
  moves : List (Text × Text × Text) → FileList
  paths : List Text → FileList

abbrev pub default_upload_api : Text
default_upload_api = codes "https://d.pcs.baidu.com"

abbrev form_if : Bool → List (Text × Text) → List (Text × Text)
form_if b fields = if b then fields else []

-- The form of `create`; no caller gives it times.
unfoldable pub create_form : Text → ℕ → ℕ → Text → Text → List (Text × Text)
create_form path size isdir upload_id block_list =
    ((codes "path", path)
      ∷ (codes "size", format_int size)
      ∷ (codes "isdir", format_int isdir)
      ∷ (codes "rtype", codes "3")
      ∷ [])
    ++ (form_if (not (is_empty upload_id)) ((codes "uploadid", upload_id) ∷ [])
        ++ form_if (not (is_empty block_list)) ((codes "block_list", block_list) ∷ []))

unfoldable pub precreate_form : Text → ℕ → Text → Text → Text → List (Text × Text)
precreate_form path size block_list content_md5 slice_md5 =
    ((codes "path", path)
      ∷ (codes "size", format_int size)
      ∷ (codes "isdir", codes "0")
      ∷ (codes "autoinit", codes "1")
      ∷ (codes "rtype", codes "3")
      ∷ (codes "block_list", block_list)
      ∷ [])
    ++ form_if (not (is_empty content_md5) && not (is_empty slice_md5))
        ((codes "content-md5", content_md5) ∷ (codes "slice-md5", slice_md5) ∷ [])

abbrev pub first_text : List Text → Text
first_text [] = []
first_text (t ∷ ts) = t

-- A byte as `strings.ToLower` has it, for the texts that are looked for.
abbrev lower : ℕ → ℕ
lower b = if leb b'A' b && leb b b'Z' then b + 32 else b

-- `GetMsg` of a driver's error.
abbrev msg_of : {D : Type 0} → GoError D → Text
msg_of (driver code msg cause extra) = msg
msg_of nil = []
msg_of (other m) = []
msg_of (wrapped m e) = []

module _ {D : Type 0} where
  -- What `uploadSlice` makes of its answer.
  unfoldable pub check_slice : Result (GoError D) SliceResp → Result (GoError D) (Unit {0})
  check_slice (err e) = err e
  check_slice (ok resp) =
      let text = map lower resp.text in
      if contains text (codes "uploadid")
        && (contains text (codes "invalid")
            || (contains text (codes "expired") || contains text (codes "not found")))
      then err (other (codes "uploadid expired"))
      else (if not (resp.error_code == 0) || not (resp.errno == 0)
          then err (other (codes "upload slice error: " ++ resp.text))
          else ok tt)

module _ {W D : Type 0} (server : Server W D) where
  -- `getFiles`, with a round of the loop for each page.
  unfoldable pub get_files : ℕ → Text → ℕ → List BaiduFile → Call (State W) D (List BaiduFile)
  get_files zero dir start result = fail no_return
  get_files (suc fuel) dir start result =
      get server (codes "/xpan/file") (
        (codes "method", codes "list")
        ∷ (codes "dir", dir)
        ∷ (codes "web", codes "web")
        ∷ (codes "start", format_int start)
        ∷ (codes "limit", format_int files_limit)
        ∷ [])
      >>= λ resp.
          let rest = get_files fuel dir (add64 start files_limit) (result ++ resp.list) in
          if is_empty resp.list
          then return result
          else (if ltb (length resp.list) files_limit then return (result ++ resp.list) else rest)

  unfoldable pub manage : (FileList → Text) → Text → FileList → Call (State W) D ApiResp
  manage marshal opera filelist =
      post_form server (codes "/xpan/file")
        ((codes "method", codes "filemanager") ∷ (codes "opera", opera) ∷ [])
        ((codes "async", codes "0")
          ∷ (codes "filelist", marshal filelist)
          ∷ (codes "ondup", codes "fail")
          ∷ [])

  unfoldable pub create : Text → ℕ → ℕ → Text → Text → Call (State W) D ApiResp
  create path size isdir upload_id block_list =
      post_form server (codes "/xpan/file") ((codes "method", codes "create") ∷ [])
        (create_form path size isdir upload_id block_list)

  unfoldable pub precreate : Text → ℕ → Text → Text → Text → Call (State W) D ApiResp
  precreate path size block_list content_md5 slice_md5 =
      post_form server (codes "/xpan/file") ((codes "method", codes "precreate") ∷ [])
        (precreate_form path size block_list content_md5 slice_md5)

  -- The location that the link leads to, or the link itself.
  follow_link : Text → Call (State W) D Text
  follow_link dlink (c, (props, w)) =
      let link = dlink ++ (codes "&access_token=" ++ props.access_token) in
      let head = server.head_location link w in
      (
        elim (head.0) [
          | err e ↦ err (only_error e)
          | ok location ↦ ok (if not (is_empty location) then location else link)
        ],
        (c, (props, head.1)),
      )

  unfoldable pub get_download_link : Text → Call (State W) D Text
  unfolding follow_link
  get_download_link file_id =
      get server (codes "/xpan/multimedia") (
        (codes "method", codes "filemetas")
        ∷ (codes "fsids", codes "[" ++ (file_id ++ codes "]"))
        ∷ (codes "dlink", codes "1")
        ∷ [])
      >>= λ resp.
          if is_empty (first_text resp.dlinks)
          then fail (only_msg (codes "no download link available"))
          else follow_link (first_text resp.dlinks)

  -- The server for an upload: the first that is named, else the usual one; an error is not reported.
  unfoldable pub get_upload_url : Text → Text → Call (State W) D Text
  get_upload_url path upload_id s =
      on_error (λ e. return default_upload_api)
        ((request server (record {
          url = codes "https://d.pcs.baidu.com/rest/2.0/pcs/file";
          post = false;
          params =
              (codes "method", codes "locateupload")
              ∷ (codes "appid", codes "250528")
              ∷ (codes "path", path)
              ∷ (codes "uploadid", upload_id)
              ∷ (codes "upload_version", codes "2.0")
              ∷ [];
          form = [];
        })
            >>= λ resp. return (
                if not (is_empty resp.servers)
                then first_text resp.servers
                else (if not (is_empty resp.bak_servers)
                    then first_text resp.bak_servers
                    else default_upload_api)))
          s)

  unfoldable pub get_user_info : Call (State W) D ℕ
  get_user_info = get server (codes "/xpan/nas") ((codes "method", codes "uinfo") ∷ []) >>= λ resp.
      return resp.vip_type

  -- The part of `Init` behind the set-up of the request library: the kind of member.
  unfoldable pub init : Call (State W) D ℕ
  init =
      let refreshed : Call (State W) D (Unit {0}) = λ (c, (props, w)).
        (if is_empty props.access_token
          then refresh_token server (c, (props, w))
          else (ok tt, (c, (props, w)))) in
      map_error (wrapped (codes "failed to refresh token: ")) refreshed
      >> map_error (λ e. other (codes "failed to get user info: " ++ msg_of e)) get_user_info

  unfoldable pub upload_slice :
      Text → List (Text × Text) → Text → Text → ℕ → Call (State W) D (Unit {0})
  unfolding check_slice
  upload_slice upload_url params file_name bytes size (c, (props, w)) =
      let sent =
        server.post_slice (upload_url ++ codes "/rest/2.0/pcs/superfile2") params file_name bytes
          size w in
      (check_slice sent.0, (c, (props, sent.1)))
