-- ===== src/Baidu/Upload.antt =====
-- pan/driver/baidu_netdisk/driver.go: `UploadFile`, which hashes a file slice by slice and sends the slices
-- that the server asks for. Logging and progress are left out; an open file keeps its bytes.
pub mod Slices
use pan_client.Base.{
  ℕ, zero, suc, ◌+◌, ◌*◌, ◌-◌, ◌%◌, ◌/◌, ◌^◌, ◌==◌, Bool, true, false, not, add64, sub64, mul64,
  div64, lt64, half64, if◌then◌else◌, Option, none, some, List, [], ◌∷◌, ◌++◌, map, Text, codes,
  trim_right, slash, replace_byte, take, drop, length, Result, ok, err,
}
use pan_client.Errors.{GoError, nil, only_msg, msg_error}
use pan_client.Cache.{GroupDo}
use pan_client.Download.Names.{format_int}
use pan_client.Gcid.File.{hex}
use pan_client.Local.{Files}
use pan_client.Drive.{PanObj, Call, ◌>>=◌, ◌>>◌, return, fail, map_error, on_error}
use pan_client.Drive.Tree.{transfer}
use pan_client.Drive.Reader.{FileStat}
use pan_client.Drive.Upload.{UploadFileReq, dir_of}
use pan_client.Baidu.{BaiduProperties, BaiduFile, ApiResp, Server, State}
use pan_client.Baidu.Requests.Files.{FileList, create, precreate, get_upload_url, upload_slice}
use pan_client.Baidu.Directory.{mkdir}

abbrev pub default_slice_size : ℕ
default_slice_size = 4 * 1024 * 1024

-- The size of a slice, by the kind of member.
unfoldable pub get_slice_size : ℕ → ℕ
get_slice_size vip_type =
    if vip_type == 1
    then 16 * 1024 * 1024
    else (if vip_type == 2 then 32 * 1024 * 1024 else default_slice_size)

-- The number of slices of a file, and the size of the last one.
unfoldable pub slice_count : ℕ → ℕ → ℕ
slice_count size slice =
    let count = div64 (sub64 (add64 size slice) 1) slice in if count == 0 then 1 else count

unfoldable pub last_slice_size : ℕ → ℕ → ℕ
last_slice_size size slice = let rest = size % slice in if rest == 0 then slice else rest

-- What the loop over the slices reads: `left` of them, from what is left of the file.
unfoldable pub read_slices : ℕ → ℕ → ℕ → Text → List Text
read_slices slice last zero bytes = []
read_slices slice last (suc zero) bytes = take last bytes ∷ []
read_slices slice last (suc (suc left)) bytes =
    take slice bytes ∷ read_slices slice last (suc left) (drop slice bytes)

-- `limitWriter`: what it has let through, and how much it still lets through.
pub record LimitWriter : Type 0 where
  pub written : Text
  pub remaining : ℕ

unfoldable pub limit_write : LimitWriter → Text → LimitWriter
limit_write lw p = record {
  written = lw.written ++ take lw.remaining p;
  remaining = lw.remaining - length p;
}

unfoldable pub limit_writes : LimitWriter → List Text → LimitWriter
limit_writes lw [] = lw
limit_writes lw (p ∷ ps) = limit_writes (limit_write lw p) ps

abbrev pub first_slice_size : ℕ
first_slice_size = 256 * 1024

abbrev pub joined : List Text → Text
joined [] = []
joined (s ∷ ss) = s ++ joined ss

-- The bytes that are read for a part of the file, and how many are announced.
unfoldable pub part_size : ℕ → ℕ → ℕ → ℕ → ℕ
part_size slice last count partseq = if partseq == sub64 count 1 then last else slice

unfoldable pub part_bytes : ℕ → ℕ → ℕ → Text → ℕ → Text
unfolding part_size
part_bytes slice last count bytes partseq =
    take (part_size slice last count partseq) (drop (mul64 partseq slice) bytes)

-- The waits before the attempts for a slice, in milliseconds.
abbrev pub slice_waits : List ℕ
slice_waits = 0 ∷ 1000 ∷ 2000 ∷ []

module _ {W D : Type 0} (server : Server W D) (marshal_texts : List Text → Text) (files : Files W D)
    (vip_type : ℕ) where
  abbrev local : {A : Type 0} → (W → Result (GoError D) A) → Call (State W) D A
  local f (c, (props, w)) = (f w, (c, (props, w)))

  -- `_ = os.Remove`.
  delete_local : UploadFileReq → Call (State W) D (Unit {0})
  delete_local req (c, (props, w)) =
      (ok tt, (c, (props, if req.success_del then files.remove req.local_file w else w)))

  sleep : ℕ → State W → State W
  sleep wait (c, (props, w)) = (c, (props, if wait == 0 then w else server.sleep wait w))

  -- The attempts to send a slice.
  unfoldable pub send_slice :
      List ℕ → GoError D → Text → List (Text × Text) → Text → Text → ℕ → Call (State W) D (Unit {0})
  unfolding sleep
  send_slice [] last_err url params name bytes size s = (err last_err, s)
  send_slice (wait ∷ waits) last_err url params name bytes size s =
      on_error (λ e. send_slice waits e url params name bytes size)
        (upload_slice server url params name bytes size (sleep wait s))

  abbrev access_token : State W → Text
  access_token (c, (props, w)) = props.access_token

  abbrev slice_params : Text → Text → ℕ → Text → List (Text × Text)
  slice_params path upload_id partseq token =
      (codes "method", codes "upload")
      ∷ (codes "access_token", token)
      ∷ (codes "type", codes "tmpfile")
      ∷ (codes "path", path)
      ∷ (codes "uploadid", upload_id)
      ∷ (codes "partseq", format_int partseq)
      ∷ []

  -- The parts that the server asks for: `size_of` and `bytes_of` give what is sent for a part.
  unfoldable pub send_slices :
      (ℕ → ℕ) → (ℕ → Text) → Text → Text → Text → Text → List ℕ → Call (State W) D (Unit {0})
  unfolding send_slice
  send_slices size_of bytes_of url path upload_id name [] s = (ok tt, s)
  send_slices size_of bytes_of url path upload_id name (partseq ∷ parts) s =
      let rest : Call (State W) D (Unit {0}) =
        send_slices size_of bytes_of url path upload_id name parts in
      let send : Call (State W) D (Unit {0}) =
        send_slice slice_waits nil url (slice_params path upload_id partseq (access_token s)) name
          (bytes_of partseq) (size_of partseq) in
      if lt64 partseq 0 then rest s else (send >> rest) s

  -- What `precreate` leaves to do.
  after_precreate :
      UploadFileReq → Text → Text → ℕ → ℕ → Text → Text → ApiResp → Call (State W) D Text
  unfolding send_slices delete_local
  after_precreate req path name size slice bytes block_list pre =
      let last = last_slice_size size slice in
      let count = slice_count size slice in
      let send : Text → Call (State W) D Text = λ url.
        send_slices (part_size slice last count) (part_bytes slice last count bytes) url path
          pre.upload_id name pre.block_list
        >> (create server path size 0 pre.upload_id block_list >>= λ made.
            delete_local req >> return (format_int made.file.fs_id)) in
      if pre.return_type == 2
      then (delete_local req >> return (format_int pre.info.fs_id))
      else (get_upload_url server path pre.upload_id >>= send)

  hash_and_send : UploadFileReq → Text → Text → ℕ → Text → Call (State W) D Text
  unfolding after_precreate hex
  hash_and_send req path name size bytes =
      let slice = get_slice_size vip_type in
      let slices = read_slices slice (last_slice_size size slice) (slice_count size slice) bytes in
      let block_list = marshal_texts (map (λ (s : Text). hex (files.md5 s)) slices) in
      let first =
        (limit_writes (record { written = []; remaining = first_slice_size }) slices).written in
      precreate server path size block_list (hex (files.md5 (joined slices)))
        (hex (files.md5 first))
      >>= λ pre. after_precreate req path name size slice bytes block_list pre

  unfoldable pub upload_file : UploadFileReq → Call (State W) D Text
  unfolding hash_and_send
  upload_file req = local (files.stat req.local_file) >>= λ (local_name, stat).
      let remote_path = transfer req.remote_path_transfer (trim_right slash req.remote_path) in
      let name = transfer req.remote_name_transfer local_name in
      let path = remote_path ++ slash ∷ name in
      let go : Call (State W) D Text =
        map_error (msg_error (codes "create parent dir error")) (
          mkdir server
            (record { new_path = replace_byte b'\\' slash (dir_of path); parent = none }))
        >>= λ dir. local (files.read req.local_file) >>= λ bytes.
            hash_and_send req path name stat.size bytes in
      if stat.size == 0
      then fail (only_msg (codes "baidu does not allow empty file upload"))
      else go
