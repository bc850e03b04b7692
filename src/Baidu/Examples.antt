-- ===== src/Baidu/Examples.antt =====
-- A small server: it refuses the token `old` with 111 and takes the token `new`.
use pan_client.Base.{
  ℕ, ◌≡◌, refl, false, if◌then◌else◌, List, [], ◌∷◌, Text, codes, text_eq, some, length, get_elem?,
  take, none, ok, arith,
}
use pan_client.Cache.{Cache, new_cache}
use pan_client.Cache.View.{view}
use pan_client.Drive.{PanObj, MovieReq, dir_type, file_type}
use pan_client.Drive.Listings.{cache_key}
use pan_client.Baidu.{BaiduProperties, BaiduFile, TokenResp, ApiReq, ApiResp, Server}
use pan_client.Baidu.Requests.{request}
use pan_client.Baidu.Requests.Refresh.{IsKept, changed_by, request-IsKept, request-refresh_token}
use pan_client.Baidu.Requests.Files.{FileList}
use pan_client.Baidu.Directory.{dir_path, move}
use pan_client.Baidu.Directory.Dropped.{among, move_request, outcome, goes, move-del_dirs}
use pan_client.Baidu.Upload.{
  get_slice_size, slice_count, last_slice_size, read_slices, limit_writes, first_slice_size, joined,
  part_size, part_bytes,
}
use pan_client.Baidu.Upload.Slices.{read_slices-part_bytes}

abbrev no_file : BaiduFile
no_file = record { fs_id = 0; path = []; server_filename = []; size = 0; isdir = 0 }

abbrev empty_resp : ℕ → ApiResp
empty_resp errno = record {
  errno = errno;
  list = [];
  file = no_file;
  info = no_file;
  return_type = 0;
  upload_id = [];
  block_list = [];
  dlinks = [];
  servers = [];
  bak_servers = [];
  total = 0;
  used = 0;
  vip_type = 0;
}

abbrev new_tokens : TokenResp
new_tokens = record {
  failed = false;
  error = [];
  error_description = [];
  access_token = codes "new";
  refresh_token = codes "r2";
}

abbrev old_props : BaiduProperties
old_props = record {
  client_id = codes "id";
  client_secret = codes "secret";
  refresh_token = codes "r1";
  access_token = codes "old";
}

abbrev picky_server : Server ℕ Text
picky_server = record {
  clock = λ w. w;
  sleep = λ ms w. w;
  notify = λ props w. w;
  get_token = λ refresh id secret w. (ok new_tokens, w);
  send = λ token req w. (ok (empty_resp (if text_eq token (codes "new") then 0 else 111)), w);
  head_location = λ link w. (ok [], w);
  post_slice =
      λ url params name bytes size w. (ok (record { text = []; error_code = 0; errno = 0 }), w);
}

abbrev a_request : ApiReq
a_request = record { url = codes "u"; post = false; params = []; form = [] }

abbrev a_cache : Cache (List PanObj)
a_cache = new_cache 5

request-IsKept_example :
    IsKept picky_server
      (a_cache, (old_props, 0))
      (request picky_server a_request (a_cache, (old_props, 0))).1
request-IsKept_example = request-IsKept picky_server a_request (a_cache, (old_props, 0)) refl

request-refresh_token_example :
    request picky_server a_request (a_cache, (old_props, 0))
    ≡ (ok (empty_resp 0), (a_cache, (changed_by picky_server old_props new_tokens, 0)))
unfolding text_eq
request-refresh_token_example =
    request-refresh_token picky_server a_request a_cache old_props (empty_resp 111) (empty_resp 0)
      new_tokens 0 0 0 0 refl refl refl refl refl (refl, refl, refl) refl refl

abbrev obj_at : Text → Text → Text → PanObj
obj_at path name type = record {
  id = [];
  name = name;
  path = path;
  size = 0;
  type = type;
  parent_id = none;
}

abbrev a_move : MovieReq
a_move = record {
  items = obj_at (codes "/a") (codes "f") file_type ∷ [];
  target_obj = obj_at (codes "/") (codes "b") dir_type;
}

abbrev no_json : FileList → Text
no_json files = []

move-del_dirs_example :
    let target = dir_path a_move.target_obj in
    let asked =
      request picky_server (move_request no_json target a_move.items) (a_cache, (old_props, 0)) in
    let r = move picky_server no_json a_move (a_cache, (old_props, 0)) in
    (r.0 ≡ outcome asked.0)
    × (r.1.1 ≡ asked.1.1)
    × (view 0 r.1.0 (cache_key (codes "/a")) ≡ (
        if goes asked.0 (among (codes "/a") (target ∷ codes "/a" ∷ []))
        then none
        else view 0 a_cache (cache_key (codes "/a"))))
unfolding text_eq
move-del_dirs_example =
    move-del_dirs picky_server no_json a_move (a_cache, (old_props, 0)) 0 (codes "/a")

abbrev three_bytes : Text
three_bytes = codes "abc"

read_slices-part_bytes_example :
    let slice = get_slice_size 1 in
    let last = last_slice_size 3 slice in
    let count = slice_count 3 slice in
    let slices = read_slices slice last count three_bytes in
    (length slices ≡ count)
    × (joined slices ≡ three_bytes)
    × ((limit_writes (record { written = []; remaining = first_slice_size }) slices).written
        ≡ take first_slice_size three_bytes)
    × (get_elem? slices 0 ≡ some (part_bytes slice last count three_bytes 0))
    × (length (part_bytes slice last count three_bytes 0) ≡ part_size slice last count 0)
unfolding slice_count
read_slices-part_bytes_example =
    read_slices-part_bytes 1 0 three_bytes (omega arith) (omega arith) (ground arith)
