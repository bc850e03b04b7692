-- ===== src/Cloudreve/Examples.antt =====
-- A small server, with a directory `docs` that holds nothing.
use pan_client.Base.{
  ◌+◌, ℕ, ◌<◌, ◌≡◌, refl, true, false, none, some, [], ◌∷◌, Text, codes, text_eq, has_ext, split,
  rel, has_prefix, trim, keep, sub64, lt64, add64, ok, err, arith,
}
use pan_client.Errors.{GoError, only_msg}
use pan_client.Cache.{Cache, GroupDo, new_cache, set}
use pan_client.Cache.View.{view}
use pan_client.Local.{Files}
use pan_client.Drive.{PanObj, MkdirReq, dir_type, file_type}
use pan_client.Drive.Listings.{cache_key}
use pan_client.Drive.Lookup.{root_dir, get_pan_obj}
use pan_client.Drive.Reader.{ProgressReader, next_chunk}
use pan_client.Drive.Reader.Chunks.{total}
use pan_client.Drive.Reader.Place.{IsAt, end_of-bounds, next_chunk-IsAt}
use pan_client.Http.{Reply, answered}
use pan_client.Cloudreve.{
  Object, UploadCredential, Value, listing, err_times, SentChunk, Server, State,
}
use pan_client.Cloudreve.Replies.{no_return, create_directory, fun_return}
use pan_client.Cloudreve.Directory.{lookup_obj, mkdir, target_path}
use pan_client.Cloudreve.Directory.Stuck.{mkdir-stuck}
use pan_client.Cloudreve.Directory.Moving.{Groups, same_src}
use pan_client.Cloudreve.Directory.Moving.Grouped.{items_of, Apart, same_src_lem}
use pan_client.Cloudreve.Upload.{
  session_key, chunk_key, session_err_key, upload_err_after, upload_loop, run_upload,
  uploaded_before,
}
use pan_client.Cloudreve.Upload.{send_ranged, one_drive_upload}
use pan_client.Cloudreve.Upload.Sessions.{upload_err_after_lem}
use pan_client.Cloudreve.Upload.Chunked.{Accepted}
use pan_client.Cloudreve.Upload.Refused.{run_upload-refused}
use pan_client.Cloudreve.Upload.Reopened.{one_drive_upload_lem}

abbrev answer_of : {T : Type 0} → T → ℕ → Reply Text T × ℕ
answer_of body w = (
  answered false (record { status = 200; code = 0; msg = []; body = tt })
      (record { status = 200; code = 0; msg = []; body = body }),
  w,
)

abbrev docs_obj : Object
docs_obj = record {
  id = codes "7";
  name = codes "docs";
  path = codes "/";
  size = 0;
  type = dir_type;
}

abbrev a_session : UploadCredential
a_session = record { session_id = codes "s"; chunk_size = 2; upload_urls = []; credential = [] }

abbrev docs_server : Server ℕ Text
docs_server = record {
  clock = λ w. w;
  notify = λ props w. w;
  get_config = answer_of (record { anonymous = false; cookies = [] });
  get_storage = answer_of (record { used = 0; free = 0; total = 0 });
  get_directory = λ path. answer_of (record { objects = docs_obj ∷ []; policy = none });
  put_directory = λ path. answer_of tt;
  delete_object = λ src. answer_of tt;
  patch_object = λ req. answer_of tt;
  post_rename = λ req. answer_of tt;
  put_upload = λ req. answer_of a_session;
  delete_upload = λ id. answer_of tt;
  delete_uploads = answer_of tt;
  put_download = λ id. answer_of [];
  post_source = λ ids. answer_of [];
  post_callback = λ id. answer_of tt;
  put_chunk = λ url size range pr w. (ok (false, []), ([], w));
  post_chunk = λ url size credential number pr w. (ok (false, []), ([], w));
}

abbrev run_alone : GroupDo Value ℕ (GoError Text)
run_alone key f s = f s

abbrev as_it_is : Groups → Groups
as_it_is groups = groups

abbrev a_file : PanObj
a_file = record {
  id = [];
  name = codes "f";
  path = codes "/docs";
  size = 0;
  type = file_type;
  parent_id = none;
}

abbrev docs_dir : PanObj
docs_dir = record {
  id = codes "7";
  name = codes "docs";
  path = codes "/";
  size = 0;
  type = dir_type;
  parent_id = none;
}

same_src_lem_example :
    (items_of (codes "/docs") (same_src (a_file ∷ docs_dir ∷ a_file ∷ []) [])
      ≡ keep
          (λ (item : PanObj). text_eq item.path (codes "/docs"))
          (a_file ∷ docs_dir ∷ a_file ∷ []))
    × Apart (same_src (a_file ∷ docs_dir ∷ a_file ∷ []) [])
same_src_lem_example = same_src_lem (codes "/docs") (a_file ∷ docs_dir ∷ a_file ∷ [])

abbrev known_cache : Cache Value
known_cache = set 0 (cache_key (codes "7")) (listing []) (new_cache 5)

abbrev root_in_root : MkdirReq
root_in_root = record { new_path = codes "/"; parent = some root_dir }

mkdir-stuck_example :
    (mkdir docs_server run_alone 9 root_in_root (known_cache, 0)).0 ≡ err no_return
unfolding has_ext split text_eq target_path rel has_prefix trim get_pan_obj create_directory
    fun_return
mkdir-stuck_example =
    mkdir-stuck docs_server run_alone (λ s. Unit) 9 root_in_root root_dir (codes ".")
      (known_cache, 0) refl refl refl refl (λ s h. refl) (λ s h. refl) (λ s h. tt) tt

abbrev failed_cache : Cache Value
failed_cache = set 0 (session_err_key (codes "k")) (err_times 4) (new_cache 5)

abbrev no_files : Files ℕ Text
no_files = record {
  stat = λ name w. ok (name, record { size = 0; is_dir = false });
  read = λ name w. ok [];
  seeks = λ w. true;
  seek = λ w n. n;
  remove = λ name w. w;
  md5 = λ bytes. bytes;
  sha1 = λ bytes. bytes;
  type_by_extension = λ e. [];
}

upload_err_after_lem_example :
    let r =
      upload_err_after docs_server no_files run_alone 9 (codes "k") 2 a_session (failed_cache, 0) in
    (r.0 ≡ ok tt)
    × (view r.1.1 r.1.0 (session_err_key (codes "k")) ≡ some (err_times 5))
    × (view r.1.1 r.1.0 (session_key (codes "k")) ≡ none)
    × (view r.1.1 r.1.0 (chunk_key (codes "k")) ≡ none)
unfolding set text_eq new_cache
upload_err_after_lem_example =
    upload_err_after_lem docs_server no_files run_alone 9 (codes "k") 2 4 a_session failed_cache 0
      refl

abbrev new_reader : ProgressReader
new_reader = record {
  position = 0;
  limit = 0;
  uploaded = 0;
  chunk_size = 2;
  total_size = 3;
  current_size = 0;
  current_uploaded = 0;
  finish = false;
  events = [];
}

abbrev refuse : ℕ × ℕ → ProgressReader → ℕ → SentChunk ℕ Text
refuse bounds pr w = (ok (true, codes "full"), (2 ∷ [], w))

abbrev failed_once : Cache Value
failed_once = set 0 (session_err_key (codes "k")) (err_times 1) (new_cache 5)

run_upload-refused_example :
    let r =
      run_upload docs_server no_files run_alone 9
        (codes "k")
        a_session
        (upload_loop refuse 9 new_reader)
        (failed_once, 0) in
    (r.0 ≡ err (only_msg (codes "full")))
    × ((uploaded_before docs_server no_files run_alone 9 (codes "k") r.1).0 ≡ ok 2)
    × (0 < 2)
unfolding next_chunk total sub64 lt64 add64 set text_eq new_cache
run_upload-refused_example =
    run_upload-refused docs_server no_files run_alone 9 refuse (codes "k") a_session 3 2 0 8 2 1 []
      (codes "full") new_reader failed_once 0 0 (omega arith) (omega arith) (omega arith)
      (refl, refl, refl, refl) (refl, (omega arith, tt), refl) refl

-- The world counts the bytes that were taken.
abbrev Counted : ℕ → ℕ → Type 0
Counted p w = w ≡ p

-- A server that reads all of a chunk.
abbrev reading_server : Server ℕ Text
reading_server = record docs_server {
  put_chunk = λ url size range pr w. (ok (false, []), (pr.current_size ∷ [], w + pr.current_size));
}

taken :
    (p : ℕ) (pr : ProgressReader) (w : ℕ)
    → p < 3
    → IsAt 3 2 p pr
    → Counted p w
    → Accepted (send_ranged reading_server (codes "u") 3) Counted 3 2 p pr w
unfolding total next_chunk send_ranged
taken p pr w inside at here =
    let cut = next_chunk-IsAt 3 2 p pr at (omega arith) (omega arith) in
    let bounds = end_of-bounds 3 2 p (omega arith) inside in
    (
      (next_chunk pr).1.current_size,
      [],
      [],
      w + (next_chunk pr).1.current_size,
      (refl, (omega (arith, cut.2, bounds), tt), omega arith),
      omega (arith, cut.2, bounds, here),
    )

one_drive_upload_lem_example :
    (v : ℕ) × (one_drive_upload reading_server 9
        (codes "u")
        (codes "f")
        1
        2
        (ok (record { size = 3; is_dir = false }), λ n. n)
        1
      ≡ ((3, ok tt), v))
    × Counted 3 v
one_drive_upload_lem_example =
    one_drive_upload_lem reading_server Counted 9 (codes "u") (codes "f") 1 2
      (record { size = 3; is_dir = false }) (λ n. n) 1 (omega arith) (omega arith) refl refl
      (omega arith) (omega arith) taken refl

-- What is left by the lookup of the directory of `a_file`.
abbrev looked_up : State ℕ
looked_up = (lookup_obj docs_server run_alone (codes "/docs") true (known_cache, 0)).1
