-- ===== src/Quark/Examples.antt =====
-- The driver at small inputs.
use pan_client.Base.{
  ℕ, zero, suc, ◌+◌, ◌*◌, ◌<◌, ◌≡◌, refl, true, false, text_eq, lt64, ◌==◌, ◌||◌, ◌↔◌, ltb,
  if◌then◌else◌, none, some, map, slash, ◌++◌, List, [], ◌∷◌, Text, codes, length, drop, take,
  Result, ok, err, arith,
}
use pan_client.Errors.{GoError, other, only_error}
use pan_client.Cache.{Cache, GroupDo, new_cache}
use pan_client.Drive.Listings.{cache_key}
use pan_client.Drive.{PanObj, Call, relabel}
use pan_client.Drive.Reader.{ProgressReader, reads}
use pan_client.Drive.Reader.Chunks.{total}
use pan_client.Http.{Reply, answered, failed}
use pan_client.Quark.Pages.{page_size, share_detail}
use pan_client.Quark.Pages.Shared.{share_detail-two}
use pan_client.Quark.Upload.Requests.{
  FileUpPre, StoreReq, StoreResp, Uploads, file_up_part, check_store,
}
use pan_client.Quark.Upload.Parts.{retry_wait, upload_parts}
use pan_client.Quark.Upload.Parts.Attempts.{Outcome}
use pan_client.Quark.Upload.Parts.Whole.{Uploaded, upload_parts_lem}
use pan_client.Quark.{File, TaskDoing, Server, State}
use pan_client.Quark.Replies.{
  return_by_status, fun_return_by_success, check_task_success, object_delete, object_move,
}
use pan_client.Quark.Replies.Polling.{after, check_task_success_lem}
use pan_client.Quark.Directory.{list, obj_of, with_root_id}
use pan_client.Quark.Directory.Listing.{list_reloaded}
use pan_client.Quark.Directory.Changing.{delete, move}
use pan_client.Quark.Directory.Changing.Dropped.{dropped, delete_lem, move_lem}
use pan_client.Drive.Collect.{has_id}
use pan_client.Drive.Collect.Known.{id_of}
use pan_client.Quark.Share.{pwd_id_of}
use pan_client.Quark.Share.Links.{pwd_id_of_lem}
use pan_client.Cache.View.{view}

-- A listing of 150 items, in pages.
abbrev numbers : ℕ → List ℕ
numbers zero = []
numbers (suc n) = n ∷ numbers n

abbrev page_of : ℕ → Call ℕ Text (List ℕ × ℕ)
page_of zero calls = (err (other (codes "no page")), suc calls)
page_of (suc k) calls =
    (ok (take page_size (drop (k * page_size) (numbers 150)), length (numbers 150)), suc calls)

-- A server that counts the parts and the bytes that it gets, and takes a while for the second part: the
-- first number of its state is how often it has still to refuse.
abbrev Counts : Type 0
Counts = ℕ × ℕ × ℕ

abbrev put :
    StoreReq → ProgressReader → Counts → Result (GoError Text) StoreResp × (List ℕ × Counts)
put req pr (suc n, parts, bytes) = (err (other (codes "busy")), (1 ∷ [], (n, parts, bytes)))
put req pr (zero, parts, bytes) = (
  ok (record { status_code = 200; etag = codes "tag"; text = [] }),
  (pr.current_size ∷ [], (1, suc parts, bytes + pr.current_size)),
)

abbrev no_reply : {T : Type 0} → Counts → Reply Text T × Counts
no_reply w = (failed (other (codes "no")), w)

abbrev counting : Uploads Counts Text
counting = record {
  http_time = λ w. codes "now";
  post_upload_pre = λ req. no_reply;
  post_update_hash = λ req. no_reply;
  post_upload_auth = λ info text task w. (ok (codes "key"), w);
  put_part = put;
  post_parts = λ req w. (err (other (codes "no")), w);
  post_upload_finish = λ key task. no_reply;
  md5 = λ t. t;
  base64 = λ t. t;
}

abbrev pre : FileUpPre
pre = record {
  task_id = codes "t";
  upload_id = codes "u";
  obj_key = codes "k";
  upload_url = codes "http://s";
  fid = codes "f";
  bucket = codes "b";
  auth_info = codes "a";
  callback = [];
  part_size = 2;
}

abbrev file_reader : ProgressReader
file_reader = record {
  position = 0;
  limit = 0;
  uploaded = 0;
  chunk_size = 2;
  total_size = 5;
  current_size = 0;
  current_uploaded = 0;
  finish = false;
  events = [];
}

-- The next part has the number that follows the parts that the server has.
abbrev AsCounted : ℕ → ℕ → State Counts → Type 0
AsCounted n p (c, (b, parts, bytes)) = (suc parts ≡ n) × (bytes ≡ p)

abbrev IsOther : GoError Text → Type 0
IsOther (other m) = Unit
IsOther e = ⊥

put_part-Outcome :
    (n p : ℕ) (pr : ProgressReader) (s : State Counts)
    → pr.position ≡ p
    → 0 < pr.current_size
    → AsCounted n p s
    → Outcome AsCounted IsOther n p pr (file_up_part counting pre (codes "m") n pr s)
unfolding file_up_part reads check_store total
put_part-Outcome n p pr (c, (suc b, parts, bytes)) at full counted = (1 ∷ [], refl, tt, counted)
put_part-Outcome n p pr (c, (zero, parts, bytes)) at full counted = (
  pr.current_size,
  [],
  refl,
  (full, tt),
  omega arith,
  (omega (arith, counted), omega (arith, counted)),
)

upload_parts_lem_example : Uploaded AsCounted IsOther 5 (
    upload_parts
      (λ s. true)
      (λ ms s. s)
      (file_up_part counting pre (codes "m"))
      6
      5
      1
      []
      file_reader
      (new_cache 1, (0, 0, 0)))
upload_parts_lem_example =
    upload_parts_lem (λ s. true) (λ ms s. s) (file_up_part counting pre (codes "m")) AsCounted
      IsOther 5 2 (omega arith) (omega arith) (λ n p ms s kept. kept) tt put_part-Outcome 6
      file_reader (new_cache 1, (0, 0, 0)) (refl, refl, refl, refl) (refl, refl) (omega arith)

-- A server whose world is the time. It has two files in every directory, and a task of it is finished at
-- the time 7.
abbrev reply_of : {T : Type 0} → T → ℕ → Reply Text T × ℕ
reply_of body w = (
  answered false (record { status = 200; code = 0; msg = []; body = tt })
      (record { status = 200; code = 0; msg = []; body = body }),
  w,
)

abbrev file_of : Text → File
file_of id = record {
  fid = id;
  file_name = codes "n" ++ id;
  file_type = 1;
  size = 3;
  dir = false;
  share_fid_token = [];
}

abbrev two_files : List File
two_files = file_of (codes "1") ∷ file_of (codes "2") ∷ []

abbrev sorted_page : ℕ → ℕ → Reply Text (List File × ℕ) × ℕ
sorted_page zero w = (failed (other (codes "no page")), w)
sorted_page (suc k) w = reply_of (take page_size (drop (k * page_size) two_files), 2) (suc w)

abbrev a_task : TaskDoing
a_task = record { task_id = codes "t"; finish = false; tq_gap = 3 }

abbrev desk : Server ℕ Text
desk = record {
  clock = λ w. w;
  sleep = λ ms w. w + ms;
  get_member = reply_of (record { total_capacity = 0; use_capacity = 0 });
  get_task = λ id w. reply_of (record { status = if ltb w 7 then 1 else 2; share_id = [] }) w;
  get_file_sort = λ id page size. sorted_page page;
  post_file = λ name id. reply_of (codes "new");
  post_file_delete = λ ids. reply_of a_task;
  post_file_move = λ ids id. reply_of a_task;
  post_file_rename = λ id name. reply_of a_task;
  post_file_download = λ ids. reply_of [];
  random_word = λ w. (codes "word", w);
  post_share = λ req. reply_of a_task;
  post_share_password = λ id. reply_of (record { title = []; share_url = []; passcode = [] });
  get_share_mypage = λ page size. reply_of ([], 0);
  post_share_delete = λ ids. reply_of tt;
  post_share_token = λ id code. reply_of (codes "s");
  get_sharepage_detail = λ id token page size. reply_of ([], 0);
  post_sharepage_save = λ req. reply_of a_task;
}

abbrev alone : GroupDo (List PanObj) ℕ (GoError Text)
alone key f s = f s

abbrev some_dir : PanObj
some_dir = record {
  id = codes "d";
  name = codes "dir";
  path = codes "/";
  size = 0;
  type = codes "dir";
  parent_id = some (codes "0");
}

abbrev some_file : PanObj
some_file = record {
  id = codes "f";
  name = codes "file";
  path = codes "/dir";
  size = 3;
  type = codes "file";
  parent_id = some (codes "d");
}

abbrev empty_cache : Cache (List PanObj)
empty_cache = new_cache 100

list_reloaded_example :
    let r = list desk alone 2 1 (record { reload = true; dir = some_dir }) (empty_cache, 5) in
    (r.0 ≡ ok (map (obj_of (with_root_id some_dir).id (with_root_id some_dir)) two_files))
    × Unit {0}
    × (list desk alone 2 1 (record { reload = false; dir = some_dir }) r.1
        ≡ (ok (map (obj_of (with_root_id some_dir).id (with_root_id some_dir)) two_files), r.1))
unfolding with_root_id text_eq return_by_status lt64
list_reloaded_example =
    list_reloaded desk alone (λ key f s. refl) some_dir refl two_files (λ w. Unit) (omega arith)
      (λ k w p. (refl, tt)) 1 1 empty_cache 5 tt (omega arith)

check_task_success_lem_example :
    check_task_success desk 9 false a_task (empty_cache, 0)
    ≡ (ok tt, (empty_cache, after desk a_task 3 0))
unfolding fun_return_by_success
check_task_success_lem_example =
    check_task_success_lem desk a_task 9 2 empty_cache 0 refl (omega arith)
      (_, refl, refl, (_, refl, refl, (_, refl, refl)))

delete_lem_example :
    let asked = object_delete desk 9 (map id_of (some_file ∷ some_dir ∷ [])) (empty_cache, 0) in
    let r = delete desk alone 9 1 (some_file ∷ some_dir ∷ []) (empty_cache, 0) in
    (r.0 ≡ asked.0)
    × (r.1.1 ≡ asked.1.1)
    × (view 9 r.1.0 (cache_key (codes "d")) ≡ (
        if dropped true (some_file ∷ some_dir ∷ []) (codes "d") asked.0
        then none
        else view 9 empty_cache (cache_key (codes "d"))))
unfolding has_id text_eq
delete_lem_example =
    delete_lem desk alone 9 1 some_file (some_dir ∷ []) (empty_cache, 0) 9 (codes "d")
      (refl, (refl, tt))

move_lem_example :
    let asked =
      relabel only_error
        (object_move desk 9 (map id_of (some_file ∷ [])) (some_dir.id) (empty_cache, 0)) in
    let r =
      move desk alone 9 1
        (record { items = some_file ∷ []; target_obj = some_dir })
        (empty_cache, 0) in
    (r.0 ≡ asked.0)
    × (r.1.1 ≡ asked.1.1)
    × (view 9 r.1.0 (cache_key (codes "d")) ≡ (
        if dropped false (some_file ∷ []) (codes "d") asked.0
        then none
        else view 9 empty_cache (cache_key (codes "d"))))
unfolding has_id text_eq
move_lem_example =
    move_lem desk alone 9 1 (some_file ∷ []) some_dir (empty_cache, 0) 9 (codes "d") (refl, tt) refl
      refl

pwd_id_of_lem_example :
    (pwd_id_of (codes "/s/" ++ b's' ∷ codes "1a2b") ≡ b's' ∷ codes "1a2b")
    ↔ (((b's' == slash) || (b's' == b's')) ≡ false)
pwd_id_of_lem_example = pwd_id_of_lem b's' (codes "1a2b")

-- The waits before the second attempt, the fifth, and the tenth.
retry_waits : (retry_wait 1 ≡ 1000) × (retry_wait 4 ≡ 8000) × (retry_wait 9 ≡ 30000)
unfolding retry_wait
retry_waits = (refl, refl, refl)

-- A share of 101 files.
abbrev files_of : ℕ → List File
files_of zero = []
files_of (suc n) = file_of (codes "f") ∷ files_of n

abbrev last_file : List File
last_file = file_of (codes "last") ∷ []

abbrev share_page : ℕ → ℕ → Reply Text (List File × ℕ) × ℕ
share_page page = reply_of (if page == 1 then (files_of 100, 101) else (last_file, 101))

abbrev share_desk : Server ℕ Text
share_desk = record desk { get_sharepage_detail = λ id token page size. share_page page }

share_detail-two_example :
    (share_detail share_desk 2 [] [] (empty_cache, 0)
      ≡ (ok ((last_file ++ drop 1 (files_of 100)) ++ last_file), (empty_cache, 0)))
    × (length ((last_file ++ drop 1 (files_of 100)) ++ last_file) ≡ 101)
unfolding fun_return_by_success
share_detail-two_example =
    share_detail-two share_desk [] [] (files_of 100) last_file 101 0 (empty_cache, 0)
      (empty_cache, 0) (empty_cache, 0) refl refl (omega arith) (omega arith) (omega arith)
