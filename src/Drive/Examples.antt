-- ===== src/Drive/Examples.antt =====
-- Tests and examples of the functions that the drivers share.
use pan_client.Base.{
  ℕ, ◌≡◌, refl, ap, sym, Bool, true, false, is_some, if◌then◌else◌, none, some, List, [], ◌∷◌, ◌++◌,
  All, All-append, add64, sub64, lt64, Text, codes, text_eq, has_suffix, split, trim, Result, ok,
  err,
}
use pan_client.Errors.{GoError, only_msg}
use pan_client.Drive.{PanObj, ListReq, dir_type, file_type, Call}
use pan_client.Drive.Lookup.{root_dir, get_pan_obj, children, find_name}
use pan_client.Drive.Lookup.Resolve.{resolve, deepest, answer, path_parts, get_pan_obj_lem}
use pan_client.Drive.Collect.{collect_item_ids}
use pan_client.Drive.Collect.Ids.{ids_of, reloads, collect_item_ids_lem}
use pan_client.Drive.Filter.{Filter, skips_file, skips_dir}
use pan_client.Drive.Reader.{is_finish, read, count_read, ProgressReader, next_chunk, reads}
use pan_client.Drive.Rename.{ObjRenameReq, batch_rename}
use pan_client.Drive.Rename.Plan.{plan, plan_objects, log_rename, batch_rename-plan}
use pan_client.Drive.Tree.{DownloadPathReq, DownloadFileReq, download_path, done}
use pan_client.Drive.Tree.Depth.{download_path-IsWithin}
use pan_client.Drive.Tree.Requests.{Holds, download_path-Holds}

abbrev entry : Text → Text → Text → PanObj
entry id name type = record {
  id = id;
  name = name;
  path = codes "/";
  size = 3;
  type = type;
  parent_id = some (codes "p");
}

abbrev docs : PanObj
docs = entry (codes "d") (codes "docs") dir_type

abbrev note : PanObj
note = entry (codes "n") (codes "a.txt") file_type

abbrev photo : PanObj
photo = entry (codes "q") (codes "a.png") file_type

-- The root holds a directory and a photo, and the directory a note.
abbrev tree : PanObj → List PanObj
tree o =
    if text_eq o.id (codes "0")
    then docs ∷ photo ∷ []
    else (if text_eq o.id (codes "d") then note ∷ [] else [])

abbrev list_tree : ListReq → Call (List Text) ℕ (List PanObj)
list_tree req s = (ok (tree req.dir), s)

get_pan_obj-note : get_pan_obj list_tree (codes "/docs//a.txt") true [] ≡ (ok note, [])
unfolding get_pan_obj split trim children find_name text_eq
get_pan_obj-note = refl

get_pan_obj_lem_example :
    (get_pan_obj list_tree (codes "/docs/b.txt") true [] ≡ (
      answer (codes "/docs/b.txt") (resolve tree (path_parts (codes "/docs/b.txt")) root_dir),
      [],
    ))
    × (get_pan_obj list_tree (codes "/docs/b.txt") false []
        ≡ (ok (deepest tree (path_parts (codes "/docs/b.txt")) root_dir), []))
get_pan_obj_lem_example = get_pan_obj_lem list_tree tree (λ req s. refl) (codes "/docs/b.txt") []

abbrev by_path : PanObj
by_path = record note { id = []; path = codes "/docs" }

abbrev get_docs : Text → Bool → Call (List Text) ℕ PanObj
get_docs path must_exist s = (ok docs, s)

collect_item_ids_lem_example :
    ((collect_item_ids get_docs (photo ∷ by_path ∷ []) true []).0.obj_ids
      ≡ ids_of {D = ℕ} (λ path. ok docs) (photo ∷ by_path ∷ []))
    × ((collect_item_ids get_docs (photo ∷ by_path ∷ []) true []).0.reload_dir_ids (codes "p")
        ≡ reloads {D = ℕ} (λ path. ok docs) true (photo ∷ by_path ∷ []) (codes "p"))
collect_item_ids_lem_example =
    collect_item_ids_lem get_docs (λ path. ok docs) (λ path s. refl) (photo ∷ by_path ∷ []) true []
      (codes "p")

abbrev texts_only : Filter
texts_only = record {
  ignore_paths = [];
  ignore_files = codes "b.txt" ∷ [];
  extensions = codes ".txt" ∷ [];
  ignore_extensions = codes ".tmp" ∷ [];
}

skips_png : skips_file texts_only (codes "a.png") ≡ true
unfolding skips_file has_suffix text_eq
skips_png = refl

-- Four bytes of ten are uploaded, in chunks of four.
abbrev reader : ProgressReader
reader = record {
  position = 4;
  limit = 0;
  uploaded = 4;
  chunk_size = 4;
  total_size = 10;
  current_size = 4;
  current_uploaded = 4;
  finish = false;
  events = [];
}

next_chunk_second : (next_chunk reader).0 ≡ (4, 8)
unfolding next_chunk add64 lt64
next_chunk_second = refl

-- The last two bytes, read at once, finish the file.
is_finish-last :
    (is_finish (reads (2 ∷ []) (next_chunk (record reader { uploaded = 8 })).1) ≡ true)
    × (is_finish (reads (1 ∷ []) (next_chunk (record reader { uploaded = 8 })).1) ≡ false)
unfolding next_chunk reads read count_read add64 sub64 lt64
is_finish-last = (refl, refl)

abbrev whole_tree : DownloadPathReq
whole_tree = record {
  remote_path = root_dir;
  local_path = codes "out";
  concurrency = 1;
  chunk_size = 4;
  over_cover = false;
  not_traverse = false;
  skip_file_err = true;
  filter = texts_only;
  name_transfer = none;
}

-- The state lists the names of the files that were asked for; every download fails.
abbrev failing : DownloadFileReq → Call (List Text) ℕ (Unit {0})
failing req s = (err (only_msg (codes "refused")), s ++ req.remote_file.name ∷ [])

download_path_log :
    download_path list_tree failing 2 whole_tree [] ≡ some (ok tt, codes "a.txt" ∷ [])
unfolding download_path text_eq skips_dir skips_file has_suffix
download_path_log = refl

abbrev listed : Result (GoError ℕ) (List PanObj) × List Text → List PanObj
listed (ok objects, s) = objects
listed (err e, s) = []

download_path-IsWithin_example : is_some (download_path list_tree failing 2 whole_tree []) ≡ true
unfolding text_eq
download_path-IsWithin_example =
    download_path-IsWithin list_tree failing tree
      (λ (o : PanObj) (s s' : List Text) (objects : List PanObj)
          (h : (ok (tree o), s) ≡ (ok objects, s')).
        sym (ap listed h))
      2 whole_tree [] refl ((refl, tt), (tt, tt))

abbrev Unskipped : List Text → Type 0
Unskipped = All (λ name. skips_file texts_only name ≡ false)

download_path-Holds_example : Holds Unskipped (download_path list_tree failing 2 whole_tree [])
download_path-Holds_example =
    download_path-Holds list_tree failing Unskipped 2 whole_tree [] (λ l t p. p)
      (λ d t file wanted p.
        All-append (λ name. skips_file texts_only name ≡ false) t (d.remote_file.name ∷ []) p
          (wanted, tt))
      tt

abbrev list_logged : ListReq → Call (List ObjRenameReq) ℕ (List PanObj)
list_logged req s = (ok (tree req.dir), s)

-- Every object gets the name `a.txt`; the note has it.
abbrev same_name : PanObj → Text
same_name o = codes "a.txt"

batch_rename-plan_example :
    batch_rename list_logged log_rename same_name 2 root_dir []
    ≡ done ([] ++ plan tree same_name 2 root_dir)
unfolding text_eq
batch_rename-plan_example =
    batch_rename-plan list_logged tree same_name (λ o s. refl) 2 root_dir [] refl
      ((refl, tt), (tt, tt))

plan_names :
    plan tree same_name 2 root_dir
    ≡ record { obj = docs; new_name = codes "a.txt" }
      ∷ record { obj = photo; new_name = codes "a.txt" }
      ∷ []
unfolding plan plan_objects text_eq
plan_names = refl
