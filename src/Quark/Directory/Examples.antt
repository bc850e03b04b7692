-- ===== src/Quark/Directory/Examples.antt =====
-- A directory is made on a small server.
use pan_client.Base.{
  ℕ, zero, suc, ◌*◌, ◌-◌, ◌≤◌, ◌<◌, ◌≡◌, refl, inl, inr, true, false, if◌then◌else◌, List, [], ◌∷◌,
  Text, codes, text_eq, text_eq→eq, text_eq_refl, lt64, take, drop, length, half64, Bool-cases,
  some, rel, trim, split, has_prefix, clean_path, arith,
}
use pan_client.Errors.{GoError, other}
use pan_client.Cache.{GroupDo, new_cache}
use pan_client.Drive.{PanObj}
use pan_client.Drive.Lookup.{root_dir}
use pan_client.Http.{Reply, answered, failed}
use pan_client.Quark.{File, TaskDoing, Server}
use pan_client.Quark.Replies.{return_by_status, fun_return_by_success}
use pan_client.Quark.Pages.{page_size}
use pan_client.Quark.Directory.Making.{find_dir, target_path, mkdir_parts}
use pan_client.Quark.Directory.Making.Found.{Grows, Created, Leads, mkdir_parts_lem}

abbrev answer_of : {T : Type 0} → T → ℕ → Reply Text T × ℕ
answer_of body w = (
  answered false (record { status = 200; code = 0; msg = []; body = tt })
      (record { status = 200; code = 0; msg = []; body = body }),
  w,
)

abbrev docs_dir : File
docs_dir = record {
  fid = codes "new";
  file_name = codes "docs";
  file_type = 0;
  size = 0;
  dir = true;
  share_fid_token = [];
}

-- From the first request on that creates it, every directory has a directory `docs`.
abbrev kids_at : Text → ℕ → List File
kids_at id zero = []
kids_at id (suc w) = docs_dir ∷ []

abbrev page_at : Text → ℕ → ℕ → Reply Text (List File × ℕ) × ℕ
page_at id zero w = (failed (other (codes "no page")), w)
page_at id (suc k) w =
    answer_of (take page_size (drop (k * page_size) (kids_at id w)), length (kids_at id w)) w

abbrev make_docs : Text → Text → ℕ → Reply Text Text × ℕ
make_docs name id w =
    if text_eq name (codes "docs")
    then answer_of (codes "new") (suc w)
    else (failed (other (codes "no")), w)

abbrev no_task : TaskDoing
no_task = record { task_id = []; finish = true; tq_gap = 0 }

abbrev docs_server : Server ℕ Text
docs_server = record {
  clock = λ w. w;
  sleep = λ ms w. w;
  get_member = answer_of (record { total_capacity = 0; use_capacity = 0 });
  get_task = λ id. answer_of (record { status = 2; share_id = [] });
  get_file_sort = λ id page size. page_at id page;
  post_file = make_docs;
  post_file_delete = λ ids. answer_of no_task;
  post_file_move = λ ids id. answer_of no_task;
  post_file_rename = λ id name. answer_of no_task;
  post_file_download = λ ids. answer_of [];
  random_word = λ w. (codes "word", w);
  post_share = λ req. answer_of no_task;
  post_share_password = λ id. answer_of (record { title = []; share_url = []; passcode = [] });
  get_share_mypage = λ page size. answer_of ([], 0);
  post_share_delete = λ ids. answer_of tt;
  post_share_token = λ id code. answer_of (codes "s");
  get_sharepage_detail = λ id token page size. answer_of ([], 0);
  post_sharepage_save = λ req. answer_of no_task;
}

abbrev run_alone : GroupDo (List PanObj) ℕ (GoError Text)
run_alone key f s = f s

few_kids :
    (id : Text) (w : ℕ)
    → (length (kids_at id w) < half64 - 200) × (length (kids_at id w) ≤ 1 * page_size)
few_kids id zero = (omega arith, omega arith)
few_kids id (suc w) = (omega arith, omega arith)

docs-Grows : (w : ℕ) → Grows kids_at w (suc w)
docs-Grows zero id name there = absurd (cc there)
docs-Grows (suc w) id name there = refl

make_docs-Created :
    (name id : Text) (w : ℕ)
    → let answer = make_docs name id w in
      Created kids_at id name w (fun_return_by_success answer.0) answer.1
unfolding fun_return_by_success
make_docs-Created name id w = elim (Bool-cases (text_eq name (codes "docs"))) [
  | inr refused ↦ rw refused (λ j n there. refl)
  | inl docs ↦ rw docs ((found docs, refl), docs-Grows w)
]
  where
    found : text_eq name (codes "docs") ≡ true → find_dir name (docs_dir ∷ []) ≡ codes "new"
    found docs = rw (text_eq→eq name (codes "docs") docs, text_eq_refl (codes "docs")) refl

mkdir_parts_lem_example :
    let r =
      mkdir_parts docs_server run_alone 2
        (codes "0")
        []
        (codes "docs" ∷ codes "docs" ∷ [])
        (new_cache 5, 0) in
    Leads kids_at (codes "0") (codes "docs" ∷ codes "docs" ∷ []) 0 r.0 r.1.1
unfolding return_by_status lt64
mkdir_parts_lem_example =
    mkdir_parts_lem docs_server run_alone kids_at 1 few_kids (λ id k w. (refl, λ j. refl))
      make_docs-Created (λ ms w j. refl) (codes "docs" ∷ codes "docs" ∷ []) (codes "0") []
      (new_cache 5, 0)

-- Below the root the path that is looked for begins with two slashes.
target_path_root :
    target_path (record { new_path = codes "x"; parent = some root_dir }) ≡ codes "//x"
unfolding target_path text_eq trim
target_path_root = refl

rel_below : rel (codes "/a") (codes "/a/b/c") ≡ some (codes "b/c")
unfolding rel has_prefix split text_eq clean_path
rel_below = refl

-- A directory that is there, and its path with two slashes.
rel_same : rel (codes "/x") (codes "//x") ≡ some (codes ".")
unfolding rel has_prefix split text_eq clean_path
rel_same = refl
