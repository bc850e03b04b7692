-- ===== src/Quark/Pages.antt =====
-- pan/driver/quark/methods.go: the listings that come in pages of a hundred, `fileSort`, `shareList` and
-- the loop of `shareDetail`.
pub mod Complete
pub mod Shared
use pan_client.Base.{
  ℕ, zero, suc, ◌∷◌, take, drop, length, ◌*◌, ◌%◌, ◌^◌, not, lt64, add64, if◌then◌else◌, List, [],
  ◌++◌, Text, Result, ok, err,
}
use pan_client.Drive.{Call, ◌>>=◌, return, fail}
use pan_client.Http.{ask}
use pan_client.Quark.{File, ShareList, Server, State}
use pan_client.Quark.Replies.{no_return, fun_return_by_success, return_by_status}

abbrev pub page_size : ℕ
page_size = 100

-- The loop over the pages, on fuel: `fetch` gives a page and the total number of items.
unfoldable pub pages :
    {S D A : Type 0} → (ℕ → Call S D (List A × ℕ)) → ℕ → ℕ → List A → Call S D (List A)
pages fetch zero page items = fail no_return
pages fetch (suc fuel) page items = fetch page >>= λ (more, total).
    let rest = pages fetch fuel (add64 page 1) (items ++ more) in
    if not (lt64 ((page * page_size) % 2 ^ 64) total) then return (items ++ more) else rest

-- The result of `get_share_mypage` and of `get_sharepage_detail` is declared before the loop and every
-- page is decoded into it: a decoder that finds an object at an index writes into that object, which
-- the list collected so far points to as well. `cells` are these objects by their index.
abbrev pub overwrite {ℓ} : {A : Type ℓ} → List A → List A → List A
overwrite more cells = more ++ drop (length more) cells

-- What the pages of these lengths, as lists of pointers to the cells, show one after the other.
unfoldable pub shown {ℓ} : {A : Type ℓ} → List ℕ → List A → List A
shown [] cells = []
shown (n ∷ ns) cells = take n cells ++ shown ns cells

-- The loop over pages that share their objects; `ns` are the lengths of the pages so far.
unfoldable pub shared_pages :
    {S D A : Type 0} → (ℕ → Call S D (List A × ℕ)) → ℕ → ℕ → List ℕ → List A → Call S D (List A)
unfolding shown
shared_pages fetch zero page ns cells = fail no_return
shared_pages fetch (suc fuel) page ns cells = fetch page >>= λ (more, total).
    let written = overwrite more cells in
    let seen = ns ++ length more ∷ [] in
    let rest = shared_pages fetch fuel (add64 page 1) seen written in
    if not (lt64 ((page * page_size) % 2 ^ 64) total) then return (shown seen written) else rest

module _ {W D : Type 0} (server : Server W D) where
  open server use {get_file_sort, get_share_mypage, get_sharepage_detail}

  unfoldable pub file_sort : ℕ → Text → Call (State W) D (List File)
  file_sort fuel parent =
      pages (λ page. ask return_by_status (get_file_sort parent page page_size)) fuel 1 []

  unfoldable pub get_share_list : ℕ → Call (State W) D (List ShareList)
  get_share_list fuel =
      shared_pages (λ page. ask fun_return_by_success (get_share_mypage page page_size)) fuel 1 []
        []

  -- `shareDetail`, of whose result the driver reads the list.
  unfoldable pub share_detail : ℕ → Text → Text → Call (State W) D (List File)
  share_detail fuel pwd_id stoken =
      shared_pages
        (λ page. ask fun_return_by_success (get_sharepage_detail pwd_id stoken page page_size)) fuel
        1 [] []
