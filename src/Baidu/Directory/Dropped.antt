-- ===== src/Baidu/Directory/Dropped.antt =====
-- Which listings `Move` and `Delete` drop.
use pan_client.Base.{
  ℕ, ◌≡◌, refl, sym, ap, ◌∙◌, inl, inr, Bool-cases, Bool, true, false, not, ◌&&◌, ◌||◌,
  if◌then◌else◌, none, List, [], ◌∷◌, ◌++◌, map, Text, codes, text_eq, trim_right, slash, Result,
  ok, err,
}
use pan_client.Errors.{GoError, only_msg}
use pan_client.Cache.{Cache}
use pan_client.Cache.View.{view}
use pan_client.Drive.{PanObj, MovieReq, file_type}
use pan_client.Drive.Listings.{cache_key, del_dirs, del_dirs-view}
use pan_client.Baidu.{ApiReq, ApiResp, Server, State}
use pan_client.Baidu.Requests.{request, post_form}
use pan_client.Baidu.Requests.Caching.{request-cache}
use pan_client.Baidu.Requests.Files.{FileList, moves, manage}
use pan_client.Baidu.Directory.{dir_path, holds_item, drop_after, move}

module _ {D : Type 0} where
  -- The result of a change that has this answer.
  abbrev pub outcome : Result (GoError D) ApiResp → Result (GoError D) (Unit {0})
  outcome (ok resp) = ok tt
  outcome (err e) = err e

  -- Whether a listing goes with an answer.
  abbrev pub goes : Result (GoError D) ApiResp → Bool → Bool
  goes (ok resp) b = b
  goes (err e) b = false

module _ {W D : Type 0} where
  drop_after-view :
      (now : ℕ) (gone : Text → Bool) (asked : Result (GoError D) ApiResp × State W) (path : Text)
      → let r = drop_after gone asked in
        (r.0 ≡ outcome asked.0)
        × (r.1.1 ≡ asked.1.1)
        × (view now r.1.0 (cache_key path)
            ≡ (if goes asked.0 (gone path) then none else view now asked.1.0 (cache_key path)))
  unfolding drop_after del_dirs
  drop_after-view now gone (err e, s) path = (refl, refl, refl)
  drop_after-view now gone (ok resp, s) path = (refl, refl, del_dirs-view now gone s path)

-- Whether a path is one of these.
abbrev pub among : Text → List Text → Bool
among path [] = false
among path (p ∷ ps) = if text_eq path p then true else among path ps

holds_item-among :
    (items : List PanObj) (path : Text)
    → holds_item items path ≡ among path (map (λ item. item.path) items)
unfolding holds_item
holds_item-among [] path = refl
holds_item-among (item ∷ items) path = elim (Bool-cases (text_eq path item.path)) [
  | inl same ↦ rw (same, holds_item) refl
  | inr other ↦ rw (other, holds_item) (holds_item-among items path)
]

goes_either :
    {D : Type 0} (r : Result (GoError D) ApiResp) (target path : Text) (items : List PanObj)
    → goes r (holds_item items path || text_eq path target)
      ≡ goes r (among path (target ∷ map (λ item. item.path) items))
goes_either r target path items = ap (goes r) (elim (Bool-cases (text_eq path target)) [
  | inl same ↦ rw same (elim (Bool-cases (holds_item items path)) [
    | inl held ↦ rw held refl
    | inr free ↦ rw free refl
  ])
  | inr other ↦ rw other (elim (Bool-cases (holds_item items path)) [
    | inl held ↦ rw held (ap (λ b. b) (sym held ∙ holds_item-among items path))
    | inr free ↦ rw free (sym free ∙ holds_item-among items path)
  ])
])

-- The request of `Move`: all items in their order, each by its whole path, with the path of the target and
-- the name that it keeps.
abbrev pub move_request : (FileList → Text) → Text → List PanObj → ApiReq
move_request marshal target items = record {
  url = codes "https://pan.baidu.com/rest/2.0/xpan/file";
  post = true;
  params = (codes "method", codes "filemanager") ∷ (codes "opera", codes "move") ∷ [];
  form =
      (codes "async", codes "0")
      ∷ (
        codes "filelist",
        marshal (
            moves (
              map (λ item. (trim_right slash item.path ++ slash ∷ item.name, target, item.name))
                items)),
      )
      ∷ (codes "ondup", codes "fail")
      ∷ [];
}

module _ {W D : Type 0} (server : Server W D) (marshal : FileList → Text) where
  -- `Move` to a file is an error that asks nothing and drops nothing. To any other target it sends one
  -- request with all items, in their order, each by its whole path and with the path of the target, and
  -- has its answer; if that is a success, exactly the listings of the target and of the directories that
  -- an item was in are dropped, and every other listing is as it was before; if it is not, every listing
  -- is as it was.
  pub move-del_dirs :
      (req : MovieReq) (s : State W) (now : ℕ) (path : Text)
      → let file = text_eq req.target_obj.type file_type in
        let target = dir_path req.target_obj in
        let asked = request server (move_request marshal target req.items) s in
        let r = move server marshal req s in
        (r.0
          ≡ (if file then err (only_msg (codes "target must be a directory")) else outcome asked.0))
        × (r.1.1 ≡ (if file then s.1 else asked.1.1))
        × (view now r.1.0 (cache_key path) ≡ (
            if not file && goes asked.0 (among path (target ∷ map (λ item. item.path) req.items))
            then none
            else view now s.0 (cache_key path)))
  unfolding move manage post_form
  move-del_dirs req s now path =
      let target = dir_path req.target_obj in
      let asked = request server (move_request marshal target req.items) s in
      let dropped =
        drop_after-view now (λ p. holds_item req.items p || text_eq p target) asked path in
      elim (Bool-cases (text_eq req.target_obj.type file_type)) [
        | inl file ↦ rw (file, move) (refl, refl, refl)
        | inr other ↦
            rw (other, move)
              (
                dropped.0,
                dropped.1,
                dropped.2
                    ∙ ap (λ b. if b then none else view now asked.1.0 (cache_key path))
                        (goes_either asked.0 target path req.items)
                    ∙ ap
                        (λ (c : Cache (List PanObj)).
                          if goes asked.0 (among path (target ∷ map (λ item. item.path) req.items))
                          then none
                          else view now c (cache_key path))
                        (request-cache server (move_request marshal target req.items) s),
              )
      ]
