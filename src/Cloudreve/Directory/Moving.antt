-- ===== src/Cloudreve/Directory/Moving.antt =====
-- pan/driver/cloudreve/driver.go: `Move` and `Delete`.
pub mod Grouped
use pan_client.Base.{
  ℕ, Bool, true, false, not, ◌&&◌, ◌||◌, if◌then◌else◌, Option, none, some, List, [], ◌∷◌, ◌++◌,
  Text, codes, text_eq, is_empty, trim, slash, Result, ok, err,
}
use pan_client.Errors.{GoError, only_error, only_msg}
use pan_client.Cache.{GroupDo}
use pan_client.Drive.{
  PanObj, MovieReq, file_type, is_dir, Call, ◌>>=◌, ◌>>◌, return, fail, map_error,
}
use pan_client.Drive.Listings.{del_dirs}
use pan_client.Drive.Collect.{mark, has_id, has_path}
use pan_client.Cloudreve.{Item, Value, Server, State}
use pan_client.Cloudreve.Replies.{no_return, object_delete, object_move}
use pan_client.Cloudreve.Directory.{lookup_obj, mkdir}

-- The map `sameSrc`, by the path of the items.
abbrev pub Groups : Type 0
Groups = List (Text × List PanObj)

unfoldable pub add_item : PanObj → Groups → Groups
add_item item [] = (item.path, item ∷ []) ∷ []
add_item item ((src, items) ∷ groups) =
    let rest = add_item item groups in
    if text_eq src item.path then (src, items ++ item ∷ []) ∷ groups else (src, items) ∷ rest

unfoldable pub same_src : List PanObj → Groups → Groups
unfolding add_item
same_src [] groups = groups
same_src (item ∷ items) groups = same_src items (add_item item groups)

-- `itemIds`, `dirIds` and `reloadDirId`.
pub record Picked : Type 0 where
  pub src : Item
  pub reload_dir_id : Text → Bool

abbrev pub nothing : Picked
nothing = record { src = record { items = []; dirs = [] }; reload_dir_id = λ id. false }

abbrev pub pick_dir : Text → Picked → Picked
pick_dir id p = record {
  src = record { items = p.src.items; dirs = p.src.dirs ++ id ∷ [] };
  reload_dir_id = mark id p.reload_dir_id;
}

abbrev pub pick_file : Text → Picked → Picked
pick_file id p = record {
  src = record { items = p.src.items ++ id ∷ []; dirs = p.src.dirs };
  reload_dir_id = p.reload_dir_id;
}

abbrev pub marked : Text → Picked → Picked
marked id p = record p { reload_dir_id = mark id p.reload_dir_id }

-- The path by which an item without an id is looked for.
abbrev pub look_path : Bool → PanObj → Text
look_path for_delete item =
    if for_delete then item.path else trim slash item.path ++ slash ∷ item.name

module _ {W D : Type 0} where
  -- The id of a parent that may be nil.
  abbrev pub parent_of : Option Text → Call (State W) D Text
  parent_of none = fail no_return
  parent_of (some id) = return id

  -- What the path of an item leads to.
  unfoldable pub pick_found : PanObj → Picked → Call (State W) D Picked
  pick_found obj p =
      if is_dir obj
      then return (pick_dir obj.id p)
      else (parent_of obj.parent_id >>= λ id. return (marked id (pick_file obj.id p)))

  -- An item whose path is not found is left out.
  unfoldable pub pick_result :
      Picked → Result (GoError D) PanObj × State W → Result (GoError D) Picked × State W
  unfolding pick_found
  pick_result p (err e, s) = (ok p, s)
  pick_result p (ok obj, s) = pick_found obj p s

  -- An item that has an id: a move marks the directories only.
  unfoldable pub pick_known : Bool → PanObj → Picked → Call (State W) D Picked
  pick_known for_delete item p =
      if is_dir item
      then return (pick_dir item.id p)
      else (if for_delete
          then (parent_of item.parent_id >>= λ id.
              return (if is_empty id then pick_file item.id p else marked id (pick_file item.id p)))
          else return (pick_file item.id p))

  -- What follows a request: the listings are dropped.
  abbrev pub drop_marked : (Text → Bool) → Call (State W) D (Unit {0})
  drop_marked ids s = (ok tt, del_dirs ids s)

-- `order` is the order in which the loop goes through the map.
module _ {W D : Type 0} (server : Server W D) (group_do : GroupDo Value W (GoError D))
    (order : Groups → Groups) where
  unfoldable pub pick_item : Bool → PanObj → Picked → Call (State W) D Picked
  unfolding pick_known pick_result
  pick_item for_delete item p s =
      if has_id item
      then pick_known for_delete item p s
      else (if has_path item
          then pick_result p (lookup_obj server group_do (look_path for_delete item) true s)
          else (ok p, s))

  unfoldable pub pick_items : Bool → List PanObj → Picked → Call (State W) D Picked
  unfolding pick_item
  pick_items for_delete [] p = return p
  pick_items for_delete (item ∷ items) p =
      pick_item for_delete item p >>= pick_items for_delete items

  unfoldable pub move_group : PanObj → Text × List PanObj → Call (State W) D (Unit {0})
  unfolding pick_items
  move_group target (src, items) = pick_items false items nothing >>= λ p.
      map_error only_error (
        object_move server (record {
          src_dir = src;
          src = p.src;
          dst = trim slash target.path ++ slash ∷ target.name;
        }))
      >> drop_marked (mark target.id p.reload_dir_id)

  unfoldable pub move_groups : PanObj → Groups → Call (State W) D (Unit {0})
  unfolding move_group
  move_groups target [] = return tt
  move_groups target (group ∷ groups) = move_group target group >> move_groups target groups

  unfoldable pub move : ℕ → MovieReq → Call (State W) D (Unit {0})
  unfolding move_groups same_src
  move fuel req =
      let target = req.target_obj in
      let there : Call (State W) D PanObj =
        if is_empty target.id
        then mkdir server group_do fuel
            (record { new_path = trim slash target.path ++ slash ∷ target.name; parent = none })
        else return target in
      if text_eq target.type file_type
      then fail (only_msg (codes "target is a file"))
      else (there >>= λ t. move_groups t (order (same_src req.items [])))

  unfoldable pub delete : List PanObj → Call (State W) D (Unit {0})
  unfolding pick_items
  delete [] = return tt
  delete (item ∷ items) = pick_items true (item ∷ items) nothing >>= λ p.
      if not (is_empty p.src.items) || not (is_empty p.src.dirs)
      then (object_delete server p.src >> drop_marked p.reload_dir_id)
      else return tt
