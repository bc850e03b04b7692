-- ===== src/Drive/Rename.antt =====
-- pan/driver.go: `BaseBatchRename`, which renames what lies in and below a directory. The driver's
-- `List` and `ObjRename` are the parameters `list` and `rename`, `func` the function of the request. The
-- recursion goes through the driver's `BatchRename`, which calls `BaseBatchRename` again; it runs on fuel.
pub mod Plan
use pan_client.Base.{
  ℕ, zero, suc, true, false, not, if◌then◌else◌, none, some, List, [], ◌∷◌, Text, text_eq,
}
use pan_client.Drive.{PanObj, ListReq, is_dir, Call}
use pan_client.Drive.Tree.{Walked, done, then_next, then_objects}

pub record ObjRenameReq : Type 0 where
  pub obj : PanObj
  pub new_name : Text

module _ {S D : Type 0} (list : ListReq → Call S D (List PanObj))
    (rename : ObjRenameReq → Call S D (Unit {0})) (func : PanObj → Text) where
  unfoldable pub rename_object : PanObj → S → Walked S D
  rename_object object s =
      if not (text_eq (func object) object.name)
      then some (rename (record { obj = object; new_name = func object }) s)
      else done s

  -- What lies below a directory comes first.
  unfoldable pub rename_objects : (PanObj → S → Walked S D) → List PanObj → S → Walked S D
  unfolding rename_object
  rename_objects below [] s = done s
  rename_objects below (object ∷ objects) s =
      then_next false (if is_dir object then below object s else done s)
        (λ t. then_next false (rename_object object t) (rename_objects below objects))

  unfoldable pub batch_rename : ℕ → PanObj → S → Walked S D
  unfolding rename_objects
  batch_rename zero path s = none
  batch_rename (suc fuel) path s =
      let below : PanObj → S → Walked S D = batch_rename fuel in
      then_objects (rename_objects below) (list (record { reload = true; dir = path }) s)
