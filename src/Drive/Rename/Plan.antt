-- ===== src/Drive/Rename/Plan.antt =====
-- The renamings that `BaseBatchRename` asks for, in their order.
use pan_client.Base.{
  ℕ, zero, suc, ◌≡◌, refl, sym, ap, ◌∙◌, inl, inr, true, false, not, if◌then◌else◌, List, [], ◌∷◌,
  ◌++◌, append-nil, append_assoc, All, Text, text_eq, ok, Bool-cases, arith,
}
use pan_client.Drive.{PanObj, ListReq, is_dir, Call}
use pan_client.Drive.Tree.{Walked, done, then_next, then_objects}
use pan_client.Drive.Tree.Depth.{IsWithin}
use pan_client.Drive.Rename.{ObjRenameReq, rename_object, rename_objects, batch_rename}

-- The renaming of one object, where its name changes.
abbrev pub plan_object : (PanObj → Text) → PanObj → List ObjRenameReq
plan_object func o =
    if not (text_eq (func o) o.name) then record { obj = o; new_name = func o } ∷ [] else []

unfoldable pub plan_objects :
    (PanObj → Text) → (PanObj → List ObjRenameReq) → List PanObj → List ObjRenameReq
plan_objects func below [] = []
plan_objects func below (o ∷ os) =
    (if is_dir o then below o else []) ++ (plan_object func o ++ plan_objects func below os)

-- The renamings in a tree: of each directory those below it and then its own.
unfoldable pub plan : (PanObj → List PanObj) → (PanObj → Text) → ℕ → PanObj → List ObjRenameReq
plan tree func zero o = []
plan tree func (suc depth) o = plan_objects func (plan tree func depth) (tree o)

-- A server that renames whatever it is asked to, and lists what it was asked.
abbrev pub log_rename : {D : Type 0} → ObjRenameReq → Call (List ObjRenameReq) D (Unit {0})
log_rename req s = (ok tt, s ++ req ∷ [])

module _ {D : Type 0} (list : ListReq → Call (List ObjRenameReq) D (List PanObj))
    (tree : PanObj → List PanObj) (func : PanObj → Text)
    (lists : (o : PanObj)
      → (s : List ObjRenameReq)
      → list (record { reload = true; dir = o }) s ≡ (ok (tree o), s)) where
  rename_object-plan :
      (o : PanObj)
      → (s : List ObjRenameReq)
      → rename_object list log_rename func o s ≡ done (s ++ plan_object func o)
  unfolding rename_object
  rename_object-plan o s = elim (Bool-cases (text_eq (func o) o.name)) [
    | inl same ↦ rw (same) (ap done (sym (append-nil s)))
    | inr other ↦ rw (other) refl
  ]

  rename_objects-plan :
      (depth : ℕ)
      → (below : PanObj → List ObjRenameReq → Walked (List ObjRenameReq) D)
      → ((o : PanObj)
          → (s : List ObjRenameReq) → is_dir o ≡ true
          → IsWithin tree depth o
          → below o s ≡ done (s ++ plan tree func depth o))
      → (objects : List PanObj) → (s : List ObjRenameReq) → All (IsWithin tree depth) objects
      → rename_objects list log_rename func below objects s
        ≡ done (s ++ plan_objects func (plan tree func depth) objects)
  unfolding rename_objects plan_objects
  rename_objects-plan depth below plans [] s within = ap done (sym (append-nil s))
  rename_objects-plan depth below plans (o ∷ os) s within =
      let first = if is_dir o then plan tree func depth o else [] in
      let rest = plan_objects func (plan tree func depth) os in
      ap
        (λ w. then_next false w (λ t.
          then_next false (rename_object list log_rename func o t)
            (rename_objects list log_rename func below os)))
        below_first
      ∙ ap (λ w. then_next false w (rename_objects list log_rename func below os))
          (rename_object-plan o (s ++ first))
      ∙ rename_objects-plan depth below plans os ((s ++ first) ++ plan_object func o) (within.1)
      ∙ ap done (
          append_assoc (s ++ first) (plan_object func o) rest
          ∙ append_assoc s first (plan_object func o ++ rest))
    where
      below_first :
          (if is_dir o then below o s else done s)
          ≡ done (s ++ (if is_dir o then plan tree func depth o else []))
      below_first = elim (Bool-cases (is_dir o)) [
        | inl dir ↦ rw (dir) (plans o s dir (within.0))
        | inr file ↦ rw (file) (ap done (sym (append-nil s)))
      ]

  -- Over a tree of directories of bounded depth and a server that renames what it is asked to,
  -- `BaseBatchRename` ends without an error and asks, once each and in this order, for the objects whose
  -- names the function changes: of every directory for all that lie below it before its own.
  pub batch_rename-plan :
      (depth : ℕ)
      → (o : PanObj) → (s : List ObjRenameReq) → is_dir o ≡ true
      → IsWithin tree depth o
      → batch_rename list log_rename func depth o s ≡ done (s ++ plan tree func depth o)
  unfolding batch_rename plan
  batch_rename-plan zero o s dir within = ground arith
  batch_rename-plan (suc depth) o s dir within =
      ap
        (then_objects
          (rename_objects list log_rename func (batch_rename list log_rename func depth)))
        (lists o s)
      ∙ rename_objects-plan depth (batch_rename list log_rename func depth)
          (λ c t d w. batch_rename-plan depth c t d w) (tree o) s within
