-- ===== src/Drive/Lookup/Resolve.antt =====
-- `GetPanObj` over directories that can be listed.
use pan_client.Base.{
  ◌≡◌, refl, ap, ◌∙◌, inl, inr, Bool, true, false, Option, none, some, List, [], ◌∷◌, ◌++◌, Text,
  codes, trim, split, slash, Result, ok, err, Option-cases,
}
use pan_client.Errors.{GoError, only_msg, only_error}
use pan_client.Drive.{PanObj, ListReq, Call, relabel, bind}
use pan_client.Drive.Lookup.{
  root_dir, find_name, children, first_found, second_found, next_part, walk, get_pan_obj,
}

-- The object at the end of a path, part by part; empty parts count for nothing.
unfoldable pub resolve : (PanObj → List PanObj) → List Text → PanObj → Option PanObj
resolve tree [] o = some o
resolve tree ([] ∷ parts) o = resolve tree parts o
resolve tree ((b ∷ bs) ∷ parts) o = elim (find_name (b ∷ bs) (tree o)) [
  | some c ↦ resolve tree parts c
  | none ↦ none
]

-- The last object on the way that exists.
unfoldable pub deepest : (PanObj → List PanObj) → List Text → PanObj → PanObj
deepest tree [] o = o
deepest tree ([] ∷ parts) o = deepest tree parts o
deepest tree ((b ∷ bs) ∷ parts) o = elim (find_name (b ∷ bs) (tree o)) [
  | some c ↦ deepest tree parts c
  | none ↦ o
]

abbrev pub answer : {D : Type 0} → Text → Option PanObj → Result (GoError D) PanObj
answer path none = err (only_msg (path ++ codes " not found"))
answer path (some o) = ok o

abbrev pub path_parts : Text → List Text
path_parts path = split slash (trim slash path)

module _ {S D : Type 0} (list : ListReq → Call S D (List PanObj)) (tree : PanObj → List PanObj)
    (lists : (req : ListReq) → (s : S) → list req s ≡ (ok (tree req.dir), s)) where
  children_lem : (o : PanObj) → (s : S) → children list o s ≡ (ok (tree o), s)
  unfolding children
  children_lem o s = ap (relabel only_error) (lists (record { reload = false; dir = o }) s)

  -- `next_part` looks at the tree.
  next_part_lem :
      (must : Bool)
      → (path part : Text) → (o : PanObj) → (s : S)
      → next_part list must path part o s
        ≡ first_found list must path part o (find_name part (tree o)) s
  unfolding next_part
  next_part_lem must path part o s =
      ap (bind (λ first. first_found list must path part o (find_name part first)))
        (children_lem o s)

  next_part-some :
      (must : Bool)
      → (path part : Text) → (o c : PanObj) → (s : S) → find_name part (tree o) ≡ some c
      → next_part list must path part o s ≡ (ok (some c), s)
  next_part-some must path part o c s found =
      next_part_lem must path part o s ∙ ap (λ f. first_found list must path part o f s) found

  next_part-false :
      (path part : Text)
      → (o : PanObj) → (s : S) → find_name part (tree o) ≡ none
      → next_part list false path part o s ≡ (ok none, s)
  next_part-false path part o s missing =
      next_part_lem false path part o s ∙ ap (λ f. first_found list false path part o f s) missing

  next_part-true :
      (path part : Text)
      → (o : PanObj) → (s : S) → find_name part (tree o) ≡ none
      → next_part list true path part o s ≡ (err (only_msg (path ++ codes " not found")), s)
  next_part-true path part o s missing =
      next_part_lem true path part o s
      ∙ ap (λ f. first_found list true path part o f s) missing
      ∙ ap (bind (λ again. second_found list path (find_name part again))) (children_lem o s)
      ∙ ap (λ f. second_found list path f s) missing

  walk-true :
      (path : Text)
      → (parts : List Text) → (o : PanObj) → (s : S)
      → walk list true path parts o s ≡ (answer path (resolve tree parts o), s)
  unfolding walk resolve
  walk-true path [] o s = refl
  walk-true path ([] ∷ parts) o s = walk-true path parts o s
  walk-true path ((b ∷ bs) ∷ parts) o s = elim (Option-cases (find_name (b ∷ bs) (tree o))) [
    | inl missing ↦ rw (next_part-true path (b ∷ bs) o s missing, resolve, missing) refl
    | inr (c, found) ↦
        rw (next_part-some true path (b ∷ bs) o c s found, resolve, found, walk-true path parts c s)
          refl
  ]

  walk-false :
      (path : Text)
      → (parts : List Text) → (o : PanObj) → (s : S)
      → walk list false path parts o s ≡ (ok (deepest tree parts o), s)
  unfolding walk deepest
  walk-false path [] o s = refl
  walk-false path ([] ∷ parts) o s = walk-false path parts o s
  walk-false path ((b ∷ bs) ∷ parts) o s = elim (Option-cases (find_name (b ∷ bs) (tree o))) [
    | inl missing ↦ rw (next_part-false path (b ∷ bs) o s missing, deepest, missing) refl
    | inr (c, found) ↦
        rw
          (
            next_part-some false path (b ∷ bs) o c s found,
            deepest,
            found,
            walk-false path parts c s,
          )
          refl
  ]

  get_pan_obj-true :
      (path : Text)
      → (s : S)
      → get_pan_obj list path true s ≡ (answer path (resolve tree (path_parts path) root_dir), s)
  unfolding get_pan_obj
  get_pan_obj-true path s = walk-true path (path_parts path) root_dir s

  get_pan_obj-false :
      (path : Text)
      → (s : S) → get_pan_obj list path false s ≡ (ok (deepest tree (path_parts path) root_dir), s)
  unfolding get_pan_obj
  get_pan_obj-false path s = walk-false path (path_parts path) root_dir s

  -- Where every directory can be listed, `GetPanObj` of a path that must exist answers the object at the
  -- end of the path, found part by part from the root with empty parts skipped, and where some part is
  -- missing the error that names the path; of a path that need not exist it never fails, and answers the
  -- deepest object on the way that exists.
  pub get_pan_obj_lem :
      (path : Text)
      → (s : S)
      → (get_pan_obj list path true s ≡ (answer path (resolve tree (path_parts path) root_dir), s))
        × (get_pan_obj list path false s ≡ (ok (deepest tree (path_parts path) root_dir), s))
  get_pan_obj_lem path s = (get_pan_obj-true path s, get_pan_obj-false path s)
