-- ===== src/Drive/Lookup.antt =====
-- pan/driver.go: `GetPanObj`, the walk from the root along a path.
pub mod Resolve
use pan_client.Base.{
  Bool, true, false, Option, none, some, List, [], ◌∷◌, ◌++◌, Text, codes, text_eq, is_empty, trim,
  split, slash, if◌then◌else◌, Result, ok, err,
}
use pan_client.Errors.{GoError, only_error, only_msg}
use pan_client.Drive.{PanObj, ListReq, dir_type, Call, ◌>>=◌, return, fail, map_error}

abbrev pub root_dir : PanObj
root_dir = record {
  id = codes "0";
  name = [];
  path = slash ∷ [];
  size = 0;
  type = dir_type;
  parent_id = none;
}

unfoldable pub find_name : Text → List PanObj → Option PanObj
find_name name [] = none
find_name name (o ∷ os) = if text_eq o.name name then some o else find_name name os

module _ {S D : Type 0} (list : ListReq → Call S D (List PanObj)) where
  -- The children of the target; a listing is not reloaded.
  unfoldable pub children : PanObj → Call S D (List PanObj)
  children target = map_error only_error (list (record { reload = false; dir = target }))

  -- The second look at the children, of a part that must exist.
  abbrev pub second_found : Text → Option PanObj → Call S D (Option PanObj)
  second_found path (some o) = return (some o)
  second_found path none = fail (only_msg (path ++ codes " not found"))

  abbrev pub first_found : Bool → Text → Text → PanObj → Option PanObj → Call S D (Option PanObj)
  first_found must_exist path part target (some o) = return (some o)
  first_found false path part target none = return none
  first_found true path part target none =
      children target >>= λ again. second_found path (find_name part again)

  -- `none` stands for a part that does not exist where it need not.
  unfoldable pub next_part : Bool → Text → Text → PanObj → Call S D (Option PanObj)
  next_part must_exist path part target =
      children target >>= λ first. first_found must_exist path part target (find_name part first)

  unfoldable pub walk : Bool → Text → List Text → PanObj → Call S D PanObj
  unfolding next_part
  walk must_exist path [] target = return target
  walk must_exist path ([] ∷ parts) target = walk must_exist path parts target
  walk must_exist path ((c ∷ cs) ∷ parts) target =
      next_part must_exist path (c ∷ cs) target >>= λ found. elim found [
        | some o ↦ walk must_exist path parts o
        | none ↦ return target
      ]

  unfoldable pub get_pan_obj : Text → Bool → Call S D PanObj
  unfolding walk
  get_pan_obj path must_exist = walk must_exist path (split slash (trim slash path)) root_dir
