-- ===== src/Drive/Filter.antt =====
-- pan/driver.go: which names `BaseUploadPath` and `BaseDownloadPath` leave out, by the loops that the
-- two functions share.
pub mod Wanted
use pan_client.Base.{
  Bool, true, false, not, ◌||◌, ◌&&◌, if◌then◌else◌, List, [], ◌∷◌, Text, text_eq, has_suffix,
}

pub record Filter : Type 0 where
  pub ignore_paths : List Text
  pub ignore_files : List Text
  pub extensions : List Text
  pub ignore_extensions : List Text

-- The loop over `Extensions`: the flag as it is so far, the last pass in it, and `break` at a match.
unfoldable pub match_extensions : List Text → Text → Bool → Bool
match_extensions [] name skip = skip
match_extensions (e ∷ es) name skip =
    if has_suffix name e then false else match_extensions es name true

unfoldable pub match_ignored : List Text → Text → Bool → Bool
match_ignored [] name skip = skip
match_ignored (f ∷ fs) name skip = if text_eq name f then true else match_ignored fs name skip

unfoldable pub match_ignored_extensions : List Text → Text → Bool → Bool
match_ignored_extensions [] name skip = skip
match_ignored_extensions (e ∷ es) name skip =
    if has_suffix name e then true else match_ignored_extensions es name skip

-- `NotUpload` and `NotDownload` of a file.
unfoldable pub skips_file : Filter → Text → Bool
unfolding match_extensions match_ignored match_ignored_extensions
skips_file filter name =
    match_ignored_extensions filter.ignore_extensions name
      (match_ignored filter.ignore_files name (match_extensions filter.extensions name false))

-- The same of a directory.
unfoldable pub skips_dir : Filter → Text → Bool
unfolding match_ignored
skips_dir filter name = match_ignored filter.ignore_paths name false
