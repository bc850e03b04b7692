-- ===== src/Drive/Filter/Wanted.antt =====
-- What the loops over the extensions and the ignored names come to.
use pan_client.Base.{
  ◌≡◌, refl, ap, ◌∙◌, Bool, true, false, not, ◌||◌, is_empty, List, [], ◌∷◌, Text, text_eq,
  has_suffix, arith,
}
use pan_client.Drive.Filter.{
  Filter, match_extensions, match_ignored, match_ignored_extensions, skips_file,
}

unfoldable pub any : (Text → Bool) → List Text → Bool
any p [] = false
any p (t ∷ ts) = p t || any p ts

match_extensions-true :
    (es : List Text)
    → (name : Text) → match_extensions es name true ≡ not (any (has_suffix name) es)
unfolding match_extensions any
match_extensions-true [] name = refl
match_extensions-true (e ∷ es) name = ground (arith, match_extensions-true es name)

match_extensions-false :
    (es : List Text)
    → (name : Text) → match_extensions es name false ≡ not (is_empty es || any (has_suffix name) es)
unfolding match_extensions any
match_extensions-false [] name = refl
match_extensions-false (e ∷ es) name = ground (arith, match_extensions-true es name)

match_ignored_lem :
    (fs : List Text)
    → (name : Text) → (skip : Bool) → match_ignored fs name skip ≡ (any (text_eq name) fs || skip)
unfolding match_ignored any
match_ignored_lem [] name skip = refl
match_ignored_lem (f ∷ fs) name skip = ground (arith, match_ignored_lem fs name skip)

match_ignored_extensions_lem :
    (es : List Text)
    → (name : Text) → (skip : Bool)
    → match_ignored_extensions es name skip ≡ (any (has_suffix name) es || skip)
unfolding match_ignored_extensions any
match_ignored_extensions_lem [] name skip = refl
match_ignored_extensions_lem (e ∷ es) name skip =
    ground (arith, match_ignored_extensions_lem es name skip)

-- A file is left out exactly if its name ends in an ignored extension, or is an ignored name, or
-- extensions are asked for and it ends in none of them.
pub skips_file_lem :
    (filter : Filter)
    → (name : Text)
    → skips_file filter name ≡ (
        any (has_suffix name) filter.ignore_extensions
        || (any (text_eq name) filter.ignore_files
            || not (is_empty filter.extensions || any (has_suffix name) filter.extensions)))
unfolding skips_file
skips_file_lem filter name =
    match_ignored_extensions_lem filter.ignore_extensions name
      (match_ignored filter.ignore_files name (match_extensions filter.extensions name false))
    ∙ ap (λ b. any (has_suffix name) filter.ignore_extensions || b)
        (match_ignored_lem filter.ignore_files name (match_extensions filter.extensions name false)
          ∙ ap (λ b. any (text_eq name) filter.ignore_files || b)
              (match_extensions-false filter.extensions name))
