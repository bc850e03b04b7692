-- ===== src/Client/Options.antt =====
-- What the options of a client come to.
use pan_client.Base.{
  ℕ, ◌≡◌, refl, ap, ◌∙◌, inl, inr, Bool, true, false, not, lt64, if◌then◌else◌, none, List, [], ◌∷◌,
  ◌++◌, Text, codes, is_empty, Bool-cases,
}
use pan_client.Client.{
  DownloadConfig, apply_defaults, ClientOption, ClientOptions, apply_each, apply_opts,
  with_download_max_thread,
}

-- The settings that the downloads count on: a directory, a positive number of threads and of retries.
abbrev pub IsUsable : DownloadConfig → Type 0
IsUsable dc =
    (is_empty dc.tmp_path ≡ false) × (lt64 0 dc.max_thread ≡ true) × (lt64 0 dc.max_retry ≡ true)

or_default-positive : (n d : ℕ) → lt64 0 d ≡ true → lt64 0 (if not (lt64 0 n) then d else n) ≡ true
or_default-positive n d h = elim (Bool-cases (lt64 0 n)) [
  | inl positive ↦ rw (positive) positive
  | inr other ↦ rw (other) h
]

tmp_path-full : (p : Text) → is_empty (if is_empty p then codes "./download_tmp" else p) ≡ false
tmp_path-full [] = refl
tmp_path-full (c ∷ p) = refl

not_swap : (b : Bool) → (d n : ℕ) → (if not b then d else n) ≡ (if b then n else d)
not_swap true d n = refl
not_swap false d n = refl

apply_defaults-IsUsable : (dc : DownloadConfig) → IsUsable (apply_defaults dc)
unfolding apply_defaults lt64
apply_defaults-IsUsable dc = (
  tmp_path-full dc.tmp_path,
  or_default-positive dc.max_thread 50 refl,
  or_default-positive dc.max_retry 3 refl,
)

apply_each-append :
    {F X : Type 0}
    → (ps qs : List (ClientOption F X)) → (o : ClientOptions F X)
    → apply_each (ps ++ qs) o ≡ apply_each qs (apply_each ps o)
unfolding apply_each
apply_each-append [] qs o = refl
apply_each-append (p ∷ ps) qs o = apply_each-append ps qs (p o)

-- Whatever the options are, the settings of the client can be used; and of two settings of the threads
-- the later one counts, unless it is not positive, and then the number is 50.
apply_opts-IsUsable :
    {F X : Type 0}
    → (background : X) → (opts : List (ClientOption F X)) → (n : ℕ)
    → IsUsable (apply_opts background opts).download_config
      × ((apply_opts background
            (opts ++ with_download_max_thread n ∷ [])).download_config.max_thread
          ≡ (if lt64 0 n then n else 50))
unfolding apply_opts apply_each apply_defaults
apply_opts-IsUsable {F = F} {X = X} background opts n =
    let start : ClientOptions F X = record {
      on_change = none;
      ctx = background;
      download_config = record { tmp_path = []; max_thread = 0; max_retry = 0 };
      proxy_url = [];
    } in
    (
      apply_defaults-IsUsable (apply_each opts start).download_config,
      ap (λ o. (apply_defaults o.download_config).max_thread)
            (apply_each-append opts (with_download_max_thread n ∷ []) start)
          ∙ not_swap (lt64 0 n) 50 n,
    )
