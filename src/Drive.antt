-- ===== src/Drive.antt =====
-- pan/item.go and the parts of pan/driver.go that all drivers share: the objects, and computations
-- that call the server.
pub mod Lookup
pub mod Collect
pub mod Filter
pub mod Reader
pub mod Tree
pub mod File
pub mod Rename
pub mod Upload
pub mod Proxy
pub mod Listings
mod Examples
use pan_client.Base.{ℕ, Bool, ◌≡◌, refl, arith, Option, List, Text, codes, text_eq, Result, ok, err}
use pan_client.Errors.{GoError}

-- `PanObj` without `Ext`, which nothing reads, and of `Parent` the `Id`.
pub record PanObj : Type 0 where
  pub id : Text
  pub name : Text
  pub path : Text
  pub size : ℕ
  pub type : Text
  pub parent_id : Option Text

pub record ListReq : Type 0 where
  pub reload : Bool
  pub dir : PanObj

pub record MkdirReq : Type 0 where
  pub new_path : Text
  pub parent : Option PanObj

pub record MovieReq : Type 0 where
  pub items : List PanObj
  pub target_obj : PanObj

pub record DiskResp : Type 0 where
  pub total : ℕ
  pub free : ℕ
  pub used : ℕ

abbrev pub dir_type : Text
dir_type = codes "dir"

abbrev pub file_type : Text
file_type = codes "file"

abbrev pub is_dir : PanObj → Bool
is_dir o = text_eq o.type dir_type

-- A call works on a state `S`, the caches of the driver and whatever the server keeps, and returns a
-- value or an error.
abbrev pub Call : Type 0 → Type 0 → Type 0 → Type 0
Call S D A = S → Result (GoError D) A × S

module _ {S D : Type 0} where
  abbrev pub bind :
      {A B : Type 0} → (A → Call S D B) → Result (GoError D) A × S → Result (GoError D) B × S
  bind f (ok a, s) = f a s
  bind f (err e, s) = (err e, s)

  infixl 5 ◌>>=◌ ◌>>◌
  abbrev pub ◌>>=◌ : {A B : Type 0} → Call S D A → (A → Call S D B) → Call S D B
  ◌>>=◌ m f s = bind f (m s)

  abbrev pub ◌>>◌ : {B : Type 0} → Call S D (Unit {0}) → Call S D B → Call S D B
  m >> k = m >>= λ u. k

  abbrev pub return : {A : Type 0} → A → Call S D A
  return a s = (ok a, s)

  abbrev pub fail : {A : Type 0} → GoError D → Call S D A
  fail e s = (err e, s)

  abbrev pub relabel :
      {A : Type 0} → (GoError D → GoError D) → Result (GoError D) A × S → Result (GoError D) A × S
  relabel f (ok a, s) = (ok a, s)
  relabel f (err e, s) = (err (f e), s)

  -- The error of a call, seen through a function.
  abbrev pub map_error : {A : Type 0} → (GoError D → GoError D) → Call S D A → Call S D A
  map_error f m s = relabel f (m s)

  -- What follows an error.
  abbrev pub on_error :
      {A : Type 0} → (GoError D → Call S D A) → Result (GoError D) A × S → Result (GoError D) A × S
  on_error f (ok a, s) = (ok a, s)
  on_error f (err e, s) = f e s

  pub bind-ok :
      {A B : Type 0} (f : A → Call S D B) (r : Result (GoError D) A × S) (a : A)
      → r.0 ≡ ok a
      → bind f r ≡ f a r.1
  bind-ok f (ok b, s) a e = ground arith
  bind-ok f (err e', s) a e = ground arith

  pub bind-err :
      {A B : Type 0} (f : A → Call S D B) (r : Result (GoError D) A × S) (e : GoError D)
      → r.0 ≡ err e
      → bind f r ≡ (err e, r.1)
  bind-err f (ok b, s) e h = ground arith
  bind-err f (err e', s) e h = ground arith
