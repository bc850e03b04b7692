-- ===== src/Cloudreve.antt =====
-- pan/driver/cloudreve: the driver of one of the drives. Its types, what its cache holds, and its server as the
-- driver sees it.
pub mod Replies
pub mod Start
pub mod Directory
pub mod Upload
mod Examples
use pan_client.Base.{ℕ, Bool, Option, none, some, List, [], Text, codes, Result}
use pan_client.Errors.{GoError}
use pan_client.Cache.{Cache}
use pan_client.Drive.{PanObj}
use pan_client.Drive.Reader.{ProgressReader}
use pan_client.Http.{Reply}

-- The fields of `CloudreveProperties` that the operations read or change.
pub record CloudreveProperties : Type 0 where
  pub url : Text
  pub session : Text
  pub refresh_time : ℕ
  pub type : Text
  pub chunk_size : ℕ

-- Of the configuration of the site whether its user is anonymous, with the cookies of the answer.
pub record SiteConfig : Type 0 where
  pub anonymous : Bool
  pub cookies : List (Text × Text)

pub record Storage : Type 0 where
  pub used : ℕ
  pub free : ℕ
  pub total : ℕ

pub record Object : Type 0 where
  pub id : Text
  pub name : Text
  pub path : Text
  pub size : ℕ
  pub type : Text

-- Of the policy, which may be nil, its id.
pub record ObjectList : Type 0 where
  pub objects : List Object
  pub policy : Option Text

pub record Item : Type 0 where
  pub items : List Text
  pub dirs : List Text

pub record ItemRenameReq : Type 0 where
  pub src : Item
  pub new_name : Text

pub record ItemMoveReq : Type 0 where
  pub src_dir : Text
  pub src : Item
  pub dst : Text

-- `LastModified`, the time of the local file, and `MimeType`, which no caller gives, are left out.
pub record CreateUploadSessionReq : Type 0 where
  pub path : Text
  pub size : ℕ
  pub name : Text
  pub policy_id : Text

-- The fields of `UploadCredential` that the driver reads; `chunk_size` is a uint64.
pub record UploadCredential : Type 0 where
  pub session_id : Text
  pub chunk_size : ℕ
  pub upload_urls : List Text
  pub credential : Text

pub record Sources : Type 0 where
  pub url : Text
  pub name : Text

-- What the driver keeps in its cache, each kind under its own prefix.
pub data Value : Type 0 where
  listing : List PanObj → Value
  policy : Option Text → Value
  session : UploadCredential → Value
  uploaded : ℕ → Value
  err_times : ℕ → Value

-- A chunk is sent with its reader: what comes back is whether the answer is an error and its text, and how
-- many bytes each read of the body was given.
abbrev pub SentChunk : Type 0 → Type 0 → Type 0
SentChunk W D = Result (GoError D) (Bool × Text) × (List ℕ × W)

-- What is outside of the driver, over a world `W` with a clock in it: the server, where the chunks go, and `notify`, which tells the client
-- of changed properties.
-- Every file is sent to the address of its session, with the length of the chunk, and its range, or the credential and its number.
pub record Server (W D : Type 0) : Type 0 where
  pub clock : W → ℕ
  pub notify : CloudreveProperties → W → W
  pub get_config : W → Reply D SiteConfig × W
  pub get_storage : W → Reply D Storage × W
  pub get_directory : Text → W → Reply D ObjectList × W
  pub put_directory : Text → W → Reply D (Unit {0}) × W
  pub delete_object : Item → W → Reply D (Unit {0}) × W
  pub patch_object : ItemMoveReq → W → Reply D (Unit {0}) × W
  pub post_rename : ItemRenameReq → W → Reply D (Unit {0}) × W
  pub put_upload : CreateUploadSessionReq → W → Reply D UploadCredential × W
  pub delete_upload : Text → W → Reply D (Unit {0}) × W
  pub delete_uploads : W → Reply D (Unit {0}) × W
  pub put_download : Text → W → Reply D Text × W
  pub post_source : List Text → W → Reply D (List Sources) × W
  pub post_callback : Text → W → Reply D (Unit {0}) × W
  pub put_chunk : Text → Text → Text → ProgressReader → W → SentChunk W D
  pub post_chunk : Text → Text → Text → Text → ProgressReader → W → SentChunk W D

-- The state of the driver: its cache, and the world.
abbrev pub State : Type 0 → Type 0
State W = Cache Value × W
