-- ===== src/Quark.antt =====
-- pan/driver/quark: the driver of one of the drives. Its types, and its server as the driver sees it.
pub mod Replies
pub mod Pages
pub mod Directory
pub mod Upload
pub mod Share
mod Examples
use pan_client.Base.{ℕ, Bool, List, Text, codes}
use pan_client.Http.{Reply}
use pan_client.Cache.{Cache}
use pan_client.Drive.{PanObj}

-- The fields of `File` that the driver reads.
pub record File : Type 0 where
  pub fid : Text
  pub file_name : Text
  pub file_type : ℕ
  pub size : ℕ
  pub dir : Bool
  pub share_fid_token : Text

-- `TaskDoing` with `TqGap` of its `TaskMeta`.
pub record TaskDoing : Type 0 where
  pub task_id : Text
  pub finish : Bool
  pub tq_gap : ℕ

pub record Task : Type 0 where
  pub status : ℕ
  pub share_id : Text

pub record MemberData : Type 0 where
  pub total_capacity : ℕ
  pub use_capacity : ℕ

pub record ShareList : Type 0 where
  pub title : Text
  pub share_id : Text
  pub share_url : Text
  pub passcode : Text

pub record ShareReq : Type 0 where
  pub fid_list : List Text
  pub title : Text
  pub url_type : ℕ
  pub expired_type : ℕ
  pub passcode : Text

pub record SharePasswordData : Type 0 where
  pub title : Text
  pub share_url : Text
  pub passcode : Text

pub record RestoreReq : Type 0 where
  pub fid_list : List Text
  pub fid_token_list : List Text
  pub to_pdir_fid : Text
  pub pwd_id : Text
  pub stoken : Text
  pub pdir_fid : Text
  pub scene : Text

-- The requests of the driver, over a world `W` with a clock in it. A page of a listing comes with the
-- field `_total` of its metadata; `sleep` takes milliseconds.
pub record Server (W D : Type 0) : Type 0 where
  pub clock : W → ℕ
  pub sleep : ℕ → W → W
  pub get_member : W → Reply D MemberData × W
  pub get_task : Text → W → Reply D Task × W
  pub get_file_sort : Text → ℕ → ℕ → W → Reply D (List File × ℕ) × W
  pub post_file : Text → Text → W → Reply D Text × W
  pub post_file_delete : List Text → W → Reply D TaskDoing × W
  pub post_file_move : List Text → Text → W → Reply D TaskDoing × W
  pub post_file_rename : Text → Text → W → Reply D TaskDoing × W
  pub post_file_download : List Text → W → Reply D (List Text) × W
  pub random_word : W → Text × W
  pub post_share : ShareReq → W → Reply D TaskDoing × W
  pub post_share_password : Text → W → Reply D SharePasswordData × W
  pub get_share_mypage : ℕ → ℕ → W → Reply D (List ShareList × ℕ) × W
  pub post_share_delete : List Text → W → Reply D (Unit {0}) × W
  pub post_share_token : Text → Text → W → Reply D Text × W
  pub get_sharepage_detail : Text → Text → ℕ → ℕ → W → Reply D (List File × ℕ) × W
  pub post_sharepage_save : RestoreReq → W → Reply D TaskDoing × W

-- The state of the driver: its cache of directories, and the world.
abbrev pub State : Type 0 → Type 0
State W = Cache (List PanObj) × W
