-- ===== src/Baidu.antt =====
-- pan/driver/baidu_netdisk: the driver of one of the drives. Its types, and its server as the driver sees
-- it.
pub mod Requests
pub mod Directory
pub mod Upload
mod Examples
use pan_client.Base.{ℕ, Bool, List, Text, Result}
use pan_client.Errors.{GoError}
use pan_client.Cache.{Cache}
use pan_client.Drive.{PanObj}

-- The fields of `BaiduProperties` that the driver reads and changes.
pub record BaiduProperties : Type 0 where
  pub client_id : Text
  pub client_secret : Text
  pub refresh_token : Text
  pub access_token : Text

-- The fields of `BaiduFile` that the driver reads.
pub record BaiduFile : Type 0 where
  pub fs_id : ℕ
  pub path : Text
  pub server_filename : Text
  pub size : ℕ
  pub isdir : ℕ

-- An answer of the token server, of either kind: `failed` says whether its status is an error.
pub record TokenResp : Type 0 where
  pub failed : Bool
  pub error : Text
  pub error_description : Text
  pub access_token : Text
  pub refresh_token : Text

-- A request with its parameters, and its form if it is posted.
pub record ApiReq : Type 0 where
  pub url : Text
  pub post : Bool
  pub params : List (Text × Text)
  pub form : List (Text × Text)

-- What the driver reads out of the body of an answer, in whichever type it decodes it; a field that is
-- not there has its zero value.
pub record ApiResp : Type 0 where
  pub errno : ℕ
  pub list : List BaiduFile
  pub file : BaiduFile
  pub info : BaiduFile
  pub return_type : ℕ
  pub upload_id : Text
  pub block_list : List ℕ
  pub dlinks : List Text
  pub servers : List Text
  pub bak_servers : List Text
  pub total : ℕ
  pub used : ℕ
  pub vip_type : ℕ

-- The answer to a slice: its text, and the two codes that are looked for in it.
pub record SliceResp : Type 0 where
  pub text : Text
  pub error_code : ℕ
  pub errno : ℕ

-- What is outside of the driver, over a world `W` with a clock in it: the servers, the sleep in
-- milliseconds, and `notify`, which tells the client of changed properties. `send` takes the access token;
-- `head_location` is the header Location of the answer to a HEAD request.
pub record Server (W D : Type 0) : Type 0 where
  pub clock : W → ℕ
  pub sleep : ℕ → W → W
  pub notify : BaiduProperties → W → W
  pub get_token : Text → Text → Text → W → Result (GoError D) TokenResp × W
  pub send : Text → ApiReq → W → Result (GoError D) ApiResp × W
  pub head_location : Text → W → Result (GoError D) Text × W
  pub post_slice :
      Text → List (Text × Text) → Text → Text → ℕ → W → Result (GoError D) SliceResp × W

-- The state of the driver: its cache of directories, its properties, and the world.
abbrev pub State : Type 0 → Type 0
State W = Cache (List PanObj) × (BaiduProperties × W)
