-- ===== src/Download.antt =====
-- internal/chunk_download.go: the settings of a chunked download, its setters and `ensure`.
pub mod Names
pub mod Ranges
pub mod Merge
pub mod Tasks
mod Examples
use pan_client.Base.{
  ℕ, ◌*◌, Bool, true, not, if◌then◌else◌, Text, is_empty, lt64, Result, ok, err, ◌>>=◌, ◌>>◌,
}

-- The fields of `ChunkDownload` that are no channel, lock or callback. Numbers are int64 patterns.
-- `has_output` says whether `output` is set.
pub record ChunkDownload : Type 0 where
  pub url : Text
  pub concurrency : ℕ
  pub max_retry : ℕ
  pub max_thread : ℕ
  pub has_output : Bool
  pub filename : Text
  pub output_directory : Text
  pub total_bytes : ℕ
  pub chunk_size : ℕ
  pub temp_root_dir : Text
  pub temp_dir : Text

unfoldable pub set_chunk_size : ChunkDownload → ℕ → ChunkDownload
set_chunk_size pd n = record pd { chunk_size = n }

unfoldable pub set_temp_root_dir : ChunkDownload → Text → ChunkDownload
set_temp_root_dir pd dir = record pd { temp_root_dir = dir }

unfoldable pub set_concurrency : ChunkDownload → ℕ → ChunkDownload
set_concurrency pd n = record pd { concurrency = n }

unfoldable pub set_output_file : ChunkDownload → Text → ChunkDownload
set_output_file pd name = record pd { filename = name }

unfoldable pub set_file_size : ChunkDownload → ℕ → ChunkDownload
set_file_size pd n = record pd { total_bytes = n }

unfoldable pub set_output_directory : ChunkDownload → Text → ChunkDownload
set_output_directory pd dir = record pd { output_directory = dir }

unfoldable pub set_max_retry : ChunkDownload → ℕ → ChunkDownload
set_max_retry pd n = record pd { max_retry = n }

unfoldable pub set_max_thread : ChunkDownload → ℕ → ChunkDownload
set_max_thread pd n = record pd { max_thread = n }

-- What the operating system and package filepath answer.
pub record System : Type 0 where
  pub os_temp_dir : Text
  pub abs : Text → Result Text Text
  pub join : Text → Text → Text
  pub md5_hash_str : Text → Text
  pub mkdir_all : Text → Result Text (Unit {0})

-- `if n <= 0 { n = d }`, signed.
unfoldable pub or_default : ℕ → ℕ → ℕ
or_default n d = if not (lt64 0 n) then d else n

-- `ensure` up to the channels and the progress writer that it makes.
unfoldable pub ensure : System → ChunkDownload → Result Text ChunkDownload
unfolding or_default
ensure sys pd = do
  let root = if is_empty pd.temp_root_dir then sys.os_temp_dir else pd.temp_root_dir
  full_path ← sys.abs pd.filename
  let dir = sys.join root (sys.md5_hash_str full_path)
  sys.mkdir_all dir
  ok (record pd {
    concurrency = or_default pd.concurrency 1;
    chunk_size = or_default pd.chunk_size (1024 * 1024 * 10);
    temp_root_dir = root;
    max_retry = or_default pd.max_retry 3;
    max_thread = or_default pd.max_thread 50;
    temp_dir = dir;
  })
