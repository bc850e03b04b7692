-- ===== src/Drive/File.antt =====
-- pan/driver.go: `BaseDownloadFile`, which downloads a file unless it is there, and the settings that it
-- hands to the chunked download.
mod Examples
use pan_client.Base.{
  ℕ, Bool, true, false, not, ◌&&◌, ◌==◌, if◌then◌else◌, Option, none, some, [], ◌++◌, Text, codes,
  text_eq, Result, ok, err,
}
use pan_client.Errors.{GoError, only_msg}
use pan_client.Download.{
  ChunkDownload, set_chunk_size, set_temp_root_dir, set_concurrency, set_output_file, set_file_size,
  set_max_retry, set_max_thread,
}
use pan_client.Client.{DownloadConfig}
use pan_client.Drive.{file_type, Call, bind, fail}
use pan_client.Drive.Tree.{DownloadFileReq}

abbrev pub new_chunk_download : Text → ChunkDownload
new_chunk_download url = record {
  url = url;
  concurrency = 0;
  max_retry = 0;
  max_thread = 0;
  has_output = false;
  filename = [];
  output_directory = [];
  total_bytes = 0;
  chunk_size = 0;
  temp_root_dir = [];
  temp_dir = [];
}

unfoldable pub output_file : DownloadFileReq → Text
output_file req = req.local_path ++ codes "/" ++ req.remote_file.name

unfoldable pub file_settings : DownloadConfig → DownloadFileReq → Text → ChunkDownload
unfolding set_chunk_size set_temp_root_dir set_concurrency set_output_file set_file_size
    set_max_retry set_max_thread
file_settings config req url =
    let sized = set_file_size (new_chunk_download url) req.remote_file.size in
    let cut = set_concurrency (set_chunk_size sized req.chunk_size) req.concurrency in
    let placed = set_temp_root_dir (set_output_file cut (output_file req)) config.tmp_path in
    set_max_thread (set_max_retry placed config.max_retry) config.max_thread

-- `stat` is `IsExistFile`, the size of a file that is there; `remove` is `os.Remove`; `download_url` the
-- driver's; `run` is `Do`; `called` the `DownloadCallback` of the request, or nothing.
module _ {S D : Type 0} (config : DownloadConfig) (stat : Text → S → Option ℕ)
    (remove : Text → S → S) (download_url : DownloadFileReq → Call S D Text)
    (run : ChunkDownload → Call S D (Unit {0})) (called : Text → S → S) where
  unfoldable pub finish_file :
      Text → Result (GoError D) (Unit {0}) × S → Result (GoError D) (Unit {0}) × S
  finish_file output (ok u, s) = (ok u, called output s)
  finish_file output (err e, s) = (err e, s)

  unfoldable pub fetch_file : DownloadFileReq → Call S D (Unit {0})
  unfolding finish_file file_settings
  fetch_file req s =
      bind (λ url t. finish_file (output_file req) (run (file_settings config req url) t))
        (download_url req s)

  -- The file that is there: of another size, to be written over, or as it should be.
  unfoldable pub over_file : DownloadFileReq → Option ℕ → Call S D (Unit {0})
  unfolding fetch_file
  over_file req none s = fetch_file req s
  over_file req (some size) s =
      if size == req.remote_file.size
      then (if not req.over_cover
          then (ok tt, called (output_file req) s)
          else fetch_file req (remove (output_file req) s))
      else fetch_file req s

  unfoldable pub base_download_file : DownloadFileReq → Call S D (Unit {0})
  unfolding over_file
  base_download_file req s =
      if not (text_eq req.remote_file.type file_type)
      then (err (only_msg (codes "only support download file")), s)
      else over_file req (stat (output_file req) s) s
