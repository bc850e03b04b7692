-- ===== src/Drive/File/Examples.antt =====
-- A file that is downloaded twice, where the run of the chunked download leaves its file whole.
use pan_client.Base.{
  ℕ, ◌≡◌, refl, false, if◌then◌else◌, Option, none, some, Text, codes, text_eq, ok,
}
use pan_client.Download.{ChunkDownload}
use pan_client.Client.{DownloadConfig}
use pan_client.Drive.{file_type, Call}
use pan_client.Drive.Tree.{DownloadFileReq}
use pan_client.Drive.File.{
  output_file, base_download_file, over_file, fetch_file, finish_file, file_settings,
}

-- The sizes of the files on the disk.
abbrev Disk : Type 0
Disk = Text → Option ℕ

abbrev run_full : ChunkDownload → Call Disk ℕ (Unit {0})
run_full pd s = (ok tt, λ f. if text_eq f pd.filename then some pd.total_bytes else s f)

abbrev clip : DownloadFileReq
clip = record {
  remote_file = record {
    id = codes "c";
    name = codes "clip.mp4";
    path = codes "/films";
    size = 9;
    type = file_type;
    parent_id = none;
  };
  local_path = codes "out";
  concurrency = 2;
  chunk_size = 4;
  over_cover = false;
}

abbrev config : DownloadConfig
config = record { tmp_path = codes "tmp"; max_thread = 3; max_retry = 2 }

abbrev give_url : DownloadFileReq → Call Disk ℕ Text
give_url req s = (ok (codes "https"), s)

abbrev stat : Text → Disk → Option ℕ
stat f s = s f

abbrev remove : Text → Disk → Disk
remove f s g = if text_eq g f then none else s g

abbrev called : Text → Disk → Disk
called f s = s

downloaded_twice :
    let after =
      (base_download_file config stat remove give_url run_full called clip (λ f. none)).1 in
    (stat (output_file clip) after ≡ some 9)
    × (base_download_file config stat remove give_url run_full called clip after
        ≡ (ok tt, called (output_file clip) after))
unfolding base_download_file over_file fetch_file finish_file file_settings output_file text_eq
downloaded_twice = (refl, refl)
