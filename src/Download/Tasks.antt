-- ===== src/Download/Tasks.antt =====
-- internal/chunk_download.go: `calTask`, `handleTask`, `retry`, `calFileName`, the entry of `Do`, and
-- the two progress counters.
pub mod Sizes
pub mod Retries
use pan_client.Base.{
  ℕ, zero, suc, ◌+◌, Bool, true, false, not, ◌&&◌, ltb, ◌==◌, lt64, add64, sub64, if◌then◌else◌,
  Option, none, some, List, [], ◌∷◌, Text, codes, is_empty, split, has_prefix, slash, Result, ok,
  err, ◌>>=◌,
}
use pan_client.Download.{ChunkDownload, System, ensure}
use pan_client.Download.Ranges.{Range}
use pan_client.Download.Merge.{Task}

-- The task for the `i`-th range.
unfoldable pub task_of : ℕ → Range → Task
task_of i r = record {
  index = i;
  range_start = r.start;
  range_end = r.end;
  total_size = add64 (sub64 r.end r.start) 1;
  temp_filename = r.file_name;
  completed = r.completed;
  retry = 0;
}

-- The tasks that `calTask` sends from the `i`-th range on.
unfoldable pub cal_task : ℕ → List Range → List Task
unfolding task_of
cal_task i [] = []
cal_task i (r ∷ rs) = task_of i r ∷ cal_task (suc i) rs

-- What the operating system and the server answer to one attempt.
pub data Attempt : Type 0 where
  open_error request_error error_state : Text → Attempt
  loaded : Attempt

-- Where a task goes: nowhere after a shutdown, to `completeTask` with the bytes that count tries
-- downloaded in this run, back to the queue, or its error to `errCh`.
pub data Handled : Type 0 where
  dropped : Handled
  completes : Task → ℕ → Handled
  requeued : Task → Handled
  fails : Text → Handled

-- `retry`; `max_retry` is an int, compared with its sign.
unfoldable pub retry_task : ChunkDownload → Task → Text → Handled
retry_task pd t e =
    if lt64 t.retry pd.max_retry then requeued (record t { retry = add64 t.retry 1 }) else fails e

attempt_task : ChunkDownload → Task → Attempt → Handled
attempt_task pd t (open_error e) = fails e
attempt_task pd t (request_error e) = retry_task pd t e
attempt_task pd t (error_state e) = retry_task pd t e
attempt_task pd t loaded = completes t t.total_size

unfoldable pub handle_task : ChunkDownload → Bool → Task → Attempt → Handled
unfolding attempt_task retry_task
handle_task pd shutdown t a =
    if shutdown then dropped else if t.completed then completes t 0 else attempt_task pd t a

-- The life of one task over the attempts that the workers make; the queue gives it back to a worker.
unfoldable pub run_task : ChunkDownload → Task → List Attempt → Handled
unfolding handle_task
run_task pd t [] = requeued t
run_task pd t (a ∷ tries) = elim (handle_task pd false t a) [
  | dropped ↦ dropped
  | completes u n ↦ completes u n
  | requeued u ↦ run_task pd u tries
  | fails e ↦ fails e
]

-- The last part of a path that is not empty.
last_filled : List Text → Text
last_filled [] = []
last_filled (p ∷ ps) = let rest = last_filled ps in if is_empty rest then p else rest

behind_first : List Text → List Text
behind_first [] = []
behind_first (p ∷ ps) = ps

or_else : Text → Text → Text
or_else s d = if is_empty s then d else s

-- `calFileName`; `url_path` is `url.Parse` and the path of its answer, and `none` a panic.
unfoldable pub cal_file_name : System → (Text → Option Text) → Text → Text → Text → Option Text
unfolding last_filled behind_first or_else
cal_file_name sys url_path filename output_directory url =
    elim (if is_empty filename then url_path url else some []) [
      | none ↦ none
      | some path ↦
          let found =
            or_else filename
              (or_else (last_filled (behind_first (split slash path))) (codes "download")) in
          if not (is_empty output_directory) && not (has_prefix found (slash ∷ []))
          then some (sys.join output_directory found)
          else some found
    ]

-- `Do` up to the start of the goroutines: the settings that the download runs with. `head` is the
-- content length that the server tells.
unfoldable pub begin_download :
    System → Bool → Result Text ℕ → ChunkDownload → Result Text ChunkDownload
unfolding ensure
begin_download sys shutdown head pd =
    if shutdown
    then err (codes "service is shutdown")
    else (ensure sys pd >>= λ pd'.
        if pd'.total_bytes == 0
        then (head >>= λ n.
            if not (lt64 0 n)
            then err (codes "bad content length")
            else ok (record pd' { total_bytes = n }))
        else ok pd')

-- `progressWriter`: the bytes of the file that are there, and those of this run.
pub record Progress : Type 0 where
  pub downloaded : ℕ
  pub this_downloaded : ℕ
  pub total_size : ℕ

unfoldable pub update_downloading : ℕ → Progress → Progress
update_downloading n p = record p {
  this_downloaded = add64 p.this_downloaded n;
  downloaded = add64 p.downloaded n;
}

unfoldable pub update_downloaded : ℕ → Progress → Progress
update_downloaded n p = record p { downloaded = add64 p.downloaded n }

-- The flag that the progress callback is given.
unfoldable pub is_done : Progress → Bool
is_done p = not (lt64 p.downloaded p.total_size)

-- What `handleTask` adds to the counters when the task is complete.
unfoldable pub count_task : Task → Progress → Progress
unfolding update_downloaded update_downloading
count_task t p =
    if t.completed then update_downloaded t.total_size p else update_downloading t.total_size p

unfoldable pub count_tasks : List Task → Progress → Progress
unfolding count_task
count_tasks [] p = p
count_tasks (t ∷ ts) p = count_tasks ts (count_task t p)
