-- ===== src/Drive/Reader.antt =====
-- pan/driver.go: `ProgressReader`, which reads a file chunk by chunk for an upload, and
-- `ProgressWriter`. Times, speeds and percentages are left out; `events` lists what the callback is told.
pub mod Chunks
pub mod Retry
pub mod Place
use pan_client.Base.{
  ℕ, zero, suc, Bool, true, false, not, ltb, ◌==◌, add64, sub64, lt64, if◌then◌else◌, Option, none,
  some, List, [], ◌∷◌, ◌++◌, Text, codes, length, Result, ok, err,
}
use pan_client.Errors.{GoError, only_error, only_msg}

pub record ProgressEvent : Type 0 where
  pub operated : ℕ
  pub total : ℕ
  pub done : Bool

-- `position` is the offset of the file, `limit` the `N` of the `io.LimitedReader`; numbers are int64
-- patterns. `currentChunkNum`, which nothing reads, is left out.
pub record ProgressReader : Type 0 where
  pub position : ℕ
  pub limit : ℕ
  pub uploaded : ℕ
  pub chunk_size : ℕ
  pub total_size : ℕ
  pub current_size : ℕ
  pub current_uploaded : ℕ
  pub finish : Bool
  pub events : List ProgressEvent

abbrev pub min64 : ℕ → ℕ → ℕ
min64 a b = if lt64 b a then b else a

-- The bounds of the chunk, and the reader with the chunk begun.
unfoldable pub next_chunk : ProgressReader → (ℕ × ℕ) × ProgressReader
next_chunk pr =
    let end = min64 pr.total_size (add64 pr.uploaded pr.chunk_size) in
    (
      (pr.uploaded, end),
      record pr {
        limit = pr.chunk_size;
        current_size = sub64 end pr.uploaded;
        current_uploaded = 0;
      },
    )

-- The part of `Read` for `n > 0`.
unfoldable pub count_read : ℕ → ProgressReader → ProgressReader
count_read n pr =
    let current = add64 pr.current_uploaded n in
    let operated = add64 pr.uploaded current in
    let uploaded =
      if pr.current_size == current then add64 pr.uploaded pr.current_size else pr.uploaded in
    let finish = if uploaded == pr.total_size then true else pr.finish in
    record pr {
      current_uploaded = current;
      uploaded = uploaded;
      finish = finish;
      events =
          pr.events ++ record { operated = operated; total = pr.total_size; done = finish } ∷ [];
    }

abbrev pub if_read : ℕ → ProgressReader → ProgressReader
if_read zero pr = pr
if_read (suc m) pr = count_read (suc m) pr

-- `Read` where the limited reader gives `n` bytes; a cancelled context gives none.
unfoldable pub read : Bool → ℕ → ProgressReader → ℕ × ProgressReader
unfolding count_read
read true n pr = (0, pr)
read false n pr =
    let taken = record pr { position = add64 pr.position n; limit = sub64 pr.limit n } in
    (n, if_read n taken)

-- The reads of a request's body, one after the other.
unfoldable pub reads : List ℕ → ProgressReader → ProgressReader
unfolding read
reads [] pr = pr
reads (n ∷ ns) pr = reads ns (read false n pr).1

-- `seeks` tells whether the file can be moved; the fields are set before it is.
unfoldable pub reset_chunk : Bool → ℕ → ProgressReader → Bool × ProgressReader
reset_chunk seeks saved pr = (
  seeks,
  record pr {
    uploaded = saved;
    current_uploaded = 0;
    position = if seeks then saved else pr.position;
  },
)

-- `IsFinish`, on which the loops of the drivers over the chunks end.
abbrev pub is_finish : ProgressReader → Bool
is_finish pr = pr.finish

pub record FileStat : Type 0 where
  pub size : ℕ
  pub is_dir : Bool

module _ {D : Type 0} where
  open_reader : Text → ℕ → ℕ → (ℕ → ℕ) → FileStat → Result (GoError D) ProgressReader
  open_reader local_file chunk_size uploaded seek stat =
      let reader : ProgressReader = record {
        position = if lt64 0 uploaded then seek uploaded else 0;
        limit = 0;
        uploaded = uploaded;
        chunk_size = chunk_size;
        total_size = stat.size;
        current_size = 0;
        current_uploaded = 0;
        finish = false;
        events = [];
      } in
      if stat.is_dir
      then err (only_msg (local_file ++ codes " not a file"))
      else (if lt64 0 uploaded
          then (if seek uploaded == 0
              then err (only_msg (local_file ++ codes " seek file failed"))
              else ok reader)
          else ok reader)

  -- `opened` is what `os.Open` and `Stat` give, and `seek` the offset that `Seek` answers, 0 where it
  -- fails. The division by a chunk size of 0 panics and is left to the caller.
  unfoldable pub new_process_reader :
      Text → ℕ → ℕ → Result (GoError D) FileStat → (ℕ → ℕ) → Result (GoError D) ProgressReader
  unfolding open_reader
  new_process_reader local_file chunk_size uploaded (err e) seek = err (only_error e)
  new_process_reader local_file chunk_size uploaded (ok stat) seek =
      open_reader local_file chunk_size uploaded seek stat

-- `written` is the field `uploaded`.
pub record ProgressWriter : Type 0 where
  pub written : ℕ
  pub total_size : ℕ
  pub events : List ProgressEvent

abbrev pub new_progress_writer : ℕ → ProgressWriter
new_progress_writer total = record { written = 0; total_size = total; events = [] }

unfoldable pub write : ProgressWriter → Text → ProgressWriter
write pw bytes =
    let written = add64 pw.written (length bytes) in
    record pw {
      written = written;
      events =
          pw.events
          ++ record {
            operated = written;
            total = pw.total_size;
            done = not (lt64 written pw.total_size);
          }
            ∷ [];
    }
