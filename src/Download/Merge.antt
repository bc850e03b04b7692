-- ===== src/Download/Merge.antt =====
-- internal/chunk_download.go: `completeTask`, `popTask` and `mergeFile`. Workers complete tasks in
-- any order; one goroutine takes them in the order of their indices and appends their files.
pub mod Order
pub mod Steps
pub mod Schedules
use pan_client.Base.{
  ℕ, zero, suc, ◌+◌, ◌≡◌, Bool, true, false, ◌==◌, leb, if◌then◌else◌, Option, none, some, List, [],
  ◌∷◌, ◌++◌, Text, get_elem?,
}

pub record Task : Type 0 where
  pub index : ℕ
  pub range_start : ℕ
  pub range_end : ℕ
  pub total_size : ℕ
  pub temp_filename : Text
  pub completed : Bool
  pub retry : ℕ

-- Where `mergeFile` stands: before the look into `taskMap`, in the `select` of `popTask`, behind the
-- loop, returned after an error, or returned because of `doneCh` or a shutdown.
pub data Phase : Type 0 where
  checking waiting merged failed aborted : Phase

-- The merge goes on.
abbrev pub is_active : Phase → Bool
is_active checking = true
is_active waiting = true
is_active merged = false
is_active failed = false
is_active aborted = false

-- `notifying` are the goroutines of `completeTask` that wait to send on `taskNotifyCh`; `next` is
-- the `i` of `mergeFile`; `output` is what the output file holds;
-- `removed` are the temporary files that `os.Remove` has removed.
pub record Merge : Type 0 where
  pub task_map : ℕ → Option Task
  pub notifying : List Task
  pub next : ℕ
  pub phase : Phase
  pub output : Text
  pub removed : List Text

abbrev pub update {ℓ} : {A : Type ℓ} → (ℕ → A) → ℕ → A → ℕ → A
update f k a j = if j == k then a else f j

unfoldable pub complete_task : Task → Merge → Merge
complete_task t m = record m {
  task_map = update m.task_map t.index (some t);
  notifying = m.notifying ++ t ∷ [];
}

-- What `os.Open` and `io.Copy` make of a temporary file: an error of the first, an error of the
-- second behind the bytes that were copied, or all its bytes.
pub data Copied : Type 0 where
  missing : Copied
  broken : Text → Copied
  whole : Text → Copied

-- The operating system: how a file is copied, and whether `os.Remove`, whose error is not looked at,
-- removes it.
pub record Disk : Type 0 where
  pub copy : Text → Copied
  pub removes : Text → Bool

-- The body of the loop of `mergeFile` behind `popTask`; `count` is the number of tasks, `lastIndex + 1`.
append_file : ℕ → Task → Bool → Copied → Merge → Merge
append_file count t gone missing m = record m { phase = failed }
append_file count t gone (broken part) m = record m { output = m.output ++ part; phase = failed }
append_file count t gone (whole bytes) m = record m {
  output = m.output ++ bytes;
  removed = if gone then m.removed ++ t.temp_filename ∷ [] else m.removed;
  next = suc m.next;
  phase = if leb count (suc m.next) then merged else checking;
}

pub merge_task : Disk → ℕ → Task → Merge → Merge
unfolding append_file
merge_task disk count t m =
    append_file count t (disk.removes t.temp_filename) (disk.copy t.temp_filename)
      (record m { task_map = update m.task_map m.next none })

take_mapped : Disk → ℕ → Option Task → Merge → Merge
take_mapped disk count none m = record m { phase = waiting }
take_mapped disk count (some t) m = merge_task disk count t m

-- The look of `popTask` into `taskMap`.
unfoldable pub check_map : Disk → ℕ → Merge → Merge
unfolding take_mapped merge_task
check_map disk count m = take_mapped disk count (m.task_map m.next) m

pub remove_at {ℓ} : {A : Type ℓ} → ℕ → List A → List A
remove_at k [] = []
remove_at zero (x ∷ xs) = xs
remove_at (suc k) (x ∷ xs) = x ∷ remove_at k xs

-- A receive of `popTask` from the `k`-th of the goroutines that wait to send.
unfoldable pub receive_task : Disk → ℕ → ℕ → Task → Merge → Merge
unfolding merge_task remove_at
receive_task disk count k t m =
    let rest = record m { notifying = remove_at k m.notifying } in
    if t.index == m.next
    then merge_task disk count t rest
    else record rest { task_map = update m.task_map t.index (some t) }

-- `mergeFile` starts with the output file as it is.
unfoldable pub start_merge : Text → Merge
start_merge output = record {
  task_map = λ k. none;
  notifying = [];
  next = 0;
  phase = checking;
  output = output;
  removed = [];
}

-- The merge beside the workers; `done` says which tasks were downloaded.
pub record World : Type 0 where
  pub merge : Merge
  pub done : ℕ → Bool

-- The interleavings: a worker completes one of the tasks, once; the merge looks into the map; it
-- receives from any goroutine that waits; it is told to stop, if it has not ended.
pub data Step (disk : Disk) (count : ℕ) (tasks : List Task) : World → World → Type 0 where
  completes :
      (t : Task) (w : World)
      → get_elem? tasks t.index ≡ some t
      → w.done t.index ≡ false
      → Step disk count tasks w
          (record { merge = complete_task t w.merge; done = update w.done t.index true })
  looks :
      (w : World)
      → w.merge.phase ≡ checking
      → Step disk count tasks w (record w { merge = check_map disk count w.merge })
  receives :
      (k : ℕ) (t : Task) (w : World)
      → w.merge.phase ≡ waiting
      → get_elem? w.merge.notifying k ≡ some t
      → Step disk count tasks w (record w { merge = receive_task disk count k t w.merge })
  stops :
      (w : World)
      → is_active w.merge.phase ≡ true
      → Step disk count tasks w (record w { merge = record w.merge { phase = aborted } })

pub data Reach (disk : Disk) (count : ℕ) (tasks : List Task) (s : World) : World → Type 0 where
  here : Reach disk count tasks s s
  next :
      {w v : World}
      → Reach disk count tasks s w
      → Step disk count tasks w v
      → Reach disk count tasks s v
