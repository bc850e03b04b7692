-- ===== src/Download/Examples.antt =====
-- The download at small inputs.
use pan_client.Base.{
  ℕ, ◌+◌, ◌*◌, ◌≡◌, ◌≢◌, refl, true, false, none, some, List, [], ◌∷◌, ◌++◌, map, All, keep, Text,
  text_eq, codes, take, get_elem?, arith,
}
use pan_client.Download.{ChunkDownload}
use pan_client.Download.Names.{get_range_temp_file}
use pan_client.Download.Names.{get_range_start_end}
use pan_client.Download.Names.RoundTrip.{get_range_start_end-temp_file}
use pan_client.Download.Ranges.{Range, ranges, cal_range, add_range, first_byte}
use pan_client.Download.Ranges.Chunks.{Tiles, Cuts, chunk, add_range-Cut, add_range_diverges}
use pan_client.Download.Ranges.Resume.{IsPiece, is_completed}
use pan_client.Download.Ranges.Leftovers.{entry_of, Put, later, none_left, put}
use pan_client.Download.Ranges.Restart.{cal_range-restart}
use pan_client.Download.Merge.{
  Disk, whole, broken, Task, World, Reach, merged, waiting, completes, looks, receives,
  complete_task, check_map, receive_task, here, next,
}
use pan_client.Download.Merge
use pan_client.Download.Merge.Order.{reads, left_over, contents}
use pan_client.Download.Merge.Steps.{start}
use pan_client.Download.Merge.Schedules.{Reach-prefix, Reach-merged, Reach-awake, Reach-no_tasks}
use pan_client.Download.Tasks.{request_error, error_state, run_task, fails, cal_task, count_tasks}
use pan_client.Download.Tasks.Retries.{run_task-bounded}
use pan_client.Download.Tasks.Sizes.{count_tasks-Tiles}

abbrev thirty : ChunkDownload
thirty = record {
  url = codes "u";
  concurrency = 2;
  max_retry = 1;
  max_thread = 2;
  has_output = false;
  filename = codes "f";
  output_directory = [];
  total_bytes = 30;
  chunk_size = 10;
  temp_root_dir = codes "/tmp";
  temp_dir = codes "/tmp/d";
}

abbrev leftover : ℕ → ℕ → Range
leftover s e = record {
  start = s;
  end = e;
  completed = true;
  file_name = get_range_temp_file s e (codes "/tmp/d");
}

-- The directory lists the second chunk first.
cal_range-restart_example :
    (rs : List Range) × (cal_range 31 thirty
        (some (map entry_of (leftover 20 24 ∷ leftover 0 9 ∷ [])))
        none
      ≡ ranges rs (first_byte thirty none) [])
    × Tiles (first_byte thirty none) rs 30
    × All (IsPiece 10) rs
    × (keep is_completed rs ≡ leftover 0 9 ∷ leftover 20 24 ∷ [])
unfolding first_byte
cal_range-restart_example =
    cal_range-restart 31 thirty none {xs = leftover 20 24 ∷ leftover 0 9 ∷ []}
      {zs = leftover 0 9 ∷ leftover 20 24 ∷ []} (omega arith) (omega arith) (omega arith)
      ((omega arith, omega arith, refl, refl), ((omega arith, omega arith, refl, refl), tt))
      (put (later (leftover 0 9) (Put.here [])) (put (Put.here []) none_left))
      (
        omega arith,
        omega arith,
        omega arith,
        refl,
        (omega arith, omega arith, omega arith, refl, omega arith),
      )

add_range-Cut_example : Cuts 21 thirty 5 25 []
add_range-Cut_example =
    add_range-Cut 21 thirty 5 25 [] (omega arith) (omega arith) (omega arith) (omega arith)

add_range_diverges_example : add_range 1000 (record thirty { chunk_size = 1 }) 0 5 [] ≡ none
add_range_diverges_example =
    add_range_diverges 1000 (record thirty { chunk_size = 1 }) 0 5 [] refl (omega arith)
      (omega arith)

get_range_start_end-temp_file_example :
    get_range_start_end (get_range_temp_file 10 19 (codes "/tmp/d")) ≡ (10, 19)
get_range_start_end-temp_file_example =
    get_range_start_end-temp_file 10 19 (codes "/tmp/d") (omega arith) (omega arith)

abbrev task : ℕ → Text → Task
task i name = record {
  index = i;
  range_start = 10 * i;
  range_end = 10 * i + 9;
  total_size = 10;
  temp_filename = name;
  completed = false;
  retry = 0;
}

-- Two chunks whose files hold their own names.
abbrev two : List Task
two = task 0 (codes "a") ∷ task 1 (codes "b") ∷ []

-- Of the two files the one of the second chunk cannot be removed.
abbrev disk : Disk
disk = record { copy = λ name. whole name; removes = λ name. text_eq name (codes "a") }

-- The second chunk is complete before the first; the merge has then seen and put back its message.
abbrev w0 : World
w0 = start disk two (codes "x")

abbrev w1 : World
w1 = record {
  merge = complete_task (task 1 (codes "b")) w0.merge;
  done = Merge.update w0.done 1 true;
}

abbrev w2 : World
w2 = record w1 { merge = check_map disk 2 w1.merge }

abbrev w3 : World
w3 = record {
  merge = complete_task (task 0 (codes "a")) w2.merge;
  done = Merge.update w2.done 0 true;
}

abbrev w4 : World
w4 = record w3 { merge = receive_task disk 2 1 (task 0 (codes "a")) w3.merge }

abbrev w5 : World
w5 = record w4 { merge = check_map disk 2 w4.merge }

reach3 : Reach disk 2 two w0 w3
unfolding Merge.start_merge check_map complete_task
reach3 =
    next (next (next here (completes (task 1 (codes "b")) w0 refl refl)) (looks w1 refl))
      (completes (task 0 (codes "a")) w2 refl refl)

reach5 : Reach disk 2 two w0 w5
unfolding Merge.start_merge check_map complete_task receive_task
reach5 = next (next reach3 (receives 1 (task 0 (codes "a")) w3 refl refl)) (looks w4 refl)

Reach-merged_example :
    (bytes : Text) × (contents (reads disk) two ≡ some bytes)
    × (w5.merge.output ≡ codes "x" ++ bytes)
unfolding Merge.start_merge check_map complete_task receive_task
Reach-merged_example = Reach-merged disk two (codes "x") reach5 refl

-- A disk on which the copy of the first chunk breaks off.
abbrev broken_disk : Disk
broken_disk = record { copy = λ name. broken (codes "h"); removes = λ name. true }

abbrev failed_merge : World
failed_merge = record w4 { merge = receive_task broken_disk 2 1 (task 0 (codes "a")) w3.merge }

failed_reach : Reach broken_disk 2 two w0 failed_merge
unfolding Merge.start_merge check_map complete_task receive_task
failed_reach =
    next
      (next (next (next here (completes (task 1 (codes "b")) w0 refl refl)) (looks w1 refl))
        (completes (task 0 (codes "a")) w2 refl refl))
      (receives 1 (task 0 (codes "a")) w3 refl refl)

Reach-prefix_example :
    (bytes : Text) × (contents (reads broken_disk) (take failed_merge.merge.next two) ≡ some bytes)
    × (failed_merge.merge.output
        ≡ codes "x"
          ++ (bytes ++ left_over broken_disk two failed_merge.merge.phase failed_merge.merge.next))
    × (failed_merge.merge.removed
        ≡ keep broken_disk.removes (map (λ t. t.temp_filename) (take failed_merge.merge.next two)))
Reach-prefix_example = Reach-prefix broken_disk two (codes "x") failed_reach

broken_output : failed_merge.merge.output ≡ codes "xh"
unfolding Merge.start_merge check_map complete_task receive_task
broken_output = refl

Reach-awake_example :
    (k : ℕ) × (t : Task) × (get_elem? w3.merge.notifying k ≡ some t) × (t.index ≡ w3.merge.next)
unfolding Merge.start_merge check_map complete_task
Reach-awake_example = Reach-awake disk two (codes "x") reach3 refl refl

merged_output : w5.merge.output ≡ codes "xab"
unfolding Merge.start_merge check_map complete_task receive_task
merged_output = refl

Reach-no_tasks_example : (check_map disk 0 (Merge.start_merge [])).phase ≢ merged
Reach-no_tasks_example =
    Reach-no_tasks disk [] (next here (looks (start disk [] []) (unfold Merge.start_merge in refl)))

run_task-bounded_example :
    (run_task thirty (task 0 []) (request_error (codes "e") ∷ error_state (codes "f") ∷ [])
      ≡ fails (codes "f"))
run_task-bounded_example =
    (run_task-bounded thirty (task 0 []) (request_error (codes "e") ∷ []) (error_state (codes "f"))
      [] refl refl (omega arith) (tt, tt) refl tt).0

count_tasks-Tiles_example :
    ((count_tasks
        (cal_task 0 (leftover 0 9 ∷ chunk [] 10 19 ∷ []))
        (record { downloaded = 0; this_downloaded = 0; total_size = 20 })).downloaded
      ≡ 20)
    × ((count_tasks
          (cal_task 0 (leftover 0 9 ∷ chunk [] 10 19 ∷ []))
          (record { downloaded = 0; this_downloaded = 0; total_size = 20 })).total_size
        ≡ 20)
count_tasks-Tiles_example =
    count_tasks-Tiles 0 0 20 (leftover 0 9 ∷ chunk [] 10 19 ∷ [])
      (record { downloaded = 0; this_downloaded = 0; total_size = 20 }) (omega arith) (omega arith)
      refl
