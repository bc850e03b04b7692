-- ===== src/Download/Tasks/Sizes.antt =====
-- The tasks of a list of ranges: their indices, and the progress that they add up to.
use pan_client.Base.{
  ℕ, zero, suc, ◌+◌, ◌-◌, ◌≤◌, ◌<◌, ◌≡◌, refl, ◌∙◌, ap, some, List, [], ◌∷◌, get_elem?, length,
  add64, sub64, add64_small, sub64_small, half64, arith,
}
use pan_client.Download.Ranges.{Range}
use pan_client.Download.Ranges.Chunks.{Tiles}
use pan_client.Download.Merge.{Task}
use pan_client.Download.Tasks.{task_of, cal_task, Progress, count_task, count_tasks}

length-cal_task : (i : ℕ) (rs : List Range) → length (cal_task i rs) ≡ length rs
unfolding cal_task
length-cal_task i [] = refl
length-cal_task i (r ∷ rs) = ap suc (length-cal_task (suc i) rs)

get_elem?-cal_task :
    (i k : ℕ) (rs : List Range) (t : Task) → get_elem? (cal_task i rs) k ≡ some t → t.index ≡ i + k
unfolding cal_task
get_elem?-cal_task i k [] t e = cc
get_elem?-cal_task i zero (r ∷ rs) t e = ground arith
get_elem?-cal_task i (suc k) (r ∷ rs) t e = omega (arith, get_elem?-cal_task (suc i) k rs t e)

-- The task at each place of the list that `calTask` sends has that place for its index, so that the
-- merge, which takes tasks by index, sees each range once; and there is a task for each range.
cal_task-indices :
    (rs : List Range) (k : ℕ) (t : Task)
    → get_elem? (cal_task 0 rs) k ≡ some t
    → (length (cal_task 0 rs) ≡ length rs) × (t.index ≡ k)
cal_task-indices rs k t e = (length-cal_task 0 rs, get_elem?-cal_task 0 k rs t e ∙ omega arith)

count_task_lem :
    (i : ℕ) (r : Range) (p : Progress)
    → r.start ≤ r.end
    → r.end < half64 - 1
    → p.downloaded + suc r.end < half64 + r.start
    → (count_task (task_of i r) p).downloaded ≡ p.downloaded + (suc r.end - r.start)
unfolding count_task task_of
count_task_lem i r p h b c =
    let size : add64 (sub64 r.end r.start) 1 ≡ suc r.end - r.start =
      rw (sub64_small r.end r.start (omega arith) h)
        (add64_small (r.end - r.start) 1 (omega arith) ∙ omega arith) in
    rw size (ground (arith, add64_small p.downloaded (suc r.end - r.start) (omega arith)))

count_task-total : (t : Task) (p : Progress) → (count_task t p).total_size ≡ p.total_size
unfolding count_task
count_task-total t p = ground arith

Tiles-le : (a b : ℕ) (rs : List Range) → Tiles a rs b → a ≤ b
Tiles-le a b [] h = omega arith
Tiles-le a b (r ∷ rs) h = omega (arith, Tiles-le (suc r.end) b rs h.2)

-- The counters over the tasks of ranges that lie end to end from `a` to `b`: starting from `a` bytes,
-- they reach `b`, however the ranges are cut and whichever were complete before.
pub count_tasks-Tiles :
    (i a b : ℕ) (rs : List Range) (p : Progress)
    → Tiles a rs b
    → b < half64 - 1
    → p.downloaded ≡ a
    → ((count_tasks (cal_task i rs) p).downloaded ≡ b)
      × ((count_tasks (cal_task i rs) p).total_size ≡ p.total_size)
unfolding cal_task count_tasks
count_tasks-Tiles i a b [] p h lt e = (e ∙ h, refl)
count_tasks-Tiles i a b (r ∷ rs) p h lt e =
    let inside : suc r.end ≤ b = Tiles-le (suc r.end) b rs h.2 in
    let one = count_task_lem i r p (omega arith) (omega arith) (omega arith) in
    let rest =
      count_tasks-Tiles (suc i) (suc r.end) b rs (count_task (task_of i r) p) h.2 lt
        (one ∙ omega arith) in
    (rest.0, rest.1 ∙ count_task-total (task_of i r) p)
