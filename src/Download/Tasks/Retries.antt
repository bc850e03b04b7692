-- ===== src/Download/Tasks/Retries.antt =====
-- How often a task is tried.
use pan_client.Base.{
  suc, ◌+◌, ◌≤◌, ◌<◌, ◌≡◌, refl, ◌∙◌, false, Text, List, [], ◌∷◌, ◌++◌, length, All, add64,
  lt64_small, add64_small, half64, lt→ltb, le→ltb, arith,
}
use pan_client.Download.{ChunkDownload}
use pan_client.Download.Merge.{Task}
use pan_client.Download.Tasks.{
  Attempt, open_error, request_error, error_state, loaded, completes, requeued, fails, handle_task,
  retry_task, run_task,
}

-- Attempts that reach the server and fail there.
abbrev pub IsRefused : Attempt → Type 0
IsRefused (open_error e) = ⊥
IsRefused (request_error e) = Unit
IsRefused (error_state e) = Unit
IsRefused loaded = ⊥

abbrev pub message : Attempt → Text
message (open_error e) = e
message (request_error e) = e
message (error_state e) = e
message loaded = []

handle_refused :
    (pd : ChunkDownload) (t : Task) (a : Attempt)
    → IsRefused a
    → t.completed ≡ false
    → handle_task pd false t a ≡ retry_task pd t (message a)
unfolding handle_task
handle_refused pd t (open_error e) r c = absurd r
handle_refused pd t (request_error e) r c = rw c refl
handle_refused pd t (error_state e) r c = rw c refl
handle_refused pd t loaded r c = absurd r

retry_more :
    (pd : ChunkDownload) (t : Task) (e : Text)
    → t.retry < pd.max_retry
    → pd.max_retry < half64
    → retry_task pd t e ≡ requeued (record t { retry = suc t.retry })
unfolding retry_task
retry_more pd t e h b =
    let next : add64 t.retry 1 ≡ suc t.retry = add64_small t.retry 1 (omega arith) ∙ omega arith in
    rw (lt64_small t.retry pd.max_retry (omega arith) b, lt→ltb t.retry pd.max_retry h, next) refl

retry_no_more :
    (pd : ChunkDownload) (t : Task) (e : Text)
    → t.retry ≡ pd.max_retry
    → pd.max_retry < half64
    → retry_task pd t e ≡ fails e
unfolding retry_task
retry_no_more pd t e h b =
    rw (lt64_small t.retry pd.max_retry (omega arith) b, le→ltb t.retry pd.max_retry (omega arith))
      refl

-- After failing attempts of which there are at most tries many tries retries are left, the task is back
-- in the queue with that many retries used.
run_task-refused :
    (pd : ChunkDownload) (t : Task) (tries rest : List Attempt)
    → t.completed ≡ false
    → All IsRefused tries
    → t.retry + length tries ≤ pd.max_retry
    → pd.max_retry < half64
    → run_task pd t (tries ++ rest) ≡ run_task pd (record t { retry = t.retry + length tries }) rest
unfolding run_task
run_task-refused pd t [] rest c r h b =
    let same : t.retry + 0 ≡ t.retry = omega arith in rw same refl
run_task-refused pd t (a ∷ tries) rest c r h b =
    let t' = record t { retry = suc t.retry } in
    let moved : suc t.retry + length tries ≡ t.retry + suc (length tries) = omega arith in
    rw (handle_refused pd t a r.0 c, retry_more pd t (message a) (omega arith) b, run_task)
      (run_task-refused pd t' tries rest c r.1 (omega arith) b ∙ rw moved refl)

-- A task that is new and not complete gets `maxRetry` further attempts after its first: when each of
-- `maxRetry` attempts is refused and so is the next, the download fails with the last message,
-- whatever would follow; when a successful attempt follows the refused ones instead, the task is complete with its whole size.
pub run_task-bounded :
    (pd : ChunkDownload) (t : Task) (tries : List Attempt) (a : Attempt) (rest : List Attempt)
    → t.completed ≡ false
    → t.retry ≡ 0
    → pd.max_retry < half64
    → All IsRefused tries
    → length tries ≡ pd.max_retry
    → IsRefused a
    → (run_task pd t (tries ++ a ∷ rest) ≡ fails (message a))
      × (run_task pd t (tries ++ loaded ∷ rest)
          ≡ completes (record t { retry = pd.max_retry }) t.total_size)
unfolding run_task
run_task-bounded pd t tries a rest c z b r n refused = (
  run_task-refused pd t tries (a ∷ rest) c r (omega arith) b
      ∙ rw
          (
            used,
            handle_refused pd last a refused c,
            retry_no_more pd last (message a) refl b,
            run_task,
          )
          refl,
  run_task-refused pd t tries (loaded ∷ rest) c r (omega arith) b
      ∙ rw used (unfold handle_task in rw c refl),
)
  where
    used : t.retry + length tries ≡ pd.max_retry
    used = omega arith

    last : Task
    last = record t { retry = pd.max_retry }
