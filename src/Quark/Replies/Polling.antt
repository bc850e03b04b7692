-- ===== src/Quark/Replies/Polling.antt =====
-- A task of the server is waited for.
use pan_client.Base.{
  ℕ, zero, suc, ◌<◌, ◌≡◌, ap, ◌∙◌, ◌==◌, true, false, if◌then◌else◌, List, is_empty, Result, ok,
  arith,
}
use pan_client.Errors.{GoError}
use pan_client.Cache.{Cache}
use pan_client.Drive.{PanObj, Call, ◌>>=◌, return, bind-ok}
use pan_client.Http.{ask, world}
use pan_client.Quark.{Server, State, Task, TaskDoing}
use pan_client.Quark.Replies.{fun_return_by_success, task_query, check_task_success}

module _ {W D : Type 0} (server : Server W D) (doing : TaskDoing) where
  abbrev reply : W → Result (GoError D) Task
  reply w = fun_return_by_success (server.get_task doing.task_id (server.sleep doing.tq_gap w)).0

  -- The world after one wait and one query.
  abbrev pub next : W → W
  next w = (server.get_task doing.task_id (server.sleep doing.tq_gap w)).1

  -- The server says `n` times that the task is not finished, and then that it is.
  abbrev pub FinishesAfter : ℕ → W → Type 0
  FinishesAfter zero w = (q : Task) × (reply w ≡ ok q) × ((q.status == 2) ≡ true)
  FinishesAfter (suc n) w =
      (q : Task) × (reply w ≡ ok q) × ((q.status == 2) ≡ false) × FinishesAfter n (next w)

  abbrev pub after : ℕ → W → W
  after zero w = w
  after (suc n) w = after n (next w)

  asks_once :
      (fuel : ℕ) (c : Cache (List PanObj)) (w : W) (q : Task)
      → is_empty doing.task_id ≡ false
      → reply w ≡ ok q
      → check_task_success server (suc fuel) false doing (c, w)
        ≡ check_task_success server fuel (q.status == 2) doing (c, next w)
  unfolding check_task_success task_query
  asks_once fuel c w q given answer =
      let go : Task → Call (State W) D (Unit {0}) =
        λ query. check_task_success server fuel (query.status == 2) doing in
      let wait : Call (State W) D (Unit {0}) =
        world (server.sleep doing.tq_gap) (task_query server doing.task_id >>= go) in
      ap (λ b. (if b then return tt else wait) (c, w)) given
      ∙ bind-ok go
          (ask fun_return_by_success (server.get_task doing.task_id)
            (c, server.sleep doing.tq_gap w))
          q answer

  -- A task that is not finished at once and has an id: if the server says so many times that it is not
  -- finished and then that it is, the loop asks exactly as often, waits before each question, and ends
  -- without an error; a round for each question and one more is enough.
  pub check_task_success_lem :
      (fuel n : ℕ) (c : Cache (List PanObj)) (w : W)
      → is_empty doing.task_id ≡ false
      → suc n < fuel
      → FinishesAfter n w
      → check_task_success server fuel false doing (c, w) ≡ (ok tt, (c, after (suc n) w))
  unfolding check_task_success
  check_task_success_lem zero n c w given enough finishes = absurd (omega (arith, enough))
  check_task_success_lem (suc zero) n c w given enough finishes = absurd (omega (arith, enough))
  check_task_success_lem (suc (suc fuel)) zero c w given enough (q, answer, finished) =
      asks_once (suc fuel) c w q given answer
      ∙ ap (λ b. check_task_success server (suc fuel) b doing (c, next w)) finished
  check_task_success_lem (suc (suc fuel)) (suc n) c w given enough (q, answer, busy, rest) =
      asks_once (suc fuel) c w q given answer
      ∙ ap (λ b. check_task_success server (suc fuel) b doing (c, next w)) busy
      ∙ check_task_success_lem (suc fuel) n c (next w) given (omega arith) rest
