-- ===== src/Dispatch/Cancel.antt =====
-- The task protocol's cancellation: `cancel`, `uncancel`, `cancelling`.
use rayo.Base.{
  ℕ, Bool, true, false, Option, State, pure, gets, ◌>>=◌, ◌>>◌, ◌+◌, ◌-◌, ◌%◌, ◌^◌, ◌==◌,
  if◌then◌else◌,
}
use rayo.Dispatch.Types.{Object, TaskId, TaskState, EventLoop}
use rayo.Dispatch.Python.{
  Python, future_cancel, task_state, with_state, on_answer, on_some, or_false, print,
}

-- The first lock of `cancel`; the counter is a `u32`.
unfoldable pub request_cancel : Option Object → TaskState → TaskState
request_cancel message t = record t {
  cancel_requests = (t.cancel_requests + 1) % 2 ^ 32;
  cancel_message = message;
}

-- `uncancel` on the state; truncated subtraction is `saturating_sub`.
unfoldable pub withdraw_cancel : TaskState → TaskState
withdraw_cancel t = record t {
  cancel_requests = t.cancel_requests - 1;
  must_cancel = if t.cancel_requests - 1 == 0 then false else t.must_cancel;
}

module _ {W : Type 0} where
  -- The second lock of `cancel`.
  unfoldable pub demand_cancel : TaskId → State (EventLoop W) Bool
  demand_cancel i = do
    t ← gets (task_state i)
    if t.finished
        then pure false
        else do with_state i (λ u. record u { must_cancel = true }); pure true

  unfoldable pub uncancel : TaskId → State (EventLoop W) ℕ
  unfolding withdraw_cancel
  uncancel i = do with_state i withdraw_cancel; gets (λ s. (task_state i s).cancel_requests)

  unfoldable pub cancelling : TaskId → EventLoop W → ℕ
  cancelling i s = (task_state i s).cancel_requests

module _ {W : Type 0} (py : Python W) where
  unfoldable pub cancel : TaskId → Option Object → State (EventLoop W) Bool
  unfolding request_cancel demand_cancel
  cancel i message = do
    t ← gets (task_state i)
    if t.finished then pure false else do
      with_state i (request_cancel message)
      on_some t.waiting_on
          (λ future. do
            answer ← py.call (future_cancel future message)
            on_answer answer
                (λ cancel_result. do
                  absorbed ← py.is_truthy cancel_result
                  if or_false absorbed then pure true else demand_cancel i)
                (λ cancel_error. do print py cancel_error; demand_cancel i))
          (demand_cancel i)
