-- ===== src/Dispatch/Turn.antt =====
-- One scheduler turn of a task: `HandlerTask.__call__`.
pub mod Throws
use rayo.Base.{Bool, true, false, Option, none, some, State, pure, gets, ◌>>=◌, ◌>>◌, if◌then◌else◌}
use rayo.Dispatch.Types.{Object, TaskId, internal_error, cancelled, TaskState, EventLoop}
use rayo.Dispatch.Python.{
  Python, context_enter, context_exit, enter_task, leave_task, future_result, cancelled_error,
  task_state, with_state, on_answer, on_some, print, call_or_print,
}
use rayo.Dispatch.Finish.{finish, dispose}
use rayo.Dispatch.Step.{start, step_once}

-- What the first lock of the turn takes out of the state.
unfoldable pub take_wake : TaskState → TaskState
take_wake t = record t {
  waiting_on = none;
  must_cancel = false;
  cancel_message = none;
  deferred_throw = none;
}

abbrev pub is_none : Option Object → Bool
is_none none = true
is_none (some _) = false

module _ {W : Type 0} (py : Python W) where
  -- The exception that the wake delivers: the finished future's, or the deferred one.
  unfoldable pub wake_throw : Option Object → Option Object → State (EventLoop W) (Option Object)
  wake_throw deferred_throw finished_future =
      on_some finished_future
        (λ future. do
          answer ← py.call (future_result future)
          on_answer answer (λ _. pure deferred_throw) (λ wake_error. pure (some wake_error)))
        (pure deferred_throw)

  abbrev pub already_cancelled : Option Object → Bool
  already_cancelled none = false
  already_cancelled (some error) = py.is_cancelled_error error

  -- A pending cancellation overrides what the wake delivers.
  unfoldable pub cancel_throw :
      Bool → Option Object → Option Object → State (EventLoop W) (Option Object)
  cancel_throw must_cancel cancel_message pending_throw =
      if must_cancel
      then if already_cancelled pending_throw
        then pure pending_throw
        else (do error ← py.new_error (cancelled_error cancel_message); pure (some error))
      else pure pending_throw

  -- The step inside the entered task and context.
  unfoldable pub run_entered :
      TaskId → Object → Object → Option Object → State (EventLoop W) (Unit {0})
  run_entered i coroutine context pending_throw = do
    step_once py i coroutine pending_throw
    call_or_print py (context_exit context)
    call_or_print py (leave_task i)

  unfoldable pub enter : TaskId → Object → Object → Option Object → State (EventLoop W) (Unit {0})
  unfolding run_entered
  enter i coroutine context pending_throw = do
    entered ← py.call (enter_task i)
    on_answer entered
        (λ _. do
          inside ← py.call (context_enter context)
          on_answer inside (λ _. run_entered i coroutine context pending_throw)
              (λ error. do print py error; py.call (leave_task i); dispose py i))
        (λ enter_error. do print py enter_error; dispose py i)

  -- The turn of a task that has its coroutine.
  unfoldable pub resume :
      TaskId → Bool → Option Object → Option Object → Option Object → State (EventLoop W) (Unit {0})
  unfolding wake_throw cancel_throw enter
  resume i must_cancel cancel_message deferred_throw finished_future = do
    woken ← wake_throw deferred_throw finished_future
    pending_throw ← cancel_throw must_cancel cancel_message woken
    t ← gets (task_state i)
    on_some t.coroutine
        (λ coroutine.
          on_some t.context (λ context. enter i coroutine context pending_throw) (pure tt))
        (pure tt)

  unfoldable pub turn : TaskId → Option Object → State (EventLoop W) (Unit {0})
  unfolding take_wake resume
  turn i finished_future = do
    t ← gets (task_state i)
    if t.finished then pure tt else do
      with_state i take_wake
      if is_none t.coroutine
          then (if t.must_cancel
              then finish py i internal_error (cancelled t.cancel_message)
              else (do
                started ← start py i
                if started
                    then resume i t.must_cancel t.cancel_message t.deferred_throw finished_future
                    else pure tt))
          else resume i t.must_cancel t.cancel_message t.deferred_throw finished_future
