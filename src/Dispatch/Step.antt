-- ===== src/Dispatch/Step.antt =====
-- One advance of a handler's coroutine: `start`, `send_step`, `throw_step`, `park_on_future`,
-- `step_once` and what they call.
use rayo.Base.{
  Bool, true, false, Option, none, some, State, pure, gets, ◌>>=◌, ◌>>◌, ◌==◌, if◌then◌else◌,
}
use rayo.Dispatch.Types.{
  Object, TaskId, internal_error, StepOutcome, returned, raised, yielded, ParkOutcome, parked,
  bad_yield, park_failed, value, exception, cancelled, aborted, EventLoop,
}
use rayo.Dispatch.Python.{
  SendResult, pygen_return, pygen_next, pygen_error, Python, handler_call, copy_context,
  register_task, throw, stop_iteration_value, error_args, first_item, blocking_flag,
  clear_blocking_flag, get_loop, add_done_callback, future_cancel, close, call_soon, NewError,
  not_awaitable, yield_for_await, different_loop, task_state, with_state, on_answer, on_some,
  or_false, print, call_or_print,
}
use rayo.Dispatch.Respond.{report_handler_error, response_from_return_value}
use rayo.Dispatch.Finish.{finish, dispose}

module _ {W : Type 0} (py : Python W) where
  -- The part of `start` behind the two calls that may fail.
  unfoldable pub install : TaskId → Object → Object → State (EventLoop W) Bool
  install i coroutine context = do
    with_state i (λ t. record t { coroutine = some coroutine; context = some context })
    answer ← py.call (register_task i)
    on_answer answer (λ _. with_state i (λ t. record t { registered_with_asyncio = true }))
        (print py)
    pure true

  unfoldable pub start : TaskId → State (EventLoop W) Bool
  unfolding install
  start i = do
    task ← gets (λ s. s.tasks i)
    built ← py.call (handler_call task.handler task.handler_kwargs)
    on_answer built
        (λ coroutine. do
          copied ← py.call copy_context
          on_answer copied (install i coroutine) (λ error. do
            print py error
            call_or_print py (close coroutine)
            finish py i internal_error aborted
            pure false))
        (λ factory_error. do
          response ← report_handler_error py factory_error
          finish py i response (exception factory_error)
          pure false)

  -- The match on `send_status`.
  abbrev pub sent_step : SendResult → StepOutcome
  sent_step (pygen_return v) = returned v
  sent_step (pygen_next v) = yielded v
  sent_step (pygen_error e) = raised e

  unfoldable pub send_step : Object → State (EventLoop W) StepOutcome
  send_step coroutine = do step_result ← py.send coroutine; pure (sent_step step_result)

  unfoldable pub throw_step : Object → Object → State (EventLoop W) StepOutcome
  throw_step coroutine error = do
    answer ← py.call (throw coroutine error)
    on_answer answer (λ object. pure (yielded object))
        (λ step_error.
          if py.is_stop_iteration step_error
          then (do
            extracted ← py.call (stop_iteration_value step_error)
            on_answer extracted (λ return_value. pure (returned return_value))
                (λ extraction_error. pure (raised extraction_error)))
          else pure (raised step_error))

  unfoldable pub refuse : NewError → State (EventLoop W) ParkOutcome
  refuse kind = do error ← py.new_error kind; pure (bad_yield error)

  -- `park_on_future` behind its checks.
  unfoldable pub park : TaskId → Object → State (EventLoop W) ParkOutcome
  park i future = do
    cleared ← py.call (clear_blocking_flag future)
    on_answer cleared
        (λ _. do
          with_state i (λ t. record t { waiting_on = some future })
          added ← py.call (add_done_callback future i)
          on_answer added (λ _. pure parked)
              (λ callback_error. do
                print py callback_error
                with_state i (λ t. record t { waiting_on = none })
                pure park_failed))
        (λ flag_error. do print py flag_error; pure park_failed)

  unfoldable pub park_on_future : TaskId → Object → State (EventLoop W) ParkOutcome
  unfolding park refuse
  park_on_future i future = do
    flag ← py.call (blocking_flag future)
    on_answer flag
        (λ blocking_flag. do
          blocking ← py.is_truthy blocking_flag
          if or_false blocking
              then (do
                found ← py.call (get_loop future)
                own ← gets (λ s. s.loop_object)
                on_answer found
                    (λ future_loop.
                      if future_loop == own then park i future else refuse different_loop)
                    (λ _. park i future))
              else refuse yield_for_await)
        (λ _. refuse (not_awaitable future))

  unfoldable pub reschedule_or_abort : TaskId → State (EventLoop W) (Unit {0})
  reschedule_or_abort i = do
    answer ← py.call (call_soon i)
    on_answer answer (λ _. pure tt) (λ reschedule_error. do print py reschedule_error; dispose py i)

  unfoldable pub apply_cancel_requested_mid_step : TaskId → State (EventLoop W) (Unit {0})
  apply_cancel_requested_mid_step i = do
    t ← gets (task_state i)
    if t.must_cancel
        then on_some t.waiting_on
            (λ future. do
              answer ← py.call (future_cancel future t.cancel_message)
              on_answer answer
                  (λ cancel_result. do
                    absorbed ← py.is_truthy cancel_result
                    if or_false absorbed
                        then with_state i (λ u. record u { must_cancel = false })
                        else pure tt)
                  (print py))
            (pure tt)
        else pure tt

  unfoldable pub cancellation_message : Object → State (EventLoop W) (Option Object)
  cancellation_message error = do
    args ← py.call (error_args error)
    on_answer args
        (λ arguments. do
          item ← py.call (first_item arguments)
          on_answer item (λ message. pure (some message)) (λ _. pure none))
        (λ _. pure none)

  unfoldable pub after_park : TaskId → ParkOutcome → State (EventLoop W) (Unit {0})
  unfolding apply_cancel_requested_mid_step reschedule_or_abort
  after_park i parked = apply_cancel_requested_mid_step i
  after_park i (bad_yield protocol_error) = do
    with_state i (λ t. record t { deferred_throw = some protocol_error })
    reschedule_or_abort i
  after_park i park_failed = dispose py i

  -- The match on what the advance produced.
  unfoldable pub after_step : TaskId → StepOutcome → State (EventLoop W) (Unit {0})
  unfolding cancellation_message reschedule_or_abort park_on_future after_park
  after_step i (returned return_value) = do
    response ← response_from_return_value py return_value
    finish py i response (value return_value)
  after_step i (raised handler_error) =
      if py.is_cancelled_error handler_error
      then (do
        message ← cancellation_message handler_error
        finish py i internal_error (cancelled message))
      else (do
        response ← report_handler_error py handler_error
        finish py i response (exception handler_error))
  after_step i (yielded object) =
      if object == py.none_object
      then reschedule_or_abort i
      else (do outcome ← park_on_future i object; after_park i outcome)

  unfoldable pub step_once : TaskId → Object → Option Object → State (EventLoop W) (Unit {0})
  unfolding send_step throw_step after_step
  step_once i coroutine pending_throw = do
    outcome ← on_some pending_throw (throw_step coroutine) (send_step coroutine)
    after_step i outcome
