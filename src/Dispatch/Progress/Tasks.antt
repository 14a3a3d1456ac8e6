-- ===== src/Dispatch/Progress/Tasks.antt =====
-- Stepping a coroutine, the turn, and the task protocol.
use rayo.Base.{refl, Bool, Option}
use rayo.Dispatch.Types.{
  Object, TaskId, StepOutcome, returned, raised, yielded, ParkOutcome, parked, bad_yield,
  park_failed,
}
use rayo.Dispatch.Python.{Python, NewError, with_state}
use rayo.Dispatch.Step.{
  install, start, send_step, throw_step, refuse, park, park_on_future, reschedule_or_abort,
  apply_cancel_requested_mid_step, cancellation_message, after_park, after_step, step_once,
}
use rayo.Dispatch.Cancel.{uncancel, cancel}
use rayo.Dispatch.Accessors.{add_with_context, add_done_callback, remove_done_callback, set_name}
use rayo.Dispatch.Turn.{take_wake, wake_throw, cancel_throw, run_entered, enter, resume, turn}
use rayo.Dispatch.Later.{Keeps, keeps_rules}
use rayo.Dispatch.Later.Moves.{with_state-Later}
use rayo.Dispatch.Acts.{
  Lawful, demand_cancel-Later, request_cancel-Later, withdraw_cancel-Later, push_callback-Later,
  drop_callback-Later, name-Later,
}
use rayo.Dispatch.Progress.Calls.{
  call-Keeps, send-Keeps, is_truthy-Keeps, new_error-Keeps, print-Keeps, call_or_print-Keeps,
  report-Keeps, response_from_return_value-Keeps, finish-Keeps, dispose-Keeps,
}

module _ {W : Type 0} (py : Python W) (law : Lawful py) where
  ruleset calls = (
    keeps_rules, call-Keeps, send-Keeps, is_truthy-Keeps, new_error-Keeps, print-Keeps,
    call_or_print-Keeps, report-Keeps, response_from_return_value-Keeps, finish-Keeps,
    dispose-Keeps, with_state-Later, refl,
  )

  send_step-Keeps : (coroutine : Object) → Keeps (send_step py coroutine)
  unfolding send_step
  send_step-Keeps coroutine = search calls

  throw_step-Keeps : (coroutine error : Object) → Keeps (throw_step py coroutine error)
  unfolding throw_step
  throw_step-Keeps coroutine error = search calls depth 9

  install-Keeps : (i : TaskId) (coroutine context : Object) → Keeps (install py i coroutine context)
  unfolding install
  install-Keeps i coroutine context = search calls depth 9

  start-Keeps : (i : TaskId) → Keeps (start py i)
  unfolding start
  start-Keeps i = search (calls, install-Keeps) depth 9

  refuse-Keeps : (kind : NewError) → Keeps (refuse py kind)
  unfolding refuse
  refuse-Keeps kind = search calls depth 9

  park-Keeps : (i : TaskId) (future : Object) → Keeps (park py i future)
  unfolding park
  park-Keeps i future = search calls depth 12

  park_on_future-Keeps : (i : TaskId) (future : Object) → Keeps (park_on_future py i future)
  unfolding park_on_future
  park_on_future-Keeps i future = search (calls, park-Keeps, refuse-Keeps) depth 12

  reschedule_or_abort-Keeps : (i : TaskId) → Keeps (reschedule_or_abort py i)
  unfolding reschedule_or_abort
  reschedule_or_abort-Keeps i = search calls depth 9

  apply_cancel-Keeps : (i : TaskId) → Keeps (apply_cancel_requested_mid_step py i)
  unfolding apply_cancel_requested_mid_step
  apply_cancel-Keeps i = search calls depth 12

  cancellation_message-Keeps : (error : Object) → Keeps (cancellation_message py error)
  unfolding cancellation_message
  cancellation_message-Keeps error = search calls depth 9

  after_park-Keeps : (i : TaskId) (outcome : ParkOutcome) → Keeps (after_park py i outcome)
  unfolding after_park
  after_park-Keeps i parked = apply_cancel-Keeps i
  after_park-Keeps i (bad_yield error) = search (calls, reschedule_or_abort-Keeps)
  after_park-Keeps i park_failed = dispose-Keeps py law i

  after_step-Keeps : (i : TaskId) (outcome : StepOutcome) → Keeps (after_step py i outcome)
  unfolding after_step
  after_step-Keeps i (returned v) = search calls
  after_step-Keeps i (raised e) = search (calls, cancellation_message-Keeps)
  after_step-Keeps i (yielded object) =
      search (calls, reschedule_or_abort-Keeps, park_on_future-Keeps, after_park-Keeps)

  step_once-Keeps :
      (i : TaskId) (coroutine : Object) (pending_throw : Option Object)
      → Keeps (step_once py i coroutine pending_throw)
  unfolding step_once
  step_once-Keeps i coroutine pending_throw =
      search (calls, send_step-Keeps, throw_step-Keeps, after_step-Keeps)

  wake_throw-Keeps : (d f : Option Object) → Keeps (wake_throw py d f)
  unfolding wake_throw
  wake_throw-Keeps d f = search calls depth 9

  cancel_throw-Keeps : (b : Bool) (m p : Option Object) → Keeps (cancel_throw py b m p)
  unfolding cancel_throw
  cancel_throw-Keeps b m p = search calls depth 9

  run_entered-Keeps :
      (i : TaskId) (coroutine context : Object) (p : Option Object)
      → Keeps (run_entered py i coroutine context p)
  unfolding run_entered
  run_entered-Keeps i coroutine context p = search (calls, step_once-Keeps) depth 9

  enter-Keeps :
      (i : TaskId) (coroutine context : Object) (p : Option Object)
      → Keeps (enter py i coroutine context p)
  unfolding enter
  enter-Keeps i coroutine context p = search (calls, run_entered-Keeps) depth 12

  resume-Keeps : (i : TaskId) (b : Bool) (m d f : Option Object) → Keeps (resume py i b m d f)
  unfolding resume
  resume-Keeps i b m d f =
      search (calls, wake_throw-Keeps, cancel_throw-Keeps, enter-Keeps) depth 12

  take_wake-Keeps : (i : TaskId) → Keeps (with_state {W = W} i take_wake)
  unfolding take_wake
  take_wake-Keeps i = with_state-Later i take_wake (λ t. (refl, refl, refl, refl, refl))

  pub turn-Keeps :
      (i : TaskId) (finished_future : Option Object) → Keeps (turn py i finished_future)
  unfolding turn
  turn-Keeps i finished_future = search (calls, take_wake-Keeps, start-Keeps, resume-Keeps) depth 12

  pub cancel-Keeps : (i : TaskId) (message : Option Object) → Keeps (cancel py i message)
  unfolding cancel
  cancel-Keeps i message = search (calls, request_cancel-Later, demand_cancel-Later) depth 12

  pub uncancel-Keeps : (i : TaskId) → Keeps (uncancel {W = W} i)
  unfolding uncancel
  uncancel-Keeps i = search (calls, withdraw_cancel-Later)

  add_with_context-Keeps :
      (i : TaskId) (callback context : Object) → Keeps (add_with_context py i callback context)
  unfolding add_with_context
  add_with_context-Keeps i callback context = search (calls, push_callback-Later) depth 9

  pub add_done_callback-Keeps :
      (i : TaskId) (callback : Object) (context : Option Object)
      → Keeps (add_done_callback py i callback context)
  unfolding add_done_callback
  add_done_callback-Keeps i callback context = search (calls, add_with_context-Keeps) depth 9

  pub remove_done_callback-Keeps :
      (i : TaskId) (callback : Object) → Keeps (remove_done_callback py i callback)
  unfolding remove_done_callback
  remove_done_callback-Keeps i callback = search (calls, drop_callback-Later) depth 9

  pub set_name-Keeps : (i : TaskId) (object : Object) → Keeps (set_name py i object)
  unfolding set_name
  set_name-Keeps i object = search (calls, name-Later) depth 9
