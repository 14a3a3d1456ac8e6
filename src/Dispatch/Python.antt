-- ===== src/Dispatch/Python.antt =====
-- The Python interpreter and asyncio, which the crate calls: a parameter. A call may run any Python
-- code, which may call back into the tasks, so it takes the whole state and returns it.
use rayo.Base.{ℕ, Bool, false, Option, none, some, State, pure, ◌>>=◌, ◌>>◌, update}
use rayo.Schema.Value.{Value}
use rayo.Schema.Write.{JsonError}
use rayo.Base.Text.{Bytes}
use rayo.Dispatch.Types.{Object, TaskId, HandlerTask, TaskState, EventLoop}

-- The calls, each with its arguments; the comments name the Python side.
pub data Call : Type 0 where
  handler_call : Object → Object → Call  -- handler(**kwargs)
  copy_context : Call  -- PyContext_CopyCurrent
  context_enter context_exit : Object → Call
  enter_task leave_task register_task unregister_task : TaskId → Call
  throw : Object → Object → Call  -- coroutine.throw(exception)
  stop_iteration_value : Object → Call  -- error.value
  error_args : Object → Call  -- error.args
  first_item : Object → Call  -- arguments[0]
  blocking_flag : Object → Call  -- future._asyncio_future_blocking
  clear_blocking_flag : Object → Call  -- future._asyncio_future_blocking = False
  get_loop : Object → Call
  add_done_callback : Object → TaskId → Call  -- future.add_done_callback(task)
  future_result : Object → Call
  future_cancel : Object → Option Object → Call
  close : Object → Call  -- coroutine.close()
  call_soon : TaskId → Call
  call_soon_callback : Object → TaskId → Object → Call  -- call_soon(callback, task, context=…)
  call_soon_threadsafe : TaskId → Call
  cancel_method : TaskId → Call  -- task.cancel, the bound method
  stop_method : Call  -- loop.stop
  call_soon_threadsafe_method : Object → Call
  str : Object → Call
  new_task : Call  -- Py::new(HandlerTask)
  print_error : Object → Call

pub data Answer : Type 0 where
  ok : Object → Answer
  error : Object → Answer

-- The exceptions that the crate makes itself.
pub data NewError : Type 0 where
  not_awaitable : Object → NewError
  yield_for_await different_loop still_running : NewError
  cancelled_error : Option Object → NewError
  json_error : JsonError → NewError
  encoding_error : NewError

-- What `PyIter_Send` reports, with the object that it hands out or the error that it leaves.
pub data SendResult : Type 0 where
  pygen_return pygen_next pygen_error : Object → SendResult

pub record Python (W : Type 0) : Type 0 where
  pub call : Call → State (EventLoop W) Answer
  -- PyIter_Send(coroutine, None)
  pub send : Object → State (EventLoop W) SendResult
  -- `none` where `__bool__` raises
  pub is_truthy : Object → State (EventLoop W) (Option Bool)
  pub new_error : NewError → State (EventLoop W) Object
  -- The loop's thread runs its turns until the loop has stopped, and is joined.
  pub join_thread : State (EventLoop W) (Unit {0})
  -- The text object that `intern!` gives for a task's default name.
  pub default_name : Object
  -- Tests that leave the tasks alone. `equal` is `__eq__`, false where it raises; it is called with
  -- the task's lock held, so it cannot use the task.
  pub none_object : Object
  pub is_cancelled_error : Object → Bool
  pub is_stop_iteration : Object → Bool
  pub equal : Object → Object → Bool
  -- What the serializer reads of an object.
  pub read_value : W → Object → Value
  pub float_to_string : ℕ → Bytes

-- Access to one task, as the guards of its locks give it.
module _ {W : Type 0} where
  abbrev pub task_state : TaskId → EventLoop W → TaskState
  task_state i s = (s.tasks i).state

  abbrev pub put_task : TaskId → HandlerTask → EventLoop W → EventLoop W
  put_task i t s = record s { tasks = update s.tasks i t }

  -- A change of the state under `self.lock_state()`.
  unfoldable pub with_state : TaskId → (TaskState → TaskState) → State (EventLoop W) (Unit {0})
  with_state i f s = (tt, put_task i (record (s.tasks i) { state = f (task_state i s) }) s)

-- Matches on what a call returned.
module _ {S A : Type 0} where
  abbrev pub on_answer : Answer → (Object → State S A) → (Object → State S A) → State S A
  on_answer (ok v) f g = f v
  on_answer (error e) f g = g e

  abbrev pub on_some : {B : Type 0} → Option B → (B → State S A) → State S A → State S A
  on_some (some b) f m = f b
  on_some none f m = m

-- `unwrap_or(false)`.
abbrev pub or_false : Option Bool → Bool
or_false (some b) = b
or_false none = false

module _ {W : Type 0} (py : Python W) where
  -- `error.print(py)`.
  unfoldable pub print : Object → State (EventLoop W) (Unit {0})
  print e = do py.call (print_error e); pure tt

  -- A call whose error is printed and passed over.
  unfoldable pub call_or_print : Call → State (EventLoop W) (Unit {0})
  unfolding print
  call_or_print c = do a ← py.call c; on_answer a (λ _. pure tt) print
