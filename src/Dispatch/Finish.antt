-- ===== src/Dispatch/Finish.antt =====
-- The end of a task: `finish`, `close_coroutine_quietly` and `dispose`.
use rayo.Base.{
  Bool, true, false, none, some, State, pure, gets, ◌>>=◌, ◌>>◌, List, [], ◌∷◌, if◌then◌else◌,
  remove_key,
}
use rayo.Dispatch.Types.{
  Object, TaskId, HandlerResponse, internal_error, TaskState, CompletionKind, value, exception,
  cancelled, aborted, EventLoop,
}
use rayo.Dispatch.Python.{
  Python, call_soon_callback, unregister_task, close, task_state, with_state, on_some,
  call_or_print,
}
use rayo.Dispatch.Channel.{send}

-- What the completion leaves in the fields that the accessors read.
unfoldable pub record_completion : CompletionKind → TaskState → TaskState
record_completion (value v) t = record t { stored_result = some v }
record_completion (exception e) t = record t { stored_exception = some e }
record_completion (cancelled message) t = record t {
  finished_cancelled = true;
  cancelled_message = message;
}
record_completion aborted t = t

-- The first lock of `finish`, once it has seen that the task is not finished.
unfoldable pub mark_finished : CompletionKind → TaskState → TaskState
unfolding record_completion
mark_finished completion t =
    record (record_completion completion
      (record t { finished = true; waiting_on = none; deferred_throw = none })) {
        registered_with_asyncio = false;
        done_callbacks = [];
      }

module _ {W : Type 0} where
  -- `live_tasks.remove(&pointer)`.
  unfoldable pub forget : TaskId → State (EventLoop W) (Unit {0})
  forget i s = (tt, record s { live_tasks = remove_key i s.live_tasks })

module _ {W : Type 0} (py : Python W) where
  -- The loop over the callbacks that were taken.
  unfoldable pub fire_callbacks : TaskId → List (Object × Object) → State (EventLoop W) (Unit {0})
  fire_callbacks i [] = pure tt
  fire_callbacks i ((callback, context) ∷ rest) = do
    call_or_print py (call_soon_callback callback i context)
    fire_callbacks i rest

  -- `finish` behind the registry's lock.
  unfoldable pub announce :
      TaskId → Bool → List (Object × Object) → HandlerResponse → State (EventLoop W) (Unit {0})
  unfolding fire_callbacks
  announce i was_registered done_callbacks response = do
    if was_registered then call_or_print py (unregister_task i) else pure tt
    fire_callbacks i done_callbacks
    send i response

  -- `finish` behind its first lock.
  unfoldable pub leave :
      TaskId → Bool → List (Object × Object) → HandlerResponse → State (EventLoop W) (Unit {0})
  unfolding forget announce
  leave i was_registered done_callbacks response = do
    forget i
    announce i was_registered done_callbacks response

  unfoldable pub finish : TaskId → HandlerResponse → CompletionKind → State (EventLoop W) (Unit {0})
  unfolding leave mark_finished
  finish i response completion = do
    t ← gets (task_state i)
    if t.finished then send i response else do
      with_state i (mark_finished completion)
      leave i t.registered_with_asyncio t.done_callbacks response

  unfoldable pub close_coroutine_quietly : TaskId → State (EventLoop W) (Unit {0})
  close_coroutine_quietly i = do
    t ← gets (task_state i)
    on_some t.coroutine (λ coroutine. call_or_print py (close coroutine)) (pure tt)

  unfoldable pub dispose : TaskId → State (EventLoop W) (Unit {0})
  unfolding close_coroutine_quietly finish
  dispose i = do close_coroutine_quietly i; finish i internal_error aborted
