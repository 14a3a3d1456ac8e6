-- ===== src/Dispatch/Accessors.antt =====
-- The rest of the task and future protocol: `done`, `cancelled`, `result`, `exception`, done
-- callbacks, names.
pub mod Callbacks
use rayo.Base.{
  ℕ, Bool, Option, none, some, State, pure, gets, ◌>>=◌, ◌>>◌, List, [], ◌∷◌, ◌++◌, ◌-◌, ◌&&◌,
  length, if◌then◌else◌,
}
use rayo.Dispatch.Types.{Object, TaskId, TaskState, EventLoop}
use rayo.Dispatch.Python.{
  Python, copy_context, call_soon_callback, str, Answer, ok, error, NewError, still_running,
  cancelled_error, task_state, with_state, on_answer, on_some,
}

-- What an accessor gives: a value, or the exception that it raises. The exceptions that the crate
-- makes are named, those that a handler raised are objects.
pub data Raised : Type 0 where
  new : NewError → Raised
  stored : Object → Raised

pub data Fetched (A : Type 0) : Type 0 where
  fetched : A → Fetched A
  raises : Raised → Fetched A

unfoldable pub get_coro : TaskState → Option Object
get_coro t = t.coroutine

unfoldable pub get_context : TaskState → Option Object
get_context t = t.context

abbrev pub name_or : Object → Option Object → Object
name_or default_name none = default_name
name_or default_name (some name) = name

unfoldable pub get_name : Object → TaskState → Object
get_name default_name t = name_or default_name t.name

unfoldable pub done : TaskState → Bool
done t = t.finished

unfoldable pub cancelled : TaskState → Bool
cancelled t = t.finished && t.finished_cancelled

-- The last match of `result`; a handler that left no value gives Python's `None`.
unfoldable pub stored_outcome : Object → Option Object → Option Object → Fetched Object
stored_outcome none_object (some e) result = raises (stored e)
stored_outcome none_object none (some v) = fetched v
stored_outcome none_object none none = fetched none_object

unfoldable pub result : Object → TaskState → Fetched Object
unfolding stored_outcome
result none_object t =
    if t.finished
    then if t.finished_cancelled
      then raises (new (cancelled_error t.cancelled_message))
      else stored_outcome none_object t.stored_exception t.stored_result
    else raises (new still_running)

unfoldable pub exception : TaskState → Fetched (Option Object)
exception t =
    if t.finished
    then if t.finished_cancelled
      then raises (new (cancelled_error t.cancelled_message))
      else fetched t.stored_exception
    else raises (new still_running)

-- `retain` over the callbacks.
unfoldable pub retain_others :
    (Object → Object → Bool) → Object → List (Object × Object) → List (Object × Object)
retain_others equal callback [] = []
retain_others equal callback ((existing_callback, context) ∷ rest) =
    if equal existing_callback callback
    then retain_others equal callback rest
    else (existing_callback, context) ∷ retain_others equal callback rest

unfoldable pub push_callback : Object → Object → TaskState → TaskState
push_callback callback context t = record t {
  done_callbacks = t.done_callbacks ++ (callback, context) ∷ [];
}

unfoldable pub drop_callback : (Object → Object → Bool) → Object → TaskState → TaskState
unfolding retain_others
drop_callback equal callback t = record t {
  done_callbacks = retain_others equal callback t.done_callbacks;
}

module _ {W : Type 0} where
  unfoldable pub get_loop : EventLoop W → Object
  get_loop s = s.loop_object

module _ {W : Type 0} (py : Python W) where
  -- `add_done_callback` with its context. The lock is held from the test to the push.
  unfoldable pub add_with_context : TaskId → Object → Object → State (EventLoop W) Answer
  unfolding push_callback
  add_with_context i callback context = do
    t ← gets (task_state i)
    if t.finished
        then py.call (call_soon_callback callback i context)
        else (do with_state i (push_callback callback context); pure (ok py.none_object))

  unfoldable pub add_done_callback : TaskId → Object → Option Object → State (EventLoop W) Answer
  unfolding add_with_context
  add_done_callback i callback context = on_some context (add_with_context i callback) (do
    copied ← py.call copy_context
    on_answer copied (add_with_context i callback) (λ e. pure (error e)))

  unfoldable pub remove_done_callback : TaskId → Object → State (EventLoop W) ℕ
  unfolding drop_callback
  remove_done_callback i callback = do
    before ← gets (λ s. length (task_state i s).done_callbacks)
    with_state i (drop_callback py.equal callback)
    gets (λ s. before - length (task_state i s).done_callbacks)

  unfoldable pub set_name : TaskId → Object → State (EventLoop W) Answer
  set_name i object = do
    name ← py.call (str object)
    on_answer name
        (λ text. do with_state i (λ t. record t { name = some text }); pure (ok py.none_object))
        (λ e. pure (error e))
