-- ===== src/Dispatch/Types.antt =====
-- The data of the dispatch crate: responses, a request's task and its state, one event loop.
use rayo.Base.{ℕ, Bool, false, Option, none, String, List, [], codes}
use rayo.Base.Text.{Bytes}

-- `Py<PyAny>`: the address of a Python object.
abbrev pub Object : Type 0
Object = ℕ

-- `Py<HandlerTask>`: the address of a task, also the key of the registry. A task is never freed
-- while it is registered, so here every task has a number of its own.
abbrev pub TaskId : Type 0
TaskId = ℕ

pub record HandlerResponse : Type 0 where
  pub status : ℕ
  pub content_type : String
  pub body : Bytes

unfoldable pub internal_error : HandlerResponse
internal_error = record {
  status = 500;
  content_type = "text/plain; charset=utf-8";
  body = codes "Internal Server Error";
}

unfoldable pub no_content : HandlerResponse
no_content = record { status = 204; content_type = "text/plain; charset=utf-8"; body = [] }

-- `ResponseChannel`: the sender's slot with what its receiver sees. `waiting`: the slot holds the
-- sender. `sent`: the sender was taken and used. `abandoned`: it was dropped without sending.
pub data ResponseChannel : Type 0 where
  waiting : ResponseChannel
  sent : HandlerResponse → ResponseChannel
  abandoned : ResponseChannel

pub record TaskState : Type 0 where
  pub coroutine : Option Object
  pub context : Option Object
  pub waiting_on : Option Object
  pub deferred_throw : Option Object
  pub must_cancel : Bool
  pub cancel_message : Option Object
  pub cancel_requests : ℕ
  pub registered_with_asyncio : Bool
  pub name : Option Object
  pub done_callbacks : List (Object × Object)
  pub finished : Bool
  pub finished_cancelled : Bool
  pub cancelled_message : Option Object
  pub stored_result : Option Object
  pub stored_exception : Option Object

-- `TaskState::default()`.
unfoldable pub default : TaskState
default = record {
  coroutine = none;
  context = none;
  waiting_on = none;
  deferred_throw = none;
  must_cancel = false;
  cancel_message = none;
  cancel_requests = 0;
  registered_with_asyncio = false;
  name = none;
  done_callbacks = [];
  finished = false;
  finished_cancelled = false;
  cancelled_message = none;
  stored_result = none;
  stored_exception = none;
}

pub record HandlerTask : Type 0 where
  pub handler : Object
  pub handler_kwargs : Object
  pub channel : ResponseChannel
  pub state : TaskState

pub data StepOutcome : Type 0 where
  returned raised yielded : Object → StepOutcome

pub data ParkOutcome : Type 0 where
  parked : ParkOutcome
  bad_yield : Object → ParkOutcome
  park_failed : ParkOutcome

pub data CompletionKind : Type 0 where
  value : Object → CompletionKind
  exception : Object → CompletionKind
  cancelled : Option Object → CompletionKind
  aborted : CompletionKind

-- One `EventLoop` with its `LoopHandles`, the tasks that were made for it and the interpreter's
-- own state, `world`. Tasks below `task_count` exist. `live_tasks` lists the registry's keys.
-- `thread` says whether the join handle is still there.
pub record EventLoop (W : Type 0) : Type 0 where
  pub world : W
  pub loop_object : Object
  pub tasks : ℕ → HandlerTask
  pub task_count : ℕ
  pub live_tasks : List TaskId
  pub in_flight : ℕ
  pub thread : Bool
