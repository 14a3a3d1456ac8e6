-- ===== src/Dispatch/Loop.antt =====
-- `EventLoop` and `DispatchedRequest`: scheduling a request, cancelling what runs, stopping.
use rayo.Base.{
  ℕ, ◌+◌, Bool, false, Option, none, some, State, pure, gets, ◌>>=◌, ◌>>◌, List, [], ◌∷◌,
  remove_key, if◌then◌else◌,
}
use rayo.Dispatch.Types.{
  Object, TaskId, HandlerResponse, internal_error, ResponseChannel, waiting, sent, abandoned,
  default, EventLoop,
}
use rayo.Dispatch.Python.{
  Python, new_task, call_soon_threadsafe, cancel_method, stop_method, call_soon_threadsafe_method,
  task_state, put_task, on_answer, on_some, print, call_or_print,
}
use rayo.Dispatch.Channel.{increment, channel_of, send, drop}
use rayo.Dispatch.Finish.{forget, dispose}

-- `receiver` is the channel's other end, by the task that the channel was made for.
pub record DispatchedRequest : Type 0 where
  pub response_receiver : TaskId
  pub task : Option TaskId

-- `DispatchedRequest::failed`.
unfoldable pub failed : TaskId → DispatchedRequest
failed i = record { response_receiver = i; task = none }

-- What the receiver gives when it is ready; `none` while the channel still waits.
unfoldable pub received :
    DispatchedRequest → ResponseChannel → Option (Option HandlerResponse × DispatchedRequest)
received request waiting = none
received request (sent r) = some (some r, record request { task = none })
received request abandoned = some (none, record request { task = none })

module _ {W : Type 0} where
  -- `DispatchedRequest::response`: the outcome, with the task let go.
  unfoldable pub response :
      DispatchedRequest → EventLoop W → Option (Option HandlerResponse × DispatchedRequest)
  unfolding received
  response request s = received request (channel_of request.response_receiver s)

  -- The channel and the task's fields, with the gauge counted up. The number is the new task's.
  unfoldable pub allocate : Object → Object → State (EventLoop W) TaskId
  unfolding default
  allocate handler handler_kwargs s = (
    s.task_count,
    record (put_task s.task_count
        (record {
          handler = handler;
          handler_kwargs = handler_kwargs;
          channel = waiting;
          state = default;
        })
        s) { task_count = s.task_count + 1; in_flight = increment s.in_flight },
  )

  -- `live_tasks.insert(pointer, task)`.
  unfoldable pub enlist : TaskId → State (EventLoop W) (Unit {0})
  enlist i s = (tt, record s { live_tasks = i ∷ remove_key i s.live_tasks })

  -- What is left to do for a task that the loop refused.
  unfoldable pub withdraw : TaskId → State (EventLoop W) (Unit {0})
  unfolding forget send
  withdraw i = do forget i; send i internal_error

  -- `thread.lock().take()`.
  unfoldable pub take_thread : State (EventLoop W) Bool
  take_thread s = (s.thread, record s { thread = false })

  -- `registry.drain()`.
  unfoldable pub drain : State (EventLoop W) (List TaskId)
  drain s = (s.live_tasks, record s { live_tasks = [] })

  unfoldable pub in_flight_count : EventLoop W → ℕ
  in_flight_count s = s.in_flight

module _ {W : Type 0} (py : Python W) where
  -- `schedule` behind the registration: the first step is handed to the loop.
  unfoldable pub hand_over : TaskId → State (EventLoop W) DispatchedRequest
  unfolding withdraw failed
  hand_over i = do
    scheduled ← py.call (call_soon_threadsafe i)
    on_answer scheduled (λ _. pure (record { response_receiver = i; task = some i }))
        (λ scheduling_error. do print py scheduling_error; withdraw i; pure (failed i))

  -- `schedule` behind the gauge: the task object is made, and registered before it can run. Where
  -- it cannot be made, the channel goes down with it before the call returns.
  unfoldable pub place : TaskId → State (EventLoop W) DispatchedRequest
  unfolding enlist hand_over failed
  place i = do
    made ← py.call new_task
    on_answer made (λ _. do enlist i; hand_over i)
        (λ allocation_error. do drop i; print py allocation_error; pure (failed i))

  unfoldable pub schedule : Object → Object → State (EventLoop W) DispatchedRequest
  unfolding allocate place
  schedule handler handler_kwargs = do i ← allocate handler handler_kwargs; place i

  -- `task.cancel`, handed to the loop; whatever fails is passed over.
  unfoldable pub post_cancel : TaskId → State (EventLoop W) (Unit {0})
  post_cancel i = do
    bound ← py.call (cancel_method i)
    on_answer bound (λ method. do py.call (call_soon_threadsafe_method method); pure tt)
        (λ _. pure tt)

  unfoldable pub post_cancels : List TaskId → State (EventLoop W) (Unit {0})
  unfolding post_cancel
  post_cancels [] = pure tt
  post_cancels (i ∷ rest) = do post_cancel i; post_cancels rest

  unfoldable pub cancel_in_flight : State (EventLoop W) (Unit {0})
  unfolding post_cancels
  cancel_in_flight = do live_tasks ← gets (λ s. s.live_tasks); post_cancels live_tasks

  unfoldable pub dispose_all : List TaskId → State (EventLoop W) (Unit {0})
  dispose_all [] = pure tt
  dispose_all (i ∷ rest) = do dispose py i; dispose_all rest

  -- Only the call that wins the join handle stops the loop.
  unfoldable pub stop_thread : State (EventLoop W) (Unit {0})
  unfolding take_thread
  stop_thread = do
    won ← take_thread
    if won
        then (do
          found ← py.call stop_method
          on_answer found (λ method. call_or_print py (call_soon_threadsafe_method method))
              (λ _. pure tt)
          py.join_thread)
        else pure tt

  unfoldable pub stop : State (EventLoop W) (Unit {0})
  unfolding stop_thread dispose_all drain
  stop = do stop_thread; leftover_tasks ← drain; dispose_all leftover_tasks

  -- `Drop for DispatchedRequest`.
  unfoldable pub drop_request : DispatchedRequest → State (EventLoop W) (Unit {0})
  unfolding post_cancel
  drop_request request =
      on_some request.task
        (λ i. do t ← gets (task_state i); if t.finished then pure tt else post_cancel i) (pure tt)
