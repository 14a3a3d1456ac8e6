-- ===== src/Dispatch/Soundness/History.antt =====
-- Any sequence of the crate's operations on a loop, each with what Python and other threads do
-- meanwhile.
use rayo.Base.{◌<◌, ◌≡◌, refl, ◌∙◌, true, Option, List, [], ◌∷◌, arith}
use rayo.Dispatch.Types.{Object, TaskId, HandlerResponse, abandoned, sent, default, EventLoop}
use rayo.Dispatch.Python.{Python, task_state}
use rayo.Dispatch.Channel.{channel_of}
use rayo.Dispatch.Cancel.{uncancel, cancel}
use rayo.Dispatch.Accessors.{add_done_callback, remove_done_callback, set_name}
use rayo.Dispatch.Turn.{turn}
use rayo.Dispatch.Loop.{DispatchedRequest, schedule, cancel_in_flight, drop_request, stop}
use rayo.Dispatch.Later.{SameEnd, Advances, Advances-refl, Advances-trans}
use rayo.Dispatch.Acts.{Lawful}
use rayo.Dispatch.Progress.Tasks.{
  turn-Keeps, cancel-Keeps, uncancel-Keeps, add_done_callback-Keeps, remove_done_callback-Keeps,
  set_name-Keeps,
}
use rayo.Dispatch.Progress.Loops.{schedule-Keeps, cancel_in_flight-Keeps, drop_request-Keeps}
use rayo.Dispatch.Soundness.Stop.{IsSound, Later-IsSound, stop-IsSound, stop-Advances}

-- The operations of a loop and of its tasks, as the server and Python call them.
pub data Operation : Type 0 where
  schedules : Object → Object → Operation
  turns : TaskId → Option Object → Operation
  cancels : TaskId → Option Object → Operation
  uncancels : TaskId → Operation
  adds_callback : TaskId → Object → Option Object → Operation
  removes_callback : TaskId → Object → Operation
  renames : TaskId → Object → Operation
  drops_request : DispatchedRequest → Operation
  cancels_in_flight stops : Operation

module _ {W : Type 0} (py : Python W) where
  unfoldable pub perform : Operation → EventLoop W → EventLoop W
  perform (schedules handler kwargs) s = (schedule py handler kwargs s).1
  perform (turns i finished_future) s = (turn py i finished_future s).1
  perform (cancels i message) s = (cancel py i message s).1
  perform (uncancels i) s = (uncancel i s).1
  perform (adds_callback i callback context) s = (add_done_callback py i callback context s).1
  perform (removes_callback i callback) s = (remove_done_callback py i callback s).1
  perform (renames i object) s = (set_name py i object s).1
  perform (drops_request request) s = (drop_request py request s).1
  perform cancels_in_flight s = (cancel_in_flight py s).1
  perform stops s = (stop py s).1

  unfoldable pub run : List Operation → EventLoop W → EventLoop W
  unfolding perform
  run [] s = s
  run (operation ∷ rest) s = run rest (perform operation s)

module _ {W : Type 0} where
  -- `EventLoop::start`, once the interpreter has given the loop and the thread runs.
  unfoldable pub new_loop : W → Object → EventLoop W
  unfolding default
  new_loop w loop_object = record {
    world = w;
    loop_object = loop_object;
    tasks = λ j. record { handler = 0; handler_kwargs = 0; channel = abandoned; state = default };
    task_count = 0;
    live_tasks = [];
    in_flight = 0;
    thread = true;
  }

  pub new_loop-IsSound : (w : W) (loop_object : Object) → IsSound (new_loop w loop_object)
  unfolding new_loop
  new_loop-IsSound w loop_object = record {
    balanced = record { counted = refl; fresh = λ j h. refl };
    listed = λ j w u. cc;
    settled = λ j f. refl;
  }

module _ {W : Type 0} (py : Python W) (law : Lawful py) where
  pub perform-IsSound : (o : Operation) (s : EventLoop W) → IsSound s → IsSound (perform py o s)
  unfolding perform
  perform-IsSound (schedules h k) s = Later-IsSound ((schedule-Keeps py law h k).at s)
  perform-IsSound (turns i f) s = Later-IsSound ((turn-Keeps py law i f).at s)
  perform-IsSound (cancels i m) s = Later-IsSound ((cancel-Keeps py law i m).at s)
  perform-IsSound (uncancels i) s = Later-IsSound ((uncancel-Keeps py law i).at s)
  perform-IsSound (adds_callback i b c) s =
      Later-IsSound ((add_done_callback-Keeps py law i b c).at s)
  perform-IsSound (removes_callback i b) s =
      Later-IsSound ((remove_done_callback-Keeps py law i b).at s)
  perform-IsSound (renames i o) s = Later-IsSound ((set_name-Keeps py law i o).at s)
  perform-IsSound (drops_request r) s = Later-IsSound ((drop_request-Keeps py law r).at s)
  perform-IsSound cancels_in_flight s = Later-IsSound ((cancel_in_flight-Keeps py law).at s)
  perform-IsSound stops s = stop-IsSound py law s

  perform-Advances : (o : Operation) (s : EventLoop W) → Advances s (perform py o s)
  unfolding perform
  perform-Advances (schedules h k) s = ((schedule-Keeps py law h k).at s).advances
  perform-Advances (turns i f) s = ((turn-Keeps py law i f).at s).advances
  perform-Advances (cancels i m) s = ((cancel-Keeps py law i m).at s).advances
  perform-Advances (uncancels i) s = ((uncancel-Keeps py law i).at s).advances
  perform-Advances (adds_callback i b c) s = ((add_done_callback-Keeps py law i b c).at s).advances
  perform-Advances (removes_callback i b) s =
      ((remove_done_callback-Keeps py law i b).at s).advances
  perform-Advances (renames i o) s = ((set_name-Keeps py law i o).at s).advances
  perform-Advances (drops_request r) s = ((drop_request-Keeps py law r).at s).advances
  perform-Advances cancels_in_flight s = ((cancel_in_flight-Keeps py law).at s).advances
  perform-Advances stops s = stop-Advances py law s

  -- From a sound loop, every history leads to a sound loop: the in-flight gauge counts the requests
  -- that still wait, a request that waits for an unfinished task is in the registry, and a finished
  -- task has resolved its request.
  pub run-IsSound : (os : List Operation) (s : EventLoop W) → IsSound s → IsSound (run py os s)
  unfolding run
  run-IsSound [] s h = h
  run-IsSound (o ∷ os) s h = run-IsSound os (perform py o s) (perform-IsSound o s h)

  pub run-Advances : (os : List Operation) (s : EventLoop W) → Advances s (run py os s)
  unfolding run
  run-Advances [] s = Advances-refl s
  run-Advances (o ∷ os) s = Advances-trans (perform-Advances o s) (run-Advances os (perform py o s))

  -- A response that was sent is the request's response for ever: no history replaces or repeats it.
  pub run-keeps_response :
      (os : List Operation) (s : EventLoop W) (i : TaskId) (r : HandlerResponse)
      → i < s.task_count
      → channel_of i s ≡ sent r
      → channel_of i (run py os s) ≡ sent r
  run-keeps_response os s i r old told =
      (run-Advances os s).answered i old (ground (arith, told)) ∙ told

  -- How a finished task ended is for good: no history changes its result, its exception or whether it
  -- was cancelled.
  pub run-keeps_end :
      (os : List Operation) (s : EventLoop W) (i : TaskId)
      → i < s.task_count
      → (task_state i s).finished ≡ true
      → SameEnd (task_state i s) (task_state i (run py os s))
  run-keeps_end os s i old f = (run-Advances os s).ended i old f
