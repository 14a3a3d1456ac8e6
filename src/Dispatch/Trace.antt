-- ===== src/Dispatch/Trace.antt =====
-- An interpreter that writes down the calls that the crate makes, in their order.
pub mod Callbacks
pub mod Grows
pub mod Started
pub mod Thrown
use rayo.Base.{Bool, List, [], ◌∷◌, ◌++◌}
use rayo.Dispatch.Types.{EventLoop}
use rayo.Dispatch.Python.{Call, Python}

pub record Logged (W : Type 0) : Type 0 where
  pub log : List Call
  pub inner : W

module _ {V W : Type 0} where
  -- The same loop with another state of the interpreter.
  abbrev pub with_world : EventLoop V → W → EventLoop W
  with_world s w = record {
    world = w;
    loop_object = s.loop_object;
    tasks = s.tasks;
    task_count = s.task_count;
    live_tasks = s.live_tasks;
    in_flight = s.in_flight;
    thread = s.thread;
  }

module _ {W : Type 0} where
  abbrev pub log_of : EventLoop (Logged W) → List Call
  log_of s = s.world.log

  -- An operation of the interpreter, with the calls that are written down for it.
  abbrev pub noted :
      {A : Type 0}
      → List Call
      → (EventLoop W → A × EventLoop W)
      → EventLoop (Logged W)
      → A × EventLoop (Logged W)
  noted calls run s =
      let (a, t) = run (with_world s s.world.inner) in
      (a, with_world t (record { log = s.world.log ++ calls; inner = t.world }))

  abbrev pub logged : Python W → Python (Logged W)
  logged py = record {
    call = λ c. noted (c ∷ []) (py.call c);
    send = λ coroutine. noted [] (py.send coroutine);
    is_truthy = λ object. noted [] (py.is_truthy object);
    new_error = λ kind. noted [] (py.new_error kind);
    join_thread = noted [] py.join_thread;
    none_object = py.none_object;
    default_name = py.default_name;
    is_cancelled_error = py.is_cancelled_error;
    is_stop_iteration = py.is_stop_iteration;
    equal = py.equal;
    read_value = λ w. py.read_value w.inner;
    float_to_string = py.float_to_string;
  }
