-- ===== src/Examples/Servers.antt =====
-- A server from its start to its end.
use rayo.Base.{ℕ, Bool, subst, ◌≡◌, true, false, none, some, List, [], ◌∷◌}
use rayo.Dispatch.Types.{EventLoop}
use rayo.Dispatch.Acts.{start}
use rayo.Dispatch.Pool.Start.{Host}
use rayo.Core.Startup.{RouteSpec, Network, Server, start_server}
use rayo.Core.Startup.InOrder.{IsLaunched, start_server-IsLaunched}
use rayo.Core.Shutdown.{loops_of, at_loops, Runtime, shutdown}
use rayo.Core.Shutdown.Entries.{IsOver, shutdown-again}
use rayo.Core.Shutdown.Resolves.{AllRun, Waits}
use rayo.Examples.Script.{Script, scripted, scripted-Lawful}
use rayo.Examples.Routes.{fixed_paths, service, service-IsReady}

abbrev pub willing : Host Script
willing = record {
  world = [];
  new_event_loop = λ k. some 1;
  has_hook = λ hook. true;
  spawns = λ k. true;
}

abbrev pub network : Network
network = record { runtime_builds = true; binds = true; bound_port = some 8000 }

abbrev pub specs : List RouteSpec
specs =
    record { method = "GET"; path = "/users"; handler = 3; is_async = true; raw_params = [] }
    ∷ record {
      method = "GET";
      path = "/orders";
      handler = 4;
      is_async = false;
      raw_params = ("limit", 1) ∷ [];
    }
    ∷ []

start_server-IsLaunched_example :
    IsLaunched fixed_paths willing network (start_server fixed_paths willing network specs 2)
start_server-IsLaunched_example = start_server-IsLaunched fixed_paths willing network specs 2

-- A runtime whose waits always end by the timeout, with nothing done.
abbrev idle_runtime : Runtime Script
idle_runtime = record {
  from_secs = λ seconds. some seconds;
  wait_drained = λ grace loops. (false, loops);
  wait_signal = λ loops. some loops;
}

AllRun-refl : (loops : List (EventLoop Script)) → AllRun scripted loops loops
AllRun-refl [] = tt
AllRun-refl (s ∷ loops) = (start, AllRun-refl loops)

idle_runtime-Waits : Waits scripted idle_runtime
idle_runtime-Waits = record {
  wait_runs = λ grace loops. AllRun-refl loops;
  signal_runs =
      λ loops after e. subst (AllRun scripted loops) (some_injective e) (AllRun-refl loops);
  zero_fits = λ h. cc;
}
  where
    some_injective : {xs ys : List (EventLoop Script)} → some xs ≡ some ys → xs ≡ ys
    some_injective e = cc

abbrev server : Server fixed_paths Script
server = record { port = 8000; service = service; serve_finished = true; shutdown_sent = false }

-- A shutdown whose grace period is less than nothing: the bits are those of -1.0.
abbrev minus_one : ℕ
minus_one = 13830554455654793216

-- The server after a shutdown with the default grace period.
abbrev after_first : Bool × Server fixed_paths Script
after_first = shutdown scripted idle_runtime server none

shutdown-again_example :
    IsOver scripted scripted-Lawful idle_runtime idle_runtime-Waits (loops_of after_first.1) (
      shutdown scripted idle_runtime
        (at_loops scripted idle_runtime after_first.1 (loops_of after_first.1))
        (some 1))
shutdown-again_example =
    shutdown-again scripted scripted-Lawful idle_runtime idle_runtime-Waits server none (some 1)
      (loops_of after_first.1) service-IsReady.sound (AllRun-refl (loops_of after_first.1))
