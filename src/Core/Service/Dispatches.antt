-- ===== src/Core/Service/Dispatches.antt =====
-- A request for an async handler, from `handle` to its response.
use rayo.Base.{ℕ, ◌≤◌, ◌<◌, ◌≡◌, ◌≢◌, none, some, List, length, get_elem?}
use rayo.Dispatch.Types.{Object, EventLoop}
use rayo.Dispatch.Python.{Python}
use rayo.Dispatch.Loop.{schedule, stop, response}
use rayo.Dispatch.Acts.{Lawful}
use rayo.Dispatch.Soundness.History.{Operation, run}
use rayo.Dispatch.Soundness.Owners.{IsPosted}
use rayo.Dispatch.Pool.Fleet.{load_at}
use rayo.Dispatch.Pool.Places.{taken}
use rayo.Router.{Matchit}
use rayo.Core.Kwargs.{Kwargs, Conversions}
use rayo.Core.Service.{RouteEntry, Handling, dispatched, AppService}

module _ (m : Matchit) {W : Type 0} (py : Python W) (law : Lawful py) (c : Conversions)
    (kwargs_object : Kwargs → Object) where
  -- `handle` gave the request to a loop `k`, which posted the first step of a task of the handler
  -- with its arguments, or resolved the request at once; and the future is ready whenever that loop
  -- has been stopped.
  abbrev pub IsDispatched : AppService m W → RouteEntry → Kwargs → Handling W → Type 0
  IsDispatched service route kwargs handling =
      (k : ℕ) × (s : EventLoop W) × (get_elem? service.event_loops.loops k ≡ some s)
      × ((j : ℕ)
          → j < length service.event_loops.loops
          → load_at service.event_loops.loops k ≤ load_at service.event_loops.loops j)
      × (handling
          ≡ dispatched (schedule py route.handler (kwargs_object kwargs) s).0
              (taken py route.handler (kwargs_object kwargs) service.event_loops k s))
      × IsPosted py law s.task_count route.handler (kwargs_object kwargs)
          (schedule py route.handler (kwargs_object kwargs) s)
      × ((os : List Operation)
          → response (schedule py route.handler (kwargs_object kwargs) s).0
              (stop py (run py os (schedule py route.handler (kwargs_object kwargs) s).1)).1
            ≢ none)
