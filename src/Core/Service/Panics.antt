-- ===== src/Core/Service/Panics.antt =====
-- `AppService::handle` and its panics: the index into the routes, and the choice of a loop.
use rayo.Base.{
  ◌+◌, ◌≤◌, ◌<◌, ◌≡◌, State, Option, true, false, [], codes, none, some, length, get_elem?,
}
use rayo.Dispatch.Types.{Object, HandlerResponse, EventLoop}
use rayo.Dispatch.Respond.{execute_sync_handler}
use rayo.Dispatch.Python.{Python}
use rayo.Dispatch.Channel.{word}
use rayo.Dispatch.Acts.{Lawful}
use rayo.Dispatch.Pool.Fleet.{EventLoopPool}
use rayo.Dispatch.Pool.Sound.{AllSound}
use rayo.Router.{Params, Matchit, RouteMatch}
use rayo.Router.Lookup.{IsBelow}
use rayo.Core.Kwargs.{Kwargs, Conversions, ok, error, build_kwargs}
use rayo.Core.Service.{
  RouteEntry, Response, response_from_handler, sync_job, Handling, ready, dispatched, blocking,
  panics, AppService,
}

module _ (m : Matchit) {W : Type 0} where
  -- Every lookup gives a route that is there, and there is a loop to run it.
  pub record IsReady (service : AppService m W) : Type 1 where
    pub routes_found : IsBelow m (length service.routes) service.router
    pub some_loop : 0 < length service.event_loops.loops
    pub sound : AllSound service.event_loops.loops

module _ (m : Matchit) {W : Type 0} (py : Python W) (law : Lawful py) (c : Conversions)
    (kwargs_object : Kwargs → Object) where
  -- What a request for this route gets: a task on a loop where the handler is async and the
  -- parameters are accepted, the refusal where they are not, and a blocking job for a sync handler.
  abbrev pub IsServed : EventLoopPool W → RouteEntry → Params → Handling W → Type 0
  IsServed pool route params (ready response pool') =
      (route.is_async ≡ true)
      × ((r : HandlerResponse) × (build_kwargs c route.params params ≡ error r)
          × (response ≡ response_from_handler r))
      × (pool' ≡ pool)
  IsServed pool route params (dispatched request pool') =
      (route.is_async ≡ true)
      × ((kwargs : Kwargs) × (build_kwargs c route.params params ≡ ok kwargs))
      × (length pool'.loops ≡ length pool.loops)
      × AllSound pool'.loops
  IsServed pool route params (blocking job pool') =
      (route.is_async ≡ false)
      × (job
          ≡ sync_job c (λ kwargs. execute_sync_handler py route.handler (kwargs_object kwargs)) []
              route.params params)
      × (pool' ≡ pool)
  IsServed pool route params panics = ⊥

  -- The answer where no route matches.
  abbrev pub not_found : Response
  not_found = record {
    status = 404;
    content_type = "text/plain; charset=utf-8";
    body = codes "Not Found";
  }

  abbrev pub IsHandled : AppService m W → Option RouteMatch → Handling W → Type 0
  IsHandled service none handling = handling ≡ ready not_found service.event_loops
  IsHandled service (some found) handling =
      (route : RouteEntry) × (get_elem? service.routes found.handler_id ≡ some route)
      × IsServed service.event_loops route found.path_params handling

  module _ (pool : EventLoopPool W) (some_loop : 0 < length pool.loops)
      (sound : AllSound pool.loops) (fits : pool.scan_start_index + length pool.loops ≤ word)
      (route : RouteEntry) (params : Params) where
    abbrev job : State (EventLoop W) HandlerResponse
    job =
        sync_job c (λ kwargs. execute_sync_handler py route.handler (kwargs_object kwargs)) []
          route.params params
