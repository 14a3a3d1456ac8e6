-- ===== src/Core/Service.antt =====
-- `AppService::handle`: from a request to its response.
pub mod Agree
pub mod Panics
pub mod Refuses
pub mod Dispatches
use rayo.Base.{
  ℕ, Bool, ◌&&◌, Option, none, some, String, List, [], ◌∷◌, State, pure, leb, if◌then◌else◌, codes,
  get_elem?,
}
use rayo.Base.Text.{Bytes}
use rayo.Dispatch.Types.{Object, HandlerResponse, internal_error, EventLoop}
use rayo.Dispatch.Python.{Python}
use rayo.Dispatch.Respond.{execute_sync_handler}
use rayo.Dispatch.Loop.{DispatchedRequest}
use rayo.Dispatch.Pool.Fleet.{EventLoopPool, schedule_pool}
use rayo.Router.{Params, Matchit, RouteMatch, Router, lookup}
use rayo.Core.Params.{ParamKind}
use rayo.Core.Kwargs.{
  Kwargs, Conversions, Outcome, ok, error, find_param, convert_and_insert, build_kwargs,
}

pub record RouteEntry : Type 0 where
  pub method : String
  pub path : String
  pub handler : Object
  pub is_async : Bool
  pub params : List (String × ParamKind)

-- `Response<Full<Bytes>>`, with its one header.
pub record Response : Type 0 where
  pub status : ℕ
  pub content_type : String
  pub body : Bytes

unfoldable pub plain_response : ℕ → String → Response
plain_response status body = record {
  status = status;
  content_type = "text/plain; charset=utf-8";
  body = codes body;
}

-- `StatusCode::from_u16` takes 100 to 999.
unfoldable pub response_from_handler : HandlerResponse → Response
response_from_handler r = record {
  status = if leb 100 r.status && leb r.status 999 then r.status else 500;
  content_type = r.content_type;
  body = r.body;
}

-- What awaiting the handler's outcome gives: `none` stands for a sender that was dropped.
unfoldable pub response_of : Option HandlerResponse → Response
unfolding response_from_handler plain_response
response_of (some handler_response) = response_from_handler handler_response
response_of none = plain_response 500 "Internal Server Error"

-- The body of the blocking task of a sync handler: the loop over the parameters, with an early
-- return for each error, and the call.
module _ {W : Type 0} (c : Conversions) (run : Kwargs → State (EventLoop W) HandlerResponse) where
  unfoldable pub sync_job :
      Kwargs → List (String × ParamKind) → Params → State (EventLoop W) HandlerResponse
  sync_job kwargs [] params_for_thread = run kwargs
  sync_job kwargs ((param_name, param_kind) ∷ param_specs) params_for_thread =
      elim (find_param params_for_thread param_name) [
        | none ↦ pure internal_error
        | some raw_value ↦ elim (convert_and_insert c kwargs param_name param_kind raw_value) [
          | ok kwargs' ↦ sync_job kwargs' param_specs params_for_thread
          | error error_response ↦ pure error_response
        ]
      ]

-- The future that `handle` returns, with the pool as the call left it: a response that is known, a
-- request that was dispatched to a loop, or a job for a blocking thread.
pub data Handling (W : Type 0) : Type 0 where
  ready : Response → EventLoopPool W → Handling W
  dispatched : DispatchedRequest → EventLoopPool W → Handling W
  blocking : State (EventLoop W) HandlerResponse → EventLoopPool W → Handling W
  panics : Handling W

pub record AppService (m : Matchit) (W : Type 0) : Type 0 where
  pub router : Router m
  pub routes : List RouteEntry
  pub event_loops : EventLoopPool W

-- `kwargs_object` is the Python object of a `PyDict`.
module _ (m : Matchit) {W : Type 0} (py : Python W) (c : Conversions)
    (kwargs_object : Kwargs → Object) where
  abbrev pub dispatched_on : Option (DispatchedRequest × EventLoopPool W) → Handling W
  dispatched_on none = panics
  dispatched_on (some (request, pool)) = dispatched request pool

  -- The `match` on `build_kwargs` in the async branch.
  abbrev pub dispatch : Object → EventLoopPool W → Outcome Kwargs → Handling W
  dispatch handler pool (ok kwargs) =
      dispatched_on (schedule_pool py handler (kwargs_object kwargs) pool)
  dispatch handler pool (error error_response) = ready (response_from_handler error_response) pool

  unfoldable pub handle_route : RouteEntry → Params → EventLoopPool W → Handling W
  unfolding sync_job build_kwargs response_from_handler
  handle_route route path_params pool =
      if route.is_async
      then dispatch route.handler pool (build_kwargs c route.params path_params)
      else blocking
          (sync_job c (λ kwargs. execute_sync_handler py route.handler (kwargs_object kwargs)) []
            route.params path_params)
          pool

  abbrev pub handle_at : Option RouteEntry → Params → EventLoopPool W → Handling W
  handle_at none path_params pool = panics
  handle_at (some route) path_params pool = handle_route route path_params pool

  abbrev pub handle_match : AppService m W → Option RouteMatch → Handling W
  handle_match service none = ready (plain_response 404 "Not Found") service.event_loops
  handle_match service (some found) =
      handle_at (get_elem? service.routes found.handler_id) found.path_params service.event_loops

  unfoldable pub handle : AppService m W → String → String → Handling W
  unfolding handle_route plain_response
  handle service method path = handle_match service (lookup m service.router method path)
