-- ===== src/Core/Service/Refuses.antt =====
-- Requests that never reach a handler: no route, or parameters that are refused.
use rayo.Base.{
  ◌≡◌, refl, sym, ap, subst, ◌∙◌, inl, inr, some, String, List, [], ◌∷◌, get_elem?, pure,
  Bool-cases,
}
use rayo.Dispatch.Types.{Object, HandlerResponse, internal_error}
use rayo.Dispatch.Python.{Python}
use rayo.Dispatch.Respond.{execute_sync_handler}
use rayo.Dispatch.Pool.Fleet.{EventLoopPool}
use rayo.Router.{Params, Matchit, RouteMatch, lookup}
use rayo.Core.Params.{ParamKind, validation_error_response}
use rayo.Core.Kwargs.{Kwargs, Conversions, error, build_kwargs}
use rayo.Core.Kwargs.Complete.{IsDistinct, IsRefusal, IsBuilt, build_kwargs-IsBuilt}
use rayo.Core.Service.{
  RouteEntry, response_from_handler, response_of, Handling, ready, dispatched, blocking, panics,
  AppService, handle_route, handle,
}
use rayo.Core.Service.Agree.{finish_with, sync_job-build_kwargs}

response_from_handler-refusal :
    (c : Conversions) (specs : List (String × ParamKind)) (matched : Params) (r : HandlerResponse)
    → IsRefusal c specs matched r
    → (response_from_handler r).status ≡ r.status
unfolding internal_error validation_error_response response_from_handler
response_from_handler-refusal c [] matched r h = elim h [ ]
response_from_handler-refusal c ((name, kind) ∷ rest) matched r (inl (lost, e)) = rw e refl
response_from_handler-refusal c ((name, kind) ∷ rest) matched r (inr (raw, (found, inl (bad, e)))) =
    rw e refl
response_from_handler-refusal c ((name, kind) ∷ rest) matched r
      (inr (raw, (found, inr (argument, (good, inl (refused, e)))))) =
    rw e refl
response_from_handler-refusal c ((name, kind) ∷ rest) matched r
      (inr (raw, (found, inr (argument, (good, inr (taken, h)))))) =
    response_from_handler-refusal c rest matched r h

module _ (m : Matchit) {W : Type 0} (py : Python W) (c : Conversions)
    (kwargs_object : Kwargs → Object) where
  -- The handling gives this response, with nothing done to a loop, at once or from a blocking job.
  abbrev pub IsAnswered : HandlerResponse → EventLoopPool W → Handling W → Type 0
  IsAnswered r pool (ready response pool') = (response ≡ response_from_handler r) × (pool' ≡ pool)
  IsAnswered r pool (dispatched request pool') = ⊥
  IsAnswered r pool (blocking job pool') = (job ≡ pure r) × (pool' ≡ pool)
  IsAnswered r pool panics = ⊥

  handle_route-IsAnswered :
      (route : RouteEntry) (params : Params) (pool : EventLoopPool W) (r : HandlerResponse)
      → build_kwargs c route.params params ≡ error r
      → IsAnswered r pool (handle_route m py c kwargs_object route params pool)
  unfolding handle_route
  handle_route-IsAnswered route params pool r e = elim (Bool-cases route.is_async) [
    | inl a ↦ rw (a, e) (refl, refl)
    | inr a ↦ rw a (
      sync_job-build_kwargs c
            (λ kwargs. execute_sync_handler py route.handler (kwargs_object kwargs)) route.params
            params
          ∙ ap
              (finish_with c
                (λ kwargs. execute_sync_handler py route.handler (kwargs_object kwargs)))
              e,
      refl,
    )
  ]

  handle-route :
      (service : AppService m W) (method path : String) (found : RouteMatch) (route : RouteEntry)
      → lookup m service.router method path ≡ some found
      → get_elem? service.routes found.handler_id ≡ some route
      → handle m py c kwargs_object service method path
        ≡ handle_route m py c kwargs_object route found.path_params service.event_loops
  unfolding handle
  handle-route service method path found route l g = rw (l, g) refl

  -- A request whose path parameters are refused, for a route whose parameter names are distinct, is
  -- answered with the refusal, for async handlers and for sync ones: the handler is not called and
  -- no loop is touched. The refusal is that of the first parameter that cannot be bound: its 422
  -- where its text is wrong for its kind, and the internal error, a 500, where the path has no
  -- value for it or the dict refuses its name. The response keeps the refusal's status.
  pub handle-IsAnswered :
      (service : AppService m W) (method path : String) (found : RouteMatch) (route : RouteEntry)
      (r : HandlerResponse)
      → lookup m service.router method path ≡ some found
      → get_elem? service.routes found.handler_id ≡ some route
      → IsDistinct route.params
      → build_kwargs c route.params found.path_params ≡ error r
      → IsAnswered r service.event_loops (handle m py c kwargs_object service method path)
        × IsRefusal c route.params found.path_params r
        × ((response_of (some r)).status ≡ r.status)
  unfolding response_of
  handle-IsAnswered service method path found route r l g distinct e =
      let refusal : IsRefusal c route.params found.path_params r =
        subst (IsBuilt c route.params found.path_params) e
          (build_kwargs-IsBuilt c route.params found.path_params distinct) in
      (
        subst (IsAnswered r service.event_loops)
            (sym (handle-route service method path found route l g))
            (handle_route-IsAnswered route found.path_params service.event_loops r e),
        refusal,
        response_from_handler-refusal c route.params found.path_params r refusal,
      )
