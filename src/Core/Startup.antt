-- ===== src/Core/Startup.antt =====
-- `start_server`: the routes it registers, and the checks that stop the start-up.
pub mod InOrder
pub mod Registered
pub mod Routed
pub mod Serves
use rayo.Base.{ℕ, ◌+◌, Bool, true, false, Option, none, some, String, List, [], ◌∷◌, ◌++◌}
use rayo.Dispatch.Types.{Object}
use rayo.Dispatch.Pool.Start.{Host, StartError, Started, start_pool}
use rayo.Router.{Matchit, RouteRegistrationError, Router, new, add_route}
use rayo.Core.Params.{ParamKind, from_code}
use rayo.Core.Service.{RouteEntry, AppService}

pub record RouteSpec : Type 0 where
  pub method : String
  pub path : String
  pub handler : Object
  pub is_async : Bool
  pub raw_params : List (String × ℕ)

pub data ServerError : Type 0 where
  route_refused : RouteRegistrationError → ServerError
  -- The method, the path, the parameter and the code.
  unknown_kind : String → String → String → ℕ → ServerError
  loops_failed : StartError → ServerError
  runtime_failed bind_failed address_failed : ServerError

pub data Launched (A : Type 0) : Type 0 where
  ok : A → Launched A
  error : ServerError → Launched A

infixl 5 ◌>>=◌ ◌>>◌
abbrev pub ◌>>=◌ : {A B : Type 0} → Launched A → (A → Launched B) → Launched B
ok a >>= f = f a
error e >>= f = error e

abbrev pub ◌>>◌ : {B : Type 0} → Launched (Unit {0}) → Launched B → Launched B
m >> k = m >>= λ _. k

abbrev or_unknown : Option ParamKind → ServerError → Launched ParamKind
or_unknown none e = error e
or_unknown (some kind) e = ok kind

unfoldable pub param_kinds :
    String → String → List (String × ℕ) → Launched (List (String × ParamKind))
unfolding from_code
param_kinds method path [] = ok []
param_kinds method path ((param_name, kind_code) ∷ raw_params) = do
  param_kind ← or_unknown (from_code kind_code) (unknown_kind method path param_name kind_code)
  params ← param_kinds method path raw_params
  ok ((param_name, param_kind) ∷ params)

abbrev pub started : {A : Type 0} → Started A → Launched A
started (Started.ok a) = ok a
started (Started.error e) = error (loops_failed e)

abbrev pub guard : Bool → ServerError → Launched (Unit {0})
guard true e = ok tt
guard false e = error e

module _ (m : Matchit) where
  abbrev pub registered : Router m × Option RouteRegistrationError → Launched (Router m)
  registered (router, none) = ok router
  registered (router, some e) = error (route_refused e)

  -- The loop over the routes; `route_entries` holds those done, so its length is `route_index`.
  unfoldable pub register_routes :
      List RouteSpec → ℕ → Router m → List RouteEntry → Launched (Router m × List RouteEntry)
  unfolding param_kinds
  register_routes [] route_index router route_entries = ok (router, route_entries)
  register_routes (spec ∷ routes) route_index router route_entries = do
    router' ← registered (add_route m router spec.method spec.path route_index)
    params ← param_kinds spec.method spec.path spec.raw_params
    register_routes routes (route_index + 1) router' (
        route_entries
        ++ record {
          method = spec.method;
          path = spec.path;
          handler = spec.handler;
          is_async = spec.is_async;
          params = params;
        }
          ∷ [])

-- What the system answers to the runtime, to the binding and for the bound port.
pub record Network : Type 0 where
  pub runtime_builds : Bool
  pub binds : Bool
  pub bound_port : Option ℕ

pub record Server (m : Matchit) (W : Type 0) : Type 0 where
  pub port : ℕ
  pub service : AppService m W
  -- Whether the receiver of the serving task's end is still there.
  pub serve_finished : Bool
  pub shutdown_sent : Bool

abbrev pub or_no_address : Option ℕ → Launched ℕ
or_no_address none = error address_failed
or_no_address (some port) = ok port

module _ (m : Matchit) {W : Type 0} (host : Host W) (network : Network) where
  unfoldable pub start_server : List RouteSpec → ℕ → Launched (Server m W)
  unfolding new register_routes start_pool
  start_server routes loop_threads = do
    (router, route_entries) ← register_routes m routes 0 (new m) []
    event_loops ← started (start_pool host loop_threads)
    guard network.runtime_builds runtime_failed
    guard network.binds bind_failed
    bound_port ← or_no_address network.bound_port
    ok (record {
      port = bound_port;
      service = record {
        router = router;
        routes = route_entries;
        event_loops = record { loops = event_loops; scan_start_index = 0 };
      };
      serve_finished = true;
      shutdown_sent = false;
    })
