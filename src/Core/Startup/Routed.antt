-- ===== src/Core/Startup/Routed.antt =====
-- `start_server`: the routes without parameters in the service that it hands to the server.
use rayo.Base.{ℕ, ◌≡◌, some, List, get_elem?}
use rayo.Dispatch.Pool.Start.{Host}
use rayo.Router.{Matchit, Router, lookup}
use rayo.Router.Static.{static_match}
use rayo.Core.Service.{RouteEntry, AppService}
use rayo.Core.Startup.Registered.{IsEntry}
use rayo.Core.Startup.{RouteSpec, Launched, ok, error, Network, Server}

module _ (m : Matchit) {W : Type 0} where
  -- The lookup of the route's path finds its number, and under it stands its entry.
  abbrev pub IsRouted : AppService m W → ℕ → RouteSpec → Type 0
  IsRouted service i spec =
      (lookup m service.router spec.method spec.path ≡ some (static_match i))
      × IsEntry spec (get_elem? service.routes i)

module _ (m : Matchit) {W : Type 0} (host : Host W) (network : Network) where
  abbrev routes_of : Launched (Server m W) → Launched (Router m × List RouteEntry)
  routes_of (ok server) = ok (server.service.router, server.service.routes)
  routes_of (error e) = error e
