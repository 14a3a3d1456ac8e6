-- ===== src/Examples/Statics.antt =====
-- A server with two routes, on trees that refuse a path that is there already.
use rayo.Base.{
  length, ◌≤◌, ℕ, ◌≡◌, true, false, Option, none, some, String, [], ◌∷◌, arith, inr, ◌⊎◌,
}
use rayo.Dispatch.Pool.Start.{start_pool}
use rayo.Router.{Params, Matchit, new, add_route}
use rayo.Core.Params.{from_code}
use rayo.Core.Startup.{
  RouteSpec, Launched, ok, error, param_kinds, register_routes, Server, start_server,
}
use rayo.Dispatch.Channel.{word}
use rayo.Examples.Routes.{FixedPaths, find, find-cons, find-nil}
use rayo.Examples.Script.{Script}
use rayo.Examples.Servers.{willing, network, specs}

abbrev put : Option (ℕ × Params) → FixedPaths → String → ℕ → FixedPaths × Option String
put none tree route id = ((route, id) ∷ tree, none)
put (some found) tree route id = (tree, some "conflict")

abbrev insert_once : FixedPaths → String → ℕ → FixedPaths × Option String
insert_once tree route id = put (find tree route) tree route id

put-cons :
    (known : Option (ℕ × Params)) (tree : FixedPaths) (route : String) (id : ℕ) (path : String)
    (found : ℕ) (params : Params)
    → find (put known tree route id).0 path ≡ some (found, params)
    → (found ≡ id) ⊎ ((old : Params) × (find tree path ≡ some (found, old)))
put-cons none tree route id path found params h = find-cons tree route id path found params h
put-cons (some known) tree route id path found params h = inr (params, h)

abbrev distinct_paths : Matchit
distinct_paths = record {
  Tree = FixedPaths;
  default = [];
  insert = insert_once;
  at = find;
  default-at = find-nil;
  insert-at = λ tree route. put-cons (find tree route) tree route;
}

abbrev orders_route : RouteSpec
orders_route = record {
  method = "GET";
  path = "/orders";
  handler = 4;
  is_async = false;
  raw_params = ("limit", 1) ∷ [];
}

-- The start-up succeeds, and a `usize` can count the loops.
abbrev Fits : Launched (Server distinct_paths Script) → Type 0
Fits (ok server) = length server.service.event_loops.loops ≤ word
Fits (error e) = ⊥

starts : Fits (start_server distinct_paths willing network specs 2)
unfolding start_server start_pool register_routes param_kinds from_code new add_route find
starts = omega arith

abbrev users_route : RouteSpec
users_route = record {
  method = "GET";
  path = "/users";
  handler = 3;
  is_async = true;
  raw_params = [];
}
