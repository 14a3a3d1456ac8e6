-- ===== src/Examples/Routes.antt =====
-- A router whose trees are lists of fixed paths, and a service on it.
use text.Mathlib.Text.{◌==◌}
use rayo.Base.{
  ℕ, ◌≡◌, refl, true, Option, none, some, String, List, [], ◌∷◌, if◌then◌else◌, arith, Bool-cases,
  inl, inr, ◌⊎◌,
}
use rayo.Dispatch.Soundness.History.{new_loop-IsSound}
use rayo.Router.{Params, Matchit, add_route, lookup}
use rayo.Router.Lookup.{IsBelow, add_route-IsBelow}
use rayo.Core.Kwargs.{Conversions}
use rayo.Core.Service.{RouteEntry, AppService}
use rayo.Core.Service.Panics.{IsReady}
use rayo.Examples.Script.{Script, idle_loop}

abbrev pub FixedPaths : Type 0
FixedPaths = List (String × ℕ)

unfoldable pub find : FixedPaths → String → Option (ℕ × Params)
find [] path = none
find ((route, id) ∷ tree) path = if route == path then some (id, []) else find tree path

pub find-cons :
    (tree : FixedPaths) (route : String) (id : ℕ) (path : String) (found : ℕ) (params : Params)
    → find ((route, id) ∷ tree) path ≡ some (found, params)
    → (found ≡ id) ⊎ ((old : Params) × (find tree path ≡ some (found, old)))
unfolding find
find-cons tree route id path found params h = elim (Bool-cases (route == path)) [
  | inl same ↦ inl (ground arith)
  | inr differs ↦ inr (params, ground arith)
]

pub find-nil : (path : String) → find [] path ≡ none
unfolding find
find-nil path = refl

abbrev pub fixed_paths : Matchit
fixed_paths = record {
  Tree = FixedPaths;
  default = [];
  insert = λ tree route id. ((route, id) ∷ tree, none);
  at = find;
  default-at = find-nil;
  insert-at = find-cons;
}

empty-IsBelow : IsBelow fixed_paths 0 []
unfolding lookup
empty-IsBelow = record { at = λ method path found h. cc }

add_route-IsBelow_example : IsBelow fixed_paths 1 (add_route fixed_paths [] "GET" "/users" 0).0
add_route-IsBelow_example = add_route-IsBelow fixed_paths 0 [] "GET" "/users" empty-IsBelow

abbrev pub service : AppService fixed_paths Script
service = record {
  router = (add_route fixed_paths [] "GET" "/users" 0).0;
  routes =
      record { method = "GET"; path = "/users"; handler = 3; is_async = true; params = [] } ∷ [];
  event_loops = record { loops = idle_loop ∷ idle_loop ∷ []; scan_start_index = 0 };
}

pub service-IsReady : IsReady fixed_paths service
service-IsReady = record {
  routes_found = add_route-IsBelow fixed_paths 0 [] "GET" "/users" empty-IsBelow;
  some_loop = omega arith;
  sound = (new_loop-IsSound _ 1, (new_loop-IsSound _ 1, tt));
}

abbrev pub plain : Conversions
plain = record { takes_key = λ name. true; parse_f64 = λ text. none }

abbrev users_route : RouteEntry
users_route = record { method = "GET"; path = "/users"; handler = 3; is_async = true; params = [] }
