-- ===== src/Examples/Refused.antt =====
-- A service whose only route takes a number, and a request with a word in its place.
use rayo.Base.{ℕ, ◌≡◌, refl, true, Option, none, some, String, [], ◌∷◌, inl, ◌⊎◌, codes, arith}
use text.Mathlib.TextEquality.{eq_iff}
use rayo.Dispatch.Types.{HandlerResponse}
use rayo.Router.{Params, Matchit, RouteMatch, add_route, lookup}
use rayo.Core.Params.{int, validation_error_response}
use rayo.Core.Kwargs.{Conversions, error, build_kwargs}
use rayo.Core.Service.{RouteEntry, AppService, response_of, handle}
use rayo.Core.Service.Refuses.{IsAnswered, handle-IsAnswered}
use rayo.Core.Kwargs.Complete.{IsRefusal}
use rayo.Examples.Script.{Script, scripted, idle_loop}

-- A tree with one route, which takes the whole path for its parameter.
pub at_last : Option ℕ → String → Option (ℕ × Params)
at_last none path = none
at_last (some id) path = some (id, ("user_id", path) ∷ [])

pub at_last-nil : (path : String) → at_last none path ≡ none
unfolding at_last
at_last-nil path = refl

pub at_last-insert :
    (tree : Option ℕ) (route : String) (id : ℕ) (path : String) (found : ℕ) (params : Params)
    → at_last (some id) path ≡ some (found, params)
    → (found ≡ id) ⊎ ((old : Params) × (at_last tree path ≡ some (found, old)))
unfolding at_last
at_last-insert tree route id path found params h = inl (ground arith)

abbrev last_route : Matchit
last_route = record {
  Tree = Option ℕ;
  default = none;
  insert = λ tree route id. (some id, none);
  at = at_last;
  default-at = at_last-nil;
  insert-at = at_last-insert;
}

abbrev user_route : RouteEntry
user_route = record {
  method = "GET";
  path = "{user_id}";
  handler = 3;
  is_async = true;
  params = ("user_id", int) ∷ [];
}

abbrev users : AppService last_route Script
users = record {
  router = (add_route last_route [] "GET" "{user_id}" 0).0;
  routes = user_route ∷ [];
  event_loops = record { loops = idle_loop ∷ []; scan_start_index = 0 };
}

abbrev plain : Conversions
plain = record { takes_key = λ name. true; parse_f64 = λ text. none }

abbrev matched : RouteMatch
matched = record { handler_id = 0; path_params = ("user_id", "abc") ∷ [] }

abbrev refusal : HandlerResponse
refusal = validation_error_response "user_id" int (codes "abc")

users_found : lookup last_route users.router "GET" "abc" ≡ some matched
unfolding lookup add_route at_last
users_found = ground (arith, eq_iff "GET" "GET")

abc_refused : build_kwargs plain user_route.params matched.path_params ≡ error refusal
unfolding build_kwargs
abc_refused = ground (arith, eq_iff "user_id" "user_id")

handle-IsAnswered_example :
    IsAnswered last_route scripted plain
      (λ kwargs. 4)
      refusal
      users.event_loops
      (handle last_route scripted plain (λ kwargs. 4) users "GET" "abc")
    × IsRefusal plain user_route.params matched.path_params refusal
    × ((response_of (some refusal)).status ≡ refusal.status)
handle-IsAnswered_example =
    handle-IsAnswered last_route scripted plain (λ kwargs. 4) users "GET" "abc" matched user_route
      refusal users_found refl (tt, tt) abc_refused
