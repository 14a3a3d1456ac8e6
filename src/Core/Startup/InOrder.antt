-- ===== src/Core/Startup/InOrder.antt =====
-- The service that `start_server` hands to the server.
use rayo.Base.{
  ℕ, suc, ◌+◌, ◌<◌, ◌≡◌, refl, subst, true, Option, none, some, List, [], ◌∷◌, length,
  length-append, arith,
}
use rayo.Dispatch.Types.{EventLoop}
use rayo.Dispatch.Pool.Start.{Host, Started, start_pool}
use rayo.Dispatch.Pool.Sound.{AllSound, IsStarted, start_pool-IsStarted}
use rayo.Router.{Matchit, RouteRegistrationError, Router, new, add_route, lookup}
use rayo.Router.Lookup.{IsBelow, add_route-IsBelow}
use rayo.Core.Service.{RouteEntry}
use rayo.Core.Service.Panics.{IsReady}
use rayo.Core.Startup.{
  RouteSpec, runtime_failed, bind_failed, Launched, ok, error, ◌>>=◌, param_kinds, started,
  registered, guard, or_no_address, register_routes, Network, Server, start_server,
}

-- Whatever a start-up gives, if it gives anything, satisfies `P`.
abbrev Gives {ℓ} : {A : Type 0} → (A → Type ℓ) → Launched A → Type ℓ
Gives P (ok a) = P a
Gives P (error e) = Unit

Gives-bind {ℓ κ} :
    {A B : Type 0} (Q : A → Type ℓ) (P : B → Type κ) (o : Launched A) (f : A → Launched B)
    → Gives Q o
    → ((a : A) → Q a → Gives P (f a))
    → Gives P (o >>= f)
Gives-bind Q P (ok a) f q h = h a q
Gives-bind Q P (error e) f q h = tt

Gives-any : {A : Type 0} (o : Launched A) → Gives (λ a. Unit {0}) o
Gives-any (ok a) = tt
Gives-any (error e) = tt

module _ (m : Matchit) where
  -- The router finds only the routes that have an entry.
  abbrev InStep : Router m × List RouteEntry → Type 0
  InStep (router, entries) = IsBelow m (length entries) router

  registered-IsBelow :
      (n : ℕ) (o : Router m × Option RouteRegistrationError)
      → IsBelow m n o.0
      → Gives (IsBelow m n) (registered m o)
  registered-IsBelow n (router, none) h = h
  registered-IsBelow n (router, some e) h = tt

  register_routes-InStep :
      (specs : List RouteSpec) (n : ℕ) (router : Router m) (entries : List RouteEntry)
      → n ≡ length entries
      → IsBelow m n router
      → Gives InStep (register_routes m specs n router entries)
  unfolding register_routes
  register_routes-InStep [] n router entries e below = subst (λ k. IsBelow m k router) e below
  register_routes-InStep (spec ∷ specs) n router entries e below =
      Gives-bind (IsBelow m (suc n)) InStep
        (registered m (add_route m router spec.method spec.path n)) _
        (registered-IsBelow (suc n) (add_route m router spec.method spec.path n)
          (add_route-IsBelow m n router spec.method spec.path below))
        λ router' below'.
          Gives-bind (λ a. Unit {0}) InStep (param_kinds spec.method spec.path spec.raw_params) _
            (Gives-any (param_kinds spec.method spec.path spec.raw_params))
            λ params _.
              register_routes-InStep specs (n + 1) router' _
                (omega (
                  arith,
                  length-append entries (
                      record {
                        method = spec.method;
                        path = spec.path;
                        handler = spec.handler;
                        is_async = spec.is_async;
                        params = params;
                      }
                      ∷ []),
                ))
                (subst (λ k. IsBelow m k router') (omega arith) below')

  empty-IsBelow : IsBelow m 0 (new m)
  unfolding lookup new
  empty-IsBelow = record { at = λ method path found h. cc }

module _ (m : Matchit) {W : Type 0} (host : Host W) (network : Network) where
  IsStarted-Gives :
      (n : ℕ) (o : Started (List (EventLoop W)))
      → IsStarted host n o
      → Gives (λ loops. (0 < length loops) × AllSound loops) (started o)
  IsStarted-Gives n (Started.ok loops) h = (omega (arith, h.0, h.1), h.2)
  IsStarted-Gives n (Started.error e) h = tt

  -- What a server that starts has: a service in order, an offset of 0, and the receiver.
  abbrev pub Serves : Server m W → Type 1
  Serves server =
      IsReady m server.service
      × (server.service.event_loops.scan_start_index ≡ 0)
      × (server.serve_finished ≡ true)

  abbrev pub IsLaunched : Launched (Server m W) → Type 1
  IsLaunched (ok server) = Serves server
  IsLaunched (error e) = Unit

  Gives-IsLaunched : (o : Launched (Server m W)) → Gives Serves o → IsLaunched o
  Gives-IsLaunched (ok server) h = h
  Gives-IsLaunched (error e) h = tt

  -- A server that starts can serve: every route that its router finds has an entry, and there is at
  -- least one loop, all of them sound. It starts with the pool's offset at 0.
  pub start_server-IsLaunched :
      (routes : List RouteSpec) (loop_threads : ℕ)
      → IsLaunched (start_server m host network routes loop_threads)
  unfolding start_server
  start_server-IsLaunched routes loop_threads =
      Gives-IsLaunched (start_server m host network routes loop_threads) (
        Gives-bind (InStep m) Serves (register_routes m routes 0 (new m) []) _
          (register_routes-InStep m routes 0 (new m) [] refl (empty-IsBelow m))
          λ found below.
            Gives-bind (λ loops. (0 < length loops) × AllSound loops) Serves
              (started (start_pool host loop_threads)) _
              (IsStarted-Gives loop_threads (start_pool host loop_threads)
                (start_pool-IsStarted host loop_threads))
              λ loops sound.
                Gives-bind (λ a. Unit {0}) Serves (guard network.runtime_builds runtime_failed) _
                  (Gives-any (guard network.runtime_builds runtime_failed))
                  λ _ _.
                    Gives-bind (λ a. Unit {0}) Serves (guard network.binds bind_failed) _
                      (Gives-any (guard network.binds bind_failed))
                      λ _ _.
                        Gives-bind (λ a. Unit {0}) Serves (or_no_address network.bound_port) _
                          (Gives-any (or_no_address network.bound_port))
                          λ port _. (
                            record { routes_found = below; some_loop = sound.0; sound = sound.1 },
                            refl,
                            refl,
                          ))
