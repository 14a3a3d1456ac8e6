-- ===== src/Core/Startup/Registered.antt =====
-- The loop of `start_server` over the routes: the entries and the router that it leaves.
use rayo.Base.{
  ℕ, zero, suc, ◌+◌, ◌≡◌, refl, sym, subst, true, Option, none, some, String, List, [], ◌∷◌, ◌++◌,
  length, length-append, get_elem?, arith,
}
use rayo.Router.{Matchit, RouteRegistrationError, Router, add_route, lookup}
use rayo.Router.Static.{is_static, static_match, StaticFirst, add_route-found, add_route-keeps}
use rayo.Core.Params.{ParamKind}
use rayo.Core.Service.{RouteEntry}
use rayo.Core.Startup.{
  RouteSpec, Launched, ok, error, ◌>>=◌, param_kinds, registered, register_routes,
}

abbrev pub entry_of : RouteSpec → List (String × ParamKind) → RouteEntry
entry_of spec params = record {
  method = spec.method;
  path = spec.path;
  handler = spec.handler;
  is_async = spec.is_async;
  params = params;
}

-- The entry for `spec`, with the kinds of its parameters.
abbrev pub IsEntry : RouteSpec → Option RouteEntry → Type 0
IsEntry spec found =
    (params : List (String × ParamKind)) × ((param_kinds spec.method spec.path spec.raw_params
        ≡ ok params)
      × (found ≡ some (entry_of spec params)))

get_elem?-append :
    {A : Type 0} (xs ys : List A) (i : ℕ) (x : A)
    → get_elem? xs i ≡ some x
    → get_elem? (xs ++ ys) i ≡ some x
get_elem?-append [] ys i x h = cc
get_elem?-append (y ∷ xs) ys zero x h = h
get_elem?-append (y ∷ xs) ys (suc i) x h = get_elem?-append xs ys i x h

get_elem?-last : {A : Type 0} (xs : List A) (x : A) → get_elem? (xs ++ x ∷ []) (length xs) ≡ some x
get_elem?-last [] x = refl
get_elem?-last (y ∷ xs) x = get_elem?-last xs x

-- A bind that succeeds has a first part that did.
pub bound :
    {A B : Type 0} (o : Launched A) (f : A → Launched B) (b : B)
    → (o >>= f) ≡ ok b
    → (a : A) × ((o ≡ ok a) × (f a ≡ ok b))
bound (ok a) f b h = (a, (refl, h))
bound (error e) f b h = cc

module _ (m : Matchit) where
  registered-ok :
      (o : Router m × Option RouteRegistrationError) (router : Router m)
      → registered m o ≡ ok router
      → (o.1 ≡ none) × (o.0 ≡ router)
  registered-ok (known, none) router h = (refl, cc)
  registered-ok (known, some e) router h = cc

  -- One turn of the loop over the routes.
  register_routes-step :
      (spec : RouteSpec) (specs : List RouteSpec) (n : ℕ) (router : Router m)
      (entries : List RouteEntry) (out : Router m × List RouteEntry)
      → register_routes m (spec ∷ specs) n router entries ≡ ok out
      → (params : List (String × ParamKind)) × (((add_route m router spec.method spec.path n).1
            ≡ none)
          × ((param_kinds spec.method spec.path spec.raw_params ≡ ok params)
              × (register_routes m specs
                    (n + 1)
                    (add_route m router spec.method spec.path n).0
                    (entries ++ entry_of spec params ∷ [])
                  ≡ ok out)))
  unfolding register_routes
  register_routes-step spec specs n router entries out h =
      let (router', (added, h')) =
        bound (registered m (add_route m router spec.method spec.path n)) _ out h in
      let (params, (kinds, h'')) =
        bound (param_kinds spec.method spec.path spec.raw_params) _ out h' in
      let (accepted, same) =
        registered-ok (add_route m router spec.method spec.path n) router' added in
      (
        params,
        (
          accepted,
          (
            kinds,
            subst
                (λ r.
                  register_routes m specs (n + 1) r (entries ++ entry_of spec params ∷ []) ≡ ok out)
                (sym same) h'',
          ),
        ),
      )

  register_routes-keeps_entry :
      (specs : List RouteSpec) (n : ℕ) (router : Router m) (entries : List RouteEntry)
      (out : Router m × List RouteEntry) (i : ℕ) (entry : RouteEntry)
      → register_routes m specs n router entries ≡ ok out
      → get_elem? entries i ≡ some entry
      → get_elem? out.1 i ≡ some entry
  unfolding register_routes
  register_routes-keeps_entry [] n router entries out i entry h e = cc
  register_routes-keeps_entry (spec ∷ specs) n router entries out i entry h e =
      let (params, (accepted, (kinds, rest))) =
        register_routes-step spec specs n router entries out (unfold register_routes in h) in
      register_routes-keeps_entry specs (n + 1) _ _ out i entry rest
        (get_elem?-append entries (entry_of spec params ∷ []) i entry e)

  -- Every route has its entry, at its own place.
  pub register_routes-IsEntry :
      (specs : List RouteSpec) (n : ℕ) (router : Router m) (entries : List RouteEntry)
      (out : Router m × List RouteEntry) (i : ℕ) (spec : RouteSpec)
      → n ≡ length entries
      → register_routes m specs n router entries ≡ ok out
      → get_elem? specs i ≡ some spec
      → IsEntry spec (get_elem? out.1 (n + i))
  register_routes-IsEntry [] n router entries out i spec len h e = cc
  register_routes-IsEntry (first ∷ specs) n router entries out zero spec len h e =
      let (params, (accepted, (kinds, rest))) =
        register_routes-step first specs n router entries out h in
      subst (λ s. IsEntry s (get_elem? out.1 (n + 0))) (cc)
        (
          params,
          (
            kinds,
            register_routes-keeps_entry specs (n + 1) _ _ out (n + 0) (entry_of first params) rest (
                subst
                  (λ k.
                    get_elem? (entries ++ entry_of first params ∷ []) k
                    ≡ some (entry_of first params))
                  (omega (arith, len)) (get_elem?-last entries (entry_of first params))),
          ),
        )
  register_routes-IsEntry (first ∷ specs) n router entries out (suc i) spec len h e =
      let (params, (accepted, (kinds, rest))) =
        register_routes-step first specs n router entries out h in
      subst (λ k. IsEntry spec (get_elem? out.1 k)) (omega arith)
        (register_routes-IsEntry specs (n + 1) _ _ out i spec
          (omega (arith, len, length-append entries (entry_of first params ∷ []))) rest e)

  module _ (first : StaticFirst m) where
    register_routes-keeps_found :
        (specs : List RouteSpec) (n : ℕ) (router : Router m) (entries : List RouteEntry)
        (out : Router m × List RouteEntry) (method path : String) (found : ℕ)
        → is_static path ≡ true
        → register_routes m specs n router entries ≡ ok out
        → lookup m router method path ≡ some (static_match found)
        → lookup m out.0 method path ≡ some (static_match found)
    unfolding register_routes
    register_routes-keeps_found [] n router entries out method path found static h old = cc
    register_routes-keeps_found (spec ∷ specs) n router entries out method path found static h old =
        let (params, (accepted, (kinds, rest))) =
          register_routes-step spec specs n router entries out (unfold register_routes in h) in
        register_routes-keeps_found specs (n + 1) _ _ out method path found static rest (
          add_route-keeps m first router spec.method spec.path n method path found static accepted
            old)

    -- Every static route is found under its own number.
    pub register_routes-found :
        (specs : List RouteSpec) (n : ℕ) (router : Router m) (entries : List RouteEntry)
        (out : Router m × List RouteEntry) (i : ℕ) (spec : RouteSpec)
        → register_routes m specs n router entries ≡ ok out
        → get_elem? specs i ≡ some spec
        → is_static spec.path ≡ true
        → lookup m out.0 spec.method spec.path ≡ some (static_match (n + i))
    register_routes-found [] n router entries out i spec h e static = cc
    register_routes-found (here ∷ specs) n router entries out zero spec h e static =
        let (params, (accepted, (kinds, rest))) =
          register_routes-step here specs n router entries out h in
        let same : here ≡ spec = cc in
        let static' : is_static here.path ≡ true = cc in
        subst (λ k. lookup m out.0 k.method k.path ≡ some (static_match (n + 0))) same
          (register_routes-keeps_found specs (n + 1) _ _ out here.method here.path (n + 0) static'
            rest
            (subst
              (λ k.
                lookup m (add_route m router here.method here.path n).0 here.method here.path
                ≡ some (static_match k))
              (omega arith)
              (add_route-found m first router here.method here.path n static' accepted)))
    register_routes-found (here ∷ specs) n router entries out (suc i) spec h e static =
        let (params, (accepted, (kinds, rest))) =
          register_routes-step here specs n router entries out h in
        subst (λ k. lookup m out.0 spec.method spec.path ≡ some (static_match k)) (omega arith)
          (register_routes-found specs (n + 1) _ _ out i spec rest e static)
