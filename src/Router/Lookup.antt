-- ===== src/Router/Lookup.antt =====
-- What a lookup finds after a registration.
use rayo.Base.{
  ℕ, suc, ◌<◌, ◌≡◌, ◌≢◌, refl, sym, ap, subst, Option-cases, ◌∙◌, inl, inr, Option, none, some,
  String, [], ◌∷◌, arith, Bool-cases,
}
use text.Mathlib.Text.{◌==◌}
use text.Mathlib.TextEquality.{eq_iff}
use rayo.Router.{
  Params, Matchit, RouteMatch, Router, add_route_at, add_route, tree_of, matched, in_tree, lookup,
}

module _ (m : Matchit) where
  tree_of-add :
      (router : Router m) (method other path : String) (id : ℕ)
      → method ≢ other
      → tree_of m (add_route_at m router method path id).0 other ≡ tree_of m router other
  unfolding tree_of add_route_at
  tree_of-add [] method other path id ne = ground (arith, eq_iff method other)
  tree_of-add ((known, tree) ∷ rest) method other path id ne =
      ground
        (arith, eq_iff known method, eq_iff known other, tree_of-add rest method other path id ne)

  -- Registering a route, whether it succeeds or not, leaves the lookups of other methods alone.
  pub lookup-add_route_ne :
      (router : Router m) (method other route path : String) (id : ℕ)
      → method ≢ other
      → lookup m (add_route m router method route id).0 other path ≡ lookup m router other path
  unfolding lookup add_route
  lookup-add_route_ne router method other route path id ne =
      rw (tree_of-add router method other route id ne)

  -- Every lookup gives one of the first `n` handlers.
  pub record IsBelow (n : ℕ) (router : Router m) : Type 0 where
    pub at :
        (method path : String) (found : RouteMatch)
        → lookup m router method path ≡ some found
        → found.handler_id < n

  abbrev pub or_default : Option m.Tree → m.Tree
  or_default none = m.default
  or_default (some tree) = tree

  pub tree_of-add_self :
      (router : Router m) (method path : String) (id : ℕ)
      → tree_of m (add_route_at m router method path id).0 method
        ≡ some (m.insert (or_default (tree_of m router method)) path id).0
  unfolding tree_of add_route_at
  tree_of-add_self [] method path id = ground (arith, eq_iff method method)
  tree_of-add_self ((known, tree) ∷ rest) method path id =
      ground (arith, eq_iff known method, tree_of-add_self rest method path id)

  abbrev FoundBelow : ℕ → Option (ℕ × Params) → Type 0
  FoundBelow n none = Unit {0}
  FoundBelow n (some (id, params)) = id < n

  FoundBelow-matched :
      (n : ℕ) (o : Option (ℕ × Params)) (found : RouteMatch)
      → FoundBelow n o
      → matched m o ≡ some found
      → found.handler_id < n
  FoundBelow-matched n none found h e = cc
  FoundBelow-matched n (some (id, params)) found h e = ground arith

  found-FoundBelow :
      (n : ℕ) (o : Option (ℕ × Params))
      → ((found : RouteMatch) → matched m o ≡ some found → found.handler_id < n)
      → FoundBelow n o
  found-FoundBelow n none h = tt
  found-FoundBelow n (some (id, params)) h =
      h (record { handler_id = id; path_params = params }) refl

  known-FoundBelow :
      (n : ℕ) (router : Router m) (method path : String)
      → IsBelow n router
      → FoundBelow n (m.at (or_default (tree_of m router method)) path)
  unfolding lookup
  known-FoundBelow n router method path below = elim (Option-cases (tree_of m router method)) [
    | inl e ↦ rw (e, m.default-at path) tt
    | inr (tree, e) ↦ rw e (
        found-FoundBelow n (m.at tree path)
          λ found h. below.at method path found (ap (λ o. in_tree m o path) e ∙ h))
  ]

  inserted-FoundBelow :
      (n : ℕ) (tree : m.Tree) (route path : String)
      → FoundBelow n (m.at tree path)
      → FoundBelow (suc n) (m.at (m.insert tree route n).0 path)
  inserted-FoundBelow n tree route path h =
      elim (Option-cases (m.at (m.insert tree route n).0 path)) [
        | inl e ↦ rw e tt
        | inr ((id, params), e) ↦ rw e (elim (m.insert-at tree route n path id params e) [
          | inl new ↦ omega arith
          | inr (old, f) ↦ let earlier : id < n = subst (FoundBelow n) f h in omega arith
        ])
      ]

  -- A registration under the next number keeps the found numbers below the count.
  pub add_route-IsBelow :
      (n : ℕ) (router : Router m) (method route : String)
      → IsBelow n router
      → IsBelow (suc n) (add_route m router method route n).0
  unfolding lookup add_route
  add_route-IsBelow n router method route below = record {
    at = λ other path found e. elim (Bool-cases (method == other)) [
      | inl same ↦
          let here : method ≡ other = (eq_iff method other).0 same in
          FoundBelow-matched (suc n)
            (m.at (m.insert (or_default (tree_of m router method)) route n).0 path) found
            (inserted-FoundBelow n (or_default (tree_of m router method)) route path
              (known-FoundBelow n router method path below))
            (sym (ap (λ o. in_tree m o path) (tree_of-add_self router method route n))
              ∙ subst
                  (λ k.
                    in_tree m (tree_of m (add_route_at m router method route n).0 k) path
                    ≡ some found)
                  (sym here) e)
      | inr differs ↦
          let old = below.at other path found (
            sym (
              lookup-add_route_ne router method other route path n
                (λ same. ground (arith, eq_iff method other)))
            ∙ e) in
          omega arith
    ];
  }
