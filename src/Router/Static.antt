-- ===== src/Router/Static.antt =====
-- Routes without parameters, and what a lookup of their paths finds.
use rayo.Base.{
  ℕ, ◌≡◌, refl, sym, ap, subst, ◌∙◌, Bool, true, false, ◌||◌, not, Option, none, some, String, [],
  ◌∷◌, ◌==◌ as ◌=?◌, Bool-cases, Option-cases, inl, inr, arith, codes,
}
use text.Mathlib.Text.{◌==◌}
use text.Mathlib.TextEquality.{eq_iff}
use rayo.Base.Text.{Text}
use rayo.Router.{
  Params, Matchit, RouteMatch, Router, add_route_at, add_route, tree_of, matched, in_tree, lookup,
}
use rayo.Router.Lookup.{or_default, tree_of-add_self, lookup-add_route_ne}

abbrev has_brace : Text → Bool
has_brace [] = false
has_brace (c ∷ s) = (c =? b'{') || ((c =? b'}') || has_brace s)

abbrev pub is_static : String → Bool
is_static path = not (has_brace (codes path))

-- What `matchit` documents of static routes: they come before those with parameters, and a route
-- that is there already is refused.
pub record StaticFirst (m : Matchit) : Type 0 where
  pub insert-found :
      (tree : m.Tree) (route : String) (id : ℕ)
      → is_static route ≡ true
      → (m.insert tree route id).1 ≡ none
      → m.at (m.insert tree route id).0 route ≡ some (id, [])
  pub insert-keeps :
      (tree : m.Tree) (route : String) (id : ℕ) (path : String) (found : ℕ)
      → is_static path ≡ true
      → (m.insert tree route id).1 ≡ none
      → m.at tree path ≡ some (found, [])
      → m.at (m.insert tree route id).0 path ≡ some (found, [])

abbrev pub static_match : ℕ → RouteMatch
static_match id = record { handler_id = id; path_params = [] }

module _ (m : Matchit) where
  refused-add :
      (router : Router m) (method path : String) (id : ℕ)
      → (add_route_at m router method path id).1
        ≡ (m.insert (or_default m (tree_of m router method)) path id).1
  unfolding add_route_at tree_of
  refused-add [] method path id = refl
  refused-add ((known, tree) ∷ rest) method path id =
      ground (arith, refused-add rest method path id)

  accepted :
      (router : Router m) (method path : String) (id : ℕ)
      → (add_route m router method path id).1 ≡ none
      → (m.insert (or_default m (tree_of m router method)) path id).1 ≡ none
  unfolding add_route
  accepted router method path id h = elim (Option-cases (add_route_at m router method path id).1) [
    | inl e ↦ sym (refused-add router method path id) ∙ e
    | inr (reason, e) ↦ cc
  ]

  matched-static :
      (o : Option (ℕ × Params)) (found : ℕ)
      → matched m o ≡ some (static_match found)
      → o ≡ some (found, [])
  matched-static none found h = cc
  matched-static (some (id, params)) found h = cc

  found-at :
      (router : Router m) (method path : String) (found : ℕ)
      → lookup m router method path ≡ some (static_match found)
      → m.at (or_default m (tree_of m router method)) path ≡ some (found, [])
  unfolding lookup
  found-at router method path found h = elim (Option-cases (tree_of m router method)) [
    | inl e ↦ cc
    | inr (tree, e) ↦
        rw e (matched-static (m.at tree path) found (sym (ap (λ o. in_tree m o path) e) ∙ h))
  ]

  module _ (first : StaticFirst m) where
    -- A static route that was accepted is found under its own number.
    pub add_route-found :
        (router : Router m) (method route : String) (id : ℕ)
        → is_static route ≡ true
        → (add_route m router method route id).1 ≡ none
        → lookup m (add_route m router method route id).0 method route ≡ some (static_match id)
    unfolding lookup add_route
    add_route-found router method route id static h =
        rw (tree_of-add_self m router method route id) (
          rw
            (first.insert-found (or_default m (tree_of m router method)) route id static
              (accepted router method route id (unfold add_route in h)))
            refl)

    -- A static path that was found before a route was accepted is found as before.
    pub add_route-keeps :
        (router : Router m) (method route : String) (id : ℕ) (other path : String) (found : ℕ)
        → is_static path ≡ true
        → (add_route m router method route id).1 ≡ none
        → lookup m router other path ≡ some (static_match found)
        → lookup m (add_route m router method route id).0 other path ≡ some (static_match found)
    unfolding lookup add_route
    add_route-keeps router method route id other path found static h old =
        elim (Bool-cases (method == other)) [
          | inl same ↦
              subst
                (λ k.
                  in_tree m (tree_of m (add_route_at m router method route id).0 k) path
                  ≡ some (static_match found))
                ((eq_iff method other).0 same)
                (rw (tree_of-add_self m router method route id) (
                  rw
                    (first.insert-keeps (or_default m (tree_of m router method)) route id path found
                      static (accepted router method route id (unfold add_route in h))
                      (found-at router method path found (
                        subst (λ k. lookup m router k path ≡ some (static_match found))
                          (sym ((eq_iff method other).0 same)) old)))
                    refl))
          | inr differs ↦
              lookup-add_route_ne m router method other route path id
                (λ same. ground (arith, eq_iff method other))
              ∙ old
        ]
