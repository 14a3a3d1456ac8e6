-- ===== src/Router.antt =====
-- crates/router/src/lib.rs: one radix tree for each HTTP method. The tree is `matchit`'s, a
-- parameter with the two facts that the router relies on.
pub mod Lookup
pub mod Static
use rayo.Base.{
  ℕ, ◌≡◌, ◌⊎◌, Bool, true, false, Option, none, some, String, List, [], ◌∷◌, if◌then◌else◌, codes,
  ◌++◌,
}
use rayo.Base.Text.{Text}
use text.Mathlib.Text.{◌==◌}

abbrev pub Params : Type 0
Params = List (String × String)

pub record Matchit : Type 1 where
  pub Tree : Type 0
  pub default : Tree
  -- The tree after the call, and the reason where the route was refused.
  pub insert : Tree → String → ℕ → Tree × Option String
  pub at : Tree → String → Option (ℕ × Params)
  -- What a tree finds was put there.
  pub default-at : (path : String) → at default path ≡ none
  pub insert-at :
      (tree : Tree) (route : String) (id : ℕ) (path : String) (found : ℕ) (params : Params)
      → at (insert tree route id).0 path ≡ some (found, params)
      → (found ≡ id) ⊎ ((old : Params) × (at tree path ≡ some (found, old)))

pub record RouteMatch : Type 0 where
  pub handler_id : ℕ
  pub path_params : Params

pub record RouteRegistrationError : Type 0 where
  pub method : String
  pub path : String
  pub reason : String

-- `Display for RouteRegistrationError`.
unfoldable pub display : RouteRegistrationError → Text
display e =
    codes "cannot register route "
    ++ (codes e.method ++ (codes " " ++ (codes e.path ++ (codes ": " ++ codes e.reason))))

module _ (m : Matchit) where
  -- `HashMap<String, matchit::Router<usize>>`.
  abbrev pub Router : Type 0
  Router = List (String × m.Tree)

  unfoldable pub new : Router
  new = []

  -- `entry(method).or_default()` with the tree that the insertion leaves; the reason beside it.
  unfoldable pub add_route_at : Router → String → String → ℕ → Router × Option String
  add_route_at [] method path handler_id =
      let (tree, refused) = m.insert m.default path handler_id in ((method, tree) ∷ [], refused)
  add_route_at ((known, tree) ∷ rest) method path handler_id =
      if known == method
      then (let (tree', refused) = m.insert tree path handler_id in
          ((known, tree') ∷ rest, refused))
      else (let (rest', refused) = add_route_at rest method path handler_id in
          ((known, tree) ∷ rest', refused))

  abbrev pub registration_error : String → String → Option String → Option RouteRegistrationError
  registration_error method path none = none
  registration_error method path (some reason) =
      some (record { method = method; path = path; reason = reason })

  -- `none` is `Ok(())`.
  unfoldable pub add_route : Router → String → String → ℕ → Router × Option RouteRegistrationError
  unfolding add_route_at
  add_route router method path handler_id =
      let (router', refused) = add_route_at router method path handler_id in
      (router', registration_error method path refused)

  unfoldable pub tree_of : Router → String → Option m.Tree
  tree_of [] method = none
  tree_of ((known, tree) ∷ rest) method = if known == method then some tree else tree_of rest method

  abbrev pub matched : Option (ℕ × Params) → Option RouteMatch
  matched none = none
  matched (some (id, params)) = some (record { handler_id = id; path_params = params })

  abbrev pub in_tree : Option m.Tree → String → Option RouteMatch
  in_tree none path = none
  in_tree (some tree) path = matched (m.at tree path)

  unfoldable pub lookup : Router → String → String → Option RouteMatch
  unfolding tree_of
  lookup router method path = in_tree (tree_of router method) path
