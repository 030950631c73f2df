-- ===== src/Routing/Frozen.antt =====
-- src/routing/router.rs: the router that a server resolves its requests with.
-- matchit, the third-party tree of parameterised routes, is the argument `M`.
pub mod Resolve
pub mod Register
use fastrapi.Prelude.{
  ℕ, ◌≡◌, Bool, true, false, Option, none, some, List, [], ◌∷◌, ◌++◌, Assoc, lookup, insert, ◌==◌,
  if◌then◌else◌, is_empty,
}
use fastrapi.Text.{Str}
use fastrapi.Text.Laws.{str_key}
use fastrapi.Routing.Types.{HttpMethod, discriminant, RouteHandler, RouteEntry}
use fastrapi.Python.{PyRef}
use fastrapi.Routing.Paths.{normalize_lookup, normalize_register}

-- A parameter of a match: its key, and where its value stands in the path that was matched.
pub record PathMatch : Type 0 where
  pub key : Str
  pub start : ℕ
  pub width : ℕ

-- `matchit::Router`. `none` from `insert` is its error, after which the router is as before.
pub record Matchit (H : Type 0) : Type 1 where
  pub Router : Type 0
  pub fresh : Router
  pub add : Router → Str → H → Option Router
  pub at : Router → Str → Option (H × List PathMatch)

pub data RouteMatch : Type 0 where
  static : RouteHandler → RouteMatch
  params : RouteHandler → List PathMatch → RouteMatch

-- The arrays of HTTP_METHOD_COUNT entries, indexed by `method as usize`, are functions of the method.
pub record FrozenRouter (Router : Type 0) : Type 0 where
  pub static_routes : HttpMethod → Assoc Str RouteHandler
  pub param_routes : HttpMethod → Option Router
  pub websocket_routes : Assoc Str PyRef

pub record FrozenRouterBuilder : Type 0 where
  pub static_routes : HttpMethod → Assoc Str RouteHandler
  pub param_entries : HttpMethod → List (Str × RouteHandler)
  pub websocket_routes : Assoc Str PyRef

abbrev pub method_eq : HttpMethod → HttpMethod → Bool
method_eq m n = discriminant m == discriminant n

-- A write to the entry of `method` in an array.
abbrev pub at_method {ℓ} : {A : Type ℓ} → HttpMethod → A → (HttpMethod → A) → HttpMethod → A
at_method method a f n = if method_eq method n then a else f n

abbrev pub new_builder : FrozenRouterBuilder
new_builder = record { static_routes = λ _. []; param_entries = λ _. []; websocket_routes = [] }

unfoldable pub add_route :
    HttpMethod → Str → RouteHandler → FrozenRouterBuilder → FrozenRouterBuilder
add_route method path handler b =
    let (normalized, has_params) = normalize_register path in
    if has_params
    then record b {
      param_entries =
          at_method method (b.param_entries method ++ (normalized, handler) ∷ []) b.param_entries;
    }
    else record b {
      static_routes =
          at_method method (insert normalized handler (b.static_routes method)) b.static_routes;
    }

-- The loop of `build_router` (src/engine/server/routes.rs) over the flattened routes.
unfoldable pub add_routes : List RouteEntry → FrozenRouterBuilder → FrozenRouterBuilder
unfolding add_route
add_routes [] b = b
add_routes (route ∷ routes) b =
    add_routes routes (add_route route.method route.path route.handler b)

unfoldable pub add_websocket : Str → PyRef → FrozenRouterBuilder → FrozenRouterBuilder
add_websocket path handler b = record b {
  websocket_routes = insert (normalize_register path).0 handler b.websocket_routes;
}

module _ (M : Matchit RouteHandler) where
  -- An entry that matchit refuses is skipped, with a warning.
  abbrev pub insert_or_warn : M.Router → Str × RouteHandler → M.Router
  insert_or_warn router (path, handler) = elim (M.add router path handler) [
    | none ↦ router
    | some router' ↦ router'
  ]

  unfoldable pub insert_all : M.Router → List (Str × RouteHandler) → M.Router
  insert_all router [] = router
  insert_all router (entry ∷ entries) = insert_all (insert_or_warn router entry) entries

  unfoldable pub build : FrozenRouterBuilder → FrozenRouter M.Router
  unfolding insert_all
  build b = record {
    static_routes = b.static_routes;
    param_routes = λ method.
        if is_empty (b.param_entries method)
        then none
        else some (insert_all M.fresh (b.param_entries method));
    websocket_routes = b.websocket_routes;
  }

  abbrev pub match_params : Option M.Router → Str → Option RouteMatch
  match_params none path = none
  match_params (some router) path = elim (M.at router path) [
    | none ↦ none
    | some (handler, found) ↦ some (params handler found)
  ]

  abbrev pub first_match : Option RouteHandler → Option RouteMatch → Option RouteMatch
  first_match none found = found
  first_match (some handler) found = some (static handler)

  unfoldable pub resolve : FrozenRouter M.Router → HttpMethod → Str → Option RouteMatch
  resolve router method path =
      first_match (lookup (normalize_lookup path) (router.static_routes method))
        (match_params (router.param_routes method) path)

unfoldable pub resolve_ws : {R : Type 0} → FrozenRouter R → Str → Option PyRef
resolve_ws router path = lookup (normalize_lookup path) router.websocket_routes
