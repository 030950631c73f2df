-- ===== src/Routing/Frozen/Resolve.antt =====
-- About `resolve` of src/routing/router.rs after a list of routes is registered.
use fastrapi.Prelude.{
  ◌≡◌, refl, ap, sym, Bool, true, not, ◌&&◌, Option, none, some, List, [], ◌∷◌, ◌++◌, arith, lookup,
  lookup-insert, if◌then◌else◌, is_empty, append_assoc, append-nil, or_else,
}
use fastrapi.Text.{Str, str_eq}
use fastrapi.Text.Laws.{str_key}
use fastrapi.Routing.Types.{HttpMethod, RouteHandler, RouteEntry}
use fastrapi.Routing.Paths.{normalize_lookup, normalize_register}
use fastrapi.Routing.Frozen.{
  Matchit, FrozenRouterBuilder, new_builder, method_eq, add_route, add_routes, build, resolve,
  first_match, match_params, insert_all,
}

pub method_eq_sound : (m n : HttpMethod) → method_eq m n ≡ true → m ≡ n
method_eq_sound m n h = ground arith

-- A route without parameters whose method and stored path are those of the request.
abbrev pub answers : HttpMethod → Str → RouteEntry → Bool
answers method request route =
    not (normalize_register route.path).1
    && method_eq route.method method
    && str_eq (normalize_register route.path).0 (normalize_lookup request)

-- The handler of the last route that answers the request.
unfoldable pub last_static : List RouteEntry → HttpMethod → Str → Option RouteHandler
last_static [] method request = none
last_static (route ∷ routes) method request =
    or_else (last_static routes method request)
      (if answers method request route then some route.handler else none)

-- The routes of a method with parameters, in their order.
unfoldable pub param_entries_of : List RouteEntry → HttpMethod → List (Str × RouteHandler)
param_entries_of [] method = []
param_entries_of (route ∷ routes) method =
    (if (normalize_register route.path).1 && method_eq route.method method
      then ((normalize_register route.path).0, route.handler) ∷ []
      else [])
    ++ param_entries_of routes method

module _ (method : HttpMethod) (request : Str) (route : RouteEntry) (b : FrozenRouterBuilder) where
  lookup-add_route :
      lookup
        (normalize_lookup request)
        ((add_route route.method route.path route.handler b).static_routes method)
      ≡ (if answers method request route
          then some route.handler
          else lookup (normalize_lookup request) (b.static_routes method))
  unfolding add_route
  lookup-add_route = ground (
    arith,
    lookup-insert (normalize_register route.path).0 (normalize_lookup request) route.handler
        (b.static_routes route.method),
    method_eq_sound route.method method,
  )

entries-add_route :
    (method : HttpMethod) (route : RouteEntry) (b : FrozenRouterBuilder)
    → (add_route route.method route.path route.handler b).param_entries method
      ≡ b.param_entries method ++ param_entries_of (route ∷ []) method
unfolding add_route param_entries_of
entries-add_route method route b =
    ground (arith, method_eq_sound route.method method, append-nil (b.param_entries method))

or_else-none : {A : Type 0} (o : Option A) → or_else o none ≡ o
or_else-none none = refl
or_else-none (some a) = refl

or_else-if :
    {A : Type 0} (o : Option A) (b : Bool) (a : A) (rest : Option A)
    → or_else o (if b then some a else rest) ≡ or_else (or_else o (if b then some a else none)) rest
or_else-if o b a rest = ground arith

lookup-add_routes :
    (routes : List RouteEntry) (method : HttpMethod) (request : Str) (b : FrozenRouterBuilder)
    → lookup (normalize_lookup request) ((add_routes routes b).static_routes method)
      ≡ or_else
          (last_static routes method request)
          (lookup (normalize_lookup request) (b.static_routes method))
unfolding add_routes last_static
lookup-add_routes [] method request b = refl
lookup-add_routes (route ∷ routes) method request b =
    let added = add_route route.method route.path route.handler b in
    rw (lookup-add_routes routes method request added) (
      rw (lookup-add_route method request route b)
        (or_else-if (last_static routes method request) (answers method request route) _ _))

entries-add_routes :
    (routes : List RouteEntry) (method : HttpMethod) (b : FrozenRouterBuilder)
    → (add_routes routes b).param_entries method
      ≡ b.param_entries method ++ param_entries_of routes method
unfolding add_routes param_entries_of
entries-add_routes [] method b = sym (append-nil (b.param_entries method))
entries-add_routes (route ∷ routes) method b =
    let added = add_route route.method route.path route.handler b in
    rw (entries-add_routes routes method added) (
      rw (entries-add_route method route b)
        (simp append_assoc (ap (λ t. b.param_entries method ++ t) refl)))

module _ (M : Matchit RouteHandler) where
  -- The matchit router of a method: none if it has no route with parameters.
  abbrev pub param_router : List RouteEntry → HttpMethod → Option M.Router
  param_router routes method =
      if is_empty (param_entries_of routes method)
      then none
      else some (insert_all M M.fresh (param_entries_of routes method))

  -- A router that is built from a list of routes resolves a request to the last route without
  -- parameters that has its method and, once stored, its normalised path; if there is none, to what
  -- matchit finds, at the path as it was received, among the routes of the method with parameters;
  -- and to nothing if matchit finds none.
  pub resolve-add_routes :
      (routes : List RouteEntry) (method : HttpMethod) (request : Str)
      → resolve M (build M (add_routes routes new_builder)) method request
        ≡ first_match M
            (last_static routes method request)
            (match_params M (param_router routes method) request)
  unfolding resolve build lookup
  resolve-add_routes routes method request = rw (
    lookup-add_routes routes method request new_builder,
    entries-add_routes routes method new_builder,
    or_else-none (last_static routes method request),
  )
