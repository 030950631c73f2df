-- ===== src/Routing/Frozen/Register.antt =====
-- About registered paths and the requests for them (src/routing/router.rs).
use fastrapi.Prelude.{◌≡◌, refl, true, false, some, List, [], ◌∷◌, ◌++◌, arith}
use fastrapi.Text.{Str, starts_with_char}
use fastrapi.Text.Laws.{str_eq_refl}
use fastrapi.Routing.Types.{HttpMethod, RouteHandler, RouteEntry}
use fastrapi.Routing.Paths.{normalize_lookup, normalize_register, with_slash}
use fastrapi.Routing.Frozen.{Matchit, static, new_builder, add_routes, method_eq, build, resolve}
use fastrapi.Routing.Frozen.Resolve.{answers, last_static, resolve-add_routes}

-- The path that a route is stored under begins with a slash.
pub normalize_register-slash :
    (path : Str) → starts_with_char (normalize_register path).0 b'/' ≡ true
unfolding normalize_register with_slash
normalize_register-slash path = ground arith

last_static-append :
    (routes : List RouteEntry) (route : RouteEntry) (method : HttpMethod) (request : Str)
    → answers method request route ≡ true
    → last_static (routes ++ route ∷ []) method request ≡ some route.handler
unfolding last_static
last_static-append [] route method request h = rw h
last_static-append (first ∷ routes) route method request h =
    rw (last_static-append routes route method request h)

with_slash_lem : (s : Str) → starts_with_char s b'/' ≡ true → with_slash s ≡ s
unfolding with_slash
with_slash_lem s h = rw h

base_lem : (path : Str) → (normalize_register path).0 ≡ with_slash (normalize_lookup path)
unfolding normalize_register
base_lem path = refl

method_eq_refl : (m : HttpMethod) → method_eq m m ≡ true
method_eq_refl m = ground arith

answers_own_path :
    (route : RouteEntry)
    → (normalize_register route.path).1 ≡ false
    → starts_with_char (normalize_lookup route.path) b'/' ≡ true
    → answers route.method route.path route ≡ true
answers_own_path route h k = rw (
  h,
  base_lem route.path,
  with_slash_lem (normalize_lookup route.path) k,
  str_eq_refl (normalize_lookup route.path),
  method_eq_refl route.method,
)

module _ (M : Matchit RouteHandler) where
  -- The route that was registered last resolves at its own path, if the path has no parameters and
  -- still begins with a slash once blanks around it and slashes behind it are dropped.
  pub resolve_own_path :
      (routes : List RouteEntry) (route : RouteEntry)
      → (normalize_register route.path).1 ≡ false
      → starts_with_char (normalize_lookup route.path) b'/' ≡ true
      → resolve M (build M (add_routes (routes ++ route ∷ []) new_builder)) route.method route.path
        ≡ some (static route.handler)
  resolve_own_path routes route h k = rw (
    resolve-add_routes M (routes ++ route ∷ []) route.method route.path,
    last_static-append routes route route.method route.path (answers_own_path route h k),
  )
