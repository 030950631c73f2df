-- ===== src/Middleware/Cors/Credentials.antt =====
-- About `build_cors_layer` of src/http/middleware/cors.rs.
use fastrapi.Prelude.{
  ◌≡◌, ◌≢◌, refl, Bool, true, false, ◌&&◌, Option, some, Bool-cases, inl, inr, List, arith,
}
use fastrapi.Text.{Str}
use fastrapi.Python.{PyResult, ok, err, ◌>>=◌}
use fastrapi.Middleware.Cors.{
  CorsMiddleware, Allowed, anything, CorsLayer, Parsers, origins_of, methods_of, headers_of,
  layer_of, allowed_or_unset, rest_of_layer, build_cors_layer, exposed,
}

bind_ok :
    {A B : Type 0} (m : PyResult A) (f : A → PyResult B) (b : B)
    → (m >>= f) ≡ ok b
    → (a : A) × (m ≡ ok a) × (f a ≡ ok b)
bind_ok (ok a) f b e = (a, refl, e)
bind_ok (err x) f b e = ground arith

-- Where a layer results, its credentials and its origins are these.
record Keeps (credentials : Bool) (origin : Option Allowed) (r : PyResult CorsLayer) : Type 0 where
  same :
      (layer : CorsLayer)
      → r ≡ ok layer
      → (credentials ≡ layer.allow_credentials) × (origin ≡ layer.allow_origin)

Keeps-bind :
    {A : Type 0} (credentials : Bool) (origin : Option Allowed) (m : PyResult A)
    (f : A → PyResult CorsLayer)
    → ((a : A) → Keeps credentials origin (f a))
    → Keeps credentials origin (m >>= f)
Keeps-bind credentials origin (ok a) f h = h a
Keeps-bind credentials origin (err x) f h = record { same = λ layer e. ground arith }

Keeps-ok :
    (credentials : Bool) (origin : Option Allowed) (layer : CorsLayer)
    → layer.allow_credentials ≡ credentials
    → layer.allow_origin ≡ origin
    → Keeps credentials origin (ok layer)
Keeps-ok credentials origin layer e f = record { same = λ l k. (ground arith, ground arith) }

module _ (parsers : Parsers) where
  rest_of_layer-Keeps :
      (config : CorsMiddleware) (origins : List Str × Bool)
      → Keeps config.allow_credentials
          (allowed_or_unset config.allow_origins origins)
          (rest_of_layer parsers config origins)
  unfolding rest_of_layer
  rest_of_layer-Keeps config origins = Keeps-bind _ _ (methods_of parsers config) _ (λ methods.
      Keeps-bind _ _ (headers_of parsers config) _ (λ headers.
        Keeps-bind _ _ (exposed parsers config.expose_headers) _ (λ expose.
          Keeps-ok _ _ (layer_of parsers config origins methods headers expose) refl refl)))

  not_anything : (given items : List Str) → allowed_or_unset given (items, false) ≢ some anything
  not_anything given items e = ground arith

  -- A layer that is built for any configuration never allows credentials together with every origin.
  pub build_cors_layer-credentials :
      (config : CorsMiddleware) (layer : CorsLayer)
      → build_cors_layer parsers config ≡ ok layer
      → layer.allow_credentials ≡ true
      → layer.allow_origin ≢ some anything
  unfolding build_cors_layer
  build_cors_layer-credentials config layer e c =
      let (origins, o, f) = bind_ok (origins_of parsers config) _ layer e in
      elim (Bool-cases (config.allow_credentials && origins.1)) [
        | inl both ↦ ground arith
        | inr apart ↦
            let (same, origin) = (rest_of_layer-Keeps config origins).same layer (ground arith) in
            λ any_origin. not_anything config.allow_origins origins.0 (ground arith)
      ]
