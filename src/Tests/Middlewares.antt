-- ===== src/Tests/Middlewares.antt =====
-- A configuration of CORS with credentials.
use fastrapi.Prelude.{◌≡◌, ◌≢◌, refl, true, none, some, [], ◌∷◌}
use fastrapi.Text.{str_eq, codes, to_ascii_uppercase}
use fastrapi.Python.{ok}
use fastrapi.Middleware.Cors.{
  CorsMiddleware, anything, listed, CorsLayer, Parsers, build_cors_layer,
}
use fastrapi.Middleware.Cors.Credentials.{build_cors_layer-credentials}

abbrev small_parsers : Parsers
small_parsers = record {
  header_value = λ s. some s;
  method = λ s. some s;
  header_name = λ s. some s;
}

abbrev one_origin : CorsMiddleware
one_origin = record {
  allow_origins = codes "https://a.b" ∷ [];
  allow_methods = codes "get" ∷ codes "GET" ∷ [];
  allow_headers = codes "*" ∷ [];
  allow_credentials = true;
  expose_headers = [];
  max_age = 600;
}

abbrev one_layer : CorsLayer
one_layer = record {
  allow_origin = some (listed (codes "https://a.b" ∷ []));
  allow_methods = some (listed (codes "GET" ∷ []));
  allow_headers = some anything;
  allow_credentials = true;
  expose_headers = none;
  max_age = some 600;
}

built : build_cors_layer small_parsers one_origin ≡ ok one_layer
unfolding build_cors_layer str_eq to_ascii_uppercase
built = refl

build_cors_layer-credentials_example : one_layer.allow_origin ≢ some anything
build_cors_layer-credentials_example =
    build_cors_layer-credentials small_parsers one_origin one_layer built refl
