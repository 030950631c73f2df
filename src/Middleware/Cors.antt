-- ===== src/Middleware/Cors.antt =====
-- src/http/middleware/cors.rs. A parsed value stands for the text that it was parsed from; the parsers
-- are those of the http crate, and the layer is the configuration that tower_http is given.
pub mod Credentials
use fastrapi.Prelude.{
  ℕ, Bool, true, false, not, ◌&&◌, Option, none, some, List, [], ◌∷◌, ◌++◌, if◌then◌else◌, is_empty,
  any,
}
use fastrapi.Text.{Str, str_eq, codes, to_ascii_uppercase}
use fastrapi.Python.{PyErr, PyResult, ok, err, value_error, ◌>>=◌}

pub record CorsMiddleware : Type 0 where
  pub allow_origins : List Str
  pub allow_methods : List Str
  pub allow_headers : List Str
  pub allow_credentials : Bool
  pub expose_headers : List Str
  pub max_age : ℕ

pub data Allowed : Type 0 where
  anything : Allowed
  listed : List Str → Allowed

-- What the layer was told: `none` is what tower_http does by itself.
pub record CorsLayer : Type 0 where
  pub allow_origin : Option Allowed
  pub allow_methods : Option Allowed
  pub allow_headers : Option Allowed
  pub allow_credentials : Bool
  pub expose_headers : Option (List Str)
  pub max_age : Option ℕ

pub record Parsers : Type 0 where
  pub header_value : Str → Option Str
  pub method : Str → Option Str
  pub header_name : Str → Option Str

-- The loop's variables: what was parsed, the texts that were seen, and whether one is "*".
pub record Parsed : Type 0 where
  pub items : List Str
  pub seen : List Str
  pub has_wildcard : Bool

abbrev pub invalid : Str → Str → Str → PyErr
invalid kind v example = value_error (
    codes "Invalid CORS "
    ++ kind
    ++ codes ":\n"
    ++ v
    ++ codes "\n\nExpected a valid "
    ++ kind
    ++ codes " format like:\n"
    ++ example)

abbrev pub mixed : Str → PyErr
mixed kind = value_error (
    codes "CORS configuration error: Wildcard '*' cannot be mixed with explicit values in "
    ++ kind
    ++ codes " list.")

abbrev pub with_wildcard : PyErr
with_wildcard = value_error (
    codes
      "CORS configuration error: allow_credentials=True cannot be used with allow_origins=['*'].")

module _ (parser : Str → Option Str) (kind err_example : Str) (normalize_case : Bool) where
  abbrev pub normalized : Str → Str
  normalized v = if normalize_case then to_ascii_uppercase v else v

  -- One value; `parsed` is what the parser gives for it.
  abbrev pub add_parsed : Str → Option Str → Parsed → PyResult Parsed
  add_parsed v none p = err (invalid kind v err_example)
  add_parsed v (some item) p =
      ok (record p { items = p.items ++ item ∷ []; seen = p.seen ++ normalized v ∷ [] })

  unfoldable pub add_value : Str → Parsed → PyResult Parsed
  unfolding str_eq to_ascii_uppercase
  add_value v p =
      if str_eq v (codes "*")
      then ok (record p { has_wildcard = true })
      else if any (λ s. str_eq s (normalized v)) p.seen
      then ok p
      else add_parsed v (parser (normalized v)) p

  unfoldable pub add_values : List Str → Parsed → PyResult Parsed
  unfolding add_value
  add_values [] p = ok p
  add_values (v ∷ values) p = add_value v p >>= λ q. add_values values q

  unfoldable pub parse_and_validate_vec : List Str → PyResult (List Str × Bool)
  unfolding add_values
  parse_and_validate_vec values =
      add_values values (record { items = []; seen = []; has_wildcard = false }) >>= λ p.
      (if p.has_wildcard && not (is_empty p.items)
        then err (mixed kind)
        else ok (p.items, p.has_wildcard))

-- The value of a list: anything for a wildcard, nothing said for an empty list.
abbrev pub allowed_or_unset : List Str → List Str × Bool → Option Allowed
allowed_or_unset given (items, has_wildcard) =
    if has_wildcard then some anything else if is_empty given then none else some (listed items)

abbrev pub allowed_of_methods : List Str × Bool → Allowed
allowed_of_methods (items, has_wildcard) = if has_wildcard then anything else listed items

module _ (parsers : Parsers) where
  unfoldable pub exposed : List Str → PyResult (Option (List Str))
  unfolding parse_and_validate_vec
  exposed names =
      if is_empty names
      then ok none
      else (parse_and_validate_vec parsers.header_name (codes "exposed header name")
            (codes "X-Custom-Header") false names
          >>= λ parsed. ok (some parsed.0))

  abbrev pub origins_of : CorsMiddleware → PyResult (List Str × Bool)
  origins_of config =
      parse_and_validate_vec parsers.header_value (codes "origin") (codes "https://example.com")
        false config.allow_origins

  abbrev pub methods_of : CorsMiddleware → PyResult (List Str × Bool)
  methods_of config =
      parse_and_validate_vec parsers.method (codes "HTTP method") (codes "GET") true
        config.allow_methods

  abbrev pub headers_of : CorsMiddleware → PyResult (List Str × Bool)
  headers_of config =
      parse_and_validate_vec parsers.header_name (codes "HTTP header name") (codes "Content-Type")
        false config.allow_headers

  abbrev pub layer_of :
      CorsMiddleware
      → List Str × Bool
      → List Str × Bool
      → List Str × Bool
      → Option (List Str)
      → CorsLayer
  layer_of config origins methods headers expose = record {
    allow_origin = allowed_or_unset config.allow_origins origins;
    allow_methods = some (allowed_of_methods methods);
    allow_headers = allowed_or_unset config.allow_headers headers;
    allow_credentials = config.allow_credentials;
    expose_headers = expose;
    max_age = some config.max_age;
  }

  -- What follows the check of the credentials.
  unfoldable pub rest_of_layer : CorsMiddleware → List Str × Bool → PyResult CorsLayer
  unfolding parse_and_validate_vec exposed
  rest_of_layer config origins = do
    methods ← methods_of config
    headers ← headers_of config
    expose ← exposed config.expose_headers
    ok (layer_of config origins methods headers expose)

  unfoldable pub build_cors_layer : CorsMiddleware → PyResult CorsLayer
  unfolding parse_and_validate_vec rest_of_layer
  build_cors_layer config = origins_of config >>= λ origins.
      (if config.allow_credentials && origins.1
        then err with_wildcard
        else rest_of_layer config origins)
