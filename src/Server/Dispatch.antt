-- ===== src/Server/Dispatch.antt =====
-- `dispatch`, `dispatch_path` and `request_matches_router` of src/engine/server/dispatch.rs, and the
-- path parameters of `build_request_input_from_parts` (src/ffi/py_handlers.rs).
pub mod Slices
pub mod Steps
use fastrapi.Prelude.{
  ℕ, ◌+◌, ◌-◌, Bool, true, false, not, ◌||◌, Option, none, some, List, [], ◌∷◌, ◌>>=?◌,
  if◌then◌else◌, is_empty, is_some, map, ltb, ◌==◌,
}
use fastrapi.Text.{Str, codes, str_eq, strip_prefix, starts_with_char, trim_end_matches, len_utf8}
use fastrapi.Http.{Response, of_status}
use fastrapi.Routing.Types.{HttpMethod, PathParamRange, RouteHandler}
use fastrapi.Routing.Frozen.{PathMatch, Matchit, RouteMatch, FrozenRouter, static, params, resolve}
use fastrapi.Server.RateLimit.{Limits, RateLimitKey, is_rate_limited}
use fastrapi.Server.Execution.{is_no_args}

-- strum's `FromStr` for `HttpMethod`.
unfoldable pub method_from : Str → Option HttpMethod
unfolding str_eq
method_from s =
    if str_eq s (codes "GET")
    then some HttpMethod.get
    else if str_eq s (codes "POST")
    then some HttpMethod.post
    else if str_eq s (codes "PUT")
    then some HttpMethod.put
    else if str_eq s (codes "DELETE")
    then some HttpMethod.delete
    else if str_eq s (codes "PATCH")
    then some HttpMethod.patch
    else if str_eq s (codes "OPTIONS")
    then some HttpMethod.options
    else if str_eq s (codes "HEAD")
    then some HttpMethod.head
    else none

unfoldable pub dispatch_path : Str → Str → Option Str
unfolding str_eq strip_prefix trim_end_matches
dispatch_path root_path original_path =
    let root = trim_end_matches root_path b'/' in
    if is_empty root
    then some original_path
    else if str_eq original_path root
    then some (codes "/")
    else strip_prefix original_path root >>=? λ stripped.
        if starts_with_char stripped b'/' then some stripped else none

-- What `dispatch` reads of a request.
pub record DispatchRequest : Type 0 where
  pub method : Str
  pub path : Str
  pub ip : Option ℕ

-- How `dispatch` goes on. Before `run`, the payload is extracted where the flag says so.
pub data Dispatched : Type 0 where
  respond : Response → Dispatched
  run_no_request : RouteHandler → Dispatched
  run : RouteHandler → List PathParamRange → Bool → Dispatched

abbrev pub range_of : PathMatch → PathParamRange
range_of m = record { key = m.key; start = m.start; stop = m.start + m.width }

abbrev pub handler_of : RouteMatch → RouteHandler
handler_of (static handler) = handler
handler_of (params handler found) = handler

unfoldable pub param_ranges : RouteMatch → List PathParamRange
param_ranges (static handler) = []
param_ranges (params handler found) = map range_of found

-- The part of `dispatch` behind the rate limit.
unfoldable pub start_handler : RouteMatch → Dispatched
unfolding param_ranges
start_handler found =
    let handler = handler_of found in
    if is_no_args handler.execution_mode
    then run_no_request handler
    else run handler (param_ranges found) (not (is_empty handler.body_param_indices))

-- Whether the rate limit of a handler refuses the request.
unfoldable pub limited : Limits → RouteHandler → Option ℕ → ℕ → Bool × Limits
unfolding is_rate_limited
limited limits handler ip now = elim handler.rate_limit_per_second [
  | none ↦ (false, limits)
  | some limit ↦ is_rate_limited limits (record { handler = handler.address; ip = ip }) now limit
]

module _ (M : Matchit RouteHandler) (router : FrozenRouter M.Router) (root_path : Str) where
  abbrev pub find_route : HttpMethod → Str → Option RouteMatch
  find_route method path = dispatch_path root_path path >>=? λ p. resolve M router method p

  abbrev pub dispatch_route : Limits → Option ℕ → ℕ → RouteMatch → Dispatched × Limits
  dispatch_route limits ip now found =
      let (refused, limits') = limited limits (handler_of found) ip now in
      (if refused then respond (of_status 429) else start_handler found, limits')

  unfoldable pub dispatch : Limits → ℕ → DispatchRequest → Dispatched × Limits
  unfolding method_from dispatch_path resolve limited start_handler
  dispatch limits now req = elim (method_from req.method) [
    | none ↦ (respond (of_status 405), limits)
    | some method ↦ elim (find_route method req.path) [
      | none ↦ (respond (of_status 404), limits)
      | some found ↦ dispatch_route limits req.ip now found
    ]
  ]

  unfoldable pub request_matches_router : DispatchRequest → Bool
  unfolding method_from dispatch_path resolve
  request_matches_router req = elim (method_from req.method) [
    | none ↦ true
    | some method ↦ is_some (find_route method req.path)
  ]

-- The text from a byte on, and the text of a number of bytes: `none` is the panic of a slice that
-- does not lie between characters of the text.
abbrev pub skip_bytes : Str → ℕ → Option Str
skip_bytes [] n = if n == 0 then some [] else none
skip_bytes (c ∷ s) n =
    let rest = skip_bytes s (n - len_utf8 c) in
    if n == 0 then some (c ∷ s) else if ltb n (len_utf8 c) then none else rest

abbrev pub take_bytes : Str → ℕ → Option Str
take_bytes [] n = if n == 0 then some [] else none
take_bytes (c ∷ s) n =
    let rest = take_bytes s (n - len_utf8 c) in
    if n == 0 then some [] else if ltb n (len_utf8 c) then none else rest >>=? λ t. some (c ∷ t)

unfoldable pub slice : Str → ℕ → ℕ → Option Str
slice s start stop =
    if ltb stop start then none else skip_bytes s start >>=? λ t. take_bytes t (stop - start)

-- The path parameters of `build_request_input_from_parts`.
unfoldable pub path_params_of : Str → List PathParamRange → Option (List (Str × Str))
unfolding slice
path_params_of path_str [] = some []
path_params_of path_str (r ∷ ranges) = slice path_str r.start r.stop >>=? λ value.
    path_params_of path_str ranges >>=? λ rest. some ((r.key, value) ∷ rest)
