-- ===== src/Routing/Api.antt =====
-- src/ffi/decorators/mod.rs and routing.rs: `APIRouter`, the tree of routers, and its flattening.
-- Routers are shared objects: a heap maps the address of each to its state.
pub mod Tree
pub mod Flatten
pub mod Freeze
pub mod Cycle
pub mod Acyclic
pub mod Entries
use fastrapi.Prelude.{
  ℕ, zero, suc, Bool, true, false, Option, none, some, List, [], ◌∷◌, ◌++◌, map, ◌==◌,
  if◌then◌else◌, any,
}
use fastrapi.Text.{Str, str_eq, codes}
use fastrapi.Python.{PyRef, PyResult, ok, err, runtime_error}
use fastrapi.Routing.Json.{Json}
use fastrapi.Routing.Types.{RouteEntry, WebSocketEntry}
use fastrapi.Routing.Paths.{join_path}

-- `router` is the address of the mounted router.
pub record SubRouterMount : Type 0 where
  pub router : ℕ
  pub prefix : Str
  pub tags : List Str
  pub dependencies : Option PyRef
  pub responses : Option PyRef
  pub deprecated : Option Bool
  pub include_in_schema : Bool
  pub default_response_class : Option PyRef
  pub generate_unique_id_function : Option PyRef

pub record PyApiRouter : Type 0 where
  pub prefix : Str
  pub tags : List Str
  pub dependencies : Option PyRef
  pub responses : Option PyRef
  pub deprecated : Option Bool
  pub include_in_schema : Bool
  pub default_response_class : Option PyRef
  pub generate_unique_id_function : Option PyRef
  pub route_entries : List RouteEntry
  pub websocket_entries : List WebSocketEntry
  pub sub_routers : List SubRouterMount
  pub frozen : Bool
  pub cached_flat : Option (List RouteEntry × List WebSocketEntry)

abbrev pub Heap : Type 0
Heap = ℕ → PyApiRouter

abbrev pub write : ℕ → PyApiRouter → Heap → Heap
write id router heap j = if id == j then router else heap j

-- `Vec::contains`.
unfoldable pub contains_tag : List Str → Str → Bool
contains_tag [] tag = false
contains_tag (t ∷ tags) tag = if str_eq t tag then true else contains_tag tags tag

-- The loop that adds the tags which are not there yet.
unfoldable pub merge_tags : List Str → List Str → List Str
unfolding contains_tag
merge_tags current [] = current
merge_tags current (tag ∷ tags) =
    merge_tags (if contains_tag current tag then current else current ++ tag ∷ []) tags

-- The strings among the items of a Python iterable; `none` stands for another object.
unfoldable pub strings : List (Option Str) → List Str
strings [] = []
strings (none ∷ items) = strings items
strings (some s ∷ items) = s ∷ strings items

-- `tags` as a list: empty if it is not given, or cannot be iterated.
abbrev pub tag_vec : Option (List (Option Str)) → List Str
tag_vec none = []
tag_vec (some items) = strings items

abbrev pub frozen_error : Str
frozen_error = codes "Cannot modify router after it has been frozen"

-- The arguments of `include_router` and `nest` beside the router and the prefix.
pub record IncludeOptions : Type 0 where
  pub tags : Option (List (Option Str))
  pub dependencies : Option PyRef
  pub responses : Option PyRef
  pub deprecated : Option Bool
  pub include_in_schema : Bool
  pub default_response_class : Option PyRef
  pub generate_unique_id_function : Option PyRef

abbrev pub new_mount : ℕ → Str → IncludeOptions → SubRouterMount
new_mount router prefix options = record {
  router = router;
  prefix = prefix;
  tags = tag_vec options.tags;
  dependencies = options.dependencies;
  responses = options.responses;
  deprecated = options.deprecated;
  include_in_schema = options.include_in_schema;
  default_response_class = options.default_response_class;
  generate_unique_id_function = options.generate_unique_id_function;
}

unfoldable pub include_router : ℕ → ℕ → Str → IncludeOptions → Heap → PyResult Heap
include_router self router prefix options heap =
    if (heap self).frozen
    then err (runtime_error frozen_error)
    else let subs = (heap self).sub_routers ++ new_mount router prefix options ∷ [] in
      ok (write self (record (heap self) { sub_routers = subs }) heap)

unfoldable pub nest : ℕ → Str → ℕ → IncludeOptions → Heap → PyResult Heap
unfolding include_router
nest self prefix router options heap = include_router self router prefix options heap

-- What a decorator does when it is applied to a function: it pushes the entry, and does not ask
-- whether the router is frozen (src/ffi/decorators/init.rs).
unfoldable pub push_route : ℕ → RouteEntry → Heap → Heap
push_route self entry heap =
    write self (record (heap self) { route_entries = (heap self).route_entries ++ entry ∷ [] }) heap

unfoldable pub mark_frozen : ℕ → Heap → Heap
mark_frozen id heap = write id (record (heap id) { frozen = true }) heap

unfoldable pub flat_entry : Str → List Str → RouteEntry → RouteEntry
flat_entry full_prefix current_tags entry = record entry {
  path = join_path full_prefix entry.path;
  tags = merge_tags current_tags entry.tags;
}

unfoldable pub flat_ws : Str → WebSocketEntry → WebSocketEntry
flat_ws full_prefix ws = record ws { path = join_path full_prefix ws.path }

-- A router to visit, the prefix of its parent, and the tags of its parent.
abbrev pub Frame : Type 0
Frame = ℕ × Str × List Str

-- The loop over the mounts of a router; the top of the stack is the head of the list.
unfoldable pub push_all : Str → List Str → List SubRouterMount → List Frame → List Frame
push_all full_prefix current_tags [] stack = stack
push_all full_prefix current_tags (sub ∷ subs) stack =
    push_all full_prefix current_tags subs
      ((sub.router, join_path full_prefix sub.prefix, merge_tags current_tags sub.tags) ∷ stack)

abbrev pub Flat : Type 0
Flat = Heap × List RouteEntry × List WebSocketEntry

-- The loop of `flatten_router`, on fuel: `none` if the fuel runs out.
unfoldable pub flatten_loop :
    ℕ → Heap → List Frame → List RouteEntry → List WebSocketEntry → Option Flat
unfolding mark_frozen flat_entry flat_ws push_all
flatten_loop fuel heap [] routes ws_routes = some (heap, routes, ws_routes)
flatten_loop zero heap (frame ∷ stack) routes ws_routes = none
flatten_loop (suc fuel) heap ((id, prefix, parent_tags) ∷ stack) routes ws_routes =
    let router = heap id in
    let full_prefix = join_path prefix router.prefix in
    let current_tags = merge_tags parent_tags router.tags in
    flatten_loop fuel (mark_frozen id heap)
      (push_all full_prefix current_tags router.sub_routers stack)
      (routes ++ map (flat_entry full_prefix current_tags) router.route_entries)
      (ws_routes ++ map (flat_ws full_prefix) router.websocket_entries)

unfoldable pub flatten_router : ℕ → ℕ → Heap → Option Flat
unfolding flatten_loop
flatten_router fuel root heap = flatten_loop fuel heap ((root, [], []) ∷ []) [] []

abbrev pub cache : ℕ → Option Flat → Option Heap
cache id none = none
cache id (some (heap, routes, ws_routes)) =
    some
      (mark_frozen id (write id (record (heap id) { cached_flat = some (routes, ws_routes) }) heap))

unfoldable pub freeze : ℕ → ℕ → Heap → Option Heap
freeze fuel id heap = if (heap id).frozen then some heap else cache id (flatten_router fuel id heap)

-- What `flatten` answers for a frozen router.
abbrev pub cached_or :
    Option (List RouteEntry × List WebSocketEntry) → Heap → Option Flat → Option Flat
cached_or none heap flat = flat
cached_or (some (routes, ws_routes)) heap flat = some (heap, routes, ws_routes)

unfoldable pub flatten : ℕ → ℕ → Heap → Option Flat
flatten fuel id heap =
    if (heap id).frozen
    then cached_or (heap id).cached_flat heap (flatten_router fuel id heap)
    else flatten_router fuel id heap
