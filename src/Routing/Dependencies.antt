-- ===== src/Routing/Dependencies.antt =====
-- src/routing/dependencies.rs: the dependencies of a handler, flattened into a plan.
pub mod Invariant
pub mod Order
pub mod Ends
pub mod Execute
use fastrapi.Prelude.{
  ℕ, zero, suc, Bool, true, false, not, ◌&&◌, ◌||◌, Option, none, some, List, [], ◌∷◌, ◌++◌, ◌>>=?◌,
  if◌then◌else◌, any, is_some, unwrap_or, length, pop, Assoc, lookup, insert,
}
use fastrapi.Text.{Str, str_eq, codes}
use fastrapi.Text.Laws.{nat_key, str_key}
use fastrapi.Python.{PyRef, PyErr, PyResult, ok, err}
use fastrapi.Routing.Types.{
  InjectionType, dependency, parameter, request, security_scopes, DependencyNode,
}
use fastrapi.Routing.Params.{
  Annotation, Default, DefaultObject, empty, object, PyParameter, name_contains,
  parse_parameter_spec,
}
use fastrapi.Routing.Api.{strings}

-- What `inspect` says of a callable: the parameters of its signature, or an exception; and
-- `iscoroutinefunction` of it and of its `__call__`.
pub record Callable : Type 0 where
  pub signature : PyResult (List (Str × PyParameter))
  pub is_coroutine : Bool
  pub call_is_coroutine : Bool

unfoldable pub is_async_callable : Callable → Bool
is_async_callable c = c.is_coroutine || c.call_is_coroutine

-- A computation on fuel that may raise: `none` if the fuel runs out.
abbrev pub Flow : Type 0 → Type 0
Flow A = Option (PyResult A)

infixl 5 ◌>>=◌
abbrev pub ◌>>=◌ : {A B : Type 0} → Flow A → (A → Flow B) → Flow B
none >>= f = none
some (err e) >>= f = some (err e)
some (ok a) >>= f = f a

-- The plan so far, and the index of each callable that was flattened with its cache on.
pub record State : Type 0 where
  pub flat_plan : List DependencyNode
  pub visited : Assoc PyRef ℕ

-- The arguments of `extract_and_flatten` that change.
pub record Call : Type 0 where
  pub func : PyRef
  pub is_top_level : Bool
  pub parent_param_name : Option Str
  pub scopes : List Str
  pub use_cache : Bool

abbrev pub is_skipped : Str → Bool
is_skipped name =
    str_eq name (codes "self") || str_eq name (codes "cls") || str_eq name (codes "return")

-- `dependency`, or the annotation where it is `None`.
abbrev pub callable_of : Option PyRef → Option Annotation → Option PyRef
callable_of none annotation = annotation >>=? λ a. some a.ref
callable_of (some dep) annotation = some dep

-- `scopes` of a `Security`: the texts among its items.
abbrev pub child_scopes : Option (Option (List (Option Str))) → List Str
child_scopes none = []
child_scopes (some none) = []
child_scopes (some (some items)) = strings items

abbrev pub child_call : Str → Bool → DefaultObject → PyRef → Call
child_call name is_top_level o target = record {
  func = target;
  is_top_level = is_top_level;
  parent_param_name = some name;
  scopes = child_scopes o.scopes;
  use_cache = unwrap_or o.use_cache true;
}

-- The call that a parameter asks for: `none` where the loop continues with the next parameter.
abbrev pub target_of_object : Str → Bool → Option Annotation → DefaultObject → Option Call
target_of_object name is_top_level annotation o =
    (if is_some o.dependency || is_some o.scopes then o.dependency else none) >>=? λ dep.
    callable_of dep annotation >>=? λ target. some (child_call name is_top_level o target)

unfoldable pub target_of : Str → Bool → PyParameter → Option Call
target_of name is_top_level p = elim p.default [
  | err e ↦ none
  | ok d ↦ elim d [ empty ↦ none | object o ↦ target_of_object name is_top_level p.annotation o ]
]

abbrev pub SubDeps : Type 0
SubDeps = List (Str × ℕ)

-- The loop of `extract_and_flatten` over the parameters; `call` is its recursive call.
unfoldable pub sub_loop :
    (Call → State → Flow (ℕ × State))
    → Bool
    → List (Str × PyParameter)
    → State
    → SubDeps
    → Flow (SubDeps × State)
unfolding target_of
sub_loop call is_top_level [] state sub_deps = some (ok (sub_deps, state))
sub_loop call is_top_level ((name, p) ∷ params) state sub_deps =
    elim (if is_skipped name then none else target_of name is_top_level p) [
      | none ↦ sub_loop call is_top_level params state sub_deps
      | some target ↦ call target state >>= λ result.
          sub_loop call is_top_level params result.1 (sub_deps ++ (name, result.0) ∷ [])
    ]

-- Find the index that a parameter depends on.
unfoldable pub find_dep : Str → SubDeps → Option ℕ
find_dep name [] = none
find_dep name ((n, index) ∷ sub_deps) = if str_eq n name then some index else find_dep name sub_deps

abbrev pub Plan : Type 0
Plan = List (Str × InjectionType)

-- An argument in front of those of the rest of the loop, unless one of the two raises.
abbrev pub push_arg : Str → PyResult InjectionType → PyResult Plan → PyResult Plan
push_arg name (err e) rest = err e
push_arg name (ok injection) (err e) = err e
push_arg name (ok injection) (ok plan) = ok ((name, injection) ∷ plan)

abbrev pub lift : {A : Type 0} → PyResult A → Flow A
lift r = some r

abbrev pub is_request : Str × InjectionType → Bool
is_request (name, request) = true
is_request (name, _) = false

abbrev pub node_of : Callable → Call → Plan × Bool → DependencyNode
node_of callable call (plan, needs_request_object) = record {
  func_id = call.func;
  func = call.func;
  is_async = is_async_callable callable;
  param_name = call.parent_param_name;
  scopes = call.scopes;
  use_cache = call.use_cache;
  is_top_level = call.is_top_level;
  injection_plan = plan;
  needs_request_object = needs_request_object;
}

-- Push the node; remember its index where the cache is on.
unfoldable pub push_node : DependencyNode → State → ℕ × State
push_node node state =
    let index = length state.flat_plan in
    let visited =
      if node.use_cache then insert node.func_id index state.visited else state.visited in
    (index, record { flat_plan = state.flat_plan ++ node ∷ []; visited = visited })

abbrev pub visited_index : Call → State → Option ℕ
visited_index call state = if call.use_cache then lookup call.func state.visited else none

abbrev pub root_call : PyRef → Call
root_call func = record {
  func = func;
  is_top_level = true;
  parent_param_name = none;
  scopes = [];
  use_cache = true;
}

abbrev pub no_state : State
no_state = record { flat_plan = []; visited = [] }

module _ (regex_compiles : Str → Bool) (path_param_names : List Str) where
  -- What a parameter that is no dependency is filled with.
  unfoldable pub plain_injection : Str → PyParameter → PyResult InjectionType
  unfolding parse_parameter_spec
  plain_injection name p =
      if name_contains (codes "Request") p.annotation
      then ok request
      else if name_contains (codes "SecurityScopes") p.annotation
      then ok security_scopes
      else elim (parse_parameter_spec regex_compiles name p path_param_names) [
        | ok spec ↦ ok (parameter spec)
        | err e ↦ err e
      ]

  abbrev pub injection_of : SubDeps → Str → PyParameter → PyResult InjectionType
  injection_of sub_deps name p = elim (find_dep name sub_deps) [
    | some index ↦ ok (dependency index)
    | none ↦ plain_injection name p
  ]

  unfoldable pub plan_loop : SubDeps → List (Str × PyParameter) → PyResult Plan
  unfolding find_dep plain_injection
  plan_loop sub_deps [] = ok []
  plan_loop sub_deps ((name, p) ∷ params) =
      let rest = plan_loop sub_deps params in
      if is_skipped name then rest else push_arg name (injection_of sub_deps name p) rest

  -- `needs_request_object` is set where a `Request` is pushed.
  unfoldable pub build_injection_plan : List (Str × PyParameter) → SubDeps → PyResult (Plan × Bool)
  unfolding plan_loop
  build_injection_plan params sub_deps = elim (plan_loop sub_deps params) [
    | ok plan ↦ ok (plan, any is_request plan)
    | err e ↦ err e
  ]

  -- What `inspect` says of the object at an address.
  module _ (world : PyRef → Callable) where
    -- The part of `extract_and_flatten` behind the look at the cache; `recur` is its recursive call.
    unfoldable pub flatten_callable :
        (Call → State → Flow (ℕ × State)) → Call → State → Flow (ℕ × State)
    unfolding sub_loop build_injection_plan push_node is_async_callable
    flatten_callable recur call state =
        let callable = world call.func in
        let is_root = call.is_top_level && not (is_some call.parent_param_name) in
        lift callable.signature >>= λ params. sub_loop recur is_root params state [] >>= λ subs.
        lift (build_injection_plan params subs.0) >>= λ plan.
        some (ok (push_node (node_of callable call plan) subs.1))

    -- The fuel bounds the depth of the recursion.
    unfoldable pub extract_and_flatten : ℕ → Call → State → Flow (ℕ × State)
    unfolding flatten_callable
    extract_and_flatten zero call state = none
    extract_and_flatten (suc fuel) call state = elim (visited_index call state) [
      | some index ↦ some (ok (index, state))
      | none ↦ flatten_callable (extract_and_flatten fuel) call state
    ]

    unfoldable pub parse_dependencies : ℕ → PyRef → Flow (List DependencyNode)
    unfolding extract_and_flatten
    parse_dependencies fuel func = extract_and_flatten fuel (root_call func) no_state >>= λ result.
        some (ok (pop result.1.flat_plan))
