-- ===== src/Tests/Plans.antt =====
-- A handler with two dependencies, of which the first needs the second.
use fastrapi.Prelude.{
  ◌≡◌, ◌≢◌, refl, ℕ, suc, ◌<◌, ◌==◌, if◌then◌else◌, Bool, true, false, Option, none, some, List, [],
  ◌∷◌, All, arith, Bool-cases, inl, inr, subst, lookup, insert,
}
use fastrapi.Text.{Str, codes}
use fastrapi.Python.{PyRef, PyResult, ok}
use fastrapi.Routing.Types.{InjectionType, DependencyNode}
use fastrapi.Routing.Params.{PyParameter}
use fastrapi.Routing.Dependencies.{Callable, parse_dependencies, target_of}
use fastrapi.Routing.Dependencies.Invariant.{OrderedFrom}
use fastrapi.Routing.Dependencies.Order.{parse_dependencies-IsOrdered}
use fastrapi.Routing.Dependencies.Ends.{RanksBelow, IsAcyclic, parse_dependencies-ends}
use fastrapi.Routing.Dependencies.Execute.{Kwargs, done, panic, execute_dependencies_sync}
use fastrapi.Routing.Dependencies.Execute.Evaluate.{execute_dependencies_sync-evaluate}
use fastrapi.Routing.Dependencies.Execute.Names.{
  names, top_level_names, execute_dependencies_sync-names,
}
use fastrapi.Tests.Data.{depends_on, small_libraries, get_input}

abbrev callable : List (Str × PyParameter) → Callable
callable params = record { signature = ok params; is_coroutine = false; call_is_coroutine = false }

-- The handler is at 0; it depends on 1 and 2, and 1 depends on 2.
abbrev world : PyRef → Callable
world ref =
    if ref == 0
    then callable ((codes "a", depends_on 1) ∷ (codes "b", depends_on 2) ∷ [])
    else if ref == 1
    then callable ((codes "c", depends_on 2) ∷ [])
    else callable []

abbrev node_for : PyRef → Option Str → Bool → List (Str × InjectionType) → DependencyNode
node_for func name is_top_level plan = record {
  func_id = func;
  func = func;
  is_async = false;
  param_name = name;
  scopes = [];
  use_cache = true;
  is_top_level = is_top_level;
  injection_plan = plan;
  needs_request_object = false;
}

-- The second callable is shared, and keeps the name under which it was met first.
abbrev pub plan_of_world : List DependencyNode
plan_of_world =
    node_for 2 (some (codes "c")) false []
    ∷ node_for 1 (some (codes "a")) true ((codes "c", InjectionType.dependency 0) ∷ [])
    ∷ []

plan_is : parse_dependencies (λ p. true) [] world 3 0 ≡ some (ok plan_of_world)
unfolding parse_dependencies lookup insert
plan_is = refl

parse_dependencies-IsOrdered_example : OrderedFrom 0 plan_of_world
parse_dependencies-IsOrdered_example =
    parse_dependencies-IsOrdered (λ p. true) [] world 3 0 plan_of_world plan_is

abbrev rank : PyRef → ℕ
rank ref = if ref == 0 then 2 else if ref == 1 then 1 else 0

target_below :
    (name : Str) (target : PyRef) (n : ℕ)
    → rank target < n
    → RanksBelow rank n (name, depends_on target)
unfolding target_of
target_below name target n h = record { ranked = λ top call e. ground arith }

same_params :
    (P : Str × PyParameter → Type 0) (xs params : List (Str × PyParameter))
    → ok xs ≡ ok params
    → All P xs
    → All P params
same_params P xs params e h = subst (All P) (ground arith) h

below :
    (func : PyRef) (params : List (Str × PyParameter))
    → (world func).signature ≡ ok params
    → All (RanksBelow rank (rank func)) params
below func params e = elim (Bool-cases (func == 0)) [
  | inl z ↦ rw z (
      same_params _ _ params (rw z at e) (
        target_below (codes "a") 1 2 (omega arith),
        (target_below (codes "b") 2 2 (omega arith), tt),
      ))
  | inr n ↦ elim (Bool-cases (func == 1)) [
    | inl o ↦
        rw (n, o)
          (same_params _ _ params (rw (n, o) at e) (target_below (codes "c") 2 1 (omega arith), tt))
    | inr m ↦ rw (n, m) (same_params _ [] params (rw (n, m) at e) tt)
  ]
]

world-IsAcyclic : IsAcyclic world rank
world-IsAcyclic = record { below = below }

parse_dependencies-ends_example : parse_dependencies (λ p. true) [] world 3 0 ≢ none
parse_dependencies-ends_example =
    parse_dependencies-ends (λ p. true) [] world rank world-IsAcyclic 3 0 (omega arith)

-- Each call returns the address of its callable plus ten.
abbrev call_python : ℕ → PyRef → Kwargs → ℕ × PyResult PyRef
call_python calls func kwargs = (suc calls, ok (suc func))

execute_dependencies_sync-evaluate_example :
    (execute_dependencies_sync small_libraries (get_input []) none call_python plan_of_world 0
      ≡ done (2, (codes "a", 2) ∷ []))
    × (execute_dependencies_sync small_libraries (get_input []) none call_python plan_of_world 0
        ≢ panic)
execute_dependencies_sync-evaluate_example =
    execute_dependencies_sync-evaluate small_libraries (get_input []) none call_python plan_of_world
      0 parse_dependencies-IsOrdered_example

executed :
    execute_dependencies_sync small_libraries (get_input []) none call_python plan_of_world 0
    ≡ done (2, (codes "a", 2) ∷ [])
unfolding execute_dependencies_sync insert
executed = refl

execute_dependencies_sync-names_example :
    names ((codes "a", 2) ∷ []) ≡ top_level_names plan_of_world
execute_dependencies_sync-names_example =
    execute_dependencies_sync-names small_libraries (get_input []) none call_python plan_of_world 0
      2 ((codes "a", 2) ∷ []) executed
