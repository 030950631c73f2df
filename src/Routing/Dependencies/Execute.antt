-- ===== src/Routing/Dependencies/Execute.antt =====
-- `build_dependency_kwargs` and `execute_dependencies_sync` of src/routing/dependencies.rs.
pub mod Evaluate
pub mod Names
use fastrapi.Prelude.{
  ℕ, zero, suc, Bool, true, false, ◌&&◌, Option, none, some, List, [], ◌∷◌, ◌++◌, is_some,
  get_elem?, set, length, replicate, Assoc, insert,
}
use fastrapi.Text.{Str}
use fastrapi.Text.Laws.{str_key}
use fastrapi.Python.{PyRef, PyErr, PyValue, PyResult, ok, err}
use fastrapi.Http.{Response, Outcome, fail}
use fastrapi.Routing.Types.{
  InjectionType, dependency, parameter, request, security_scopes, ParsedParameter, DependencyNode,
}
use fastrapi.Routing.Json.{Json}
use fastrapi.Request.Input.{RequestInput}
use fastrapi.Server.Payload.{UploadedFile}
use fastrapi.Request.Resolve.{Libraries, resolve_parameter_value}

pub data Argument : Type 0 where
  -- what Python code returned, or the request object
  object : PyRef → Argument
  value : PyValue → Argument
  scopes : List Str → Argument
  -- a JSON value as a Python object, the object of an upload, and that of the background tasks
  json : Json → Argument
  upload : UploadedFile → Argument
  tasks : Argument

abbrev pub Kwargs : Type 0
Kwargs = Assoc Str Argument

-- A `Result<_, DependencyExecutionError>`, or the panic of an index out of bounds.
pub data Executed (A : Type 0) : Type 0 where
  done : A → Executed A
  python : PyErr → Executed A
  response : Response → Executed A
  panic : Executed A

infixl 5 ◌>>=◌
abbrev pub ◌>>=◌ : {A B : Type 0} → Executed A → (A → Executed B) → Executed B
done a >>= f = f a
python e >>= f = python e
response r >>= f = response r
panic >>= f = panic

abbrev pub Registry : Type 0
Registry = List (Option PyRef)

-- `if let Some(…)` sets the argument, and else leaves it out.
abbrev pub set_item : Str → Option Argument → Kwargs → Kwargs
set_item name none kwargs = kwargs
set_item name (some a) kwargs = insert name a kwargs

abbrev pub as_object : Option PyRef → Option Argument
as_object none = none
as_object (some r) = some (object r)

abbrev pub as_value : Outcome (Option PyValue) → Executed (Option Argument)
as_value (fail r) = response r
as_value (Outcome.ok none) = done none
as_value (Outcome.ok (some v)) = done (some (value v))

-- An entry of the registry: an index out of bounds panics.
abbrev pub entry : Option (Option PyRef) → Executed (Option Argument)
entry none = panic
entry (some r) = done (as_object r)

-- The results under the names of the handler's parameters.
abbrev pub Results : Type 0
Results = List (Str × PyRef)

abbrev pub final_result : Bool → Option Str → PyRef → Results
final_result true (some name) result = (name, result) ∷ []
final_result true none result = []
final_result false name result = []

abbrev pub called : {World : Type 0} → World × PyResult PyRef → Executed (World × PyRef)
called (world, ok r) = done (world, r)
called (world, err e) = python e

module _ (libraries : Libraries) (request_input : RequestInput)
    (request_object : Option PyRef) where
  abbrev pub argument_of : List Str → Registry → InjectionType → Executed (Option Argument)
  argument_of node_scopes registry (dependency i) = entry (get_elem? registry i)
  argument_of node_scopes registry (parameter p) =
      as_value (resolve_parameter_value libraries p request_input)
  argument_of node_scopes registry request = done (as_object request_object)
  argument_of node_scopes registry security_scopes = done (some (scopes node_scopes))

  unfoldable pub kwargs_loop :
      List Str → Registry → List (Str × InjectionType) → Kwargs → Executed Kwargs
  unfolding resolve_parameter_value insert
  kwargs_loop node_scopes registry [] kwargs = done kwargs
  kwargs_loop node_scopes registry ((name, injection) ∷ args) kwargs =
      argument_of node_scopes registry injection >>= λ argument.
      kwargs_loop node_scopes registry args (set_item name argument kwargs)

  unfoldable pub build_dependency_kwargs : DependencyNode → Registry → Executed Kwargs
  unfolding kwargs_loop
  build_dependency_kwargs dep registry = kwargs_loop dep.scopes registry dep.injection_plan []

  -- The state of the Python program, and what a call with arguments does to it.
  module _ {World : Type 0} (call : World → PyRef → Kwargs → World × PyResult PyRef) where
    unfoldable pub execute_loop :
        ℕ → List DependencyNode → Registry → Results → World → Executed (World × Results)
    unfolding build_dependency_kwargs
    execute_loop i [] registry results world = done (world, results)
    execute_loop i (dep ∷ deps) registry results world =
        build_dependency_kwargs dep registry >>= λ kwargs.
        called (call world dep.func kwargs) >>= λ result.
        execute_loop (suc i) deps (set registry i (some result.1))
          (results ++ final_result dep.is_top_level dep.param_name result.1) result.0

    unfoldable pub execute_dependencies_sync :
        List DependencyNode → World → Executed (World × Results)
    unfolding execute_loop
    execute_dependencies_sync flat_plan world =
        execute_loop 0 flat_plan (replicate (length flat_plan) none) [] world
