-- ===== src/Routing/Dependencies/Execute/Evaluate.antt =====
-- An independent description of the execution of a plan, for `execute_dependencies_sync`.
use fastrapi.Prelude.{
  ◌≡◌, subst, ◌≢◌, refl, sym, ap, ◌∙◌, ℕ, zero, suc, ◌<◌, Option, none, some, List, [], ◌∷◌, ◌++◌,
  get_elem?, set, length, replicate, All, length-append, arith,
}
use fastrapi.Text.{Str}
use fastrapi.Python.{PyRef, PyValue, PyResult, ok, err}
use fastrapi.Http.{Outcome, fail}
use fastrapi.Routing.Types.{
  InjectionType, dependency, parameter, request, security_scopes, DependencyNode,
}
use fastrapi.Request.Input.{RequestInput}
use fastrapi.Request.Resolve.{Libraries}
use fastrapi.Routing.Dependencies.Invariant.{OrderedFrom, ArgIsBelow, IsBelow}
use fastrapi.Routing.Dependencies.Execute.{
  Argument, object, Kwargs, Executed, done, python, response, panic, ◌>>=◌, Registry, set_item,
  as_value, entry, argument_of, kwargs_loop, build_dependency_kwargs, final_result, Results, called,
  execute_loop, execute_dependencies_sync,
}

-- The object at an index: there must be one.
abbrev pub present : Option PyRef → Executed (Option Argument)
present none = panic
present (some r) = done (some (object r))

-- The registry when `objects` were returned and n callables are left.
abbrev registry_of : List PyRef → ℕ → Registry
registry_of [] n = replicate n none
registry_of (o ∷ objects) n = some o ∷ registry_of objects n

get_elem?-registry_of :
    (objects : List PyRef) (n i : ℕ)
    → i < length objects
    → entry (get_elem? (registry_of objects n) i) ≡ present (get_elem? objects i)
get_elem?-registry_of [] n i h = ground arith
get_elem?-registry_of (o ∷ objects) n zero h = refl
get_elem?-registry_of (o ∷ objects) n (suc i) h = get_elem?-registry_of objects n i (omega arith)

set-registry_of :
    (objects : List PyRef) (n : ℕ) (o : PyRef)
    → set (registry_of objects (suc n)) (length objects) (some o)
      ≡ registry_of (objects ++ o ∷ []) n
set-registry_of [] n o = refl
set-registry_of (x ∷ objects) n o = ap (λ r. some x ∷ r) (set-registry_of objects n o)

present-returns :
    (objects : List PyRef) (i : ℕ) → i < length objects → present (get_elem? objects i) ≢ panic
present-returns [] i h = ground arith
present-returns (o ∷ objects) zero h = λ e. ground arith
present-returns (o ∷ objects) (suc i) h = present-returns objects i (omega arith)

bind-no_panic :
    {A B : Type 0} (r : Executed A) (f : A → Executed B)
    → r ≢ panic
    → ((a : A) → f a ≢ panic)
    → (r >>= f) ≢ panic
bind-no_panic (done a) f h k = k a
bind-no_panic (python x) f h k = λ e. ground arith
bind-no_panic (response x) f h k = λ e. ground arith
bind-no_panic panic f h k = λ e. elim (h refl) [ ]

bind-cong :
    {A B : Type 0} (r s : Executed A) (f g : A → Executed B)
    → r ≡ s
    → ((a : A) → f a ≡ g a)
    → (r >>= f) ≡ (s >>= g)
bind-cong r (done a) f g e k = rw e (k a)
bind-cong r (python x) f g e k = rw e refl
bind-cong r (response x) f g e k = rw e refl
bind-cong r panic f g e k = rw e refl

as_value-no_panic : (o : Outcome (Option PyValue)) → as_value o ≢ panic
as_value-no_panic (fail r) e = ground arith
as_value-no_panic (Outcome.ok none) e = ground arith
as_value-no_panic (Outcome.ok (some v)) e = ground arith

called-no_panic : {World : Type 0} (r : World × PyResult PyRef) → called r ≢ panic
called-no_panic (world, ok r) e = ground arith
called-no_panic (world, err x) e = ground arith

module _ (libraries : Libraries) (request_input : RequestInput)
    (request_object : Option PyRef) where
  abbrev pub argument_from : List Str → List PyRef → InjectionType → Executed (Option Argument)
  argument_from node_scopes objects (dependency i) = present (get_elem? objects i)
  argument_from node_scopes objects injection =
      argument_of libraries request_input request_object node_scopes [] injection

  abbrev pub kwargs_from :
      List Str → List PyRef → List (Str × InjectionType) → Kwargs → Executed Kwargs
  kwargs_from node_scopes objects [] kwargs = done kwargs
  kwargs_from node_scopes objects ((name, injection) ∷ args) kwargs =
      argument_from node_scopes objects injection >>= λ argument.
      kwargs_from node_scopes objects args (set_item name argument kwargs)

  argument_from-argument_of :
      (node_scopes : List Str) (objects : List PyRef) (n : ℕ) (injection : InjectionType)
      → IsBelow (length objects) injection
      → argument_of libraries request_input request_object node_scopes
          (registry_of objects n)
          injection
        ≡ argument_from node_scopes objects injection
  argument_from-argument_of node_scopes objects n (dependency i) h =
      get_elem?-registry_of objects n i h
  argument_from-argument_of node_scopes objects n (parameter p) h = refl
  argument_from-argument_of node_scopes objects n request h = refl
  argument_from-argument_of node_scopes objects n security_scopes h = refl

  argument_from-no_panic :
      (node_scopes : List Str) (objects : List PyRef) (injection : InjectionType)
      → IsBelow (length objects) injection
      → argument_from node_scopes objects injection ≢ panic
  argument_from-no_panic node_scopes objects (dependency i) h = present-returns objects i h
  argument_from-no_panic node_scopes objects (parameter p) h = as_value-no_panic _
  argument_from-no_panic node_scopes objects request h = λ e. ground arith
  argument_from-no_panic node_scopes objects security_scopes h = λ e. ground arith

  kwargs_loop-kwargs_from :
      (node_scopes : List Str) (objects : List PyRef) (n : ℕ) (args : List (Str × InjectionType))
      (kwargs : Kwargs)
      → All (ArgIsBelow (length objects)) args
      → kwargs_loop libraries request_input request_object node_scopes
          (registry_of objects n)
          args
          kwargs
        ≡ kwargs_from node_scopes objects args kwargs
  unfolding kwargs_loop
  kwargs_loop-kwargs_from node_scopes objects n [] kwargs h = refl
  kwargs_loop-kwargs_from node_scopes objects n ((name, injection) ∷ args) kwargs (b, h) =
      bind-cong _ _ _ _ (argument_from-argument_of node_scopes objects n injection b)
        (λ a. kwargs_loop-kwargs_from node_scopes objects n args (set_item name a kwargs) h)

  kwargs_from-no_panic :
      (node_scopes : List Str) (objects : List PyRef) (args : List (Str × InjectionType))
      (kwargs : Kwargs)
      → All (ArgIsBelow (length objects)) args
      → kwargs_from node_scopes objects args kwargs ≢ panic
  kwargs_from-no_panic node_scopes objects [] kwargs h = λ e. ground arith
  kwargs_from-no_panic node_scopes objects ((name, injection) ∷ args) kwargs (b, h) =
      bind-no_panic (argument_from node_scopes objects injection) _
        (argument_from-no_panic node_scopes objects injection b)
        (λ a. kwargs_from-no_panic node_scopes objects args (set_item name a kwargs) h)

  -- `objects` are what the callables returned so far, in the order of the plan.
  module _ {World : Type 0} (call : World → PyRef → Kwargs → World × PyResult PyRef) where
    abbrev pub evaluate :
        List PyRef → List DependencyNode → Results → World → Executed (World × Results)
    evaluate objects [] results world = done (world, results)
    evaluate objects (dep ∷ deps) results world =
        kwargs_from dep.scopes objects dep.injection_plan [] >>= λ kwargs.
        called (call world dep.func kwargs) >>= λ result.
        evaluate (objects ++ result.1 ∷ []) deps
          (results ++ final_result dep.is_top_level dep.param_name result.1) result.0

    execute_loop-evaluate :
        (i : ℕ) (objects : List PyRef) (deps : List DependencyNode) (registry : Registry)
        (results : Results) (world : World)
        → i ≡ length objects
        → registry ≡ registry_of objects (length deps)
        → OrderedFrom i deps
        → execute_loop libraries request_input request_object call i deps registry results world
          ≡ evaluate objects deps results world
    unfolding execute_loop build_dependency_kwargs
    execute_loop-evaluate i objects [] registry results world e f h = refl
    execute_loop-evaluate i objects (dep ∷ deps) registry results world e f (b, h) =
        bind-cong (build_dependency_kwargs libraries request_input request_object dep registry)
          (kwargs_from dep.scopes objects dep.injection_plan []) _ _
          (rw f (
            kwargs_loop-kwargs_from dep.scopes objects _ dep.injection_plan []
              (subst (λ m. All (ArgIsBelow m) dep.injection_plan) e b)))
          (λ kwargs. bind-cong _ _ _ _ refl (λ result.
            execute_loop-evaluate (suc i) (objects ++ result.1 ∷ []) deps _ _ result.0
              (omega (arith, e, length-append objects (result.1 ∷ [])))
              (rw (f, e) (set-registry_of objects (length deps) result.1)) h))

    evaluate-no_panic :
        (i : ℕ) (objects : List PyRef) (deps : List DependencyNode) (results : Results)
        (world : World)
        → i ≡ length objects
        → OrderedFrom i deps
        → evaluate objects deps results world ≢ panic
    evaluate-no_panic i objects [] results world e h = λ q. ground arith
    evaluate-no_panic i objects (dep ∷ deps) results world e (b, h) =
        bind-no_panic (kwargs_from dep.scopes objects dep.injection_plan []) _
          (kwargs_from-no_panic dep.scopes objects dep.injection_plan []
            (subst (λ m. All (ArgIsBelow m) dep.injection_plan) e b))
          (λ kwargs.
            bind-no_panic (called (call world dep.func kwargs)) _ (called-no_panic _) (λ result.
              evaluate-no_panic (suc i) (objects ++ result.1 ∷ []) deps _ result.0
                (omega (arith, e, length-append objects (result.1 ∷ []))) h))

    -- On a plan where each dependency stands before the nodes that need it,
    -- `execute_dependencies_sync` does not panic, and does what `evaluate` says: each dependency
    -- argument is what the callable of that node returned, and none is left out.
    pub execute_dependencies_sync-evaluate :
        (flat_plan : List DependencyNode) (world : World)
        → OrderedFrom 0 flat_plan
        → (execute_dependencies_sync libraries request_input request_object call flat_plan world
            ≡ evaluate [] flat_plan [] world)
          × (execute_dependencies_sync libraries request_input request_object call flat_plan world
              ≢ panic)
    unfolding execute_dependencies_sync
    execute_dependencies_sync-evaluate flat_plan world h =
        (same, λ e. evaluate-no_panic 0 [] flat_plan [] world refl h (sym same ∙ e))
      where
        same :
            execute_loop libraries request_input request_object call 0 flat_plan
              (replicate (length flat_plan) none)
              []
              world
            ≡ evaluate [] flat_plan [] world
        same = execute_loop-evaluate 0 [] flat_plan _ [] world refl refl h
