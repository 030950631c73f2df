-- ===== src/Routing/Dependencies/Execute/Names.antt =====
-- About the results that `execute_dependencies_sync` returns.
use fastrapi.Prelude.{
  ◌≡◌, refl, sym, ap, ◌∙◌, ℕ, suc, Bool, true, false, Option, none, some, List, [], ◌∷◌, ◌++◌,
  append_assoc, append-nil, arith, replicate, length,
}
use fastrapi.Text.{Str}
use fastrapi.Python.{PyRef, PyResult}
use fastrapi.Routing.Types.{DependencyNode}
use fastrapi.Request.Input.{RequestInput}
use fastrapi.Request.Resolve.{Libraries}
use fastrapi.Routing.Dependencies.Execute.{
  Kwargs, Executed, done, python, response, panic, ◌>>=◌, Registry, Results, final_result, called,
  build_dependency_kwargs, execute_loop, execute_dependencies_sync,
}

-- The names of the nodes of the top level that have one, in the order of the plan.
abbrev pub name_of_node : Bool → Option Str → List Str
name_of_node true (some name) = name ∷ []
name_of_node true none = []
name_of_node false name = []

abbrev pub top_level_names : List DependencyNode → List Str
top_level_names [] = []
top_level_names (dep ∷ deps) = name_of_node dep.is_top_level dep.param_name ++ top_level_names deps

abbrev pub names : Results → List Str
names [] = []
names ((name, result) ∷ results) = name ∷ names results

names-append : (xs ys : Results) → names (xs ++ ys) ≡ names xs ++ names ys
names-append [] ys = refl
names-append ((name, r) ∷ xs) ys = ap (λ t. name ∷ t) (names-append xs ys)

names-final_result :
    (top : Bool) (name : Option Str) (r : PyRef)
    → names (final_result top name r) ≡ name_of_node top name
names-final_result true (some name) r = refl
names-final_result true none r = refl
names-final_result false name r = refl

bind_done :
    {A B : Type 0} (m : Executed A) (f : A → Executed B) (b : B)
    → (m >>= f) ≡ done b
    → (a : A) × (f a ≡ done b)
bind_done (done a) f b e = (a, e)
bind_done (python x) f b e = ground arith
bind_done (response x) f b e = ground arith
bind_done panic f b e = ground arith

module _ (libraries : Libraries) (request_input : RequestInput) (request_object : Option PyRef)
    {World : Type 0} (call : World → PyRef → Kwargs → World × PyResult PyRef) where
  execute_loop-names :
      (i : ℕ) (deps : List DependencyNode) (registry : Registry) (results : Results)
      (world after : World) (final : Results)
      → execute_loop libraries request_input request_object call i deps registry results world
        ≡ done (after, final)
      → names final ≡ names results ++ top_level_names deps
  unfolding execute_loop
  execute_loop-names i [] registry results world after final e =
      ap names (ground arith) ∙ sym (append-nil (names results))
  execute_loop-names i (dep ∷ deps) registry results world after final e =
      let (kwargs, f) =
        bind_done (build_dependency_kwargs libraries request_input request_object dep registry) _ _
          e in
      let (result, g) = bind_done (called (call world dep.func kwargs)) _ _ f in
      execute_loop-names (suc i) deps _ _ result.0 after final g
      ∙ rw
          (
            names-append results (final_result dep.is_top_level dep.param_name result.1),
            names-final_result dep.is_top_level dep.param_name result.1,
          )
          (append_assoc (names results) _ (top_level_names deps))

  -- Where the execution of a plan returns, the results for the handler stand under exactly the names of
  -- the nodes of the top level that have a name, in the order of the plan.
  pub execute_dependencies_sync-names :
      (flat_plan : List DependencyNode) (world after : World) (final : Results)
      → execute_dependencies_sync libraries request_input request_object call flat_plan world
        ≡ done (after, final)
      → names final ≡ top_level_names flat_plan
  unfolding execute_dependencies_sync
  execute_dependencies_sync-names flat_plan world after final e =
      execute_loop-names 0 flat_plan (replicate (length flat_plan) none) [] world after final e
