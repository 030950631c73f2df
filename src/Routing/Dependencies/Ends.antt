-- ===== src/Routing/Dependencies/Ends.antt =====
-- About the recursion of `extract_and_flatten` (src/routing/dependencies.rs).
use fastrapi.Prelude.{
  ◌≡◌, ◌≢◌, refl, ℕ, zero, suc, ◌<◌, Bool, none, some, Option-cases, inl, inr, List, [], ◌∷◌,
  if◌then◌else◌, All, arith,
}
use fastrapi.Text.{Str}
use fastrapi.Python.{PyRef, PyResult, ok, err}
use fastrapi.Routing.Params.{PyParameter}
use fastrapi.Routing.Dependencies.{
  Flow, ◌>>=◌, State, Call, Callable, SubDeps, lift, sub_loop, target_of, is_skipped,
  build_injection_plan, flatten_callable, visited_index, extract_and_flatten, root_call, no_state,
  parse_dependencies,
}

bind-returns :
    {A B : Type 0} (r : Flow A) (f : A → Flow B)
    → r ≢ none
    → ((a : A) → r ≡ some (ok a) → f a ≢ none)
    → (r >>= f) ≢ none
bind-returns none f h k = λ e. elim (h refl) [ ]
bind-returns (some (err x)) f h k = λ e. ground arith
bind-returns (some (ok a)) f h k = k a refl

returns : {A : Type 0} (r : PyResult A) → some r ≢ none
returns r = λ e. ground arith

-- The callables of the dependencies that a parameter asks for rank below n.
pub record RanksBelow (rank : PyRef → ℕ) (n : ℕ) (param : Str × PyParameter) : Type 0 where
  pub ranked :
      (is_top_level : Bool) (target : Call)
      → target_of param.0 is_top_level param.1 ≡ some target
      → rank target.func < n

-- Every dependency of a callable ranks below it: there is no cycle.
pub record IsAcyclic (world : PyRef → Callable) (rank : PyRef → ℕ) : Type 0 where
  pub below :
      (func : PyRef) (params : List (Str × PyParameter))
      → (world func).signature ≡ ok params
      → All (RanksBelow rank (rank func)) params

module _ (regex_compiles : Str → Bool) (path_param_names : List Str) (world : PyRef → Callable)
    (rank : PyRef → ℕ) where
  sub_loop-returns :
      (recur : Call → State → Flow (ℕ × State)) (n : ℕ)
      → ((call : Call) (state : State) → rank call.func < n → recur call state ≢ none)
      → (is_root : Bool) (params : List (Str × PyParameter)) (state : State) (subs : SubDeps)
      → All (RanksBelow rank n) params
      → sub_loop recur is_root params state subs ≢ none
  unfolding sub_loop
  sub_loop-returns recur n h is_root [] state subs k = returns _
  sub_loop-returns recur n h is_root ((name, p) ∷ params) state subs (b, k) =
      elim (Option-cases (if is_skipped name then none else target_of name is_root p)) [
        | inl e ↦ rw (e, sub_loop) (sub_loop-returns recur n h is_root params state subs k)
        | inr (target, e) ↦
            rw (e, sub_loop)
              (bind-returns (recur target state) _
                (h target state (b.ranked is_root target (ground arith)))
                (λ result r. sub_loop-returns recur n h is_root params result.1 _ k))
      ]

  extract-returns :
      IsAcyclic world rank
      → (fuel : ℕ) (call : Call) (state : State) → rank call.func < fuel
      → extract_and_flatten regex_compiles path_param_names world fuel call state ≢ none
  unfolding extract_and_flatten flatten_callable
  extract-returns a zero call state h = ground arith
  extract-returns a (suc fuel) call state h = elim (Option-cases (visited_index call state)) [
    | inr (index, e) ↦ rw (e, extract_and_flatten) (returns _)
    | inl e ↦
        rw (e, extract_and_flatten)
          (bind-returns (lift (world call.func).signature) _ (returns _) (λ params s.
            bind-returns (sub_loop _ _ params state []) _
              (sub_loop-returns _ (rank call.func)
                (λ c st l. extract-returns a fuel c st (omega arith)) _ params state []
                (a.below call.func params (ground arith)))
              (λ subs r.
                bind-returns
                  (lift (build_injection_plan regex_compiles path_param_names params subs.0)) _
                  (returns _) (λ plan q. returns _))))
  ]

  -- If the dependencies form no cycle, `parse_dependencies` ends: with a recursion depth above the
  -- rank of the handler, it returns a plan or raises.
  pub parse_dependencies-ends :
      IsAcyclic world rank
      → (fuel : ℕ) (func : PyRef) → rank func < fuel
      → parse_dependencies regex_compiles path_param_names world fuel func ≢ none
  unfolding parse_dependencies
  parse_dependencies-ends a fuel func h =
      bind-returns _ _ (extract-returns a fuel (root_call func) no_state h) (λ result r. returns _)
