-- ===== src/Routing/Dependencies/Order.antt =====
-- About the order of the plan of src/routing/dependencies.rs.
use fastrapi.Prelude.{
  ◌≡◌, refl, ℕ, zero, suc, ◌≤◌, Bool, Bool-cases, none, some, Option-cases, inl, inr, List, [], ◌∷◌,
  ◌++◌, if◌then◌else◌, length, length-append, pop, All, All-append, arith,
}
use fastrapi.Text.{Str}
use fastrapi.Text.Laws.{nat_key}
use fastrapi.Python.{PyRef, PyResult, ok, err}
use fastrapi.Routing.Types.{InjectionType, DependencyNode}
use fastrapi.Routing.Params.{PyParameter}
use fastrapi.Routing.Dependencies.{
  Flow, State, Call, Callable, SubDeps, Plan, push_arg, lift, sub_loop, target_of, is_skipped,
  find_dep, plan_loop, injection_of, plain_injection, build_injection_plan, push_node, node_of,
  flatten_callable, visited_index, extract_and_flatten, root_call, no_state, parse_dependencies,
}
use fastrapi.Routing.Dependencies.Invariant.{
  Ensures, cast, Ensures-ok, Ensures-bind, IsBelow, ArgIsBelow, OrderedFrom, VisitedBelow, SubBelow,
  IsValid, IsResult, IsLooped, weaken, lookup-below, ordered-push, ordered-pop, find_dep-below,
  known-push,
}

module _ (regex_compiles : Str → Bool) (path_param_names : List Str) where
  plain_injection-below :
      (n : ℕ) (name : Str) (p : PyParameter) (injection : InjectionType)
      → plain_injection regex_compiles path_param_names name p ≡ ok injection
      → IsBelow n injection
  unfolding plain_injection
  plain_injection-below n name p (InjectionType.dependency i) e = ground arith
  plain_injection-below n name p (InjectionType.parameter x) e = tt
  plain_injection-below n name p InjectionType.request e = tt
  plain_injection-below n name p InjectionType.security_scopes e = tt

  injection_of-below :
      (n : ℕ) (subs : SubDeps) (name : Str) (p : PyParameter) (injection : InjectionType)
      → SubBelow n subs
      → injection_of regex_compiles path_param_names subs name p ≡ ok injection
      → IsBelow n injection
  injection_of-below n subs name p injection h e = elim (Option-cases (find_dep name subs)) [
    | inl none_found ↦ plain_injection-below n name p injection (ground arith)
    | inr (i, found) ↦
        cast (IsBelow n) (InjectionType.dependency i) _ (ground arith)
          (find_dep-below n name i subs h found)
  ]

  push_arg-below :
      (n : ℕ) (name : Str) (r : PyResult InjectionType) (rest : PyResult Plan) (plan : Plan)
      → ((injection : InjectionType) → r ≡ ok injection → IsBelow n injection)
      → ((others : Plan) → rest ≡ ok others → All (ArgIsBelow n) others)
      → push_arg name r rest ≡ ok plan
      → All (ArgIsBelow n) plan
  push_arg-below n name (err x) rest plan h k e = ground arith
  push_arg-below n name (ok injection) (err x) plan h k e = ground arith
  push_arg-below n name (ok injection) (ok others) plan h k e =
      cast (All (ArgIsBelow n)) ((name, injection) ∷ others) plan (ground arith)
        (h injection refl, k others refl)

  plan_loop-below :
      (n : ℕ) (subs : SubDeps) (params : List (Str × PyParameter)) (plan : Plan)
      → SubBelow n subs
      → plan_loop regex_compiles path_param_names subs params ≡ ok plan
      → All (ArgIsBelow n) plan
  unfolding plan_loop
  plan_loop-below n subs [] plan h e = cast (All (ArgIsBelow n)) [] plan (ground arith) tt
  plan_loop-below n subs ((name, p) ∷ params) plan h e = elim (Bool-cases (is_skipped name)) [
    | inl skip ↦ plan_loop-below n subs params plan h (ground arith)
    | inr keep ↦
        push_arg-below n name (injection_of regex_compiles path_param_names subs name p)
          (plan_loop regex_compiles path_param_names subs params) plan
          (λ injection. injection_of-below n subs name p injection h)
          (λ others. plan_loop-below n subs params others h) (ground arith)
  ]

  build-below :
      (n : ℕ) (subs : SubDeps) (params : List (Str × PyParameter)) (plan : Plan × Bool)
      → SubBelow n subs
      → build_injection_plan regex_compiles path_param_names params subs ≡ ok plan
      → All (ArgIsBelow n) plan.0
  unfolding build_injection_plan
  build-below n subs params plan h e = plan_loop-below n subs params plan.0 h (ground arith)

  module _ (world : PyRef → Callable) where
    abbrev Good : (Call → State → Flow (ℕ × State)) → Type 0
    Good recur =
        (call : Call) (state : State)
        → IsValid state
        → Ensures (IsResult (length state.flat_plan)) (recur call state)

    longer-loop : (n m : ℕ) → n ≤ m → (r : SubDeps × State) → IsLooped m r → IsLooped n r
    longer-loop n m h r k = record {
      valid = k.valid;
      subs_below = k.subs_below;
      longer = ground (arith, k.longer);
    }

    sub_loop-valid :
        (recur : Call → State → Flow (ℕ × State))
        → Good recur
        → (is_root : Bool) (params : List (Str × PyParameter)) (state : State) (subs : SubDeps)
        → IsValid state
        → SubBelow (length state.flat_plan) subs
        → Ensures (IsLooped (length state.flat_plan)) (sub_loop recur is_root params state subs)
    unfolding sub_loop
    sub_loop-valid recur good is_root [] state subs v h =
        Ensures-ok _ (subs, state) (record { valid = v; subs_below = h; longer = omega arith })
    sub_loop-valid recur good is_root ((name, p) ∷ params) state subs v h =
        elim (Option-cases (if is_skipped name then none else target_of name is_root p)) [
          | inl e ↦ rw (e, sub_loop) (sub_loop-valid recur good is_root params state subs v h)
          | inr (target, e) ↦
              rw (e, sub_loop)
                (Ensures-bind (IsResult (length state.flat_plan))
                  (IsLooped (length state.flat_plan)) (recur target state)
                  (λ result. sub_loop recur is_root params result.1 (subs ++ (name, result.0) ∷ []))
                  (good target state v)
                  (λ result r. record {
                    ensured = λ a k. longer-loop _ _ r.longer a (
                        (sub_loop-valid recur good is_root params result.1 _ r.valid (
                            All-append _ subs _ (weaken _ _ r.longer subs h)
                              (r.index_below, tt))).ensured
                          a k);
                  }))
        ]

    push_node-valid :
        (n : ℕ) (node : DependencyNode) (state : State)
        → IsValid state
        → n ≤ length state.flat_plan
        → All (ArgIsBelow (length state.flat_plan)) node.injection_plan
        → IsResult n (push_node node state)
    unfolding push_node
    push_node-valid n node state v h k = record {
      valid = record {
        ordered = ordered-push 0 state.flat_plan node v.ordered (
            cast (λ m. All (ArgIsBelow m) node.injection_plan) (length state.flat_plan) _
              (omega arith) k);
        known =
            known-push node.use_cache _ node.func_id _ state.visited kept (omega (arith, one_more));
      };
      index_below = omega (arith, length-append state.flat_plan (node ∷ []));
      longer = omega (arith, length-append state.flat_plan (node ∷ []), h);
    }
      where
        one_more : length (state.flat_plan ++ node ∷ []) ≡ suc (length state.flat_plan)
        one_more = omega (arith, length-append state.flat_plan (node ∷ []))

        kept : VisitedBelow (length (state.flat_plan ++ node ∷ [])) state.visited
        kept = weaken _ _ (omega (arith, one_more)) state.visited v.known

    lifted :
        {A : Type 0} (P : A → Type 0) (r : PyResult A)
        → ((a : A) → r ≡ ok a → P a)
        → Ensures P (lift r)
    lifted P r h = record { ensured = λ a e. h a (ground arith) }

    flatten_callable-valid :
        (recur : Call → State → Flow (ℕ × State))
        → Good recur
        → Good (flatten_callable regex_compiles path_param_names world recur)
    unfolding flatten_callable
    flatten_callable-valid recur good call state v =
        Ensures-bind (λ params. Unit) _ (lift (world call.func).signature) _
          (lifted _ _ (λ a e. tt))
          (λ params u.
            Ensures-bind (IsLooped (length state.flat_plan)) _ (sub_loop recur _ params state []) _
              (sub_loop-valid recur good _ params state [] v tt)
              (λ subs s.
                Ensures-bind (λ plan. All (ArgIsBelow (length subs.1.flat_plan)) plan.0) _
                  (lift (build_injection_plan regex_compiles path_param_names params subs.0)) _
                  (lifted _ _ (λ plan e. build-below _ subs.0 params plan s.subs_below e))
                  (λ plan b. Ensures-ok _ _ (
                    push_node-valid _ (node_of (world call.func) call plan) subs.1 s.valid s.longer
                      b))))

    extract-valid :
        (fuel : ℕ) → Good (extract_and_flatten regex_compiles path_param_names world fuel)
    unfolding extract_and_flatten
    extract-valid zero call state v = record { ensured = λ a e. ground arith }
    extract-valid (suc fuel) call state v = elim (Option-cases (visited_index call state)) [
      | inl e ↦
          rw (e, extract_and_flatten) (flatten_callable-valid _ (extract-valid fuel) call state v)
      | inr (index, e) ↦
          rw (e, extract_and_flatten)
            (Ensures-ok _ (index, state)
              (record {
                valid = v;
                longer = omega arith;
                index_below = elim (Bool-cases call.use_cache) [
                  | inl c ↦ lookup-below _ call.func index state.visited v.known (ground arith)
                  | inr c ↦ ground arith
                ];
              }))
    ]

    -- In the plan that `parse_dependencies` returns, for any signatures, each dependency that a node
    -- takes as an argument stands at an index before the node's own.
    pub parse_dependencies-IsOrdered :
        (fuel : ℕ) (func : PyRef) (plan : List DependencyNode)
        → parse_dependencies regex_compiles path_param_names world fuel func ≡ some (ok plan)
        → OrderedFrom 0 plan
    unfolding parse_dependencies
    parse_dependencies-IsOrdered fuel func plan e =
        (Ensures-bind (IsResult 0) (OrderedFrom 0) _ (λ result. some (ok (pop result.1.flat_plan)))
            (extract-valid fuel (root_call func) (no_state) (record { ordered = tt; known = tt }))
            (λ result r. Ensures-ok _ _ (ordered-pop 0 _ r.valid.ordered))).ensured
          plan e
