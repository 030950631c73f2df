-- ===== src/Request/Bind/Bound.antt =====
-- What `apply_request_data` of src/ffi/pydantic.rs binds.
use fastrapi.Prelude.{
  ℕ, suc, ◌+◌, ◌≡◌, refl, sym, ◌∙◌, subst, ap, arith, ◌⊎◌, Bool, true, false, Option, none, some,
  List, [], ◌∷◌, get_elem?, All, Bool-cases, inl, inr,
}
use fastrapi.Text.{Str}
use fastrapi.Text.Laws.{str_key}
use fastrapi.Python.{PyValue}
use fastrapi.Http.{Response, Outcome, ok, fail}
use fastrapi.Routing.Types.{ParsedParameter, RouteHandler}
use fastrapi.Routing.Handlers.Indices.{is_of_body, indices_from}
use fastrapi.Routing.Dependencies.Execute.{Argument, Kwargs, Executed, ◌>>=◌}
use fastrapi.Request.Input.{RequestInput}
use fastrapi.Request.Resolve.{
  Libraries, raw_value_for_parameter, resolve_raw, resolve_parameter_value,
}
use fastrapi.Request.Resolve.Safety.{resolve_parameter_value-status}
use fastrapi.Server.Payload.{BodyPayload}
use fastrapi.Request.Bind.{
  Pydantic, lift, set_arg, set_resolved, is_tasks, bind_params, apply_body_and_validation,
  apply_request_data,
}
use fastrapi.Request.Bind.Answered.{Answers, Here, weaken-Answers, bind-Answers}
use fastrapi.Request.Bind.Steps.{
  Grows, IsBound, Progress, IsBound-Grows, IsBound-optional, set_arg-Progress, IsRegistered,
  if_cases,
}
use fastrapi.Request.Bind.Required.{BodyIsBound, apply_body-Answers}

-- The indices of the body's parameters are those that the decorator collects, and the validators of
-- all the parameters are in range.
pub record IsWellFormed (handler : RouteHandler) : Type 0 where
  pub indices_lem :
      handler.body_param_indices
      ≡ indices_from (is_of_body handler.body_param_name_set) 0 handler.parsed_params
  pub validators : All (IsRegistered handler) handler.parsed_params

-- A list of parameters as what is left of another one at an index.
abbrev Rest : List ParsedParameter → ℕ → List ParsedParameter → Type 0
Rest all i params = (j : ℕ) → get_elem? params j ≡ get_elem? all (i + j)

Rest-here :
    (all : List ParsedParameter) (i : ℕ) (p : ParsedParameter) (params : List ParsedParameter)
    → Rest all i (p ∷ params)
    → some p ≡ get_elem? all i
Rest-here all i p params r = r 0 ∙ ap (get_elem? all) (omega arith)

Rest-later :
    (all : List ParsedParameter) (i : ℕ) (p : ParsedParameter) (params : List ParsedParameter)
    → Rest all i (p ∷ params)
    → Rest all (suc i) params
Rest-later all i p params r = λ j. r (suc j) ∙ ap (get_elem? all) (omega arith)

module _ (all : List ParsedParameter) (test : ParsedParameter → Bool)
    (P : ParsedParameter → Type 0) where
  indices_from-Here :
      (i : ℕ) (params : List ParsedParameter)
      → Rest all i params
      → All P params
      → All (λ k. Here P (get_elem? all k)) (indices_from test i params)
  indices_from-Here i [] r h = tt
  indices_from-Here i (p ∷ params) r (h, hs) =
      let rest = indices_from-Here (suc i) params (Rest-later all i p params r) hs in
      if_cases (All (λ k. Here P (get_elem? all k))) (test p) _ _
        (λ e. (subst (Here P) (Rest-here all i p params r) h, rest)) (λ e. rest)

  Here-indices_from :
      (i : ℕ) (params : List ParsedParameter)
      → Rest all i params
      → All (λ k. Here P (get_elem? all k)) (indices_from test i params)
      → All (λ p. (test p ≡ false) ⊎ P p) params
  Here-indices_from i [] r h = tt
  Here-indices_from i (p ∷ params) r h = elim (Bool-cases (test p)) [
    | inl e ↦
        let (here, rest) = rw e at h in
        (
          inr (subst (Here P) (sym (Rest-here all i p params r)) here),
          Here-indices_from (suc i) params (Rest-later all i p params r) rest,
        )
    | inr e ↦ (inl e, Here-indices_from (suc i) params (Rest-later all i p params r) (rw e at h))
  ]

raw-optional :
    (libraries : Libraries) (param : ParsedParameter) (raw : Option Str)
    → resolve_raw libraries raw param ≡ ok none
    → param.required ≡ false
unfolding resolve_raw
raw-optional libraries param none e = ground arith
raw-optional libraries param (some raw) e = ground arith

resolve-optional :
    (libraries : Libraries) (param : ParsedParameter) (input : RequestInput)
    → resolve_parameter_value libraries param input ≡ ok none
    → param.required ≡ false
unfolding resolve_parameter_value
resolve-optional libraries param input e =
    raw-optional libraries param (raw_value_for_parameter libraries param input) e

lift_cases :
    {A B : Type 0} (Q : B → Type 0) (m : Outcome A) (f : A → Executed B)
    → ((r : Response) → m ≡ fail r → r.status ≡ 422)
    → ((a : A) → m ≡ ok a → Answers Q (f a))
    → Answers Q (lift m >>= f)
lift_cases Q (ok a) f h k = k a refl
lift_cases Q (fail r) f h k = h r refl

module _ (libraries : Libraries) (pydantic : Pydantic) (handler : RouteHandler)
    (input : RequestInput) where
  abbrev of_body : ParsedParameter → Bool
  of_body = is_of_body handler.body_param_name_set

  -- The parameters that are not left to the body are bound.
  abbrev ParamsAreBound : Kwargs → List ParsedParameter → Kwargs × Bool → Type 0
  ParamsAreBound kwargs params state =
      Grows kwargs state.0 × All (λ p. (of_body p ≡ true) ⊎ IsBound p state.0) params

  set_resolved-Progress :
      (param : ParsedParameter) (value : Option PyValue) (kwargs : Kwargs)
      → resolve_parameter_value libraries param input ≡ ok value
      → Progress kwargs param (set_resolved libraries pydantic param value kwargs)
  set_resolved-Progress param none kwargs e =
      (λ name h. h, IsBound-optional param kwargs (resolve-optional libraries param input e))
  set_resolved-Progress param (some value) kwargs e =
      set_arg-Progress param (Argument.value value) kwargs

  -- What the rest of the loop does, after a parameter that is bound.
  after_bound :
      (param : ParsedParameter) (params : List ParsedParameter) (kwargs m : Kwargs)
      (rest : Executed (Kwargs × Bool))
      → Progress kwargs param m
      → Answers (ParamsAreBound m params) rest
      → Answers (ParamsAreBound kwargs (param ∷ params)) rest
  after_bound param params kwargs m rest progress h =
      weaken-Answers (ParamsAreBound m params) (ParamsAreBound kwargs (param ∷ params)) rest h
        λ state q. (
          λ name x. q.0 name (progress.0 name x),
          (inr (IsBound-Grows param m state.0 q.0 progress.1), q.1),
        )

  bind_params-Answers :
      (params : List ParsedParameter) (kwargs : Kwargs) (tasks : Bool)
      → Answers
          (ParamsAreBound kwargs params)
          (bind_params libraries pydantic handler input params (kwargs, tasks))
  unfolding bind_params
  bind_params-Answers [] kwargs tasks = (λ name h. h, tt)
  bind_params-Answers (param ∷ params) kwargs tasks =
      let P = ParamsAreBound kwargs (param ∷ params) in
      if_cases (Answers P) (of_body param) _ _
        (λ e.
          weaken-Answers (ParamsAreBound kwargs params) P _
            (bind_params-Answers params kwargs tasks) λ state q. (q.0, (inl e, q.1)))
        (λ e.
          if_cases (Answers P) (is_tasks libraries pydantic param.source) _ _
            (λ t.
              after_bound param params kwargs (set_arg param Argument.tasks kwargs) _
                (set_arg-Progress param Argument.tasks kwargs)
                (bind_params-Answers params (set_arg param Argument.tasks kwargs) true))
            (λ t.
              lift_cases P (resolve_parameter_value libraries param input) _
                (resolve_parameter_value-status libraries param input)
                λ value r.
                  let m = set_resolved libraries pydantic param value kwargs in
                  after_bound param params kwargs m _ (set_resolved-Progress param value kwargs r)
                    (bind_params-Answers params m tasks)))

  -- Both halves of the parameters together.
  join-IsBound :
      (bound kwargs : Kwargs) (params : List ParsedParameter)
      → Grows kwargs bound
      → All (λ p. (of_body p ≡ true) ⊎ IsBound p kwargs) params
      → All (λ p. (of_body p ≡ false) ⊎ IsBound p bound) params
      → All (λ p. IsBound p bound) params
  join-IsBound bound kwargs [] g h k = tt
  join-IsBound bound kwargs (p ∷ params) g (h, hs) (k, ks) =
      (one h k, join-IsBound bound kwargs params g hs ks)
    where
      one :
          (of_body p ≡ true) ⊎ IsBound p kwargs
          → (of_body p ≡ false) ⊎ IsBound p bound
          → IsBound p bound
      one h (inr b) = b
      one (inr b) k = IsBound-Grows p kwargs bound g b
      one (inl e) (inl f) = absurd (ground arith)

  -- For a handler whose indices and validators are as a decorator makes them: whatever the request and
  -- its payload, the call neither panics nor raises; it refuses with status 422, or it gives arguments
  -- in which each required parameter has one, of the body or not.
  pub apply_request_data-Answers :
      (payload : Option BodyPayload) (kwargs : Kwargs)
      → IsWellFormed handler
      → Answers
          (λ state. All (λ p. IsBound p state.0) handler.parsed_params)
          (apply_request_data libraries pydantic handler input payload kwargs)
  unfolding apply_request_data
  apply_request_data-Answers payload kwargs w =
      let params = handler.parsed_params in
      let rest = λ (j : ℕ). ap (get_elem? params) (omega arith) in
      let in_range =
        indices_from-Here params of_body (IsRegistered handler) 0 params rest w.validators in
      bind-Answers (ParamsAreBound kwargs params)
        (λ (state : Kwargs × Bool). All (λ p. IsBound p state.0) params)
        (bind_params libraries pydantic handler input params (kwargs, false)) _
        (bind_params-Answers params kwargs false)
        λ state q.
          bind-Answers (BodyIsBound libraries pydantic handler state.0 handler.body_param_indices)
            (λ (s : Kwargs × Bool). All (λ p. IsBound p s.0) params)
            (apply_body_and_validation libraries pydantic handler payload state.0) _
            (apply_body-Answers libraries pydantic handler payload state.0 (
              subst (All (λ k. Here (IsRegistered handler) (get_elem? params k)))
                (sym w.indices_lem) in_range))
            λ bound b. join-IsBound bound state.0 params b.0 q.1 (
              Here-indices_from params of_body (λ p. IsBound p bound) 0 params rest
                (subst (All (λ k. Here (λ p. IsBound p bound) (get_elem? params k))) w.indices_lem
                  b.1))
