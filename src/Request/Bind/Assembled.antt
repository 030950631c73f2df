-- ===== src/Request/Bind/Assembled.antt =====
-- The handlers that src/ffi/decorators/init.rs makes, before the requests of src/ffi/pydantic.rs.
use fastrapi.Prelude.{
  ℕ, zero, suc, ◌≡◌, refl, sym, subst, arith, Bool, Option, none, some, List, [], ◌∷◌, ◌||◌, ◌++◌,
  length, get_elem?, get_elem?-append_here, All, All-append,
}
use fastrapi.Text.{Str}
use fastrapi.Python.{PyRef, PyResult, ok, err}
use fastrapi.Routing.Types.{ParsedParameter, PydanticValidator, RouteHandler, DependencyNode}
use fastrapi.Routing.Params.{Annotation, PyParameter, parse_parameter_spec, given_annotation, is_in}
use fastrapi.Routing.Dependencies.{is_skipped}
use fastrapi.Routing.Dependencies.Execute.{Kwargs}
use fastrapi.Routing.Handlers.{
  FunctionInfo, ParsedSignature, new_validator, with_kind, push_body, push_param, params_loop,
  parse_signature, parse_route_metadata,
}
use fastrapi.Routing.Handlers.Decorator.{RouteOptions, assemble}
use fastrapi.Server.Payload.{BodyPayload, is_body}
use fastrapi.Request.Input.{RequestInput}
use fastrapi.Request.Resolve.{Libraries}
use fastrapi.Request.Bind.{Pydantic, apply_request_data}
use fastrapi.Request.Bind.Answered.{Answers, Anything, Here}
use fastrapi.Request.Bind.Steps.{RegisteredAt, IsBound, if_cases}
use fastrapi.Request.Bind.Bound.{IsWellFormed, apply_request_data-Answers}

abbrev AreRegistered : ParsedSignature → Type 0
AreRegistered parsed =
    All (λ p. RegisteredAt parsed.param_validators p.validator_index) parsed.parsed_params

Here-append :
    (vs ws : List PydanticValidator) (i : ℕ)
    → Here Anything (get_elem? vs i)
    → Here Anything (get_elem? (vs ++ ws) i)
Here-append [] ws i h = absurd h
Here-append (v ∷ vs) ws zero h = tt
Here-append (v ∷ vs) ws (suc i) h = Here-append vs ws i h

RegisteredAt-append :
    (vs ws : List PydanticValidator) (params : List ParsedParameter)
    → All (λ p. RegisteredAt vs p.validator_index) params
    → All (λ p. RegisteredAt (vs ++ ws) p.validator_index) params
RegisteredAt-append vs ws [] h = tt
RegisteredAt-append vs ws (p ∷ params) (h, hs) =
    (at p.validator_index h, RegisteredAt-append vs ws params hs)
  where
    at : (o : Option ℕ) → RegisteredAt vs o → RegisteredAt (vs ++ ws) o
    at none h = tt
    at (some i) h = Here-append vs ws i h

RegisteredAt-none : (vs : List PydanticValidator) (o : Option ℕ) → o ≡ none → RegisteredAt vs o
RegisteredAt-none vs none e = tt
RegisteredAt-none vs (some i) e = absurd (ground arith)

module _ (regex_compiles : Str → Bool) (getattr : PyRef → Str → Option PyRef) where
  push_body-AreRegistered :
      (ann : Option PyRef) (param : ParsedParameter) (parsed : ParsedSignature)
      → param.validator_index ≡ none
      → AreRegistered parsed
      → AreRegistered (push_body regex_compiles getattr ann param parsed)
  push_body-AreRegistered none param parsed e h =
      All-append (λ p. RegisteredAt parsed.param_validators p.validator_index) parsed.parsed_params
        (param ∷ []) h (RegisteredAt-none parsed.param_validators _ e, tt)
  push_body-AreRegistered (some ann) param parsed e h =
      let vs = parsed.param_validators in
      let v = new_validator regex_compiles getattr param.name ann in
      All-append (λ p. RegisteredAt (vs ++ v ∷ []) p.validator_index) parsed.parsed_params
        (record param { validator_index = some (length vs) } ∷ [])
        (RegisteredAt-append vs (v ∷ []) parsed.parsed_params h)
        (subst (Here Anything) (sym (get_elem?-append_here vs v)) tt, tt)

  push_param-AreRegistered :
      (param : ParsedParameter) (parsed : ParsedSignature)
      → param.validator_index ≡ none
      → AreRegistered parsed
      → AreRegistered (push_param regex_compiles getattr param parsed)
  unfolding push_param
  push_param-AreRegistered param parsed e h =
      if_cases AreRegistered (is_body param.source) _ _
        (λ b. push_body-AreRegistered _ param parsed e h)
        (λ b. push_body-AreRegistered none param parsed e h)

  -- A parameter comes from the signature without a validator.
  parse_parameter_spec-validator_index :
      (name : Str) (obj : PyParameter) (names : List Str) (spec : ParsedParameter)
      → parse_parameter_spec regex_compiles name obj names ≡ ok spec
      → spec.validator_index ≡ none
  unfolding parse_parameter_spec
  parse_parameter_spec-validator_index name obj names spec e = ground arith

  with_kind-validator_index :
      (a : Option Annotation) (param : ParsedParameter)
      → param.validator_index ≡ none
      → (with_kind a param).validator_index ≡ none
  with_kind-validator_index none param e = e
  with_kind-validator_index (some a) param e =
      if_cases (λ (p : ParsedParameter). p.validator_index ≡ none) param.is_pydantic_model _ _
        (λ m. e) (λ m. e)

  params_loop-AreRegistered :
      (path_names dep_names : List Str) (items : List (PyResult (Str × PyParameter)))
      (parsed : ParsedSignature)
      → AreRegistered parsed
      → AreRegistered (params_loop regex_compiles getattr path_names dep_names items parsed)
  unfolding params_loop
  params_loop-AreRegistered path_names dep_names [] parsed h = h
  params_loop-AreRegistered path_names dep_names (err e ∷ items) parsed h = h
  params_loop-AreRegistered path_names dep_names (ok (name, obj) ∷ items) parsed h =
      if_cases AreRegistered (is_skipped name || is_in name dep_names) _ _
        (λ s. params_loop-AreRegistered path_names dep_names items parsed h)
        (λ s.
          taken (parse_parameter_spec regex_compiles name obj path_names)
            (λ spec e. parse_parameter_spec-validator_index name obj path_names spec e)
            λ q. params_loop-AreRegistered path_names dep_names items q)
    where
      taken :
          (r : PyResult ParsedParameter)
          → ((spec : ParsedParameter) → r ≡ ok spec → spec.validator_index ≡ none)
          → ((q : ParsedSignature)
              → AreRegistered q
              → AreRegistered (params_loop regex_compiles getattr path_names dep_names items q))
          → AreRegistered (elim r [
            | err e ↦ parsed
            | ok param ↦ params_loop regex_compiles getattr path_names dep_names items (
                push_param regex_compiles getattr
                  (with_kind (given_annotation obj.annotation) param)
                  parsed)
          ])
      taken (err e) f k = h
      taken (ok param) f k =
          let spec = with_kind (given_annotation obj.annotation) param in
          k (push_param regex_compiles getattr spec parsed) (
            push_param-AreRegistered spec parsed
              (with_kind-validator_index (given_annotation obj.annotation) param (f param refl)) h)

  parse_signature-AreRegistered :
      (path_names dep_names : List Str) (items : PyResult (List (PyResult (Str × PyParameter))))
      → AreRegistered (parse_signature regex_compiles getattr path_names dep_names items)
  parse_signature-AreRegistered path_names dep_names (err e) = tt
  parse_signature-AreRegistered path_names dep_names (ok items) =
      params_loop-AreRegistered path_names dep_names items _ tt

  -- The handler that a decorator makes of a function.
  abbrev pub decorated_handler :
      RouteOptions
      → Option ℕ
      → FunctionInfo
      → Str
      → PyResult (List DependencyNode)
      → ℕ
      → RouteHandler
  decorated_handler options status info path found address =
      assemble options status (parse_route_metadata regex_compiles getattr info path found)
        info.func address

  decorated_handler-IsWellFormed :
      (options : RouteOptions) (status : Option ℕ) (info : FunctionInfo) (path : Str)
      (found : PyResult (List DependencyNode)) (address : ℕ)
      → IsWellFormed (decorated_handler options status info path found address)
  unfolding assemble parse_route_metadata
  decorated_handler-IsWellFormed options status info path found address = record {
    indices_lem = refl;
    validators = parse_signature-AreRegistered _ _ info.signature;
  }

  -- The handler that a decorator makes of a function, whatever the function's signature and the options,
  -- and a request with any payload: binding the arguments neither panics, for an index out of bounds,
  -- nor raises. It refuses with status 422, or it gives arguments in which each required parameter of the
  -- handler has one.
  pub assemble-apply_request_data :
      (libraries : Libraries) (pydantic : Pydantic) (options : RouteOptions) (status : Option ℕ)
      (info : FunctionInfo) (path : Str) (found : PyResult (List DependencyNode)) (address : ℕ)
      (input : RequestInput) (payload : Option BodyPayload) (kwargs : Kwargs)
      → let handler = decorated_handler options status info path found address in
        Answers
          (λ state. All (λ p. IsBound p state.0) handler.parsed_params)
          (apply_request_data libraries pydantic handler input payload kwargs)
  assemble-apply_request_data libraries pydantic options status info path found address input
        payload kwargs =
      apply_request_data-Answers libraries pydantic
        (decorated_handler options status info path found address) input payload kwargs
        (decorated_handler-IsWellFormed options status info path found address)
