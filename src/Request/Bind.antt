-- ===== src/Request/Bind.antt =====
-- `apply_body_and_validation` and `apply_request_data` of src/ffi/pydantic.rs: the arguments that a
-- request gives to a handler. Creating a Python object and setting an item of the arguments succeed.
pub mod Answered
pub mod Steps
pub mod Required
pub mod Bound
pub mod Assembled
use fastrapi.Prelude.{
  ℕ, zero, suc, ◌+◌, Bool, true, false, not, ◌&&◌, ◌||◌, Option, none, some, List, [], ◌∷◌, ◌++◌,
  if◌then◌else◌, is_empty, get_elem?, or_else, unwrap_or, lookup, insert, ◌>>=?◌, any,
}
use fastrapi.Text.{Str, codes, str_eq}
use fastrapi.Text.Laws.{str_key}
use fastrapi.Python.{PyRef, PyErr, PyValue, PyResult, ok, err}
use fastrapi.Http.{Body, Response, Outcome, fail, of_text}
use fastrapi.Routing.Json.{Json, Fields, get_field, null, bool, num, str, arr, obj}
use fastrapi.Routing.Types.{ParameterSource, ParsedParameter, PydanticValidator, RouteHandler}
use fastrapi.Routing.Handlers.Indices.{is_of_body}
use fastrapi.Routing.Dependencies.Execute.{Argument, Kwargs, Executed, done, response, panic, ◌>>=◌}
use fastrapi.Request.Input.{RequestInput}
use fastrapi.Request.Scalar.{convert_scalar_value, validation_error_response}
use fastrapi.Request.Constraints.{validate_scalar_constraints}
use fastrapi.Request.Resolve.{Libraries, default_of, resolve_parameter_value}
use fastrapi.Server.Payload.{Bytes, UploadedFile, BodyField, text, file, Form, BodyPayload, is_body}

-- The calls into pydantic, the parser of JSON, and std's `from_utf8`. `errors_detail` is the dict of
-- "detail" with what the `errors()` of an exception gives, where that can be written.
pub record Pydantic : Type 0 where
  pub call_with_text : PyRef → Str → PyResult PyRef
  pub call_with_bytes : PyRef → Bytes → PyResult PyRef
  pub call_with_json : PyRef → Json → PyResult PyRef
  pub errors_detail : PyErr → Option PyValue
  pub from_utf8 : Bytes → Option Str
  pub from_slice : Bytes → Option Json

-- A `Result<_, Response>` as an outcome that does not panic.
abbrev pub lift : {A : Type 0} → Outcome A → Executed A
lift (Outcome.ok a) = done a
lift (fail r) = response r

-- An index into a vector: out of bounds it panics.
abbrev pub in_bounds : {A : Type 0} → Option A → Executed A
in_bounds none = panic
in_bounds (some a) = done a

abbrev pub refuse : {A : Type 0} → Str → Executed A
refuse message = response (validation_error_response message)

abbrev pub set_arg : ParsedParameter → Argument → Kwargs → Kwargs
set_arg param argument kwargs = insert param.name argument kwargs

-- A lookup under the external name, then under the name.
abbrev pub by_either {ℓ} : {A : Type ℓ} → (Str → Option A) → ParsedParameter → Option A
by_either get param = or_else (get param.external_name) (get param.name)

abbrev pub param_at : RouteHandler → ℕ → Executed ParsedParameter
param_at handler index = in_bounds (get_elem? handler.parsed_params index)

-- The test whether one of the parameters is required, which stops at the first that is.
unfoldable pub any_required : RouteHandler → List ℕ → Executed Bool
any_required handler [] = done false
any_required handler (index ∷ indices) =
    let rest = any_required handler indices in
    param_at handler index >>= λ param. if param.required then done true else rest

-- A loop over the parameters of the body.
unfoldable pub for_params :
    (ParsedParameter → Kwargs → Executed Kwargs) → RouteHandler → List ℕ → Kwargs → Executed Kwargs
for_params step handler [] kwargs = done kwargs
for_params step handler (index ∷ indices) kwargs =
    param_at handler index >>= λ param. step param kwargs >>= for_params step handler indices

-- The validator under the index of a parameter.
abbrev pub registered : List PydanticValidator → Option ℕ → Executed PydanticValidator
registered validators none = refuse (codes "Body validator is not registered")
registered validators (some index) = in_bounds (get_elem? validators index)

module _ (libraries : Libraries) (pydantic : Pydantic) where
  unfoldable pub pydantic_error_to_response : PyErr → Response
  pydantic_error_to_response error = elim (pydantic.errors_detail error) [
    | none ↦ of_text 422 (codes "Validation failed")
    | some detail ↦ record { status = 422; body = Body.json detail }
  ]

  abbrev pub validated : PyResult PyRef → Executed PyRef
  validated (ok object) = done object
  validated (err error) = response (pydantic_error_to_response error)

  unfoldable pub validate_python_with_pydantic : PyRef → Json → Executed PyRef
  unfolding pydantic_error_to_response
  validate_python_with_pydantic validate value = validated (pydantic.call_with_json validate value)

  abbrev pub parsed : Bytes → Executed Json
  parsed raw = elim (pydantic.from_slice raw) [
    | none ↦ response (of_text 422 (codes "Invalid JSON body"))
    | some value ↦ done value
  ]

  unfoldable pub validate_json_with_pydantic : PydanticValidator → Bytes → Executed PyRef
  unfolding validate_python_with_pydantic
  validate_json_with_pydantic validator raw = elim validator.validate_json_method [
    | some method ↦ elim (pydantic.from_utf8 raw) [
      | none ↦ response (of_text 422 (codes "Invalid UTF-8 payload"))
      | some t ↦ validated (pydantic.call_with_text method t)
    ]
    | none ↦ elim validator.validate_json [
      | some validate ↦ validated (pydantic.call_with_bytes validate raw)
      | none ↦ parsed raw >>= validate_python_with_pydantic validator.validate_python
    ]
  ]

  abbrev pub registered_validator : RouteHandler → ParsedParameter → Executed PydanticValidator
  registered_validator handler param = registered handler.param_validators param.validator_index

  abbrev pub default_argument : ParsedParameter → Argument
  default_argument param = Argument.value (default_of libraries param)

  -- Without a payload.
  abbrev pub default_step : ParsedParameter → Kwargs → Executed Kwargs
  default_step param kwargs =
      done (if param.has_default then set_arg param (default_argument param) kwargs else kwargs)

  -- A parameter that the body does not give.
  abbrev pub absent_step : ParsedParameter → Kwargs → Executed Kwargs
  absent_step param kwargs =
      if param.has_default
      then done (set_arg param (default_argument param) kwargs)
      else if param.required
      then refuse (codes "Missing field: " ++ param.external_name)
      else done kwargs

  abbrev pub set_field : BodyField → ParsedParameter → Kwargs → Executed Kwargs
  set_field (text raw) param kwargs =
      lift (convert_scalar_value libraries.conversions raw param) >>= λ value.
      lift (validate_scalar_constraints libraries.extraction param value) >>= λ _.
      done (set_arg param (Argument.value value) kwargs)
  set_field (file f) param kwargs = done (set_arg param (Argument.upload f) kwargs)

  unfoldable pub form_step : Form → ParsedParameter → Kwargs → Executed Kwargs
  unfolding convert_scalar_value validate_scalar_constraints validation_error_response lookup insert
      str_eq
  form_step form param kwargs = elim (by_either (λ key. lookup key form) param) [
    | none ↦ absent_step param kwargs
    | some field ↦ set_field field param kwargs
  ]

  unfoldable pub object_step : RouteHandler → Fields → ParsedParameter → Kwargs → Executed Kwargs
  unfolding get_field validation_error_response validate_python_with_pydantic insert str_eq
  object_step handler fields param kwargs = elim (by_either (λ key. get_field key fields) param) [
    | none ↦ absent_step param kwargs
    | some value ↦
        let validate = registered_validator handler param >>= λ validator.
        validate_python_with_pydantic validator.validate_python value >>= λ object.
        done (set_arg param (Argument.object object) kwargs) in
        if param.is_pydantic_model
        then validate
        else done (set_arg param (Argument.json value) kwargs)
  ]

  abbrev pub bind_json : RouteHandler → List ℕ → Json → Kwargs → Executed Kwargs
  bind_json handler (index ∷ []) value kwargs =
      param_at handler index >>= λ param. done (set_arg param (Argument.json value) kwargs)
  bind_json handler indices (obj fields) kwargs =
      for_params (object_step handler fields) handler indices kwargs
  bind_json handler indices value kwargs = refuse (codes "Body must be an object")

  -- The value of a JSON payload, which is parsed now where that was put off.
  abbrev pub json_value : Bytes → Option Json → Executed Json
  json_value raw none = parsed raw
  json_value raw (some value) = done value

  -- A single parameter, if it is a pydantic model, is validated from the text of the payload.
  abbrev pub bind_single :
      RouteHandler → ParsedParameter → List ℕ → Bytes → Option Json → Kwargs → Executed Kwargs
  bind_single handler param indices raw value kwargs =
      let from_text = registered_validator handler param >>= λ validator.
      validate_json_with_pydantic validator raw >>= λ object.
      done (set_arg param (Argument.object object) kwargs) in
      let from_value = json_value raw value >>= λ value. bind_json handler indices value kwargs in
      if param.is_pydantic_model then from_text else from_value

  abbrev pub bind_payload : RouteHandler → List ℕ → BodyPayload → Kwargs → Executed Kwargs
  bind_payload handler indices (BodyPayload.form form) kwargs =
      for_params (form_step form) handler indices kwargs
  bind_payload handler (index ∷ []) (BodyPayload.json raw value) kwargs =
      param_at handler index >>= λ param. bind_single handler param (index ∷ []) raw value kwargs
  bind_payload handler indices (BodyPayload.json raw value) kwargs =
      json_value raw value >>= λ value. bind_json handler indices value kwargs

  unfoldable pub apply_body_and_validation :
      RouteHandler → Option BodyPayload → Kwargs → Executed Kwargs
  unfolding any_required for_params form_step object_step validate_json_with_pydantic
      validation_error_response insert str_eq
  apply_body_and_validation handler payload kwargs =
      let indices = handler.body_param_indices in
      let without = any_required handler indices >>= λ required.
      if required
      then refuse (codes "Request body is required")
      else for_params default_step handler indices kwargs in
      if is_empty indices then done kwargs else elim payload [
        | none ↦ without
        | some payload ↦ bind_payload handler indices payload kwargs
      ]

  abbrev pub is_tasks : ParameterSource → Bool
  is_tasks ParameterSource.background_tasks = true
  is_tasks _ = false

  abbrev pub set_resolved : ParsedParameter → Option PyValue → Kwargs → Kwargs
  set_resolved param none kwargs = kwargs
  set_resolved param (some value) kwargs = set_arg param (Argument.value value) kwargs

  -- The loop over the parameters; the flag tells whether the object of the tasks is there.
  unfoldable pub bind_params :
      RouteHandler → RequestInput → List ParsedParameter → Kwargs × Bool → Executed (Kwargs × Bool)
  unfolding resolve_parameter_value insert str_eq
  bind_params handler input [] state = done state
  bind_params handler input (param ∷ params) (kwargs, tasks) =
      let skipped = bind_params handler input params (kwargs, tasks) in
      let with_tasks =
        bind_params handler input params (set_arg param Argument.tasks kwargs, true) in
      let resolved = lift (resolve_parameter_value libraries param input) >>= λ value.
      bind_params handler input params (set_resolved param value kwargs, tasks) in
      if is_of_body handler.body_param_name_set param
      then skipped
      else if is_tasks param.source
      then with_tasks
      else resolved

  -- The arguments, and whether there are background tasks.
  unfoldable pub apply_request_data :
      RouteHandler → RequestInput → Option BodyPayload → Kwargs → Executed (Kwargs × Bool)
  unfolding bind_params apply_body_and_validation
  apply_request_data handler input payload kwargs =
      bind_params handler input handler.parsed_params (kwargs, false) >>= λ state.
      apply_body_and_validation handler payload state.0 >>= λ bound. done (bound, state.1)
