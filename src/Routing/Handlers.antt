-- ===== src/Routing/Handlers.antt =====
-- What src/ffi/pydantic.rs reads off a handler's function: `parse_route_metadata`.
pub mod Indices
pub mod Decorator
use fastrapi.Prelude.{
  ℕ, ◌/◌, ◌%◌, Bool, true, false, not, ◌&&◌, ◌||◌, Option, none, some, List, [], ◌∷◌, ◌++◌,
  if◌then◌else◌, any, all, is_some, is_empty, length, ◌==◌, ◌>>=?◌, unwrap_or, or_else,
}
use fastrapi.Text.{Str, codes, str_eq, to_ascii_lowercase}
use fastrapi.Python.{PyRef, PyResult, ok, err}
use fastrapi.Routing.Types.{
  ParameterSource, ParsedParameter, PydanticValidator, ResponseType, ScalarKind, SerializationHint,
  DependencyNode,
}
use fastrapi.Routing.Params.{
  Annotation, PyParameter, extract_path_param_names, given_annotation, is_in, is_pydantic_model,
  parse_parameter_spec,
}
use fastrapi.Routing.Dependencies.{is_skipped}
use fastrapi.Server.Payload.{is_body}

-- Which of the program's response classes an object is.
pub data ResponseClass : Type 0 where
  json_response plain_text_response html_response redirect_response other : ResponseClass

-- The annotation of the result of a function.
pub record ReturnAnnotation : Type 0 where
  pub annotation : Annotation
  pub class : ResponseClass
  pub has_dataclass_fields : Bool

-- What Python says of a function: the flags of its code, the items of its signature, and its annotation
-- of the result, `none` inside where there is none.
pub record FunctionInfo : Type 0 where
  pub func : PyRef
  pub co_flags : Option ℕ
  pub signature : PyResult (List (PyResult (Str × PyParameter)))
  pub return_annotation : PyResult (Option ReturnAnnotation)

unfoldable pub resolve_scalar_kind : Annotation → ScalarKind
unfolding to_ascii_lowercase str_eq
resolve_scalar_kind annotation =
    let name = to_ascii_lowercase (unwrap_or annotation.name []) in
    if str_eq name (codes "bool")
    then ScalarKind.bool
    else if str_eq name (codes "int")
    then ScalarKind.int
    else if str_eq name (codes "float")
    then ScalarKind.float
    else if str_eq name (codes "str")
    then ScalarKind.str
    else ScalarKind.other

abbrev pub is_plain_name : Str → Bool
is_plain_name name =
    str_eq name (codes "dict") || str_eq name (codes "list") || str_eq name (codes "set")

unfoldable pub get_serialization_hint : PyResult (Option ReturnAnnotation) → SerializationHint
unfolding is_pydantic_model str_eq
get_serialization_hint (err e) = SerializationHint.unknown
get_serialization_hint (ok none) = SerializationHint.plain_dict
get_serialization_hint (ok (some r)) =
    if is_pydantic_model r.annotation
    then SerializationHint.pydantic_model
    else elim r.annotation.name [
      | none ↦ SerializationHint.unknown
      | some name ↦
          if is_plain_name name
          then SerializationHint.plain_dict
          else if r.has_dataclass_fields
          then SerializationHint.dataclass
          else SerializationHint.unknown
    ]

-- A text is plain text; all else that is no response class is JSON.
abbrev pub named_response_type : Option Str → ResponseType
named_response_type none = ResponseType.json
named_response_type (some name) =
    if is_plain_name name
    then ResponseType.json
    else if str_eq name (codes "str")
    then ResponseType.plain_text
    else ResponseType.json

abbrev pub class_response_type : ResponseClass → Option Str → ResponseType
class_response_type json_response name = ResponseType.json
class_response_type plain_text_response name = ResponseType.plain_text
class_response_type html_response name = ResponseType.html
class_response_type redirect_response name = ResponseType.redirect
class_response_type other name = named_response_type name

unfoldable pub get_response_type : PyResult (Option ReturnAnnotation) → ResponseType
unfolding str_eq
get_response_type (err e) = ResponseType.json
get_response_type (ok none) = ResponseType.json
get_response_type (ok (some r)) = class_response_type r.class r.annotation.name

unfoldable pub get_response_type_from_class : ResponseClass → ResponseType
get_response_type_from_class json_response = ResponseType.json
get_response_type_from_class plain_text_response = ResponseType.plain_text
get_response_type_from_class html_response = ResponseType.html
get_response_type_from_class redirect_response = ResponseType.redirect
get_response_type_from_class other = ResponseType.auto

-- The parameters so far, with the names and the validators of those of the body.
pub record ParsedSignature : Type 0 where
  pub param_validators : List PydanticValidator
  pub body_param_names : List Str
  pub parsed_params : List ParsedParameter

pub record ParsedRouteMetadata : Type 0 where
  pub parsed : ParsedSignature
  pub response_type : ResponseType
  pub serialization_hint : SerializationHint
  pub dependencies : List DependencyNode
  pub dependency_needs_request : Bool
  pub all_deps_sync : Bool
  pub is_async : Bool
  pub is_fast_path : Bool

-- The bit `CO_COROUTINE`, 0x80.
abbrev pub has_coroutine_flag : Option ℕ → Bool
has_coroutine_flag none = false
has_coroutine_flag (some flags) = flags / 128 % 2 == 1

abbrev pub top_names : List DependencyNode → List Str
top_names [] = []
top_names (node ∷ nodes) = elim node.param_name [
  | none ↦ top_names nodes
  | some name ↦ name ∷ top_names nodes
]

abbrev pub with_kind : Option Annotation → ParsedParameter → ParsedParameter
with_kind none param = param
with_kind (some a) param =
    if param.is_pydantic_model then param else record param { scalar_kind = resolve_scalar_kind a }

-- `regex_compiles` is that of `parse_parameter_spec`, and `getattr` finds the attributes of an object.
module _ (regex_compiles : Str → Bool) (getattr : PyRef → Str → Option PyRef) where
  abbrev pub new_validator : Str → PyRef → PydanticValidator
  new_validator name ann =
      let core = getattr ann (codes "__pydantic_validator__") in
      record {
        name = name;
        model_class = ann;
        validate_json = getattr ann (codes "model_validate_json");
        validate_python = unwrap_or (getattr ann (codes "model_validate")) ann;
        core_validator = core;
        validate_json_method = core >>=? λ c. getattr c (codes "validate_json");
      }

  -- A parameter of the body, the annotation of which is that of a model, or is not.
  abbrev pub push_body : Option PyRef → ParsedParameter → ParsedSignature → ParsedSignature
  push_body none param parsed = record parsed {
    body_param_names = parsed.body_param_names ++ param.name ∷ [];
    parsed_params = parsed.parsed_params ++ param ∷ [];
  }
  push_body (some ann) param parsed = record {
    param_validators = parsed.param_validators ++ new_validator param.name ann ∷ [];
    body_param_names = parsed.body_param_names ++ param.name ∷ [];
    parsed_params =
        parsed.parsed_params
        ++ record param { validator_index = some (length parsed.param_validators) } ∷ [];
  }

  unfoldable pub push_param : ParsedParameter → ParsedSignature → ParsedSignature
  push_param param parsed =
      if is_body param.source
      then push_body (if param.is_pydantic_model then param.annotation else none) param parsed
      else record parsed { parsed_params = parsed.parsed_params ++ param ∷ [] }

  -- The loop over the signature, which an exception ends.
  unfoldable pub params_loop :
      List Str → List Str → List (PyResult (Str × PyParameter)) → ParsedSignature → ParsedSignature
  unfolding parse_parameter_spec push_param resolve_scalar_kind str_eq
  params_loop path_names dep_names [] parsed = parsed
  params_loop path_names dep_names (err e ∷ items) parsed = parsed
  params_loop path_names dep_names (ok (name, obj) ∷ items) parsed =
      let skipped = params_loop path_names dep_names items parsed in
      let taken : ParsedSignature = elim (parse_parameter_spec regex_compiles name obj path_names) [
        | err e ↦ parsed
        | ok param ↦
            params_loop path_names dep_names items
              (push_param (with_kind (given_annotation obj.annotation) param) parsed)
      ] in
      if is_skipped name || is_in name dep_names then skipped else taken

  abbrev pub parse_signature :
      List Str → List Str → PyResult (List (PyResult (Str × PyParameter))) → ParsedSignature
  parse_signature path_names dep_names (err e) = record {
    param_validators = [];
    body_param_names = [];
    parsed_params = [];
  }
  parse_signature path_names dep_names (ok items) =
      params_loop path_names dep_names items
        (record { param_validators = []; body_param_names = []; parsed_params = [] })

  abbrev pub or_empty : PyResult (List DependencyNode) → List DependencyNode
  or_empty (ok nodes) = nodes
  or_empty (err e) = []

  -- `found` is what `parse_dependencies` gives for the function and the names in the path.
  unfoldable pub parse_route_metadata :
      FunctionInfo → Str → PyResult (List DependencyNode) → ParsedRouteMetadata
  unfolding params_loop get_serialization_hint get_response_type extract_path_param_names str_eq
  parse_route_metadata info path found =
      let dependencies = or_empty found in
      let is_async = has_coroutine_flag info.co_flags in
      let parsed =
        parse_signature (extract_path_param_names path) (top_names dependencies) info.signature in
      record {
        parsed = parsed;
        response_type = get_response_type info.return_annotation;
        serialization_hint = get_serialization_hint info.return_annotation;
        dependencies = dependencies;
        dependency_needs_request = any (λ dep. dep.needs_request_object) dependencies;
        all_deps_sync = all (λ dep. not dep.is_async) dependencies;
        is_async = is_async;
        is_fast_path = is_empty parsed.parsed_params && is_empty dependencies && not is_async;
      }
