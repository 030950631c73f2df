-- ===== src/Routing/Types.antt =====
-- src/routing/types.rs, and the data of src/routing/dependencies.rs and src/ffi/py_handlers.rs that a
-- route carries.
use fastrapi.Prelude.{ℕ, Bool, Option, List}
use fastrapi.Text.{Str}
use fastrapi.Python.{PyRef, F64, PyValue}
use fastrapi.Routing.Json.{Json}

pub data HttpMethod : Type 0 where
  get post put delete patch options head : HttpMethod

pub data ParameterSource : Type 0 where
  path query body header cookie background_tasks : ParameterSource

-- `pattern` is the source of the compiled expression.
pub record ParameterConstraints : Type 0 where
  pub gt : Option F64
  pub ge : Option F64
  pub lt : Option F64
  pub le : Option F64
  pub min_length : Option ℕ
  pub max_length : Option ℕ
  pub pattern : Option Str

pub data ScalarKind : Type 0 where
  bool int float str other : ScalarKind

-- `name_py` holds the same text as `name`, and is left out.
pub record ParsedParameter : Type 0 where
  pub name : Str
  pub external_name : Str
  pub source : ParameterSource
  pub annotation : Option PyRef
  pub default_value : Option PyValue
  pub has_default : Bool
  pub required : Bool
  pub description : Option Str
  pub constraints : ParameterConstraints
  pub param_object : Option PyRef
  pub is_pydantic_model : Bool
  pub scalar_kind : ScalarKind
  pub validator_index : Option ℕ

pub record PathParamRange : Type 0 where
  pub key : Str
  pub start : ℕ
  pub stop : ℕ

pub record PydanticValidator : Type 0 where
  pub name : Str
  pub model_class : PyRef
  pub validate_json : Option PyRef
  pub validate_python : PyRef
  pub core_validator : Option PyRef
  pub validate_json_method : Option PyRef

pub data SerializationHint : Type 0 where
  unknown pydantic_model dataclass plain_dict : SerializationHint

pub data ResponseType : Type 0 where
  json plain_text html redirect auto : ResponseType

pub data InjectionType : Type 0 where
  dependency : ℕ → InjectionType
  parameter : ParsedParameter → InjectionType
  request security_scopes : InjectionType

pub record DependencyNode : Type 0 where
  pub func_id : PyRef
  pub func : PyRef
  pub is_async : Bool
  pub param_name : Option Str
  pub scopes : List Str
  pub use_cache : Bool
  pub is_top_level : Bool
  pub injection_plan : List (Str × InjectionType)
  pub needs_request_object : Bool

pub data ExecutionMode : Type 0 where
  sync_no_args async_no_args sync_no_deps sync_deps_no_req sync_deps_req async_no_deps :
      ExecutionMode
  async_sync_deps_no_req async_sync_deps_req : ExecutionMode
  async_async_deps_no_req async_async_deps_req : ExecutionMode

-- `address` is the address of the `Arc<RouteHandler>`, which keys the rate limits.
pub record RouteHandler : Type 0 where
  pub address : ℕ
  pub func : PyRef
  pub is_async : Bool
  pub is_fast_path : Bool
  pub dependency_needs_request : Bool
  pub all_deps_sync : Bool
  pub param_validators : List PydanticValidator
  pub response_type : ResponseType
  pub serialization_hint : SerializationHint
  pub needs_kwargs : Bool
  pub body_param_names : List Str
  pub body_param_name_set : List Str
  pub body_param_indices : List ℕ
  pub dependencies : List DependencyNode
  pub parsed_params : List ParsedParameter
  pub default_status : Option ℕ
  pub response_model : Option PyRef
  pub response_class : Option PyRef
  pub bypass_serialization : Bool
  pub execution_mode : ExecutionMode
  pub cache_response : Bool
  pub rate_limit_per_second : Option ℕ

pub record RouteEntry : Type 0 where
  pub method : HttpMethod
  pub path : Str
  pub handler : RouteHandler
  pub tags : List Str
  pub summary : Option Str
  pub description : Option Str
  pub response_description : Option Str
  pub operation_id : Option Str
  pub openapi_extra : Option Json
  pub responses : Option Json
  pub callbacks : Option Json
  pub deprecated : Option Bool
  pub include_in_schema : Bool

pub record WebSocketEntry : Type 0 where
  pub path : Str
  pub handler : PyRef

-- The discriminant, `method as usize`.
abbrev pub discriminant : HttpMethod → ℕ
discriminant get = 0
discriminant post = 1
discriminant put = 2
discriminant delete = 3
discriminant patch = 4
discriminant options = 5
discriminant head = 6
