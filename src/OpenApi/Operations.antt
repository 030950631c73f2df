-- ===== src/OpenApi/Operations.antt =====
-- The operation of one route in `build_paths_from_routes`, src/utils/openapi.rs.
use fastrapi.Prelude.{
  ◌||◌, not, Bool, true, false, Option, none, some, List, [], ◌∷◌, ◌++◌, if◌then◌else◌, unwrap_or,
  or_else, ◌>>=?◌, Assoc, insert, is_empty,
}
use fastrapi.Text.{Str, codes, str_eq, trim, trim_start_matches}
use fastrapi.Text.Laws.{str_key}
use fastrapi.Python.{PyRef}
use fastrapi.Routing.Json.{Json, Fields, str, obj, end, field, get_field, insert_field}
use fastrapi.Routing.Types.{
  HttpMethod, ParameterSource, ParsedParameter, PydanticValidator, RouteHandler, RouteEntry,
}
use fastrapi.OpenApi.Merge.{deep_merge_json}
use fastrapi.OpenApi.Document.{
  MediaType, RequestBody, ResponseObject, Parameter, Operation, object, texts,
}
use fastrapi.OpenApi.Schemas.{
  Introspection, ref_to, of_type, extract_pydantic_schema, get_schema_name,
  python_type_to_openapi_type, apply_parameter_constraints,
}

abbrev pub Schemas : Type 0
Schemas = Assoc Str Json

-- The name of the variant, in lower case.
abbrev pub method_name : HttpMethod → Str
method_name HttpMethod.get = codes "get"
method_name HttpMethod.post = codes "post"
method_name HttpMethod.put = codes "put"
method_name HttpMethod.delete = codes "delete"
method_name HttpMethod.patch = codes "patch"
method_name HttpMethod.options = codes "options"
method_name HttpMethod.head = codes "head"

abbrev pub location_of : ParameterSource → Option Str
location_of ParameterSource.path = some (codes "path")
location_of ParameterSource.query = some (codes "query")
location_of ParameterSource.header = some (codes "header")
location_of ParameterSource.cookie = some (codes "cookie")
location_of ParameterSource.body = none
location_of ParameterSource.background_tasks = none

abbrev pub has_body : HttpMethod → Bool
has_body HttpMethod.post = true
has_body HttpMethod.put = true
has_body HttpMethod.patch = true
has_body _ = false

-- `filter(|s| !s.is_empty())`.
abbrev pub unless_empty : Str → Option Str
unless_empty s = if is_empty s then none else some s

-- `replace('/', "__")`, and then a bar for each brace.
abbrev pub slug : Str → Str
slug [] = []
slug (c ∷ s) =
    (if str_eq (c ∷ []) (codes "/")
      then codes "__"
      else if str_eq (c ∷ []) (codes "{") || str_eq (c ∷ []) (codes "}")
      then codes "_"
      else c ∷ [])
    ++ slug s

unfoldable pub wrapper_name : Str → Str → HttpMethod → Str
unfolding str_eq trim_start_matches
wrapper_name func_name path method =
    codes "Body_"
    ++ func_name
    ++ codes "_"
    ++ slug (trim_start_matches path b'/')
    ++ codes "_"
    ++ method_name method

abbrev pub json_content : Json → Assoc Str MediaType
json_content schema = (codes "application/json", record { schema = schema }) ∷ []

abbrev pub body_of : Str → RequestBody
body_of name = record { required = true; content = json_content (ref_to name) }

abbrev pub validation_error : ResponseObject
validation_error = record {
  description = codes "Validation Error";
  content = some (
      json_content (
        object (
          (codes "type", str (codes "object"))
          ∷ (codes "properties", object ((codes "detail", of_type (codes "string")) ∷ []))
          ∷ [])));
}

module _ (python : Introspection) where
  abbrev pub parameter_of : ParsedParameter → Str → Parameter
  parameter_of param location = record {
    name = param.external_name;
    location = location;
    required = some (param.required || str_eq location (codes "path"));
    schema = some (
        apply_parameter_constraints python
          (unwrap_or (param.annotation >>=? λ a. some (python_type_to_openapi_type python a))
            (of_type (codes "string")))
          param.constraints);
    description = param.description;
  }

  unfoldable pub parameters_of : List ParsedParameter → List Parameter
  unfolding str_eq apply_parameter_constraints python_type_to_openapi_type
  parameters_of [] = []
  parameters_of (param ∷ params) = elim (location_of param.source) [
    | none ↦ parameters_of params
    | some location ↦ parameter_of param location ∷ parameters_of params
  ]

  -- The loop over several validators: the properties, the required names, and the schemas.
  unfoldable pub validator_properties :
      List PydanticValidator → Fields → List Str → Schemas → Fields × List Str × Schemas
  unfolding extract_pydantic_schema get_schema_name insert_field insert str_eq
  validator_properties [] properties required schemas = (properties, required, schemas)
  validator_properties (v ∷ vs) properties required schemas =
      let name = get_schema_name python v.model_class in
      elim (extract_pydantic_schema python v.model_class (codes "validation")) [
        | none ↦ validator_properties vs properties required schemas
        | some schema ↦
            validator_properties vs (insert_field v.name (ref_to name) properties)
              (required ++ v.name ∷ []) (insert name schema schemas)
      ]

  -- The schema of the body as a whole, where it has a property.
  abbrev pub wrap : Str → Fields × List Str × Schemas → Option RequestBody × Schemas
  wrap name (end, required, schemas) = (none, schemas)
  wrap name (field key value properties, required, schemas) = (
    some (body_of name),
    insert name
        (object (
          (codes "type", str (codes "object"))
          ∷ (codes "properties", obj (field key value properties))
          ∷ (codes "required", texts required)
          ∷ []))
        schemas,
  )

  abbrev pub validators_body :
      Str → HttpMethod → Str → List PydanticValidator → Schemas → Option RequestBody × Schemas
  validators_body path method func_name [] schemas = (none, schemas)
  validators_body path method func_name (v ∷ []) schemas =
      let name = get_schema_name python v.model_class in
      elim (extract_pydantic_schema python v.model_class (codes "validation")) [
        | none ↦ (none, schemas)
        | some schema ↦ (some (body_of name), insert name schema schemas)
      ]
  validators_body path method func_name (v ∷ w ∷ vs) schemas =
      wrap (wrapper_name func_name path method) (validator_properties (v ∷ w ∷ vs) end [] schemas)

  unfoldable pub request_body_of : RouteEntry → Schemas → Option RequestBody × Schemas
  unfolding validator_properties wrapper_name extract_pydantic_schema get_schema_name insert str_eq
  request_body_of route schemas =
      if has_body route.method
      then validators_body route.path route.method
          (unwrap_or (python.name route.handler.func) (codes "unknown"))
          route.handler.param_validators schemas
      else (none, schemas)

  -- The schema of the response, from the response model.
  unfoldable pub response_schema_of : Bool → RouteHandler → Schemas → Json × Schemas
  unfolding extract_pydantic_schema get_schema_name insert str_eq
  response_schema_of separate handler schemas =
      let mode = if separate then codes "serialization" else codes "validation" in
      elim handler.response_model [
        | none ↦ (of_type (codes "object"), schemas)
        | some model ↦ elim (extract_pydantic_schema python model mode) [
          | none ↦ (of_type (codes "object"), schemas)
          | some schema ↦
              let name = get_schema_name python model in (ref_to name, insert name schema schemas)
        ]
      ]

  abbrev pub responses_of : RouteEntry → Json → Assoc Str ResponseObject
  responses_of route schema =
      (
        codes "200",
        record {
          description = unwrap_or route.response_description (codes "Successful Response");
          content = some (json_content schema);
        },
      )
      ∷ (if not (is_empty route.handler.param_validators)
            || not (is_empty route.handler.parsed_params)
          then (codes "422", validation_error) ∷ []
          else [])

  unfoldable pub operation_of : Option PyRef → RouteEntry → Option RequestBody → Json → Operation
  unfolding parameters_of trim
  operation_of unique_id route body schema =
      let parameters = parameters_of route.handler.parsed_params in
      record {
        summary = route.summary;
        deprecated = route.deprecated;
        description =
            or_else route.description
              (python.doc route.handler.func >>=? λ doc. unless_empty (trim doc));
        tags = if is_empty route.tags then none else some route.tags;
        parameters = if is_empty parameters then none else some parameters;
        operation_id =
            or_else route.operation_id (unique_id >>=? λ f. python.unique_id f route.handler.func);
        request_body = body;
        responses = responses_of route schema;
        callbacks = none;
      }

-- A merge into the field of an operation that is an object and has the field.
unfoldable pub merge_under : Str → Option Json → Json → Json
unfolding get_field insert_field deep_merge_json
merge_under key (some source) (obj fields) = elim (get_field key fields) [
  | none ↦ obj fields
  | some value ↦ obj (insert_field key (deep_merge_json value source) fields)
]
merge_under key _ operation = operation

unfoldable pub merge_callbacks : Option Json → Json → Json
unfolding get_field insert_field deep_merge_json
merge_callbacks (some callbacks) (obj fields) = elim (get_field (codes "callbacks") fields) [
  | none ↦ obj (insert_field (codes "callbacks") callbacks fields)
  | some value ↦ obj (insert_field (codes "callbacks") (deep_merge_json value callbacks) fields)
]
merge_callbacks _ operation = operation

abbrev pub merge_extra : Option Json → Json → Json
merge_extra none operation = operation
merge_extra (some extra) operation = deep_merge_json operation extra
