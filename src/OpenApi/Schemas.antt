-- ===== src/OpenApi/Schemas.antt =====
-- The schemas of src/utils/openapi.rs: of models, of annotations and of constraints.
use fastrapi.Prelude.{
  ℕ, ◌||◌, Bool, Option, none, some, [], ◌∷◌, ◌++◌, if◌then◌else◌, unwrap_or, or_else, ◌>>=?◌,
}
use fastrapi.Text.{Str, codes, str_eq, contains}
use fastrapi.Python.{PyRef, F64}
use fastrapi.Routing.Json.{Json, Number, Fields, num, str, obj, insert_field}
use fastrapi.Routing.Types.{ParameterConstraints}
use fastrapi.Serialize.Objects.{PyObject, JsonLibraries, dict}
use fastrapi.Serialize.Value.{py_any_to_json}
use fastrapi.OpenApi.Document.{object}

-- What the document asks of Python, `none` where an attribute is missing, a call raises or the result
-- is of another type. `unique_id f` is the call of `generate_unique_id_function`.
pub record Introspection : Type 0 where
  pub json : JsonLibraries
  pub model_json_schema : PyRef → Str → Option PyObject
  pub schema : PyRef → Option PyObject
  pub is_pydantic_model : PyRef → Bool
  pub name : PyRef → Option Str
  pub repr : PyRef → Option Str
  pub doc : PyRef → Option Str
  pub unique_id : PyRef → PyRef → Option Str

abbrev pub ref_to : Str → Json
ref_to name = object ((codes "$ref", str (codes "#/components/schemas/" ++ name)) ∷ [])

abbrev pub of_type : Str → Json
of_type name = object ((codes "type", str name) ∷ [])

abbrev pub text_array : Json
text_array =
    object ((codes "type", str (codes "array")) ∷ (codes "items", of_type (codes "string")) ∷ [])

abbrev pub named_type : Str → Option Json
named_type name =
    if str_eq name (codes "str")
    then some (of_type (codes "string"))
    else if str_eq name (codes "int")
    then some (of_type (codes "integer"))
    else if str_eq name (codes "float")
    then some (of_type (codes "number"))
    else if str_eq name (codes "bool")
    then some (of_type (codes "boolean"))
    else if str_eq name (codes "list")
    then some text_array
    else if str_eq name (codes "dict")
    then some (of_type (codes "object"))
    else none

abbrev pub written_type : Str → Option Json
written_type name =
    if contains name (codes "List") || contains name (codes "list")
    then some text_array
    else if contains name (codes "Dict") || contains name (codes "dict")
    then some (of_type (codes "object"))
    else none

abbrev pub insert_some : Str → Option Json → Fields → Fields
insert_some key none fields = fields
insert_some key (some value) fields = insert_field key value fields

module _ (python : Introspection) where
  -- `cast::<PyDict>` and `py_dict_to_json`.
  abbrev pub dict_to_json : PyObject → Option Json
  dict_to_json (dict entries) = some (py_any_to_json python.json (dict entries))
  dict_to_json _ = none

  unfoldable pub extract_pydantic_schema : PyRef → Str → Option Json
  unfolding py_any_to_json
  extract_pydantic_schema model mode =
      or_else (python.model_json_schema model mode >>=? dict_to_json)
        (python.schema model >>=? dict_to_json)

  unfoldable pub get_schema_name : PyRef → Str
  get_schema_name model = unwrap_or (python.name model) (codes "UnknownSchema")

  unfoldable pub python_type_to_openapi_type : PyRef → Json
  unfolding get_schema_name str_eq contains
  python_type_to_openapi_type type_hint =
      if python.is_pydantic_model type_hint
      then ref_to (get_schema_name type_hint)
      else unwrap_or
          (or_else (python.name type_hint >>=? named_type)
            (python.repr type_hint >>=? written_type))
          (of_type (codes "string"))

  abbrev pub json_usize : ℕ → Json
  json_usize n = num (Number.pos n)

  unfoldable pub apply_parameter_constraints : Json → ParameterConstraints → Json
  unfolding insert_field
  apply_parameter_constraints (obj fields) c =
      let f64 = λ (f : F64). some (python.json.json_f64 f) in
      let usize = λ (n : ℕ). some (json_usize n) in
      obj (
        insert_some (codes "pattern") (c.pattern >>=? λ s. some (str s)) (
          insert_some (codes "maxLength") (c.max_length >>=? usize) (
            insert_some (codes "minLength") (c.min_length >>=? usize) (
              insert_some (codes "maximum") (c.le >>=? f64) (
                insert_some (codes "exclusiveMaximum") (c.lt >>=? f64) (
                  insert_some (codes "minimum") (c.ge >>=? f64)
                    (insert_some (codes "exclusiveMinimum") (c.gt >>=? f64) fields)))))))
  apply_parameter_constraints schema c = schema
