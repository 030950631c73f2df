-- ===== src/Routing/Params.antt =====
-- src/routing/params.rs: how a parameter of a Python function is read, from its annotation and its
-- default. The records hold what the code reads of these Python objects.
pub mod Names
pub mod Spec
use fastrapi.Prelude.{
  ℕ, Bool, true, false, not, ◌&&◌, ◌||◌, Option, none, some, List, [], ◌∷◌, ◌++◌, ◌>>=?◌,
  if◌then◌else◌, any, is_some, unwrap_or, ◌==◌, is_empty,
}
use fastrapi.Text.{Str, str_eq, codes, contains, replace_char}
use fastrapi.Python.{PyRef, F64, PyValue, PyErr, PyResult, ok, err, ◌>>=◌}
use fastrapi.Routing.Types.{ParameterConstraints, ParameterSource, ParsedParameter, ScalarKind}

-- An annotation: `empty` is `inspect.Parameter.empty`. The name is its `__name__`, or its `str`. The
-- rest is what `is_pydantic_model` (src/ffi/pydantic.rs) asks of it.
pub record Annotation : Type 0 where
  pub ref : PyRef
  pub empty : Bool
  pub name : Option Str
  pub is_type : Bool
  pub has_model_validate : Bool
  pub has_model_fields : Bool
  pub has_pydantic_validator : Bool
  pub has_pydantic_core_schema : Bool
  -- pydantic is there, and the type is a subclass of its `BaseModel`
  pub extends_base_model : Bool

-- The `default` attribute of a param object such as `Query(...)`.
pub data InnerDefault : Type 0 where
  ellipsis none_default : InnerDefault
  value : PyValue → InnerDefault

-- A default. An attribute is `none` where it is missing, or where it is of another type than the
-- one that it is extracted to.
pub record DefaultObject : Type 0 where
  pub ref : PyRef
  pub type_name : PyResult Str
  pub default : Option InnerDefault
  pub alias : Option Str
  pub convert_underscores : Option Bool
  pub description : Option Str
  pub gt : Option F64
  pub ge : Option F64
  pub lt : Option F64
  pub le : Option F64
  pub min_length : Option ℕ
  pub max_length : Option ℕ
  pub pattern : Option Str
  -- `Depends` and `Security`: the attribute `dependency`, `none` inside for Python's `None`
  pub dependency : Option (Option PyRef)
  -- the attribute `scopes`: `none` inside where it cannot be iterated, and for an item that is no text
  pub scopes : Option (Option (List (Option Str)))
  pub use_cache : Option Bool

pub data Default : Type 0 where
  -- `inspect.Parameter.empty`
  empty : Default
  object : DefaultObject → Default

-- A parameter of `inspect.signature`.
pub record PyParameter : Type 0 where
  pub annotation : Option Annotation
  pub default : PyResult Default

-- The matches of `\{([^}]+)\}`: `inside` is what stands behind the last open brace, reversed.
abbrev pub close : Str → List Str → List Str
close [] names = names
close (c ∷ name) names = (c ∷ name) ∷ names

unfoldable pub names_from : Option Str → Str → List Str
names_from inside [] = []
names_from none (c ∷ s) = names_from (if c == b'{' then some [] else none) s
names_from (some name) (c ∷ s) =
    let closed = close name (names_from none s) in
    let longer = names_from (some (name ++ c ∷ [])) s in if c == b'}' then closed else longer

unfoldable pub extract_path_param_names : Str → List Str
unfolding names_from
extract_path_param_names path = names_from none path

unfoldable pub is_pydantic_model : Annotation → Bool
is_pydantic_model a =
    a.is_type
    && (a.has_model_validate || a.has_model_fields || a.has_pydantic_validator
        || a.has_pydantic_core_schema || a.extends_base_model)

unfoldable pub source_from_param_class : Str → Option ParameterSource
unfolding str_eq
source_from_param_class type_name =
    if str_eq type_name (codes "Query")
    then some ParameterSource.query
    else if str_eq type_name (codes "Path")
    then some ParameterSource.path
    else if str_eq type_name (codes "Body")
        || str_eq type_name (codes "Form")
        || str_eq type_name (codes "File")
    then some ParameterSource.body
    else if str_eq type_name (codes "Header")
    then some ParameterSource.header
    else if str_eq type_name (codes "Cookie")
    then some ParameterSource.cookie
    else none

-- The default value, whether there is one, and whether the parameter is required.
unfoldable pub extract_param_default : Option InnerDefault → Option PyValue × Bool × Bool
extract_param_default none = (none, false, true)
extract_param_default (some ellipsis) = (none, false, true)
extract_param_default (some none_default) = (none, true, false)
extract_param_default (some (value v)) = (some v, true, false)

abbrev pub is_header : ParameterSource → Bool
is_header ParameterSource.header = true
is_header _ = false

abbrev pub is_path : ParameterSource → Bool
is_path ParameterSource.path = true
is_path _ = false

unfoldable pub external_name_for_param : Str → ParameterSource → DefaultObject → Str
unfolding replace_char
external_name_for_param param_name source param_obj = elim param_obj.alias [
  | some alias ↦ alias
  | none ↦
      if is_header source && unwrap_or param_obj.convert_underscores true
      then replace_char param_name b'_' b'-'
      else param_name
]

abbrev pub no_constraints : ParameterConstraints
no_constraints = record {
  gt = none;
  ge = none;
  lt = none;
  le = none;
  min_length = none;
  max_length = none;
  pattern = none;
}

abbrev pub is_in : Str → List Str → Bool
is_in name names = any (λ n. str_eq n name) names

abbrev pub name_contains : Str → Option Annotation → Bool
name_contains word annotation =
    unwrap_or (annotation >>=? λ a. a.name >>=? λ name. some (contains name word)) false

-- The annotation, unless it is `inspect.Parameter.empty`.
abbrev pub given_annotation : Option Annotation → Option Annotation
given_annotation none = none
given_annotation (some a) = if a.empty then none else some a

unfoldable pub initial_source : Str → Option Annotation → List Str → ParameterSource
unfolding is_pydantic_model
initial_source param_name annotation path_param_names =
    if name_contains (codes "BackgroundTasks") annotation
    then ParameterSource.background_tasks
    else if is_in param_name path_param_names
    then ParameterSource.path
    else if name_contains (codes "UploadFile") annotation
        || unwrap_or (annotation >>=? λ a. some (is_pydantic_model a)) false
    then ParameterSource.body
    else ParameterSource.query

-- `regex_compiles` stands for the regex crate: whether an expression is accepted.
module _ (regex_compiles : Str → Bool) where
  abbrev pub compiled : Str → Option Str
  compiled pattern =
      let anchored = codes "^(?:" ++ pattern ++ codes ")$" in
      if regex_compiles anchored then some anchored else none

  unfoldable pub extract_constraints : DefaultObject → ParameterConstraints
  extract_constraints param_obj = record {
    gt = param_obj.gt;
    ge = param_obj.ge;
    lt = param_obj.lt;
    le = param_obj.le;
    min_length = param_obj.min_length;
    max_length = param_obj.max_length;
    pattern = param_obj.pattern >>=? compiled;
  }

  abbrev pub plain_spec : Str → Option Annotation → ParameterSource → ParsedParameter
  plain_spec param_name annotation source = record {
    name = param_name;
    external_name = param_name;
    source = source;
    annotation = annotation >>=? λ a. some a.ref;
    default_value = none;
    has_default = false;
    required = true;
    description = none;
    constraints = no_constraints;
    param_object = none;
    is_pydantic_model = unwrap_or (annotation >>=? λ a. some (is_pydantic_model a)) false;
    scalar_kind = ScalarKind.other;
    validator_index = none;
  }

  -- A param object such as `Query(...)` as the default.
  abbrev pub class_spec : Str → DefaultObject → ParameterSource → ParsedParameter → ParsedParameter
  class_spec param_name o source spec =
      let (default_value, has_value, is_required) = extract_param_default o.default in
      record spec {
        external_name = external_name_for_param param_name source o;
        source = source;
        default_value = default_value;
        has_default = has_value;
        required = is_required;
        description = o.description;
        constraints = extract_constraints o;
        param_object = some o.ref;
      }

  -- Any other default.
  abbrev pub value_spec : DefaultObject → ParsedParameter → ParsedParameter
  value_spec o spec = record spec {
    default_value = some (PyValue.object o.ref);
    has_default = true;
    required = false;
  }

  abbrev pub with_class :
      Str → DefaultObject → Option ParameterSource → ParsedParameter → ParsedParameter
  with_class param_name o none spec = value_spec o spec
  with_class param_name o (some source) spec = class_spec param_name o source spec

  abbrev pub with_default : Str → Bool → Default → ParsedParameter → PyResult ParsedParameter
  with_default param_name in_path empty spec =
      ok (record spec { required = not in_path || is_path spec.source })
  with_default param_name in_path (object o) spec = o.type_name >>= λ type_name.
      ok (with_class param_name o (source_from_param_class type_name) spec)

  unfoldable pub parse_parameter_spec : Str → PyParameter → List Str → PyResult ParsedParameter
  unfolding initial_source extract_param_default external_name_for_param extract_constraints
      source_from_param_class is_pydantic_model
  parse_parameter_spec param_name param_obj path_param_names =
      let annotation = given_annotation param_obj.annotation in
      let source = initial_source param_name annotation path_param_names in
      param_obj.default >>= λ default.
      with_default param_name (is_in param_name path_param_names) default
        (plain_spec param_name annotation source)
