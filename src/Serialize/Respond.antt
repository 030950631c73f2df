-- ===== src/Serialize/Respond.antt =====
-- The responses of src/utils/mod.rs.
use fastrapi.Prelude.{ℕ, [], Option, none, some, if◌then◌else◌, ◌==◌, unwrap_or}
use fastrapi.Text.{Str, codes}
use fastrapi.Routing.Json.{Json}
use fastrapi.Routing.Types.{SerializationHint, unknown, pydantic_model, dataclass, plain_dict}
use fastrapi.Serialize.Objects.{
  PyObject, Attribute, Extension, JsonLibraries, none_object, instance_of, no_extension,
}
use fastrapi.Serialize.Writer.{write_pydantic_model_json, write_py_json, write_attribute}

-- A response with its text; `content_type` is `none` where no header is set.
pub record TextResponse : Type 0 where
  pub status : ℕ
  pub content_type : Option Str
  pub body : Str

abbrev pub json_text : ℕ → Str → TextResponse
json_text status body = record {
  status = status;
  content_type = some (codes "application/json");
  body = body;
}

-- A class that extends a built-in type may have a `model_dump_json`, or be a dataclass.
abbrev pub dump_json_of : Extension → PyObject → Attribute
dump_json_of extension (instance_of dump_json dump asdict iso name member) = dump_json
dump_json_of extension _ = extension.dump_json

abbrev pub asdict_of : Extension → PyObject → Attribute
asdict_of extension (instance_of dump_json dump asdict iso name member) = asdict
asdict_of extension _ = extension.asdict

module _ (libraries : JsonLibraries) where
  unfoldable pub json_response_with_status : ℕ → Json → TextResponse
  json_response_with_status status value = json_text status (libraries.to_string value)

  -- The text of a value that is a dataclass; `none` is the result false.
  unfoldable pub write_dataclass_json : Extension → PyObject → Option Str
  unfolding write_attribute
  write_dataclass_json extension value = write_attribute libraries (asdict_of extension value)

  abbrev pub write_hinted : Extension → PyObject → SerializationHint → Str
  write_hinted extension value pydantic_model =
      unwrap_or (write_pydantic_model_json libraries (dump_json_of extension value))
        (write_py_json libraries value)
  write_hinted extension value dataclass =
      unwrap_or (write_dataclass_json extension value) (write_py_json libraries value)
  write_hinted extension value plain_dict = write_py_json libraries value
  write_hinted extension value unknown = write_py_json libraries value

  unfoldable pub py_json_response_with_status_hint :
      ℕ → Extension → PyObject → SerializationHint → TextResponse
  unfolding write_pydantic_model_json write_py_json write_dataclass_json
  py_json_response_with_status_hint status extension value hint =
      json_text status (write_hinted extension value hint)

  -- As the writing of a value does not fail, neither does this.
  unfoldable pub py_to_response : PyObject → ℕ → TextResponse
  unfolding py_json_response_with_status_hint
  py_to_response none_object status = record {
    status = if status == 200 then 204 else status;
    content_type = none;
    body = [];
  }
  py_to_response value status = py_json_response_with_status_hint status no_extension value unknown
