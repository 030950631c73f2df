-- ===== src/Serialize/Objects.antt =====
-- The Python objects that src/utils/mod.rs looks into, and what it asks of Python and of sonic_rs.
use fastrapi.Prelude.{Bool, Option}
use fastrapi.Text.{Str}
use fastrapi.Python.{ℤ, F64}
use fastrapi.Routing.Json.{Json}
use fastrapi.Server.Payload.{Bytes}

-- A finite tree, by the first built-in type that a cast of the object finds; an `instance` is of none
-- of them, and carries in this order what its `model_dump_json()`, its `model_dump()`,
-- `dataclasses.asdict` and its `isoformat()` give, the name of its class, and the `value` of a member
-- of an `Enum`. A text is `none` where `to_str` fails.
mutual
  pub data PyObject : Type 0 where
    none_object : PyObject
    dict : Entries → PyObject
    list tuple set frozenset : Objects → PyObject
    string : Option Str → PyObject
    boolean : Bool → PyObject
    integer : ℤ → PyObject
    floating : F64 → PyObject
    bytes bytearray : Bytes → PyObject
    instance_of : Attribute → Attribute → Attribute → Attribute → Option Str → Attribute → PyObject

  pub data Objects : Type 0 where
    nil : Objects
    cons : PyObject → Objects → Objects

  -- The items of a dict, in its order.
  pub data Entries : Type 0 where
    end : Entries
    entry : PyObject → PyObject → Entries → Entries

  -- `missing` where there is none, and where Python raises.
  pub data Attribute : Type 0 where
    missing : Attribute
    gives : PyObject → Attribute

-- What a class that extends a built-in type adds to it: what `model_dump_json()` and
-- `dataclasses.asdict` give of its object.
pub record Extension : Type 0 where
  pub dump_json : Attribute
  pub asdict : Attribute

-- That of the built-in types themselves.
abbrev pub no_extension : Extension
no_extension = record { dump_json = missing; asdict = missing }

-- `value.str()` with `to_str`, and the std and sonic_rs functions: `from_utf8`,
-- `Number::from_f64` with its `Display`, `json!` of an `f64`, `to_string` and `from_str`.
pub record JsonLibraries : Type 0 where
  pub py_str : PyObject → Option Str
  pub from_utf8 : Bytes → Option Str
  pub number_text : F64 → Option Str
  pub json_f64 : F64 → Json
  pub to_string : Json → Str
  pub from_str : Str → Option Json
