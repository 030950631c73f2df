-- ===== src/Serialize/Value.antt =====
-- The building half of src/utils/mod.rs: `py_any_to_json` and what it calls. The entries of the hash
-- map of a dict are taken in the order of their insertion.
use fastrapi.Prelude.{
  Option, none, some, [], ◌∷◌, if◌then◌else◌, or_else, unwrap_or, ◌>>=?◌, Assoc, insert,
}
use fastrapi.Text.{Str, str_eq}
use fastrapi.Text.Laws.{str_key}
use fastrapi.Python.{ℤ, pos, negsuc}
use fastrapi.Routing.Json.{Json, Number, Items, Fields, null, bool, num, str, arr, obj, field}
use fastrapi.Server.Payload.{Bytes}
use fastrapi.Serialize.Objects.{
  PyObject, Objects, Entries, Attribute, JsonLibraries, none_object, dict, list, tuple, set,
  frozenset, string, boolean, integer, floating, bytes, bytearray, instance_of, nil, cons, end,
  entry, missing, gives,
}
use fastrapi.Serialize.Writer.{fits_i64, is_text_class, as_string, json_key_for}

-- `json!` of an `i64`.
abbrev pub json_i64 : ℤ → Json
json_i64 (pos n) = num (Number.pos n)
json_i64 (negsuc n) = num (Number.negsuc n)

abbrev pub byte_items : Bytes → Items
byte_items [] = Items.nil
byte_items (byte ∷ rest) = Items.cons (num (Number.pos byte)) (byte_items rest)

-- `to_value` of a map.
abbrev pub fields_of : Assoc Str Json → Fields
fields_of [] = Fields.end
fields_of ((key, value) ∷ entries) = field key value (fields_of entries)

module _ (libraries : JsonLibraries) where
  unfoldable pub bytes_to_json : Bytes → Json
  bytes_to_json b = elim (libraries.from_utf8 b) [ none ↦ arr (byte_items b) | some s ↦ str s ]

  -- `model_dump_json()` where it gives a text that parses.
  unfoldable pub parse_model_dump_json : Attribute → Option Json
  parse_model_dump_json dump_json = as_string dump_json >>=? libraries.from_str

  abbrev pub json_str : PyObject → Option Json
  json_str value = libraries.py_str value >>=? λ s. some (str s)

  abbrev pub json_text_class : Option Str → PyObject → Option Json
  json_text_class none value = none
  json_text_class (some name) value = if is_text_class name then json_str value else none

  abbrev pub json_isoformat : Attribute → Option Json
  json_isoformat iso = as_string iso >>=? λ s. some (str s)

  unfoldable mutual
    unfolding bytes_to_json parse_model_dump_json str_eq json_key_for insert

    pub py_any_to_json : PyObject → Json
    py_any_to_json none_object = null
    py_any_to_json (dict entries) = obj (fields_of (py_dict_to_json entries []))
    py_any_to_json (list items) = arr (py_list_to_json items)
    py_any_to_json (tuple items) = arr (py_list_to_json items)
    py_any_to_json (set items) = arr (py_list_to_json items)
    py_any_to_json (frozenset items) = arr (py_list_to_json items)
    py_any_to_json (string s) = str (unwrap_or s [])
    py_any_to_json (boolean b) = bool b
    py_any_to_json (integer n) =
        if fits_i64 n then json_i64 n else unwrap_or (json_str (integer n)) null
    py_any_to_json (floating f) = libraries.json_f64 f
    py_any_to_json (bytes b) = bytes_to_json b
    py_any_to_json (bytearray b) = bytes_to_json b
    py_any_to_json (instance_of dump_json dump asdict iso name member) =
        unwrap_or
          (or_else (parse_model_dump_json dump_json) (
            or_else (attribute_to_json dump) (
              or_else (attribute_to_json asdict) (
                or_else (json_isoformat iso) (
                  or_else (json_text_class name (instance_of dump_json dump asdict iso name member))
                    (or_else (attribute_to_json member)
                      (json_str (instance_of dump_json dump asdict iso name member))))))))
          null

    pub py_list_to_json : Objects → Items
    py_list_to_json nil = Items.nil
    py_list_to_json (cons item items) = Items.cons (py_any_to_json item) (py_list_to_json items)

    -- The loop over the items of a dict, from the map that the items before have filled.
    pub py_dict_to_json : Entries → Assoc Str Json → Assoc Str Json
    py_dict_to_json end known = known
    py_dict_to_json (entry key value entries) known =
        py_dict_to_json entries (insert (json_key_for libraries key) (py_any_to_json value) known)

    pub attribute_to_json : Attribute → Option Json
    attribute_to_json missing = none
    attribute_to_json (gives value) = some (py_any_to_json value)
