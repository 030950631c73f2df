-- ===== src/Serialize/Writer.antt =====
-- The writing half of src/utils/mod.rs: `write_py_json` and what it calls, as the text that they
-- write. The writer is a buffer that grows, so that no write fails.
use fastrapi.Prelude.{
  ◌+◌, ◌^◌, Bool, true, false, ◌||◌, Option, none, some, [], ◌∷◌, ◌++◌, if◌then◌else◌, ltb, or_else,
  unwrap_or, ◌>>=?◌,
}
use fastrapi.Text.{Str, codes, str_eq}
use fastrapi.Text.Decimal.{decimal}
use fastrapi.Python.{ℤ, pos, negsuc}
use fastrapi.Routing.Json.{str}
use fastrapi.Server.Payload.{Bytes}
use fastrapi.Serialize.Objects.{
  PyObject, Objects, Entries, Attribute, JsonLibraries, none_object, dict, list, tuple, set,
  frozenset, string, boolean, integer, floating, bytes, bytearray, instance_of, nil, cons, end,
  entry, missing, gives,
}

-- `extract::<i64>()`.
abbrev pub fits_i64 : ℤ → Bool
fits_i64 (pos n) = ltb n (2 ^ 63)
fits_i64 (negsuc n) = ltb n (2 ^ 63)

-- `{v}` of an `i64`.
abbrev pub int_text : ℤ → Str
int_text (pos n) = decimal n
int_text (negsuc n) = b'-' ∷ decimal (n + 1)

abbrev pub sep : Bool → Str
sep first = if first then [] else b',' ∷ []

-- What comes of each byte in the array of a `bytes` that is no text.
abbrev pub write_byte_items : Bytes → Bool → Str
write_byte_items [] first = []
write_byte_items (byte ∷ rest) first = sep first ++ (decimal byte ++ write_byte_items rest false)

-- The names of the classes that are written as their `str`.
abbrev pub is_text_class : Str → Bool
is_text_class name = str_eq name (codes "UUID") || str_eq name (codes "Decimal")

-- `to_str` of the text that an object is.
abbrev pub as_string : Attribute → Option Str
as_string (gives (string s)) = some (unwrap_or s [])
as_string _ = none

module _ (libraries : JsonLibraries) where
  abbrev pub write_json_string : Str → Str
  write_json_string s = libraries.to_string (str s)

  unfoldable pub write_json_bytes : Bytes → Str
  write_json_bytes b = elim (libraries.from_utf8 b) [
    | none ↦ b'[' ∷ (write_byte_items b true ++ b']' ∷ [])
    | some s ↦ write_json_string s
  ]

  unfoldable pub json_key_for : PyObject → Str
  json_key_for (string s) = unwrap_or s []
  json_key_for key = unwrap_or (libraries.py_str key) []

  -- The text of a `model_dump_json()`, a `str` or `bytes`; `none` is the result false.
  unfoldable pub write_pydantic_model_json : Attribute → Option Str
  write_pydantic_model_json (gives (string s)) = some (unwrap_or s [])
  write_pydantic_model_json (gives (bytes b)) = some b
  write_pydantic_model_json _ = none

  abbrev pub write_str : PyObject → Option Str
  write_str value = libraries.py_str value >>=? λ s. some (write_json_string s)

  abbrev pub write_text_class : Option Str → PyObject → Option Str
  write_text_class none value = none
  write_text_class (some name) value = if is_text_class name then write_str value else none

  abbrev pub write_isoformat : Attribute → Option Str
  write_isoformat iso = as_string iso >>=? λ s. some (write_json_string s)

  unfoldable mutual
    unfolding write_json_bytes write_pydantic_model_json str_eq json_key_for

    pub write_py_json : PyObject → Str
    write_py_json none_object = codes "null"
    write_py_json (dict entries) = b'{' ∷ (write_entries entries true ++ b'}' ∷ [])
    write_py_json (list items) = b'[' ∷ (write_json_array items true ++ b']' ∷ [])
    write_py_json (tuple items) = b'[' ∷ (write_json_array items true ++ b']' ∷ [])
    write_py_json (set items) = b'[' ∷ (write_json_array items true ++ b']' ∷ [])
    write_py_json (frozenset items) = b'[' ∷ (write_json_array items true ++ b']' ∷ [])
    write_py_json (string s) = write_json_string (unwrap_or s [])
    write_py_json (boolean b) = if b then codes "true" else codes "false"
    write_py_json (integer n) =
        if fits_i64 n then int_text n else unwrap_or (write_str (integer n)) (codes "null")
    write_py_json (floating f) = unwrap_or (libraries.number_text f) (codes "null")
    write_py_json (bytes b) = write_json_bytes b
    write_py_json (bytearray b) = write_json_bytes b
    write_py_json (instance_of dump_json dump asdict iso name member) =
        unwrap_or
          (or_else (write_pydantic_model_json dump_json) (
            or_else (write_attribute dump) (
              or_else (write_attribute asdict) (
                or_else (write_isoformat iso) (
                  or_else
                    (write_text_class name (instance_of dump_json dump asdict iso name member))
                    (or_else (write_attribute member)
                      (write_str (instance_of dump_json dump asdict iso name member))))))))
          (codes "null")

    -- The loops of `write_json_array` and over the items of a dict.
    pub write_json_array : Objects → Bool → Str
    write_json_array nil first = []
    write_json_array (cons item items) first =
        sep first ++ (write_py_json item ++ write_json_array items false)

    pub write_entries : Entries → Bool → Str
    write_entries end first = []
    write_entries (entry key item entries) first =
        sep first
        ++ (write_json_string (json_key_for key)
            ++ b':' ∷ (write_py_json item ++ write_entries entries false))

    pub write_attribute : Attribute → Option Str
    write_attribute missing = none
    write_attribute (gives value) = some (write_py_json value)
