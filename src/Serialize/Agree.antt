-- ===== src/Serialize/Agree.antt =====
-- The two halves of src/utils/mod.rs compared: the text that is written, and the value that is built.
use fastrapi.Prelude.{
  ◌≡◌, refl, sym, ap, Bool, true, false, Option, none, some, [], ◌∷◌, ◌++◌, or_else, unwrap_or,
  Bool-cases, Option-cases, inl, inr, ◌>>=?◌,
}
use fastrapi.Text.{Str, codes}
use fastrapi.Python.{ℤ, pos, negsuc}
use fastrapi.Routing.Json.{Json, null, str, arr}
use fastrapi.Server.Payload.{Bytes}
use fastrapi.Serialize.Objects.{
  PyObject, Objects, Entries, Attribute, JsonLibraries, none_object, dict, list, tuple, set,
  frozenset, string, boolean, integer, floating, bytes, bytearray, instance_of, nil, cons, end,
  entry, missing, gives,
}
use fastrapi.Serialize.Writer.{
  write_py_json, write_json_array, write_entries, write_attribute, write_json_bytes,
  write_byte_items, write_pydantic_model_json, as_string, fits_i64, int_text, write_text_class,
  is_text_class,
}
use fastrapi.Serialize.Value.{
  py_any_to_json, py_list_to_json, attribute_to_json, bytes_to_json, byte_items,
  parse_model_dump_json, json_i64, json_str, json_text_class, fields_of,
}
use fastrapi.Serialize.Compact.{IsCompact, items_text, fields_text}
use fastrapi.Serialize.Keys.{AreDistinct, pairs_of, py_dict_to_json-pairs}

module _ (libraries : JsonLibraries) (compact : IsCompact libraries) where
  abbrev to_string : Json → Str
  to_string = libraries.to_string

  -- The texts of a value that is there or not.
  abbrev text_of : Option Json → Option Str
  text_of none = none
  text_of (some j) = some (to_string j)

  or_else_agrees :
      {s t : Option Str} (a b : Option Json)
      → s ≡ text_of a
      → t ≡ text_of b
      → or_else s t ≡ text_of (or_else a b)
  or_else_agrees none b p q = rw p q
  or_else_agrees (some j) b p q = rw p refl

  unwrap_or_agrees :
      {t : Option Str} (o : Option Json)
      → t ≡ text_of o
      → unwrap_or t (codes "null") ≡ to_string (unwrap_or o null)
  unwrap_or_agrees none p = rw p (sym compact.null_text)
  unwrap_or_agrees (some j) p = rw p refl

  text_of-str :
      (o : Option Str) → text_of (o >>=? λ s. some (str s)) ≡ (o >>=? λ s. some (to_string (str s)))
  text_of-str none = refl
  text_of-str (some s) = refl

  text_of-text_class :
      (name : Option Str) (value : PyObject)
      → text_of (json_text_class libraries name value) ≡ write_text_class libraries name value
  text_of-text_class none value = refl
  text_of-text_class (some name) value = elim (Bool-cases (is_text_class name)) [
    | inl e ↦ rw e (text_of-str (libraries.py_str value))
    | inr e ↦ rw e refl
  ]

  to_string-byte_items :
      (b : Bytes) (first : Bool)
      → write_byte_items b first ≡ items_text to_string (byte_items b) first
  to_string-byte_items [] first = refl
  to_string-byte_items (byte ∷ rest) first =
      rw (compact.pos_text byte, to_string-byte_items rest false) refl

  to_string-bytes :
      (b : Bytes) → write_json_bytes libraries b ≡ to_string (bytes_to_json libraries b)
  unfolding write_json_bytes bytes_to_json
  to_string-bytes b = elim (Option-cases (libraries.from_utf8 b)) [
    | inl e ↦
        rw (e, write_json_bytes, bytes_to_json)
          (rw (compact.arr_text (byte_items b), to_string-byte_items b true) refl)
    | inr (s, e) ↦ rw (e, write_json_bytes, bytes_to_json) refl
  ]

  to_string-integer : (n : ℤ) → to_string (json_i64 n) ≡ int_text n
  to_string-integer (pos n) = compact.pos_text n
  to_string-integer (negsuc n) = compact.negsuc_text n

  -- What `model_dump_json` gives, where it gives anything, is the compact text of a value.
  abbrev IsDumped : Attribute → Type 0
  IsDumped missing = Unit
  IsDumped (gives (string s)) =
      (j : Json) × (libraries.from_str (unwrap_or s []) ≡ some j) × (to_string j ≡ unwrap_or s [])
  IsDumped (gives _) = ⊥

  text_of-dump_json :
      (a : Attribute)
      → IsDumped a
      → write_pydantic_model_json libraries a ≡ text_of (parse_model_dump_json libraries a)
  unfolding write_pydantic_model_json parse_model_dump_json
  text_of-dump_json missing h = refl
  text_of-dump_json (gives (string s)) (j, p, q) = rw p (ap some (sym q))
  text_of-dump_json (gives _) h = elim h [ ]

  -- No dict has two equal keys, and each `model_dump_json` gives a compact text.
  unfoldable mutual
    pub IsRegular : PyObject → Type 0
    IsRegular (dict entries) = AreDistinct libraries entries × HasRegularValues entries
    IsRegular (list items) = AreRegular items
    IsRegular (tuple items) = AreRegular items
    IsRegular (set items) = AreRegular items
    IsRegular (frozenset items) = AreRegular items
    IsRegular (instance_of dump_json dump asdict iso name member) =
        IsDumped dump_json
        × IsRegularAttribute dump
        × IsRegularAttribute asdict
        × IsRegularAttribute member
    IsRegular _ = Unit

    pub AreRegular : Objects → Type 0
    AreRegular nil = Unit
    AreRegular (cons item items) = IsRegular item × AreRegular items

    pub HasRegularValues : Entries → Type 0
    HasRegularValues end = Unit
    HasRegularValues (entry key value entries) = IsRegular value × HasRegularValues entries

    pub IsRegularAttribute : Attribute → Type 0
    IsRegularAttribute missing = Unit
    IsRegularAttribute (gives value) = IsRegular value

  abbrev AgreesOn : PyObject → Type 0
  AgreesOn v = IsRegular v → write_py_json libraries v ≡ to_string (py_any_to_json libraries v)

  abbrev AgreesOnItems : Objects → Type 0
  AgreesOnItems items =
      AreRegular items
      → (first : Bool)
      → write_json_array libraries items first
        ≡ items_text to_string (py_list_to_json libraries items) first

  abbrev AgreesOnEntries : Entries → Type 0
  AgreesOnEntries entries =
      HasRegularValues entries
      → (first : Bool)
      → write_entries libraries entries first
        ≡ fields_text to_string (fields_of (pairs_of libraries entries)) first

  abbrev AgreesOnAttribute : Attribute → Type 0
  AgreesOnAttribute a =
      IsRegularAttribute a → write_attribute libraries a ≡ text_of (attribute_to_json libraries a)

  array_agrees :
      (items : Objects)
      → AgreesOnItems items
      → AreRegular items
      → b'[' ∷ (write_json_array libraries items true ++ b']' ∷ [])
        ≡ to_string (arr (py_list_to_json libraries items))
  array_agrees items ih h = rw (ih h true, compact.arr_text (py_list_to_json libraries items)) refl

  integer_agrees : (n : ℤ) → AgreesOn (integer n)
  unfolding write_py_json py_any_to_json
  integer_agrees n h = elim (Bool-cases (fits_i64 n)) [
    | inl e ↦ rw e (sym (to_string-integer n))
    | inr e ↦ rw e (
        unwrap_or_agrees (json_str libraries (integer n))
          (sym (text_of-str (libraries.py_str (integer n)))))
  ]

  agrees : (v : PyObject) → AgreesOn v
  unfolding write_py_json py_any_to_json IsRegular
  agrees v = elim v as AgreesOn AgreesOnItems AgreesOnEntries AgreesOnAttribute [
    | none_object ↦ λ h. sym compact.null_text
    | dict (entries → ih) ↦ λ h.
        rw
          (
            py_dict_to_json-pairs libraries entries h.0,
            ih h.1 true,
            compact.obj_text (fields_of (pairs_of libraries entries)),
          )
          refl
    | list (items → ih) ↦ λ h. array_agrees items ih h
    | tuple (items → ih) ↦ λ h. array_agrees items ih h
    | set (items → ih) ↦ λ h. array_agrees items ih h
    | frozenset (items → ih) ↦ λ h. array_agrees items ih h
    | string s ↦ λ h. refl
    | boolean true ↦ λ h. sym compact.true_text
    | boolean false ↦ λ h. sym compact.false_text
    | integer n ↦ λ h. integer_agrees n h
    | floating f ↦ λ h. sym (compact.f64_text f)
    | bytes b ↦ λ h. to_string-bytes b
    | bytearray b ↦ λ h. to_string-bytes b
    | instance_of dump_json (dump → ih) (asdict → ih_asdict) iso name (member → ih_member) ↦ λ h.
        let value = instance_of dump_json dump asdict iso name member in
        unwrap_or_agrees _ (
          or_else_agrees _ _ (text_of-dump_json dump_json h.0) (
            or_else_agrees _ _ (ih h.1) (
              or_else_agrees _ _ (ih_asdict h.2) (
                or_else_agrees _ _ (sym (text_of-str (as_string iso))) (
                  or_else_agrees _ _ (sym (text_of-text_class name value)) (
                    or_else_agrees _ _ (ih_member h.3)
                      (sym (text_of-str (libraries.py_str value)))))))))
    | nil ↦ λ h first. refl
    | cons (v → ih) (items → ihs) ↦ λ h first. rw (ih h.0, ihs h.1 false) refl
    | Entries.end ↦ λ h first. refl
    | entry k (v → ih) (entries → ihs) ↦ λ h first. rw (ih h.0, ihs h.1 false) refl
    | missing ↦ λ h. refl
    | gives (v → ih) ↦ λ h. ap some (ih h)
  ]

  -- For an object in which no dict has two equal keys and each `model_dump_json` gives the compact
  -- text of a value, with a `to_string` that prints compactly and hash maps in the order of their
  -- insertion: the text that `write_py_json` writes of the object is the text of the value that
  -- `py_any_to_json` builds of it.
  pub write_py_json-py_any_to_json :
      (value : PyObject)
      → IsRegular value
      → write_py_json libraries value ≡ libraries.to_string (py_any_to_json libraries value)
  write_py_json-py_any_to_json value h = agrees value h
