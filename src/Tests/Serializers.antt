-- ===== src/Tests/Serializers.antt =====
-- Objects written as JSON at concrete inputs.
use fastrapi.Prelude.{◌+◌, ◌≡◌, refl, ap, Bool, true, false, none, some, [], ◌∷◌, ◌++◌}
use fastrapi.Text.{Str, codes, str_eq}
use fastrapi.Text.Decimal.{decimal, decimal_from}
use fastrapi.Routing.Json.{
  Json, Number, Items, Fields, null, bool, num, str, arr, obj, nil, cons, end, field,
}
use fastrapi.Python.{pos}
use fastrapi.Routing.Types.{unknown, dataclass}
use fastrapi.Serialize.Objects.{
  PyObject, Objects, Entries, Extension, JsonLibraries, no_extension, dict, list, string, boolean,
  integer, instance_of, missing, gives,
}
use fastrapi.Serialize.Writer.{sep, write_py_json, json_key_for}
use fastrapi.Serialize.Value.{py_any_to_json}
use fastrapi.Serialize.Compact.{IsCompact, items_text, fields_text}
use fastrapi.Serialize.Respond.{py_json_response_with_status_hint}
use fastrapi.Serialize.Hints.{py_json_response-hint}
use fastrapi.Serialize.Agree.{IsRegular, write_py_json-py_any_to_json}

-- A printer: texts stand between quotes, without escapes, and floats by their bits.
unfoldable mutual
  unfolding decimal

  pub print : Json → Str
  print null = codes "null"
  print (bool true) = codes "true"
  print (bool false) = codes "false"
  print (num (Number.pos n)) = decimal n
  print (num (Number.negsuc n)) = b'-' ∷ decimal (n + 1)
  print (num (Number.float f)) = decimal f
  print (str s) = b'"' ∷ (s ++ b'"' ∷ [])
  print (arr items) = b'[' ∷ (print_items items true ++ b']' ∷ [])
  print (obj fields) = b'{' ∷ (print_fields fields true ++ b'}' ∷ [])

  print_items : Items → Bool → Str
  print_items nil first = []
  print_items (cons item items) first = sep first ++ (print item ++ print_items items false)

  print_fields : Fields → Bool → Str
  print_fields end first = []
  print_fields (field key value fields) first =
      sep first
      ++ ((b'"' ∷ (key ++ b'"' ∷ [])) ++ b':' ∷ (print value ++ print_fields fields false))

abbrev pub printer : JsonLibraries
printer = record {
  py_str = λ value. some (codes "object");
  from_utf8 = λ bytes. some bytes;
  number_text = λ f. some (decimal f);
  json_f64 = λ f. num (Number.float f);
  to_string = print;
  from_str = λ s. none;
}

print_items_text :
    (items : Items) (first : Bool) → print_items items first ≡ items_text print items first
unfolding print
print_items_text nil first = refl
print_items_text (cons item items) first =
    ap (λ (t : Str). sep first ++ (print item ++ t)) (print_items_text items false)

print_fields_text :
    (fields : Fields) (first : Bool) → print_fields fields first ≡ fields_text print fields first
unfolding print
print_fields_text end first = refl
print_fields_text (field key value fields) first =
    ap (λ (t : Str). sep first ++ ((b'"' ∷ (key ++ b'"' ∷ [])) ++ b':' ∷ (print value ++ t)))
      (print_fields_text fields false)

printer-IsCompact : IsCompact printer
unfolding print
printer-IsCompact = record {
  null_text = refl;
  true_text = refl;
  false_text = refl;
  pos_text = λ n. refl;
  negsuc_text = λ n. refl;
  f64_text = λ f. refl;
  arr_text = λ items. ap (λ (t : Str). b'[' ∷ (t ++ b']' ∷ [])) (print_items_text items true);
  obj_text = λ fields. ap (λ (t : Str). b'{' ∷ (t ++ b'}' ∷ [])) (print_fields_text fields true);
}

abbrev point : PyObject
point = dict (
    Entries.entry (string (some (codes "x"))) (integer (pos 7)) (
      Entries.entry (string (some (codes "ok"))) (list (Objects.cons (boolean true) Objects.nil))
        Entries.end))

point-IsRegular : IsRegular printer printer-IsCompact point
unfolding IsRegular json_key_for str_eq
point-IsRegular = (((refl, tt), (tt, tt)), (tt, ((tt, tt), tt)))

point_text : write_py_json printer point ≡ codes "{\"x\":7,\"ok\":[true]}"
unfolding write_py_json json_key_for print decimal decimal_from
point_text = refl

write_py_json-py_any_to_json_example :
    write_py_json printer point ≡ print (py_any_to_json printer point)
write_py_json-py_any_to_json_example =
    write_py_json-py_any_to_json printer printer-IsCompact point point-IsRegular

-- A dataclass with no dump of its own.
abbrev point_class : PyObject
point_class = instance_of missing missing (gives point) missing (some (codes "Point")) missing

py_json_response-hint_example :
    py_json_response_with_status_hint printer 200 no_extension point_class dataclass
    ≡ py_json_response_with_status_hint printer 200 no_extension point_class unknown
py_json_response-hint_example =
    py_json_response-hint printer 200 no_extension point_class dataclass (tt, refl, refl)

-- A dataclass that extends `dict`: with its hint its fields are written, and without it its items.
abbrev row_extension : Extension
row_extension = record { dump_json = missing; asdict = gives point }

row_hinted :
    (py_json_response_with_status_hint printer 200 row_extension (dict Entries.end) dataclass).body
    ≡ codes "{\"x\":7,\"ok\":[true]}"
unfolding py_json_response_with_status_hint write_py_json json_key_for print decimal decimal_from
row_hinted = refl

row_unknown :
    (py_json_response_with_status_hint printer 200 row_extension (dict Entries.end) unknown).body
    ≡ codes "{}"
unfolding py_json_response_with_status_hint
row_unknown = refl
