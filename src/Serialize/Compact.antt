-- ===== src/Serialize/Compact.antt =====
-- The compact text of a JSON value: what is assumed of `sonic_rs::to_string` in src/utils/mod.rs.
use fastrapi.Prelude.{ℕ, ◌+◌, ◌≡◌, Bool, true, false, [], ◌∷◌, ◌++◌, unwrap_or}
use fastrapi.Text.{Str, codes}
use fastrapi.Text.Decimal.{decimal}
use fastrapi.Python.{F64}
use fastrapi.Routing.Json.{
  Json, Number, Items, Fields, null, bool, num, str, arr, obj, nil, cons, end, field,
}
use fastrapi.Serialize.Objects.{JsonLibraries}
use fastrapi.Serialize.Writer.{sep}

abbrev pub items_text : (Json → Str) → Items → Bool → Str
items_text print nil first = []
items_text print (cons item items) first = sep first ++ (print item ++ items_text print items false)

abbrev pub fields_text : (Json → Str) → Fields → Bool → Str
fields_text print end first = []
fields_text print (field key value fields) first =
    sep first ++ (print (str key) ++ b':' ∷ (print value ++ fields_text print fields false))

-- `to_string` writes no spaces, whole numbers in decimal, and a float that is not finite as null.
pub record IsCompact (libraries : JsonLibraries) : Type 0 where
  pub null_text : libraries.to_string null ≡ codes "null"
  pub true_text : libraries.to_string (bool true) ≡ codes "true"
  pub false_text : libraries.to_string (bool false) ≡ codes "false"
  pub pos_text : (n : ℕ) → libraries.to_string (num (Number.pos n)) ≡ decimal n
  pub negsuc_text : (n : ℕ) → libraries.to_string (num (Number.negsuc n)) ≡ b'-' ∷ decimal (n + 1)
  pub f64_text :
      (f : F64)
      → libraries.to_string (libraries.json_f64 f)
        ≡ unwrap_or (libraries.number_text f) (codes "null")
  pub arr_text :
      (items : Items)
      → libraries.to_string (arr items)
        ≡ b'[' ∷ (items_text libraries.to_string items true ++ b']' ∷ [])
  pub obj_text :
      (fields : Fields)
      → libraries.to_string (obj fields)
        ≡ b'{' ∷ (fields_text libraries.to_string fields true ++ b'}' ∷ [])
