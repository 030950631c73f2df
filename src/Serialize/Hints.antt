-- ===== src/Serialize/Hints.antt =====
-- The hints of src/utils/mod.rs on how to write a value.
use fastrapi.Prelude.{ℕ, ◌≡◌, refl, ap, Option, none, some, unwrap_or, or_else}
use fastrapi.Text.{Str}
use fastrapi.Routing.Types.{SerializationHint, unknown, pydantic_model, dataclass}
use fastrapi.Serialize.Objects.{PyObject, Attribute, Extension, JsonLibraries, instance_of, missing}
use fastrapi.Serialize.Writer.{write_py_json, write_attribute, write_pydantic_model_json}
use fastrapi.Serialize.Respond.{
  dump_json_of, write_dataclass_json, write_hinted, json_text, py_json_response_with_status_hint,
}

unwrap_or_twice {ℓ} :
    {A : Type ℓ} (a b : Option A) (c : A)
    → unwrap_or a (unwrap_or (or_else a b) c) ≡ unwrap_or (or_else a b) c
unwrap_or_twice none b c = refl
unwrap_or_twice (some x) b c = refl

abbrev pub dump_of : PyObject → Attribute
dump_of (instance_of dump_json dump asdict iso name member) = dump
dump_of _ = missing

-- The value is of no class that extends a built-in type, or of one that adds nothing.
abbrev pub AddsNothing : Extension → PyObject → Type 0
AddsNothing extension (instance_of dump_json dump asdict iso name member) = Unit
AddsNothing extension _ = (extension.dump_json ≡ missing) × (extension.asdict ≡ missing)

-- A hint that a value may have: a dataclass is to have no dump of its own.
abbrev pub Fits : SerializationHint → Extension → PyObject → Type 0
Fits pydantic_model extension value = AddsNothing extension value
Fits dataclass extension value =
    AddsNothing extension value
    × (dump_json_of extension value ≡ missing)
    × (dump_of value ≡ missing)
Fits _ extension value = Unit

module _ (libraries : JsonLibraries) where
  abbrev write : PyObject → Str
  write = write_py_json libraries

  hinted_pydantic_model :
      (extension : Extension) (value : PyObject)
      → AddsNothing extension value
      → write_hinted libraries extension value pydantic_model ≡ write value
  unfolding write_py_json write_pydantic_model_json
  hinted_pydantic_model extension (instance_of dump_json dump asdict iso name member) h =
      unwrap_or_twice (write_pydantic_model_json libraries dump_json) _ _
  hinted_pydantic_model extension _ h = rw h.0 refl

  hinted_dataclass :
      (extension : Extension) (value : PyObject)
      → AddsNothing extension value
      → dump_json_of extension value ≡ missing
      → dump_of value ≡ missing
      → write_hinted libraries extension value dataclass ≡ write value
  unfolding write_py_json write_pydantic_model_json write_dataclass_json
  hinted_dataclass extension (instance_of dump_json dump asdict iso name member) h p q =
      rw (p, q) (unwrap_or_twice (write_attribute libraries asdict) _ _)
  hinted_dataclass extension _ h p q = rw h.1 refl

  -- The hint changes no response of a value whose class, where it extends a built-in type, has neither
  -- a `model_dump_json` nor the fields of a dataclass; and which, where the hint is that of a
  -- dataclass, has neither a `model_dump_json` nor a `model_dump`.
  pub py_json_response-hint :
      (status : ℕ) (extension : Extension) (value : PyObject) (hint : SerializationHint)
      → Fits hint extension value
      → py_json_response_with_status_hint libraries status extension value hint
        ≡ py_json_response_with_status_hint libraries status extension value unknown
  unfolding py_json_response_with_status_hint
  py_json_response-hint status extension value pydantic_model h =
      ap (json_text status) (hinted_pydantic_model extension value h)
  py_json_response-hint status extension value dataclass h =
      ap (json_text status) (hinted_dataclass extension value h.0 h.1 h.2)
  py_json_response-hint status extension value _ h = refl
