-- ===== src/OpenApi/Merge.antt =====
-- `deep_merge_json` of src/utils/openapi.rs, and the objects of `sonic_rs`: an insertion replaces the
-- value of an equal key.
pub mod Keys
use fastrapi.Prelude.{Bool, true, false, Option, none, some, if◌then◌else◌}
use fastrapi.Text.{Str, str_eq}
use fastrapi.Routing.Json.{
  get_field, insert_field, Json, Fields, null, bool, num, str, arr, obj, end, field,
}

-- A replacement of the value under a key that is there is the insertion.
unfoldable mutual
  unfolding get_field insert_field

  pub deep_merge_json : Json → Json → Json
  deep_merge_json (obj target) (obj source) = obj (merge_fields target source)
  deep_merge_json target null = null
  deep_merge_json target (bool b) = bool b
  deep_merge_json target (num n) = num n
  deep_merge_json target (str s) = str s
  deep_merge_json target (arr items) = arr items
  deep_merge_json target (obj source) = obj source

  -- The loop over the fields of the source.
  pub merge_fields : Fields → Fields → Fields
  merge_fields target end = target
  merge_fields target (field key value source) =
      merge_fields
        (elim (get_field key target) [
          | none ↦ insert_field key value target
          | some t ↦ insert_field key (deep_merge_json t value) target
        ])
        source
