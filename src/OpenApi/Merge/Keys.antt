-- ===== src/OpenApi/Merge/Keys.antt =====
-- What a merge of src/utils/openapi.rs holds under each key.
use fastrapi.Prelude.{
  ◌≡◌, refl, arith, Option, none, some, if◌then◌else◌, Bool-cases, inl, inr, sym, ◌∙◌, subst,
}
use fastrapi.Text.{Str, str_eq}
use fastrapi.Text.Laws.{str_eq_iff}
use fastrapi.Routing.Json.{Json, Fields, end, field, get_field, insert_field}
use fastrapi.OpenApi.Merge.{deep_merge_json, merge_fields}

pub get_field-insert_field :
    (k j : Str) (v : Json) (fields : Fields)
    → get_field j (insert_field k v fields) ≡ (if str_eq k j then some v else get_field j fields)
unfolding get_field insert_field
get_field-insert_field k j v end = refl
get_field-insert_field k j v (field key value fields) =
    ground (
      arith,
      str_eq_iff k j,
      str_eq_iff key k,
      str_eq_iff key j,
      get_field-insert_field k j v fields,
    )

-- No two fields have one key.
unfoldable pub HasDistinctKeys : Fields → Type 0
unfolding get_field
HasDistinctKeys end = Unit
HasDistinctKeys (field key value fields) = (get_field key fields ≡ none) × HasDistinctKeys fields

-- What a merge is to hold under a key, from what the target and the source hold there.
abbrev pub merged : Option Json → Option Json → Option Json
merged t none = t
merged none (some s) = some s
merged (some t) (some s) = some (deep_merge_json t s)

get_field-step :
    (k key : Str) (value : Json) (target : Fields) (o : Option Json)
    → get_field k (elim o [
      | none ↦ insert_field key value target
      | some t ↦ insert_field key (deep_merge_json t value) target
    ])
      ≡ (if str_eq key k then merged o (some value) else get_field k target)
get_field-step k key value target none = get_field-insert_field key k value target
get_field-step k key value target (some t) =
    get_field-insert_field key k (deep_merge_json t value) target

-- With a source of distinct keys, a merge holds under each key what the target holds where the source
-- holds nothing, what the source holds where the target holds nothing, and else the merge of the two.
pub get_field-merge_fields :
    (k : Str) (source target : Fields)
    → HasDistinctKeys source
    → get_field k (merge_fields target source) ≡ merged (get_field k target) (get_field k source)
unfolding get_field merge_fields HasDistinctKeys
get_field-merge_fields k end target h = refl
get_field-merge_fields k (field key value source) target (p, h) =
    get_field-merge_fields k source _ h ∙ elim (Bool-cases (str_eq key k)) [
      | inl e ↦
          let key_is_k = (str_eq_iff key k).0 e in
          let absent = subst (λ (x : Str). get_field x source ≡ none) key_is_k p in
          let here =
            subst
              (λ (x : Str).
                merged (get_field x target) (some value) ≡ merged (get_field k target) (some value))
              (sym key_is_k) refl in
          rw (get_field-step k key value target (get_field key target), e, absent) here
      | inr e ↦ rw (get_field-step k key value target (get_field key target), e) refl
    ]
