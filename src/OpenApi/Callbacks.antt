-- ===== src/OpenApi/Callbacks.antt =====
-- `parse_callbacks_to_json` of src/utils/openapi.rs.
use fastrapi.Prelude.{◌≡◌, refl, false, Option, none, some, List, [], ◌∷◌, Assoc}
use fastrapi.Text.{Str}
use fastrapi.Routing.Json.{Json, Fields, obj, end, field, insert_field}
use fastrapi.Routing.Types.{RouteEntry}
use fastrapi.OpenApi.Document.{PathItem, path_item_json}
use fastrapi.OpenApi.Schemas.{Introspection}
use fastrapi.OpenApi.Operations.{Schemas}
use fastrapi.OpenApi.Paths.{build_paths_from_routes}

-- An item of an iteration: a `PyAPIRouter` as what `collect_routes` gives of it, or any other object.
pub data CallbackItem : Type 0 where
  router : List RouteEntry → CallbackItem
  other : CallbackItem

-- A key of a dict is a text or another object that is no router; a value is `none` where it cannot be
-- iterated. An `opaque` object cannot be, and is no dict.
pub data CallbacksObject : Type 0 where
  sequence : List CallbackItem → CallbacksObject
  dictionary : List (Option Str × Option (List CallbackItem)) → CallbacksObject
  opaque : CallbacksObject

abbrev pub keys_of : List (Option Str × Option (List CallbackItem)) → List CallbackItem
keys_of [] = []
keys_of (e ∷ entries) = other ∷ keys_of entries

-- `try_iter`: Python iterates a dict over its keys.
abbrev pub try_iter : CallbacksObject → Option (List CallbackItem)
try_iter (sequence items) = some items
try_iter (dictionary entries) = some (keys_of entries)
try_iter opaque = none

abbrev pub as_dict : CallbacksObject → Option (List (Option Str × Option (List CallbackItem)))
as_dict (dictionary entries) = some entries
as_dict _ = none

abbrev pub insert_items : Assoc Str PathItem → Fields → Fields
insert_items [] known = known
insert_items ((path, item) ∷ paths) known =
    insert_items paths (insert_field path (path_item_json item) known)

abbrev pub unless_no_field : Fields → Option Json
unless_no_field end = none
unless_no_field (field key value fields) = some (obj (field key value fields))

module _ (python : Introspection) where
  -- The loop over the items of an iteration.
  unfoldable pub collect_items : List CallbackItem → Schemas → Fields → Fields × Schemas
  unfolding build_paths_from_routes insert_field path_item_json
  collect_items [] schemas known = (known, schemas)
  collect_items (other ∷ items) schemas known = collect_items items schemas known
  collect_items (router routes ∷ items) schemas known =
      let (paths, more) = build_paths_from_routes python none none false routes schemas [] in
      collect_items items more (insert_items paths known)

  unfoldable pub collect_entries :
      List (Option Str × Option (List CallbackItem)) → Schemas → Fields → Fields
  unfolding collect_items insert_field
  collect_entries [] schemas known = known
  collect_entries ((some key, some items) ∷ entries) schemas known =
      let (inner, more) = collect_items items schemas end in
      collect_entries entries more (insert_field key (obj inner) known)
  collect_entries (_ ∷ entries) schemas known = collect_entries entries schemas known

  unfoldable pub parse_callbacks_to_json : CallbacksObject → Option Json
  unfolding collect_items collect_entries
  parse_callbacks_to_json callbacks = unless_no_field (elim (try_iter callbacks) [
    | some items ↦ (collect_items items [] end).0
    | none ↦ elim (as_dict callbacks) [ some entries ↦ collect_entries entries [] end | none ↦ end ]
  ])

  keys_add_nothing :
      (entries : List (Option Str × Option (List CallbackItem))) (schemas : Schemas)
      (known : Fields)
      → collect_items (keys_of entries) schemas known ≡ (known, schemas)
  unfolding collect_items
  keys_add_nothing [] schemas known = refl
  keys_add_nothing (e ∷ entries) schemas known = keys_add_nothing entries schemas known

  -- Callbacks that are given as a dict, with no router among its keys, are dropped, whatever its values.
  pub parse_callbacks_to_json-dictionary :
      (entries : List (Option Str × Option (List CallbackItem)))
      → parse_callbacks_to_json (dictionary entries) ≡ none
  unfolding parse_callbacks_to_json
  parse_callbacks_to_json-dictionary entries = rw (keys_add_nothing entries [] end) refl
