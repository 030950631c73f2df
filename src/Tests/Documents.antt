-- ===== src/Tests/Documents.antt =====
-- OpenAPI documents at concrete inputs.
use fastrapi.Prelude.{ℕ, ◌≡◌, refl, true, false, none, some, List, [], ◌∷◌, All, keep, lookup}
use fastrapi.Text.{codes, str_eq}
use fastrapi.Text.Laws.{str_key}
use fastrapi.Routing.Json.{str, end, field, get_field}
use fastrapi.Routing.Types.{HttpMethod, RouteEntry, PydanticValidator}
use fastrapi.Serialize.Objects.{Entries, dict}
use fastrapi.OpenApi.Merge.{deep_merge_json, merge_fields}
use fastrapi.OpenApi.Merge.Keys.{HasDistinctKeys, get_field-merge_fields}
use fastrapi.OpenApi.Schemas.{Introspection}
use fastrapi.OpenApi.Paths.{build_paths_from_routes}
use fastrapi.OpenApi.Paths.Entries.{operation, described_at, build_paths_from_routes-documented}
use fastrapi.OpenApi.Paths.References.{Resolves, build_paths_from_routes-Resolves}
use fastrapi.OpenApi.Callbacks.{
  dictionary, router, parse_callbacks_to_json, parse_callbacks_to_json-dictionary,
}
use fastrapi.Tests.Data.{handler_at, route_at}
use fastrapi.Tests.Serializers.{printer}

-- Every object is a model `Item` with an empty schema.
abbrev models : Introspection
models = record {
  json = printer;
  model_json_schema = λ model mode. some (dict Entries.end);
  schema = λ model. none;
  is_pydantic_model = λ ref. true;
  name = λ ref. some (codes "Item");
  repr = λ ref. none;
  doc = λ ref. none;
  unique_id = λ f ref. none;
}

abbrev item_validator : PydanticValidator
item_validator = record {
  name = codes "item";
  model_class = 5;
  validate_json = none;
  validate_python = 6;
  core_validator = none;
  validate_json_method = none;
}

abbrev create : ℕ → RouteEntry
create address =
    route_at HttpMethod.post (codes "/items")
      (record (handler_at address) { param_validators = item_validator ∷ [] }) []

-- The second of two routes is the one in the document, and the third is on another path.
abbrev routes : List RouteEntry
routes =
    record (create 1) { operation_id = some (codes "first") }
    ∷ record (create 2) { operation_id = some (codes "second") }
    ∷ route_at HttpMethod.get (codes "/other") (handler_at 3) []
    ∷ []

build_paths_from_routes-documented_example :
    described_at HttpMethod.post
      (lookup (codes "/items") (build_paths_from_routes models none none false routes [] []).0)
    ≡ some (
        operation models none none false
          (record (create 2) { operation_id = some (codes "second") }))
unfolding str_eq
build_paths_from_routes-documented_example =
    build_paths_from_routes-documented models none none false (codes "/items") HttpMethod.post
      routes []

build_paths_from_routes-Resolves_example :
    All
      (λ route.
        Resolves models false route (build_paths_from_routes models none none false routes [] []).1)
      (keep (λ (route : RouteEntry). route.include_in_schema) routes)
build_paths_from_routes-Resolves_example =
    build_paths_from_routes-Resolves models none none false routes [] []

get_field-merge_fields_example :
    get_field (codes "a") (
      merge_fields
        (field (codes "a") (str (codes "old")) end)
        (field (codes "a") (str (codes "new")) end))
    ≡ some (str (codes "new"))
unfolding get_field str_eq deep_merge_json HasDistinctKeys
get_field-merge_fields_example =
    get_field-merge_fields (codes "a") (field (codes "a") (str (codes "new")) end)
      (field (codes "a") (str (codes "old")) end) (refl, tt)

parse_callbacks_to_json-dictionary_example :
    parse_callbacks_to_json models
      (dictionary ((some (codes "paid"), some (router routes ∷ [])) ∷ []))
    ≡ none
parse_callbacks_to_json-dictionary_example =
    parse_callbacks_to_json-dictionary models
      ((some (codes "paid"), some (router routes ∷ [])) ∷ [])
