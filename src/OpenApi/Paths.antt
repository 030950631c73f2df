-- ===== src/OpenApi/Paths.antt =====
-- `build_paths_from_routes` and `build_openapi_spec` of src/utils/openapi.rs.
pub mod Independent
pub mod Entries
pub mod References
use fastrapi.Prelude.{
  ℕ, ◌&&◌, not, Bool, true, false, Option, none, some, List, [], ◌∷◌, ◌++◌, if◌then◌else◌,
  unwrap_or, or_else, ◌>>=?◌, Assoc, insert, lookup, is_empty,
}
use fastrapi.Text.{Str, codes, str_eq}
use fastrapi.Text.Laws.{str_key}
use fastrapi.Python.{PyRef}
use fastrapi.Routing.Json.{Json, str}
use fastrapi.Routing.Types.{HttpMethod, RouteEntry}
use fastrapi.Serialize.Objects.{PyObject}
use fastrapi.Serialize.Value.{py_any_to_json}
use fastrapi.OpenApi.Merge.{deep_merge_json}
use fastrapi.OpenApi.Document.{
  PathItem, OpenApiInfo, OpenApiSpec, default_spec, object, operation_json, spec_json,
}
use fastrapi.OpenApi.Schemas.{Introspection, dict_to_json}
use fastrapi.OpenApi.Operations.{
  Schemas, request_body_of, response_schema_of, operation_of, merge_under, merge_callbacks,
  merge_extra,
}

abbrev pub empty_item : PathItem
empty_item = record { get = none; post = none; put = none; delete = none; patch = none }

abbrev pub set_operation : HttpMethod → Json → PathItem → PathItem
set_operation HttpMethod.get op item = record item { get = some op }
set_operation HttpMethod.post op item = record item { post = some op }
set_operation HttpMethod.put op item = record item { put = some op }
set_operation HttpMethod.delete op item = record item { delete = some op }
set_operation HttpMethod.patch op item = record item { patch = some op }
set_operation _ op item = item

-- What the document reads of `FastrAPI`. Of the objects that are to be dicts, and of the items of a
-- list, it is the object; `servers` and `openapi_tags` are none too where they are no lists.
pub record Application : Type 0 where
  pub title : Str
  pub version : Str
  pub summary : Option Str
  pub description : Str
  pub terms_of_service : Option Str
  pub contact : Option PyObject
  pub license_info : Option PyObject
  pub servers : Option (List PyObject)
  pub root_path : Str
  pub root_path_in_servers : Bool
  pub openapi_tags : Option (List PyObject)
  pub openapi_external_docs : Option PyObject
  pub responses : Option PyObject
  pub separate_input_output_schemas : Bool
  pub generate_unique_id_function : PyRef

module _ (python : Introspection) where
  -- The value of the operation, with what is merged into it.
  abbrev pub complete : Option PyRef → Option Json → RouteEntry → Json → Json
  complete unique_id app_responses route operation = merge_callbacks route.callbacks (
      merge_under (codes "responses") route.responses
        (merge_under (codes "responses") app_responses (merge_extra route.openapi_extra operation)))

  -- The body of the loop over the routes, up to the operation.
  unfoldable pub route_operation :
      Option PyRef → Option Json → Bool → RouteEntry → Schemas → Json × Schemas
  unfolding request_body_of response_schema_of operation_of operation_json merge_under
      merge_callbacks deep_merge_json
  route_operation unique_id app_responses separate route schemas =
      let (body, with_body) = request_body_of python route schemas in
      let (schema, with_response) = response_schema_of python separate route.handler with_body in
      (
        complete unique_id app_responses route
            (operation_json (operation_of python unique_id route body schema)),
        with_response,
      )

  -- `paths.entry(path).or_insert_with(…)`, and the operation set there.
  unfoldable pub put_operation : RouteEntry → Json → Assoc Str PathItem → Assoc Str PathItem
  unfolding insert lookup str_eq
  put_operation route op paths =
      insert route.path
        (set_operation route.method op (unwrap_or (lookup route.path paths) empty_item)) paths

  unfoldable pub build_paths_from_routes :
      Option PyRef
      → Option Json
      → Bool
      → List RouteEntry
      → Schemas
      → Assoc Str PathItem
      → Assoc Str PathItem × Schemas
  unfolding route_operation put_operation
  build_paths_from_routes unique_id app_responses separate [] schemas paths = (paths, schemas)
  build_paths_from_routes unique_id app_responses separate (route ∷ routes) schemas paths =
      let (op, more) = route_operation unique_id app_responses separate route schemas in
      let put =
        build_paths_from_routes unique_id app_responses separate routes more
          (put_operation route op paths) in
      let skipped = build_paths_from_routes unique_id app_responses separate routes schemas paths in
      if route.include_in_schema then put else skipped

  -- `filter_map` to the dicts.
  abbrev pub dicts : List PyObject → List Json
  dicts [] = []
  dicts (o ∷ os) = elim (dict_to_json python o) [ none ↦ dicts os | some j ↦ j ∷ dicts os ]

  abbrev pub servers_of : Application → Option (List Json)
  servers_of app =
      let servers = app.servers >>=? λ os. some (dicts os) in
      if app.root_path_in_servers && not (is_empty app.root_path)
      then some (unwrap_or servers [] ++ object ((codes "url", str app.root_path) ∷ []) ∷ [])
      else servers

  abbrev pub info_of : Application → OpenApiInfo
  info_of app = record {
    title = app.title;
    version = app.version;
    summary = app.summary;
    description = if is_empty app.description then none else some app.description;
    terms_of_service = app.terms_of_service;
    contact = app.contact >>=? dict_to_json python;
    license = app.license_info >>=? dict_to_json python;
  }

  -- The paths of the webhooks, which add to the schemas.
  abbrev pub webhook_paths :
      Application → Option (List RouteEntry) → Schemas → Option (Assoc Str PathItem) × Schemas
  webhook_paths app none schemas = (none, schemas)
  webhook_paths app (some collected) schemas =
      let (items, more) =
        build_paths_from_routes (some app.generate_unique_id_function) none
          app.separate_input_output_schemas collected schemas [] in
      (some items, more)

  -- `routes` are what `collect_routes` gives of the application's router, and `webhooks` of the router
  -- of its webhooks, where it has one.
  unfoldable pub build_openapi_spec :
      Application → List RouteEntry → Option (List RouteEntry) → Json
  unfolding build_paths_from_routes spec_json py_any_to_json
  build_openapi_spec app routes webhooks =
      let unique_id = some app.generate_unique_id_function in
      let separate = app.separate_input_output_schemas in
      let app_responses = app.responses >>=? dict_to_json python in
      let (paths, schemas) =
        build_paths_from_routes unique_id app_responses separate routes [] [] in
      let (hooks, all_schemas) = webhook_paths app webhooks schemas in
      spec_json (record default_spec {
        info = info_of app;
        paths = paths;
        servers = servers_of app;
        tags = app.openapi_tags >>=? λ os. some (dicts os);
        webhooks = hooks;
        external_docs = app.openapi_external_docs >>=? dict_to_json python;
        components = some (record { schemas = all_schemas });
      })
