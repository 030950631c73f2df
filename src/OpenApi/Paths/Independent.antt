-- ===== src/OpenApi/Paths/Independent.antt =====
-- The operation of a route in src/utils/openapi.rs does not depend on the schemas before it.
use fastrapi.Prelude.{
  ◌≡◌, refl, ap, Bool, Option, none, some, List, [], ◌∷◌, if◌then◌else◌, unwrap_or, Bool-cases,
  Option-cases, inl, inr,
}
use fastrapi.Text.{Str, codes}
use fastrapi.Python.{PyRef}
use fastrapi.Routing.Json.{Json, Fields, end, field}
use fastrapi.Routing.Types.{HttpMethod, PydanticValidator, RouteHandler, RouteEntry}
use fastrapi.OpenApi.Document.{RequestBody}
use fastrapi.OpenApi.Schemas.{Introspection, extract_pydantic_schema}
use fastrapi.OpenApi.Operations.{
  Schemas, body_of, has_body, validator_properties, wrap, validators_body, wrapper_name,
  request_body_of, response_schema_of,
}
use fastrapi.OpenApi.Paths.{route_operation}

module _ (python : Introspection) where
  validator_properties-schemas :
      (vs : List PydanticValidator) (properties : Fields) (required : List Str) (s t : Schemas)
      → (validator_properties python vs properties required s).0
        ≡ (validator_properties python vs properties required t).0
  unfolding validator_properties
  validator_properties-schemas [] properties required s t = refl
  validator_properties-schemas (v ∷ vs) properties required s t =
      elim (Option-cases (extract_pydantic_schema python v.model_class (codes "validation"))) [
        | inl e ↦
            rw (e, validator_properties) (validator_properties-schemas vs properties required s t)
        | inr (schema, e) ↦ rw (e, validator_properties) (validator_properties-schemas vs _ _ _ _)
      ]

  abbrev pub wrapped : Str → Fields → Option RequestBody
  wrapped name end = none
  wrapped name (field key value properties) = some (body_of name)

  pub wrap-wrapped :
      (name : Str) (p : Fields × List Str × Schemas) → (wrap python name p).0 ≡ wrapped name p.0
  wrap-wrapped name (end, required, s) = refl
  wrap-wrapped name (field key value properties, required, s) = refl

  validators_body-schemas :
      (path : Str) (m : HttpMethod) (f : Str) (vs : List PydanticValidator) (s t : Schemas)
      → (validators_body python path m f vs s).0 ≡ (validators_body python path m f vs t).0
  validators_body-schemas path m f [] s t = refl
  validators_body-schemas path m f (v ∷ []) s t =
      elim (Option-cases (extract_pydantic_schema python v.model_class (codes "validation"))) [
        | inl e ↦ rw (e, validators_body) refl
        | inr (schema, e) ↦ rw (e, validators_body) refl
      ]
  validators_body-schemas path m f (v ∷ w ∷ vs) s t =
      let name = wrapper_name f path m in
      rw
        (
          wrap-wrapped name (validator_properties python (v ∷ w ∷ vs) end [] s),
          wrap-wrapped name (validator_properties python (v ∷ w ∷ vs) end [] t),
        )
        (ap (wrapped name) (validator_properties-schemas (v ∷ w ∷ vs) end [] s t))

  pub request_body_of-schemas :
      (route : RouteEntry) (s t : Schemas)
      → (request_body_of python route s).0 ≡ (request_body_of python route t).0
  unfolding request_body_of
  request_body_of-schemas route s t = elim (Bool-cases (has_body route.method)) [
    | inl e ↦ rw e (
        validators_body-schemas route.path route.method
          (unwrap_or (python.name route.handler.func) (codes "unknown"))
          route.handler.param_validators s t)
    | inr e ↦ rw e refl
  ]

  pub response_schema_of-schemas :
      (separate : Bool) (handler : RouteHandler) (s t : Schemas)
      → (response_schema_of python separate handler s).0
        ≡ (response_schema_of python separate handler t).0
  unfolding response_schema_of
  response_schema_of-schemas separate handler s t = elim (Option-cases handler.response_model) [
    | inl e ↦ rw (e, response_schema_of) refl
    | inr (model, e) ↦
        let mode = if separate then codes "serialization" else codes "validation" in
        elim (Option-cases (extract_pydantic_schema python model mode)) [
          | inl x ↦ rw (e, x, response_schema_of) refl
          | inr (schema, x) ↦ rw (e, x, response_schema_of) refl
        ]
  ]

  -- The operation of a route.
  abbrev pub op_of : Option PyRef → Option Json → Bool → RouteEntry → Schemas → Json
  op_of unique_id app_responses separate route schemas =
      (route_operation python unique_id app_responses separate route schemas).0

  pub route_operation-schemas :
      (unique_id : Option PyRef) (app_responses : Option Json) (separate : Bool)
      (route : RouteEntry) (s t : Schemas)
      → op_of unique_id app_responses separate route s
        ≡ op_of unique_id app_responses separate route t
  unfolding route_operation
  route_operation-schemas unique_id app_responses separate route s t =
      rw
        (
          request_body_of-schemas route s t,
          response_schema_of-schemas separate route.handler (request_body_of python route s).1
              (request_body_of python route t).1,
        )
        refl
