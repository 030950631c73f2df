-- ===== src/OpenApi/Paths/References.antt =====
-- The references to schemas in the operations of src/utils/openapi.rs.
use fastrapi.Prelude.{
  ◌≡◌, refl, sym, subst, ◌⊎◌, Bool, true, Option, none, some, List, [], ◌∷◌, if◌then◌else◌,
  unwrap_or, is_some, Assoc, insert, lookup, lookup-insert, All, keep, Bool-cases, Option-cases,
  inl, inr,
}
use fastrapi.Text.{Str, codes, str_eq}
use fastrapi.Text.Laws.{str_key, str_eq_refl}
use fastrapi.Python.{PyRef}
use fastrapi.Routing.Json.{Json, Fields, end, field}
use fastrapi.Routing.Types.{HttpMethod, PydanticValidator, RouteHandler, RouteEntry}
use fastrapi.OpenApi.Document.{PathItem, RequestBody}
use fastrapi.OpenApi.Schemas.{
  Introspection, ref_to, of_type, extract_pydantic_schema, get_schema_name,
}
use fastrapi.OpenApi.Operations.{
  Schemas, body_of, has_body, validator_properties, wrap, validators_body, wrapper_name,
  request_body_of, response_schema_of,
}
use fastrapi.OpenApi.Paths.{put_operation, route_operation, build_paths_from_routes}
use fastrapi.OpenApi.Paths.Independent.{request_body_of-schemas, response_schema_of-schemas}

abbrev pub Has : Str → Schemas → Type 0
Has name schemas = is_some (lookup name schemas) ≡ true

-- What is there stays there.
abbrev pub Grows : Schemas → Schemas → Type 0
Grows s t = (name : Str) → Has name s → Has name t

insert-Has : (name : Str) (schema : Json) (s : Schemas) → Has name (insert name schema s)
insert-Has name schema s = rw (lookup-insert name name schema s, str_eq_refl name) refl

insert-Grows : (name : Str) (schema : Json) (s : Schemas) → Grows s (insert name schema s)
insert-Grows name schema s other h = elim (Bool-cases (str_eq name other)) [
  | inl e ↦ rw (lookup-insert name other schema s, e) refl
  | inr e ↦ rw (lookup-insert name other schema s, e) h
]

-- A body refers to a schema that is there.
abbrev pub BodyResolves : Option RequestBody → Schemas → Type 0
BodyResolves none schemas = Unit
BodyResolves (some body) schemas = (name : Str) × (body ≡ body_of name) × Has name schemas

-- A schema of a response is that of any object, or refers to a schema that is there.
abbrev pub SchemaResolves : Json → Schemas → Type 0
SchemaResolves schema schemas =
    (schema ≡ of_type (codes "object")) ⊎ ((name : Str) × (schema ≡ ref_to name) × Has name schemas)

BodyResolves-Grows :
    (body : Option RequestBody) (s t : Schemas)
    → Grows s t
    → BodyResolves body s
    → BodyResolves body t
BodyResolves-Grows none s t g h = tt
BodyResolves-Grows (some body) s t g (name, e, h) = (name, e, g name h)

SchemaResolves-Grows :
    (schema : Json) (s t : Schemas) → Grows s t → SchemaResolves schema s → SchemaResolves schema t
SchemaResolves-Grows schema s t g (inl e) = inl e
SchemaResolves-Grows schema s t g (inr (name, e, h)) = inr (name, e, g name h)

-- A part of an operation, with the schemas after it: it resolves, and no schema is lost.
abbrev Sound {ℓ} : {A : Type ℓ} → (A → Schemas → Type 0) → Schemas → A × Schemas → Type 0
Sound Resolves s p = Resolves p.0 p.1 × Grows s p.1

module _ (python : Introspection) where
  validator_properties-Grows :
      (vs : List PydanticValidator) (properties : Fields) (required : List Str) (s : Schemas)
      → Grows s (validator_properties python vs properties required s).2
  unfolding validator_properties
  validator_properties-Grows [] properties required s = λ name h. h
  validator_properties-Grows (v ∷ vs) properties required s =
      elim (Option-cases (extract_pydantic_schema python v.model_class (codes "validation"))) [
        | inl e ↦ rw (e, validator_properties) (validator_properties-Grows vs properties required s)
        | inr (schema, e) ↦
            rw (e, validator_properties)
              (λ name h.
                validator_properties-Grows vs _ _ _ name
                  (insert-Grows (get_schema_name python v.model_class) schema s name h))
      ]

  wrap-Sound :
      (name : Str) (s : Schemas) (p : Fields × List Str × Schemas)
      → Grows s p.2
      → Sound BodyResolves s (wrap python name p)
  wrap-Sound name s (end, required, t) g = (tt, g)
  wrap-Sound name s (field key value properties, required, t) g =
      ((name, refl, insert-Has name _ t), λ other h. insert-Grows name _ t other (g other h))

  validators_body-Sound :
      (path : Str) (m : HttpMethod) (f : Str) (vs : List PydanticValidator) (s : Schemas)
      → Sound BodyResolves s (validators_body python path m f vs s)
  validators_body-Sound path m f [] s = (tt, λ name h. h)
  validators_body-Sound path m f (v ∷ []) s =
      elim (Option-cases (extract_pydantic_schema python v.model_class (codes "validation"))) [
        | inl e ↦ rw (e, validators_body) (tt, λ name h. h)
        | inr (schema, e) ↦
            let name = get_schema_name python v.model_class in
            rw (e, validators_body)
              ((name, refl, insert-Has name schema s), insert-Grows name schema s)
      ]
  validators_body-Sound path m f (v ∷ w ∷ vs) s =
      wrap-Sound (wrapper_name f path m) s (validator_properties python (v ∷ w ∷ vs) end [] s)
        (validator_properties-Grows (v ∷ w ∷ vs) end [] s)

  request_body_of-Sound :
      (route : RouteEntry) (s : Schemas) → Sound BodyResolves s (request_body_of python route s)
  unfolding request_body_of
  request_body_of-Sound route s = elim (Bool-cases (has_body route.method)) [
    | inl e ↦ rw e (
        validators_body-Sound route.path route.method
          (unwrap_or (python.name route.handler.func) (codes "unknown"))
          route.handler.param_validators s)
    | inr e ↦ rw e (tt, λ name h. h)
  ]

  response_schema_of-Sound :
      (separate : Bool) (handler : RouteHandler) (s : Schemas)
      → Sound SchemaResolves s (response_schema_of python separate handler s)
  unfolding response_schema_of
  response_schema_of-Sound separate handler s = elim (Option-cases handler.response_model) [
    | inl e ↦ rw (e, response_schema_of) (inl refl, λ name h. h)
    | inr (model, e) ↦
        let mode = if separate then codes "serialization" else codes "validation" in
        elim (Option-cases (extract_pydantic_schema python model mode)) [
          | inl x ↦ rw (e, x, response_schema_of) (inl refl, λ name h. h)
          | inr (schema, x) ↦
              let name = get_schema_name python model in
              rw (e, x, response_schema_of)
                (inr (name, refl, insert-Has name schema s), insert-Grows name schema s)
        ]
  ]

  -- What the operation of a route refers to.
  abbrev pub Resolves : Bool → RouteEntry → Schemas → Type 0
  Resolves separate route schemas =
      BodyResolves (request_body_of python route []).0 schemas
      × SchemaResolves (response_schema_of python separate route.handler []).0 schemas

  Resolves-Grows :
      (separate : Bool) (route : RouteEntry) (s t : Schemas)
      → Grows s t
      → Resolves separate route s
      → Resolves separate route t
  Resolves-Grows separate route s t g (body, schema) =
      (BodyResolves-Grows _ s t g body, SchemaResolves-Grows _ s t g schema)

  module _ (unique_id : Option PyRef) (app_responses : Option Json) (separate : Bool) where
    abbrev after : RouteEntry → Schemas → Schemas
    after route schemas = (route_operation python unique_id app_responses separate route schemas).1

    abbrev built : List RouteEntry → Schemas → Assoc Str PathItem → Assoc Str PathItem × Schemas
    built = build_paths_from_routes python unique_id app_responses separate

    route_operation-Resolves :
        (route : RouteEntry) (s : Schemas)
        → Resolves separate route (after route s) × Grows s (after route s)
    unfolding route_operation
    route_operation-Resolves route s =
        let body = request_body_of python route s in
        let response = response_schema_of python separate route.handler body.1 in
        let (resolves, grows) = request_body_of-Sound route s in
        let (resolves_too, grows_too) = response_schema_of-Sound separate route.handler body.1 in
        (
          (
            subst (λ (b : Option RequestBody). BodyResolves b response.1)
                (request_body_of-schemas python route s [])
                (BodyResolves-Grows body.0 body.1 response.1 grows_too resolves),
            subst (λ (j : Json). SchemaResolves j response.1)
                (response_schema_of-schemas python separate route.handler body.1 []) resolves_too,
          ),
          λ name h. grows_too name (grows name h),
        )

    build-Grows :
        (routes : List RouteEntry) (s : Schemas) (paths : Assoc Str PathItem)
        → Grows s (built routes s paths).1
    unfolding build_paths_from_routes
    build-Grows [] s paths = λ name h. h
    build-Grows (route ∷ routes) s paths =
        let (op, more) = route_operation python unique_id app_responses separate route s in
        let put = built routes more (put_operation python route op paths) in
        let skipped = built routes s paths in
        let with_test = λ (b : Bool). Grows s (if b then put else skipped).1 in
        elim (Bool-cases route.include_in_schema) [
          | inl e ↦ subst with_test (sym e) (λ name h.
              build-Grows routes more (put_operation python route op paths) name
                ((route_operation-Resolves route s).1 name h))
          | inr e ↦ subst with_test (sym e) (build-Grows routes s paths)
        ]

    -- In the schemas collected with the paths of some routes, each route that is in the schema finds what
    -- it refers to: its body, where it has one, the name of its schema, and its response the name of its
    -- schema, or it is the schema of any object. This holds of bodies and responses, not of parameters.
    pub build_paths_from_routes-Resolves :
        (routes : List RouteEntry) (s : Schemas) (paths : Assoc Str PathItem)
        → All
            (λ route.
              Resolves separate route
                (build_paths_from_routes python unique_id app_responses separate routes s paths).1)
            (keep (λ route. route.include_in_schema) routes)
    unfolding build_paths_from_routes
    build_paths_from_routes-Resolves [] s paths = tt
    build_paths_from_routes-Resolves (route ∷ routes) s paths =
        let (op, more) = route_operation python unique_id app_responses separate route s in
        let put_paths = put_operation python route op paths in
        let put = built routes more put_paths in
        let skipped = built routes s paths in
        let rest = keep (λ (r : RouteEntry). r.include_in_schema) routes in
        let with_test = λ (b : Bool).
          All (λ (r : RouteEntry). Resolves separate r (if b then put else skipped).1)
            (if b then route ∷ rest else rest) in
        elim (Bool-cases route.include_in_schema) [
          | inl e ↦ subst with_test (sym e) (
            Resolves-Grows separate route more put.1 (build-Grows routes more put_paths)
                (route_operation-Resolves route s).0,
            build_paths_from_routes-Resolves routes more put_paths,
          )
          | inr e ↦ subst with_test (sym e) (build_paths_from_routes-Resolves routes s paths)
        ]
