-- ===== src/OpenApi/Paths/Entries.antt =====
-- Which routes the paths of src/utils/openapi.rs describe.
use fastrapi.Prelude.{
  ◌≡◌, refl, sym, ◌∙◌, ap, subst, ◌&&◌, Bool, true, false, Option, none, some, List, [], ◌∷◌,
  if◌then◌else◌, ◌==◌, unwrap_or, ◌>>=?◌, Assoc, lookup, lookup-insert, Bool-cases, inl, inr,
}
use fastrapi.Text.{Str, str_eq}
use fastrapi.Text.Laws.{str_key, str_eq_iff}
use fastrapi.Python.{PyRef}
use fastrapi.Routing.Json.{Json}
use fastrapi.Routing.Types.{HttpMethod, RouteEntry, discriminant}
use fastrapi.OpenApi.Document.{PathItem}
use fastrapi.OpenApi.Schemas.{Introspection}
use fastrapi.OpenApi.Operations.{Schemas}
use fastrapi.OpenApi.Paths.Independent.{op_of, route_operation-schemas}
use fastrapi.OpenApi.Paths.{
  set_operation, put_operation, route_operation, build_paths_from_routes, empty_item,
}

-- The operation of an item under a method; no item has one under OPTIONS or HEAD.
abbrev pub operation_at : HttpMethod → PathItem → Option Json
operation_at HttpMethod.get item = item.get
operation_at HttpMethod.post item = item.post
operation_at HttpMethod.put item = item.put
operation_at HttpMethod.delete item = item.delete
operation_at HttpMethod.patch item = item.patch
operation_at _ item = none

-- `Option::map`.
abbrev pub map {ℓ κ} : {A : Type ℓ} {B : Type κ} → (A → B) → Option A → Option B
map f none = none
map f (some a) = some (f a)

abbrev pub described_at : HttpMethod → Option PathItem → Option Json
described_at method item = item >>=? operation_at method

abbrev pub has_operation : HttpMethod → Bool
has_operation HttpMethod.options = false
has_operation HttpMethod.head = false
has_operation _ = true

abbrev pub matches : Str → HttpMethod → RouteEntry → Bool
matches path method route =
    str_eq route.path path
    && (discriminant route.method == discriminant method)
    && has_operation method

-- The last of the routes in the schema with a path and a method.
abbrev pub documented : Str → HttpMethod → List RouteEntry → Option RouteEntry → Option RouteEntry
documented path method [] found = found
documented path method (route ∷ routes) found =
    documented path method routes
      (if route.include_in_schema && matches path method route then some route else found)

operation_at-set_operation :
    (method m : HttpMethod) (op : Json) (item : PathItem)
    → operation_at m (set_operation method op item) ≡ (
        if (discriminant method == discriminant m) && has_operation m
        then some op
        else operation_at m item)
operation_at-set_operation HttpMethod.get HttpMethod.get op item = refl
operation_at-set_operation HttpMethod.get HttpMethod.post op item = refl
operation_at-set_operation HttpMethod.get HttpMethod.put op item = refl
operation_at-set_operation HttpMethod.get HttpMethod.delete op item = refl
operation_at-set_operation HttpMethod.get HttpMethod.patch op item = refl
operation_at-set_operation HttpMethod.get HttpMethod.options op item = refl
operation_at-set_operation HttpMethod.get HttpMethod.head op item = refl
operation_at-set_operation HttpMethod.post HttpMethod.get op item = refl
operation_at-set_operation HttpMethod.post HttpMethod.post op item = refl
operation_at-set_operation HttpMethod.post HttpMethod.put op item = refl
operation_at-set_operation HttpMethod.post HttpMethod.delete op item = refl
operation_at-set_operation HttpMethod.post HttpMethod.patch op item = refl
operation_at-set_operation HttpMethod.post HttpMethod.options op item = refl
operation_at-set_operation HttpMethod.post HttpMethod.head op item = refl
operation_at-set_operation HttpMethod.put HttpMethod.get op item = refl
operation_at-set_operation HttpMethod.put HttpMethod.post op item = refl
operation_at-set_operation HttpMethod.put HttpMethod.put op item = refl
operation_at-set_operation HttpMethod.put HttpMethod.delete op item = refl
operation_at-set_operation HttpMethod.put HttpMethod.patch op item = refl
operation_at-set_operation HttpMethod.put HttpMethod.options op item = refl
operation_at-set_operation HttpMethod.put HttpMethod.head op item = refl
operation_at-set_operation HttpMethod.delete HttpMethod.get op item = refl
operation_at-set_operation HttpMethod.delete HttpMethod.post op item = refl
operation_at-set_operation HttpMethod.delete HttpMethod.put op item = refl
operation_at-set_operation HttpMethod.delete HttpMethod.delete op item = refl
operation_at-set_operation HttpMethod.delete HttpMethod.patch op item = refl
operation_at-set_operation HttpMethod.delete HttpMethod.options op item = refl
operation_at-set_operation HttpMethod.delete HttpMethod.head op item = refl
operation_at-set_operation HttpMethod.patch HttpMethod.get op item = refl
operation_at-set_operation HttpMethod.patch HttpMethod.post op item = refl
operation_at-set_operation HttpMethod.patch HttpMethod.put op item = refl
operation_at-set_operation HttpMethod.patch HttpMethod.delete op item = refl
operation_at-set_operation HttpMethod.patch HttpMethod.patch op item = refl
operation_at-set_operation HttpMethod.patch HttpMethod.options op item = refl
operation_at-set_operation HttpMethod.patch HttpMethod.head op item = refl
operation_at-set_operation HttpMethod.options HttpMethod.get op item = refl
operation_at-set_operation HttpMethod.options HttpMethod.post op item = refl
operation_at-set_operation HttpMethod.options HttpMethod.put op item = refl
operation_at-set_operation HttpMethod.options HttpMethod.delete op item = refl
operation_at-set_operation HttpMethod.options HttpMethod.patch op item = refl
operation_at-set_operation HttpMethod.options HttpMethod.options op item = refl
operation_at-set_operation HttpMethod.options HttpMethod.head op item = refl
operation_at-set_operation HttpMethod.head HttpMethod.get op item = refl
operation_at-set_operation HttpMethod.head HttpMethod.post op item = refl
operation_at-set_operation HttpMethod.head HttpMethod.put op item = refl
operation_at-set_operation HttpMethod.head HttpMethod.delete op item = refl
operation_at-set_operation HttpMethod.head HttpMethod.patch op item = refl
operation_at-set_operation HttpMethod.head HttpMethod.options op item = refl
operation_at-set_operation HttpMethod.head HttpMethod.head op item = refl

operation_at-empty : (m : HttpMethod) → operation_at m empty_item ≡ none
operation_at-empty HttpMethod.get = refl
operation_at-empty HttpMethod.post = refl
operation_at-empty HttpMethod.put = refl
operation_at-empty HttpMethod.delete = refl
operation_at-empty HttpMethod.patch = refl
operation_at-empty HttpMethod.options = refl
operation_at-empty HttpMethod.head = refl

operation_at-unwrap_or :
    (m : HttpMethod) (o : Option PathItem)
    → operation_at m (unwrap_or o empty_item) ≡ described_at m o
operation_at-unwrap_or m none = operation_at-empty m
operation_at-unwrap_or m (some item) = refl

module _ (python : Introspection) where
  described_at-put_operation :
      (path : Str) (m : HttpMethod) (route : RouteEntry) (op : Json) (paths : Assoc Str PathItem)
      → described_at m (lookup path (put_operation python route op paths))
        ≡ (if matches path m route then some op else described_at m (lookup path paths))
  unfolding put_operation
  described_at-put_operation path m route op paths = elim (Bool-cases (str_eq route.path path)) [
    | inl e ↦
        let same = (str_eq_iff route.path path).0 e in
        let item = unwrap_or (lookup route.path paths) empty_item in
        rw
          (
            lookup-insert route.path path (set_operation route.method op item) paths,
            e,
            operation_at-set_operation route.method m op item,
            operation_at-unwrap_or m (lookup route.path paths),
            same,
          )
          refl
    | inr e ↦
        let item = unwrap_or (lookup route.path paths) empty_item in
        rw (lookup-insert route.path path (set_operation route.method op item) paths, e) refl
  ]

  module _ (unique_id : Option PyRef) (app_responses : Option Json) (separate : Bool) where
    -- The operation of a route, whatever the schemas before it.
    abbrev pub operation : RouteEntry → Json
    operation route = op_of python unique_id app_responses separate route []

    operation-if :
        (b : Bool) (route : RouteEntry) (found : Option RouteEntry) (schemas : Schemas)
        → (if b
            then some (op_of python unique_id app_responses separate route schemas)
            else map operation found)
          ≡ map operation (if b then some route else found)
    operation-if true route found schemas =
        ap some (route_operation-schemas python unique_id app_responses separate route schemas [])
    operation-if false route found schemas = refl

    build-documented :
        (path : Str) (m : HttpMethod) (routes : List RouteEntry) (schemas : Schemas)
        (paths : Assoc Str PathItem) (found : Option RouteEntry)
        → described_at m (lookup path paths) ≡ map operation found
        → described_at m (
            lookup path
              (build_paths_from_routes python unique_id app_responses separate routes schemas
                paths).0)
          ≡ map operation (documented path m routes found)
    unfolding build_paths_from_routes
    build-documented path m [] schemas paths found h = h
    build-documented path m (route ∷ routes) schemas paths found h =
        let build = build_paths_from_routes python unique_id app_responses separate routes in
        let (op, more) = route_operation python unique_id app_responses separate route schemas in
        let put = build more (put_operation python route op paths) in
        let skipped = build schemas paths in
        let here = if matches path m route then some route else found in
        let with_test = λ (b : Bool).
          described_at m (lookup path (if b then put else skipped).0)
          ≡ map operation (
              documented path m routes (if b && matches path m route then some route else found)) in
        elim (Bool-cases route.include_in_schema) [
          | inl e ↦ subst with_test (sym e) (
              build-documented path m routes more (put_operation python route op paths) here (
                described_at-put_operation path m route op paths
                ∙ rw h (operation-if (matches path m route) route found schemas)))
          | inr e ↦ subst with_test (sym e) (build-documented path m routes schemas paths found h)
        ]

    -- Under a path and a method, the paths built of some routes hold the operation of the last of the
    -- routes that is in the schema and has that path and method, and nothing where there is none, or
    -- where the method is OPTIONS or HEAD. The schemas collected before do not matter.
    pub build_paths_from_routes-documented :
        (path : Str) (m : HttpMethod) (routes : List RouteEntry) (schemas : Schemas)
        → described_at m (
            lookup path
              (build_paths_from_routes python unique_id app_responses separate routes schemas []).0)
          ≡ map operation (documented path m routes none)
    unfolding lookup
    build_paths_from_routes-documented path m routes schemas =
        build-documented path m routes schemas [] none refl
