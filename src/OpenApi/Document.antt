-- ===== src/OpenApi/Document.antt =====
-- The data of an OpenAPI document, src/utils/openapi.rs, with the JSON that serde derives: the fields
-- in their order, those marked `skip_serializing_if` left out where they are none.
use fastrapi.Prelude.{Bool, Option, none, some, List, [], ◌∷◌, ◌++◌, Assoc, map}
use fastrapi.Text.{Str, codes}
use fastrapi.Routing.Json.{Json, Items, null, bool, str, arr, obj, nil, cons}
use fastrapi.Serialize.Value.{fields_of}

pub record MediaType : Type 0 where
  pub schema : Json

pub record RequestBody : Type 0 where
  pub required : Bool
  pub content : Assoc Str MediaType

pub record ResponseObject : Type 0 where
  pub description : Str
  pub content : Option (Assoc Str MediaType)

pub record Parameter : Type 0 where
  pub name : Str
  pub location : Str
  pub required : Option Bool
  pub schema : Option Json
  pub description : Option Str

pub record Operation : Type 0 where
  pub summary : Option Str
  pub deprecated : Option Bool
  pub description : Option Str
  pub tags : Option (List Str)
  pub parameters : Option (List Parameter)
  pub operation_id : Option Str
  pub request_body : Option RequestBody
  pub responses : Assoc Str ResponseObject
  pub callbacks : Option (Assoc Str Json)

-- The field `parameters` is none in every item, and is left out.
pub record PathItem : Type 0 where
  pub get : Option Json
  pub post : Option Json
  pub put : Option Json
  pub delete : Option Json
  pub patch : Option Json

pub record OpenApiInfo : Type 0 where
  pub title : Str
  pub version : Str
  pub summary : Option Str
  pub description : Option Str
  pub terms_of_service : Option Str
  pub contact : Option Json
  pub license : Option Json

pub record Components : Type 0 where
  pub schemas : Assoc Str Json

pub record OpenApiSpec : Type 0 where
  pub openapi : Str
  pub info : OpenApiInfo
  pub paths : Assoc Str PathItem
  pub servers : Option (List Json)
  pub tags : Option (List Json)
  pub webhooks : Option (Assoc Str PathItem)
  pub external_docs : Option Json
  pub components : Option Components

-- `OpenApiSpec::default`.
abbrev pub default_spec : OpenApiSpec
default_spec = record {
  openapi = codes "3.0.0";
  info = record {
    title = codes "FastrAPI";
    version = codes "0.1.0";
    summary = none;
    description = some (codes "API built with FastrAPI");
    terms_of_service = none;
    contact = none;
    license = none;
  };
  paths = [];
  servers = none;
  tags = none;
  webhooks = none;
  external_docs = none;
  components = some (record { schemas = [] });
}

abbrev pub object : Assoc Str Json → Json
object fields = obj (fields_of fields)

abbrev pub items_of : List Json → Items
items_of [] = nil
items_of (j ∷ js) = cons j (items_of js)

abbrev pub array : List Json → Json
array js = arr (items_of js)

abbrev pub texts : List Str → Json
texts ts = array (map (λ t. str t) ts)

-- A field that is left out where it is none.
abbrev pub optional {ℓ} : {A : Type ℓ} → Str → (A → Json) → Option A → Assoc Str Json
optional key encode none = []
optional key encode (some a) = (key, encode a) ∷ []

abbrev pub encode_map : {A : Type 0} → (A → Json) → Assoc Str A → Json
encode_map encode entries = object (map (λ e. (e.0, encode e.1)) entries)

abbrev pub media_type_json : MediaType → Json
media_type_json m = object ((codes "schema", m.schema) ∷ [])

abbrev pub request_body_json : RequestBody → Json
request_body_json b = object (
    (codes "required", bool b.required)
    ∷ (codes "content", encode_map media_type_json b.content)
    ∷ [])

abbrev pub response_json : ResponseObject → Json
response_json r = object (
    (codes "description", str r.description)
    ∷ optional (codes "content") (encode_map media_type_json) r.content)

abbrev pub parameter_json : Parameter → Json
parameter_json p = object (
    (codes "name", str p.name)
    ∷ (codes "in", str p.location)
    ∷ (optional (codes "required") (λ b. bool b) p.required
        ++ optional (codes "schema") (λ j. j) p.schema
        ++ optional (codes "description") (λ s. str s) p.description))

unfoldable pub operation_json : Operation → Json
operation_json o = object (
    optional (codes "summary") (λ s. str s) o.summary
    ++ optional (codes "deprecated") (λ b. bool b) o.deprecated
    ++ optional (codes "description") (λ s. str s) o.description
    ++ optional (codes "tags") texts o.tags
    ++ optional (codes "parameters") (λ ps. array (map parameter_json ps)) o.parameters
    ++ optional (codes "operationId") (λ s. str s) o.operation_id
    ++ optional (codes "requestBody") request_body_json o.request_body
    ++ (codes "responses", encode_map response_json o.responses) ∷ []
    ++ optional (codes "callbacks") (encode_map (λ j. j)) o.callbacks)

unfoldable pub path_item_json : PathItem → Json
path_item_json item = object (
    optional (codes "get") (λ j. j) item.get
    ++ optional (codes "post") (λ j. j) item.post
    ++ optional (codes "put") (λ j. j) item.put
    ++ optional (codes "delete") (λ j. j) item.delete
    ++ optional (codes "patch") (λ j. j) item.patch)

abbrev pub info_json : OpenApiInfo → Json
info_json info = object (
    (codes "title", str info.title)
    ∷ (codes "version", str info.version)
    ∷ (optional (codes "summary") (λ s. str s) info.summary
        ++ optional (codes "description") (λ s. str s) info.description
        ++ optional (codes "termsOfService") (λ s. str s) info.terms_of_service
        ++ optional (codes "contact") (λ j. j) info.contact
        ++ optional (codes "license") (λ j. j) info.license))

-- `components` is not marked, and is null where it is none.
abbrev pub components_json : Option Components → Json
components_json none = null
components_json (some c) = object ((codes "schemas", encode_map (λ j. j) c.schemas) ∷ [])

unfoldable pub spec_json : OpenApiSpec → Json
unfolding path_item_json
spec_json spec = object (
    (codes "openapi", str spec.openapi)
    ∷ (codes "info", info_json spec.info)
    ∷ (codes "paths", encode_map path_item_json spec.paths)
    ∷ (optional (codes "servers") array spec.servers
        ++ optional (codes "tags") array spec.tags
        ++ optional (codes "webhooks") (encode_map path_item_json) spec.webhooks
        ++ optional (codes "externalDocs") (λ j. j) spec.external_docs
        ++ (codes "components", components_json spec.components) ∷ []))
