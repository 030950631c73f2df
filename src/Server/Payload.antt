-- ===== src/Server/Payload.antt =====
-- src/engine/server/payload.rs: the body of a request, read as a form or as JSON.
pub mod Forms
use fastrapi.Prelude.{
  ℕ, ◌+◌, Bool, true, false, not, ◌&&◌, ◌||◌, Option, none, some, List, [], ◌∷◌, ◌++◌, ◌>>=?◌,
  if◌then◌else◌, is_empty, length, get_elem?, ltb, leb, ◌==◌, unwrap_or, is_some, Assoc, insert,
}
use fastrapi.Text.{Str, str_eq, codes, len, contains, starts_with}
use fastrapi.Text.Laws.{str_key}
use fastrapi.Python.{PyRef}
use fastrapi.Http.{Response, Outcome, ok, fail, ◌>>=◌, of_text}
use fastrapi.Routing.Json.{Json}
use fastrapi.Routing.Types.{ParameterSource, ParsedParameter, RouteHandler}

abbrev pub Bytes : Type 0
Bytes = List ℕ

pub record UploadedFile : Type 0 where
  pub filename : Option Str
  pub content_type : Option Str
  pub content : Bytes

pub data BodyField : Type 0 where
  text : Str → BodyField
  file : UploadedFile → BodyField

abbrev pub Form : Type 0
Form = Assoc Str BodyField

pub data BodyPayload : Type 0 where
  json : Bytes → Option Json → BodyPayload
  form : Form → BodyPayload

-- What the payload reads of `AppState`.
pub record PayloadLimits : Type 0 where
  pub max_body_size : Option ℕ
  pub max_field_size : Option ℕ
  pub max_file_size : Option ℕ
  pub reject_unknown_multipart_fields : Bool

-- `multer::SizeLimit`: the limits that are not set are none, as the greatest `u64` is.
pub record SizeLimit : Type 0 where
  pub whole_stream : Option ℕ
  pub per_field : Option ℕ
  pub for_field : Assoc Str ℕ

-- `multer::Constraints`.
pub record MultipartConstraints : Type 0 where
  pub size_limit : SizeLimit
  pub allowed_fields : Option (List Str)

pub data MultipartError : Type 0 where
  field_size_exceeded stream_size_exceeded unknown_field : Str → MultipartError
  other : MultipartError

-- What multer gives for a field; an error ends the stream.
pub record MultipartField : Type 0 where
  pub name : Option Str
  pub file_name : Option Str
  pub content_type : Option Str
  pub bytes : Option Bytes
  pub error : MultipartError

-- The crates that read bytes and texts, and what Python says of a parameter's objects.
pub record PayloadLibraries : Type 0 where
  pub from_utf8 : Bytes → Option Str
  pub from_utf8_lossy : Bytes → Str
  pub parse_urlencoded : Str → List (Str × Str)
  pub parse_json : Bytes → Option Json
  pub parse_boundary : Str → Option Str
  pub read_multipart :
      MultipartConstraints → Str → Bytes → List MultipartField × Option MultipartError
  pub type_name : PyRef → Option Str
  pub annotation_name : PyRef → Option Str

abbrev pub is_too_large : Option ℕ → ℕ → Bool
is_too_large none n = false
is_too_large (some limit) n = ltb limit n

-- The loop over the pairs of a form.
unfoldable pub insert_pairs : Option ℕ → List (Str × Str) → Form → Outcome Form
unfolding len insert
insert_pairs max_field_size [] entries = ok entries
insert_pairs max_field_size ((key, value) ∷ pairs) entries =
    let rest = insert_pairs max_field_size pairs (insert key (text value) entries) in
    if is_too_large max_field_size (len value)
    then fail (of_text 413 (codes "Form field too large"))
    else rest

unfoldable pub multipart_error_response : MultipartError → Response
multipart_error_response (field_size_exceeded message) = of_text 413 message
multipart_error_response (stream_size_exceeded message) = of_text 413 message
multipart_error_response (unknown_field message) = of_text 400 message
multipart_error_response other = of_text 400 (codes "Invalid multipart body")

abbrev pub larger : ℕ → ℕ → ℕ
larger a b = if leb a b then b else a

abbrev pub per_field_of : Option ℕ → Option ℕ → Option ℕ
per_field_of (some a) (some b) = some (larger a b)
per_field_of (some a) none = some a
per_field_of none (some b) = some b
per_field_of none none = none

abbrev pub is_body : ParameterSource → Bool
is_body ParameterSource.body = true
is_body _ = false

-- The external name of a parameter, and its name where it is another one.
abbrev pub names_of : ParsedParameter → List Str
names_of param =
    param.external_name ∷ (if str_eq param.external_name param.name then [] else param.name ∷ [])

unfoldable pub allowed_of : List ParsedParameter → List Str
unfolding str_eq
allowed_of [] = []
allowed_of (param ∷ params) =
    let rest = allowed_of params in if is_body param.source then names_of param ++ rest else rest

abbrev pub limit_names : List Str → Option ℕ → Assoc Str ℕ → Assoc Str ℕ
limit_names names none limits = limits
limit_names [] (some limit) limits = limits
limit_names (name ∷ names) (some limit) limits =
    limit_names names (some limit) (insert name limit limits)

module _ (libraries : PayloadLibraries) where
  unfoldable pub is_file_param : ParsedParameter → Bool
  unfolding str_eq contains
  is_file_param param =
      let type_name = param.param_object >>=? libraries.type_name in
      let name = param.annotation >>=? libraries.annotation_name in
      unwrap_or (type_name >>=? λ t. some (str_eq t (codes "File"))) false
      || unwrap_or (name >>=? λ n. some (contains n (codes "UploadFile"))) false

  unfoldable pub field_limits : PayloadLimits → List ParsedParameter → Assoc Str ℕ → Assoc Str ℕ
  unfolding is_file_param insert
  field_limits limits [] known = known
  field_limits limits (param ∷ params) known = field_limits limits params (
      if is_body param.source
      then limit_names (names_of param)
          (if is_file_param param then limits.max_file_size else limits.max_field_size) known
      else known)

  unfoldable pub multipart_constraints : RouteHandler → PayloadLimits → MultipartConstraints
  unfolding field_limits allowed_of
  multipart_constraints handler limits =
      let allowed = allowed_of handler.parsed_params in
      record {
        size_limit = record {
          whole_stream = limits.max_body_size;
          per_field = per_field_of limits.max_field_size limits.max_file_size;
          for_field = field_limits limits handler.parsed_params [];
        };
        allowed_fields =
            if limits.reject_unknown_multipart_fields && not (is_empty allowed)
            then some allowed
            else none;
      }

  abbrev pub field_of : MultipartField → Bytes → BodyField
  field_of f bytes =
      if is_some f.file_name
      then file (record { filename = f.file_name; content_type = f.content_type; content = bytes })
      else text (libraries.from_utf8_lossy bytes)

  -- A field with a name is read, and may fail then; one without is skipped.
  unfoldable pub insert_fields : List MultipartField → Option MultipartError → Form → Outcome Form
  unfolding multipart_error_response insert
  insert_fields [] none entries = ok entries
  insert_fields [] (some error) entries = fail (multipart_error_response error)
  insert_fields (f ∷ fields) end entries = elim f.name [
    | none ↦ insert_fields fields end entries
    | some name ↦ elim f.bytes [
      | none ↦ fail (multipart_error_response f.error)
      | some bytes ↦ insert_fields fields end (insert name (field_of f bytes) entries)
    ]
  ]

  unfoldable pub parse_urlencoded_form : Bytes → Option ℕ → Outcome Form
  unfolding insert_pairs
  parse_urlencoded_form body max_field_size = elim (libraries.from_utf8 body) [
    | none ↦ fail (of_text 422 (codes "Invalid form body"))
    | some raw ↦ insert_pairs max_field_size (libraries.parse_urlencoded raw) []
  ]

  unfoldable pub parse_multipart_form : Bytes → Str → RouteHandler → PayloadLimits → Outcome Form
  unfolding multipart_constraints insert_fields
  parse_multipart_form body content_type handler limits =
      elim (libraries.parse_boundary content_type) [
        | none ↦ fail (of_text 400 (codes "Missing multipart boundary"))
        | some boundary ↦
            let (fields, end) =
              libraries.read_multipart (multipart_constraints handler limits) boundary body in
            insert_fields fields end []
      ]

  -- `handler.parsed_params[handler.body_param_indices[0]].is_pydantic_model`, for a single index.
  -- Out of bounds, where the code panics, it is false here; the index of a decorated handler is in bounds.
  unfoldable pub defer_json_parse : RouteHandler → Bool
  defer_json_parse handler = elim handler.body_param_indices [
    | [] ↦ false
    | index ∷ rest ↦
        is_empty rest
        && unwrap_or (get_elem? handler.parsed_params index >>=? λ p. some p.is_pydantic_model)
            false
  ]

  unfoldable pub read_json : Bytes → RouteHandler → Outcome BodyPayload
  unfolding defer_json_parse
  read_json body handler =
      if defer_json_parse handler then ok (json body none) else elim (libraries.parse_json body) [
        | none ↦ fail (of_text 422 (codes "Invalid JSON body"))
        | some value ↦ ok (json body (some value))
      ]

  -- `body` is none where it breaks off; `to_bytes` refuses that, and more bytes than its limit.
  unfoldable pub extract_payload :
      Option Str → Option Bytes → RouteHandler → PayloadLimits → Outcome (Option BodyPayload)
  unfolding parse_urlencoded_form parse_multipart_form read_json starts_with
  extract_payload content_type none handler limits =
      fail (of_text 413 (codes "Request body too large"))
  extract_payload content_type (some body) handler limits =
      let kind = unwrap_or content_type [] in
      if is_too_large limits.max_body_size (length body)
      then fail (of_text 413 (codes "Request body too large"))
      else if is_empty body
      then ok none
      else if starts_with kind (codes "application/x-www-form-urlencoded")
      then (parse_urlencoded_form body limits.max_field_size >>= λ f. ok (some (form f)))
      else if starts_with kind (codes "multipart/form-data")
      then (parse_multipart_form body kind handler limits >>= λ f. ok (some (form f)))
      else read_json body handler >>= λ p. ok (some p)
