-- ===== src/Responses.antt =====
-- src/http/responses.rs: what a handler returned as a response; and the errors that it raised,
-- src/ffi/exceptions.rs.
pub mod Handled
pub mod Statuses
pub mod Modes
use fastrapi.Prelude.{
  ℕ, Bool, true, false, not, ◌&&◌, Option, none, some, List, [], ◌∷◌, if◌then◌else◌, leb, ltb, ◌==◌,
  unwrap_or, is_some, ◌>>=?◌,
}
use fastrapi.Text.{Str, codes}
use fastrapi.Python.{PyRef, PyErr, PyResult, ok, err, ◌>>=◌}
use fastrapi.Http.{Response}
use fastrapi.Routing.Json.{Json}
use fastrapi.Routing.Types.{ResponseType, RouteHandler}
use fastrapi.OpenApi.Document.{object}
use fastrapi.Serialize.Objects.{
  PyObject, Attribute, Extension, no_extension, JsonLibraries, none_object, string, gives,
}
use fastrapi.Serialize.Value.{py_any_to_json}
use fastrapi.Serialize.Respond.{
  TextResponse, py_to_response, py_json_response_with_status_hint, json_response_with_status,
}

pub data Kind : Type 0 where
  json text html redirect streaming : Kind

-- An object of a response class: one of the program's own, or of another class with its name (the
-- three JSON classes are one kind). An attribute is `none` where it is missing or of another type.
pub record ExplicitResponse : Type 0 where
  pub kind : Kind
  pub own : Bool
  pub status_code : Option ℕ
  pub content : Attribute
  pub url : Option Str
  pub headers : List (Option Str × Option Str)
  pub media_type : Option Str

-- What a handler returned; a value comes with what its class adds to a built-in type.
pub data Result : Type 0 where
  explicit : ExplicitResponse → Result
  plain : Extension → PyObject → Result

abbrev pub Headers : Type 0
Headers = List (Str × Str)

-- What is sent: the body of an answer is a text, or the stream of the chunks of an iterator.
pub data Content : Type 0 where
  empty : Content
  of_text : Str → Content
  stream : Attribute → Content
  -- a refusal of the program
  refusal : Response → Content

pub record Answer : Type 0 where
  pub status : ℕ
  pub headers : Headers
  pub content : Content

pub record HttpError : Type 0 where
  pub status_code : ℕ
  pub detail : PyObject

-- The http crate: a header from its name and its value, headers added to others, and a header put in
-- the place of those with its name. `string_lossy` is the text of a `str`; `http_error` finds out
-- whether an exception is an `HTTPException`; `model_validate` is the call of that method of a model.
pub record ResponseLibraries : Type 0 where
  pub json : JsonLibraries
  pub header : Option Str → Option Str → Option (Str × Str)
  pub extend : Headers → Headers → Headers
  pub insert : Str → Str → Headers → Headers
  pub string_lossy : PyObject → Str
  pub http_error : PyErr → Option HttpError
  pub model_validate : PyRef → PyObject → PyResult (Extension × PyObject)

abbrev pub of_status : ℕ → Answer
of_status status = record { status = status; headers = []; content = empty }

abbrev pub of_content : ℕ → Str → Str → Answer
of_content status content_type body = record {
  status = status;
  headers = (codes "content-type", content_type) ∷ [];
  content = of_text body;
}

abbrev pub of_response : Response → Answer
of_response r = record { status = r.status; headers = []; content = refusal r }

abbrev pub of_written : TextResponse → Answer
of_written r = elim r.content_type [
  | none ↦ of_status r.status
  | some content_type ↦ of_content r.status content_type r.body
]

-- `StatusCode::from_u16`.
abbrev pub status_from : ℕ → Option ℕ
status_from code = if leb 100 code && ltb code 1000 then some code else none

-- The status of an explicit response: 200 where there is none, or it is no status.
unfoldable pub response_status : ExplicitResponse → ℕ
response_status r = unwrap_or (r.status_code >>=? status_from) 200

abbrev pub text_of : Attribute → Str
text_of (gives (string (some s))) = s
text_of _ = []

module _ (libraries : ResponseLibraries) where
  abbrev pub parsed_headers : List (Option Str × Option Str) → Headers
  parsed_headers [] = []
  parsed_headers ((name, value) ∷ entries) = elim (libraries.header name value) [
    | none ↦ parsed_headers entries
    | some h ↦ h ∷ parsed_headers entries
  ]

  abbrev pub with_media_type : Option Str → Headers → Headers
  with_media_type none headers = headers
  with_media_type (some media_type) headers =
      elim (libraries.header (some (codes "content-type")) (some media_type)) [
        | none ↦ headers
        | some h ↦ libraries.insert h.0 h.1 headers
      ]

  unfoldable pub apply_response_metadata :
      List (Option Str × Option Str) → Option Str → Answer → Answer
  apply_response_metadata headers media_type answer = record answer {
    headers = with_media_type media_type (libraries.extend answer.headers (parsed_headers headers));
  }

  -- Only the program's own classes bring headers and a media type.
  abbrev pub with_metadata : ExplicitResponse → Option Str → Answer → Answer
  with_metadata r media_type answer =
      if r.own then apply_response_metadata r.headers media_type answer else answer

  abbrev pub unexpected : Answer
  unexpected = of_status 500

  unfoldable pub convert_html_response : Result → Answer
  unfolding apply_response_metadata response_status
  convert_html_response (plain extension value) = unexpected
  convert_html_response (explicit r) = elim r.kind [
    | html ↦
        with_metadata r r.media_type
          (of_content (response_status r) (codes "text/html; charset=utf-8") (text_of r.content))
    | _ ↦ unexpected
  ]

  abbrev pub content_as_json : ExplicitResponse → Attribute → Answer
  content_as_json r (gives content) = of_written (
      py_json_response_with_status_hint libraries.json (response_status r) no_extension content
        fastrapi.Routing.Types.SerializationHint.unknown)
  content_as_json r Attribute.missing = unexpected

  unfoldable pub convert_json_response : Result → Answer
  unfolding apply_response_metadata response_status py_json_response_with_status_hint
  convert_json_response (plain extension value) = unexpected
  convert_json_response (explicit r) = elim r.kind [
    | json ↦ with_metadata r r.media_type (content_as_json r r.content)
    | _ ↦ unexpected
  ]

  unfoldable pub convert_text_response : Result → Answer
  unfolding apply_response_metadata response_status
  convert_text_response (plain extension value) = unexpected
  convert_text_response (explicit r) = elim r.kind [
    | text ↦
        with_metadata r r.media_type
          (of_content (response_status r) (codes "text/plain; charset=utf-8") (text_of r.content))
    | _ ↦ unexpected
  ]

  -- `Redirect::permanent` and `Redirect::temporary`.
  abbrev pub redirect_to : ℕ → Str → Answer
  redirect_to status url = record {
    status = if status == 301 then 308 else 307;
    headers = (codes "location", url) ∷ [];
    content = empty;
  }

  unfoldable pub convert_redirect_response : Result → Answer
  unfolding apply_response_metadata
  convert_redirect_response (plain extension value) = unexpected
  convert_redirect_response (explicit r) = elim r.kind [
    | redirect ↦
        with_metadata r none (redirect_to (unwrap_or r.status_code 307) (unwrap_or r.url []))
    | _ ↦ unexpected
  ]

  unfoldable pub convert_streaming_response : Result → Answer
  unfolding apply_response_metadata response_status
  convert_streaming_response (plain extension value) = unexpected
  convert_streaming_response (explicit r) = elim r.kind [
    | streaming ↦
        with_metadata r r.media_type
          (record { status = response_status r; headers = []; content = stream r.content })
    | _ ↦ unexpected
  ]

  -- The choice by the class of an explicit response.
  abbrev pub convert_explicit : ExplicitResponse → Answer
  convert_explicit r = elim r.kind [
    | json ↦ convert_json_response (explicit r)
    | text ↦ convert_text_response (explicit r)
    | html ↦ convert_html_response (explicit r)
    | redirect ↦ convert_redirect_response (explicit r)
    | streaming ↦ convert_streaming_response (explicit r)
  ]

  -- `extract::<&str>()`, or the `str` of the value.
  abbrev pub plain_text_of : PyObject → Str
  plain_text_of (string (some s)) = s
  plain_text_of value = unwrap_or (libraries.json.py_str value) []

  -- A value that is no explicit response.
  abbrev pub convert_plain : RouteHandler → ResponseType → Extension → PyObject → Answer
  convert_plain handler ResponseType.plain_text extension value =
      of_content (unwrap_or handler.default_status 200) (codes "text/plain; charset=utf-8")
        (plain_text_of value)
  convert_plain handler ResponseType.json extension value = of_written (
      py_json_response_with_status_hint libraries.json (unwrap_or handler.default_status 200)
        extension value handler.serialization_hint)
  convert_plain handler ResponseType.html extension value =
      convert_html_response (plain extension value)
  convert_plain handler ResponseType.redirect extension value =
      convert_redirect_response (plain extension value)
  convert_plain handler ResponseType.auto extension value =
      of_written (py_to_response libraries.json value (unwrap_or handler.default_status 200))

  abbrev pub validated_result :
      Option PyRef → Extension → PyObject → PyResult (Extension × PyObject)
  validated_result none extension value = ok (extension, value)
  validated_result (some model) extension value = libraries.model_validate model value

  unfoldable pub convert_response_by_type : Result → RouteHandler → PyResult Answer
  unfolding convert_json_response convert_text_response convert_html_response
      convert_redirect_response convert_streaming_response py_to_response
  convert_response_by_type (explicit r) handler = ok (convert_explicit r)
  convert_response_by_type (plain extension none_object) handler =
      ok (of_status (unwrap_or handler.default_status 204))
  convert_response_by_type (plain extension value) handler =
      validated_result handler.response_model extension value >>= λ result.
      ok (convert_plain handler handler.response_type result.0 result.1)

  -- `PyHTTPException::to_response`.
  unfoldable pub to_response : HttpError → Answer
  unfolding py_any_to_json json_response_with_status
  to_response error = of_written (
      json_response_with_status libraries.json (unwrap_or (status_from error.status_code) 500)
        (object ((codes "detail", py_any_to_json libraries.json error.detail) ∷ [])))

  -- What is logged of an exception is left out.
  unfoldable pub python_error_to_response : PyErr → Answer
  unfolding to_response
  python_error_to_response error = elim (libraries.http_error error) [
    | none ↦ of_status 500
    | some e ↦ to_response e
  ]

  abbrev pub or_error : PyResult Answer → Answer
  or_error (ok answer) = answer
  or_error (err e) = python_error_to_response e

  abbrev pub text_result : Result → Answer
  text_result (plain extension (string s)) =
      of_content 200 (codes "text/plain; charset=utf-8") (libraries.string_lossy (string s))
  text_result _ = of_status 500

  unfoldable pub specialized_response_conversion : Result → RouteHandler → Answer
  unfolding convert_response_by_type python_error_to_response
  specialized_response_conversion result handler = elim handler.response_type [
    | ResponseType.plain_text ↦ text_result result
    | _ ↦ or_error (convert_response_by_type result handler)
  ]
