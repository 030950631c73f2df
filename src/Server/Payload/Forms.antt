-- ===== src/Server/Payload/Forms.antt =====
-- About the forms of src/engine/server/payload.rs, and how their reading fails.
use fastrapi.Prelude.{
  ◌≡◌, ◌⊎◌, inl, inr, refl, ap, ◌∙◌, subst, ℕ, Bool, true, false, not, ◌&&◌, ◌||◌, Bool-cases,
  Option, none, some, Option-cases, List, [], ◌∷◌, ◌++◌, if◌then◌else◌, is_empty, All, any, lookup,
  insert, lookup-insert, or_else, arith,
}
use fastrapi.Text.{Str, str_eq, len}
use fastrapi.Text.Laws.{str_key, str_eq_iff}
use fastrapi.Http.{Response, Outcome, ok, fail, ◌>>=◌}
use fastrapi.Routing.Types.{ParsedParameter, RouteHandler}
use fastrapi.Server.Payload.{
  Bytes, BodyField, text, Form, PayloadLimits, MultipartField, MultipartError, PayloadLibraries,
  is_too_large, insert_pairs, multipart_error_response, insert_fields, parse_urlencoded_form,
  parse_multipart_form, read_json, extract_payload, is_body, names_of, allowed_of,
  multipart_constraints,
}

-- The last value of a key.
abbrev pub last_value : Str → List (Str × Str) → Option Str
last_value key [] = none
last_value key ((k, value) ∷ pairs) =
    or_else (last_value key pairs) (if str_eq k key then some value else none)

abbrev pub as_text : Option Str → Option BodyField → Option BodyField
as_text none known = known
as_text (some value) known = some (text value)

-- The value is no longer than the limit, in bytes.
pub record IsShort (max_field_size : Option ℕ) (pair : Str × Str) : Type 0 where
  pub short : is_too_large max_field_size (len pair.1) ≡ false

insert_pairs-ok :
    (limit : Option ℕ) (pairs : List (Str × Str)) (entries result : Form)
    → insert_pairs limit pairs entries ≡ ok result
    → All (IsShort limit) pairs
      × ((key : Str) → lookup key result ≡ as_text (last_value key pairs) (lookup key entries))
unfolding insert_pairs
insert_pairs-ok limit [] entries result e = (tt, λ key. ap (lookup key) (ground arith))
insert_pairs-ok limit ((k, value) ∷ pairs) entries result e =
    elim (Bool-cases (is_too_large limit (len value))) [
      | inl large ↦ ground arith
      | inr small ↦
          let rest =
            insert_pairs-ok limit pairs (insert k (text value) entries) result (ground arith) in
          (
            (record { short = small }, rest.0),
            λ key. rest.1 key ∙ ground (arith, lookup-insert k key (text value) entries),
          )
    ]

module _ (libraries : PayloadLibraries) where
  -- An urlencoded form that is read from a body has, under each key, the last value that the body gives for it,
  -- and nothing under any other; and no value in the body, kept or not, is longer than the limit.
  pub parse_urlencoded_form-last_value :
      (body : Bytes) (limit : Option ℕ) (raw : Str) (result : Form)
      → libraries.from_utf8 body ≡ some raw
      → parse_urlencoded_form libraries body limit ≡ ok result
      → All (IsShort limit) (libraries.parse_urlencoded raw)
        × ((key : Str)
            → lookup key result ≡ as_text (last_value key (libraries.parse_urlencoded raw)) none)
  unfolding parse_urlencoded_form lookup
  parse_urlencoded_form-last_value body limit raw result u e =
      insert_pairs-ok limit (libraries.parse_urlencoded raw) [] result
        (rw (u, parse_urlencoded_form) at e)

-- The outcome is no failure, or one with one of these statuses.
abbrev pub IsClientError : ℕ → Type 0
IsClientError status = (status ≡ 400) ⊎ ((status ≡ 413) ⊎ (status ≡ 422))

record FailsAsClient {A : Type 0} (m : Outcome A) : Type 0 where
  at : (r : Response) → m ≡ fail r → IsClientError r.status

same_error : (r s : Response) → r ≡ s → IsClientError r.status → IsClientError s.status
same_error r s e h = subst (λ (x : Response). IsClientError x.status) e h

fails_ok : {A : Type 0} (a : A) → FailsAsClient (Outcome.ok a)
fails_ok a = record { at = λ r e. ground arith }

fails_with : {A : Type 0} (r : Response) → IsClientError r.status → FailsAsClient {A = A} (fail r)
fails_with r h = record { at = λ s e. same_error r s (ground arith) h }

fails_bind :
    {A B : Type 0} (m : Outcome A) (f : A → Outcome B)
    → FailsAsClient m
    → ((a : A) → FailsAsClient (f a))
    → FailsAsClient (m >>= f)
fails_bind (ok a) f h k = k a
fails_bind (fail r) f h k = record { at = λ s e. h.at s (ground arith) }

fails_if :
    {A : Type 0} (b : Bool) (m k : Outcome A)
    → FailsAsClient m
    → FailsAsClient k
    → FailsAsClient (if b then m else k)
fails_if true m k h l = h
fails_if false m k h l = l

multipart_error_lem :
    (error : MultipartError) → IsClientError (multipart_error_response error).status
unfolding multipart_error_response
multipart_error_lem (MultipartError.field_size_exceeded message) = inr (inl refl)
multipart_error_lem (MultipartError.stream_size_exceeded message) = inr (inl refl)
multipart_error_lem (MultipartError.unknown_field message) = inl refl
multipart_error_lem MultipartError.other = inl refl

insert_pairs-fails :
    (limit : Option ℕ) (pairs : List (Str × Str)) (entries : Form)
    → FailsAsClient (insert_pairs limit pairs entries)
unfolding insert_pairs
insert_pairs-fails limit [] entries = fails_ok entries
insert_pairs-fails limit ((k, value) ∷ pairs) entries =
    fails_if (is_too_large limit (len value)) _ _ (fails_with _ (inr (inl refl)))
      (insert_pairs-fails limit pairs (insert k (text value) entries))

module _ (libraries : PayloadLibraries) where
  insert_fields-fails :
      (fields : List MultipartField) (end : Option MultipartError) (entries : Form)
      → FailsAsClient (insert_fields libraries fields end entries)
  unfolding insert_fields
  insert_fields-fails [] none entries = fails_ok entries
  insert_fields-fails [] (some error) entries = fails_with _ (multipart_error_lem error)
  insert_fields-fails (f ∷ fields) end entries = elim (Option-cases f.name) [
    | inl e ↦ rw (e, insert_fields) (insert_fields-fails fields end entries)
    | inr (name, e) ↦ elim (Option-cases f.bytes) [
      | inl b ↦ rw (e, b, insert_fields) (fails_with _ (multipart_error_lem f.error))
      | inr (bytes, b) ↦ rw (e, b, insert_fields) (insert_fields-fails fields end _)
    ]
  ]

  urlencoded-fails :
      (body : Bytes) (limit : Option ℕ) → FailsAsClient (parse_urlencoded_form libraries body limit)
  unfolding parse_urlencoded_form
  urlencoded-fails body limit = elim (Option-cases (libraries.from_utf8 body)) [
    | inl e ↦ rw (e, parse_urlencoded_form) (fails_with _ (inr (inr refl)))
    | inr (raw, e) ↦
        rw (e, parse_urlencoded_form) (insert_pairs-fails limit (libraries.parse_urlencoded raw) [])
  ]

  multipart-fails :
      (body : Bytes) (content_type : Str) (handler : RouteHandler) (limits : PayloadLimits)
      → FailsAsClient (parse_multipart_form libraries body content_type handler limits)
  unfolding parse_multipart_form
  multipart-fails body content_type handler limits =
      elim (Option-cases (libraries.parse_boundary content_type)) [
        | inl e ↦ rw (e, parse_multipart_form) (fails_with _ (inl refl))
        | inr (boundary, e) ↦
            rw (e, parse_multipart_form)
              (insert_fields-fails
                (libraries.read_multipart (multipart_constraints libraries handler limits) boundary
                  body).0
                (libraries.read_multipart (multipart_constraints libraries handler limits) boundary
                  body).1
                [])
      ]

  json-fails :
      (body : Bytes) (handler : RouteHandler) → FailsAsClient (read_json libraries body handler)
  unfolding read_json
  json-fails body handler = elim (Option-cases (libraries.parse_json body)) [
    | inl e ↦ rw (e, read_json) (fails_if _ _ _ (fails_ok _) (fails_with _ (inr (inr refl))))
    | inr (value, e) ↦ rw (e, read_json) (fails_if _ _ _ (fails_ok _) (fails_ok _))
  ]

  -- Whatever the body, its content type, the handler and the limits: a payload that cannot be read is
  -- refused with status 400, 413 or 422, and with no other.
  pub extract_payload-status :
      (content_type : Option Str) (body : Option Bytes) (handler : RouteHandler)
      (limits : PayloadLimits) (r : Response)
      → extract_payload libraries content_type body handler limits ≡ fail r
      → IsClientError r.status
  unfolding extract_payload
  extract_payload-status content_type none handler limits r e = ground arith
  extract_payload-status content_type (some body) handler limits r e =
      (fails_if _ _ _ (fails_with _ (inr (inl refl))) (
          fails_if _ _ _ (fails_ok none) (
            fails_if _ _ _
              (fails_bind _ _ (urlencoded-fails body limits.max_field_size) (λ f. fails_ok _))
              (fails_if _ _ _
                (fails_bind _ _ (multipart-fails body _ handler limits) (λ f. fails_ok _))
                (fails_bind _ _ (json-fails body handler) (λ p. fails_ok _)))))).at
        r e

-- One of the names of a body parameter.
abbrev pub is_named : Str → ParsedParameter → Bool
is_named name param =
    is_body param.source && (str_eq param.external_name name || str_eq param.name name)

-- What multer does with a field under a list of allowed fields.
abbrev pub admits : Option (List Str) → Str → Bool
admits none name = true
admits (some names) name = any (λ n. str_eq n name) names

any-append :
    (name : Str) (xs ys : List Str)
    → any (λ n. str_eq n name) (xs ++ ys)
      ≡ (any (λ n. str_eq n name) xs || any (λ n. str_eq n name) ys)
any-append name [] ys = refl
any-append name (x ∷ xs) ys = ground (arith, any-append name xs ys)

any-names_of :
    (name : Str) (param : ParsedParameter)
    → any (λ n. str_eq n name) (names_of param)
      ≡ (str_eq param.external_name name || str_eq param.name name)
any-names_of name param = ground (arith, str_eq_iff param.external_name param.name)

any-allowed_of :
    (name : Str) (params : List ParsedParameter)
    → any (λ n. str_eq n name) (allowed_of params) ≡ any (is_named name) params
unfolding allowed_of
any-allowed_of name [] = refl
any-allowed_of name (param ∷ params) = ground (
  arith,
  any-append name (names_of param) (allowed_of params),
  any-names_of name param,
  any-allowed_of name params,
)

is_empty-allowed_of :
    (params : List ParsedParameter)
    → is_empty (allowed_of params) ≡ not (any (λ p. is_body p.source) params)
unfolding allowed_of
is_empty-allowed_of [] = refl
is_empty-allowed_of (param ∷ params) = ground (arith, is_empty-allowed_of params)

-- Under the constraints of a handler, a multipart field is admitted exactly if unknown fields are not
-- rejected, or the handler has no body parameter, or one of its body parameters has the field's name
-- as its external name or its name.
pub multipart_constraints-admits :
    (libraries : PayloadLibraries) (handler : RouteHandler) (limits : PayloadLimits) (name : Str)
    → admits (multipart_constraints libraries handler limits).allowed_fields name ≡ (
        not limits.reject_unknown_multipart_fields
        || (not (any (λ p. is_body p.source) handler.parsed_params)
            || any (is_named name) handler.parsed_params))
unfolding multipart_constraints
multipart_constraints-admits libraries handler limits name =
    ground
      (arith, any-allowed_of name handler.parsed_params, is_empty-allowed_of handler.parsed_params)
