-- ===== src/Tests/Payloads.antt =====
-- Bodies of requests at concrete inputs.
use fastrapi.Prelude.{◌≡◌, refl, true, none, some, [], ◌∷◌, All, lookup, insert}
use fastrapi.Text.{Str, str_eq, codes, len, starts_with}
use fastrapi.Text.Laws.{str_key}
use fastrapi.Http.{ok, fail, of_text}
use fastrapi.Server.Payload.{
  text, Form, PayloadLimits, PayloadLibraries, parse_urlencoded_form, extract_payload,
}
use fastrapi.Server.Payload.Forms.{
  IsShort, IsClientError, as_text, last_value, parse_urlencoded_form-last_value,
  extract_payload-status,
}
use fastrapi.Tests.Data.{handler_at}

abbrev small_payloads : PayloadLibraries
small_payloads = record {
  from_utf8 = λ bytes. some bytes;
  from_utf8_lossy = λ bytes. bytes;
  parse_urlencoded = λ raw. (codes "a", codes "1") ∷ (codes "a", raw) ∷ [];
  parse_json = λ bytes. none;
  parse_boundary = λ s. none;
  read_multipart = λ constraints boundary body. ([], none);
  type_name = λ ref. none;
  annotation_name = λ ref. none;
}

abbrev small_limits : PayloadLimits
small_limits = record {
  max_body_size = some 100;
  max_field_size = some 10;
  max_file_size = none;
  reject_unknown_multipart_fields = true;
}

abbrev one_field : Form
one_field = (codes "a", text (codes "22")) ∷ []

form_read : parse_urlencoded_form small_payloads (codes "22") (some 10) ≡ ok one_field
unfolding parse_urlencoded_form len insert str_eq
form_read = refl

parse_urlencoded_form-last_value_example :
    All (IsShort (some 10)) ((codes "a", codes "1") ∷ (codes "a", codes "22") ∷ [])
    × ((key : Str)
        → lookup key one_field
          ≡ as_text (last_value key ((codes "a", codes "1") ∷ (codes "a", codes "22") ∷ [])) none)
parse_urlencoded_form-last_value_example =
    parse_urlencoded_form-last_value small_payloads (codes "22") (some 10) (codes "22") one_field
      refl form_read

bad_json :
    extract_payload small_payloads none (some (codes "{")) (handler_at 1) small_limits
    ≡ fail (of_text 422 (codes "Invalid JSON body"))
unfolding extract_payload starts_with
bad_json = refl

extract_payload-status_example : IsClientError 422
extract_payload-status_example =
    extract_payload-status small_payloads none (some (codes "{")) (handler_at 1) small_limits
      (of_text 422 (codes "Invalid JSON body")) bad_json
