-- ===== src/Request/Input.antt =====
-- `RequestInput` of src/routing/types.rs: path, query, header and cookie parameters of a request.
-- The caches (`OnceLock`) of its parsed query and cookies hold what the functions give anew here.
pub mod Query
pub mod Decode
use fastrapi.Prelude.{
  ℕ, Bool, true, false, not, ◌&&◌, ◌||◌, Option, none, some, List, [], ◌∷◌, ◌++◌, ◌>>=?◌,
  if◌then◌else◌, is_empty, unwrap_or, ◌==◌,
}
use fastrapi.Text.{
  Str, str_eq, contains_char, replace_char, split, split_once, to_ascii_lowercase, codes,
}

-- A header's value is `none` where `HeaderValue::to_str` fails. Names are in lower case, as in a
-- `HeaderMap`.
pub record RequestInput : Type 0 where
  pub method : Str
  pub path : Str
  pub query_string : Str
  pub path_params : Option (List (Str × Str))
  pub headers : List (Str × Option Str)

-- The value of the first pair with a key.
unfoldable pub find_key {ℓ} : {V : Type ℓ} → Str → List (Str × V) → Option V
find_key key [] = none
find_key key ((k, v) ∷ pairs) = if str_eq k key then some v else find_key key pairs

unfoldable pub get_path_param : RequestInput → Str → Option Str
unfolding find_key
get_path_param input key = input.path_params >>=? find_key key

-- `HeaderMap::get` finds a name in any case.
unfoldable pub get_header : RequestInput → Str → Option Str
unfolding find_key to_ascii_lowercase
get_header input key = find_key (to_ascii_lowercase key) input.headers >>=? λ value. value

-- `percent_decode` stands for the decoding of the percent_encoding crate, with `decode_utf8_lossy`.
module _ (percent_decode : Str → Str) where
  unfoldable pub decode_query_component : Str → Str
  unfolding contains_char replace_char
  decode_query_component raw =
      let has_percent = contains_char raw b'%' in
      let has_plus = contains_char raw b'+' in
      if not has_percent && not has_plus
      then raw
      else if has_plus
      then percent_decode (replace_char raw b'+' b' ')
      else percent_decode raw

  -- `split_once('=')`, or the whole pair and an empty value.
  abbrev pub decode_pair : Str → Str × Str
  decode_pair pair =
      let (k, v) = unwrap_or (split_once pair b'=') (pair, []) in
      (decode_query_component k, decode_query_component v)

  unfoldable pub decode_pairs : List Str → List (Str × Str)
  decode_pairs [] = []
  decode_pairs (pair ∷ pairs) =
      if is_empty pair then decode_pairs pairs else decode_pair pair ∷ decode_pairs pairs

  unfoldable pub get_all_query_params : RequestInput → List (Str × Str)
  unfolding decode_pairs
  get_all_query_params input =
      if is_empty input.query_string then [] else decode_pairs (split input.query_string b'&')

  unfoldable pub get_query_param : RequestInput → Str → Option Str
  unfolding get_all_query_params find_key
  get_query_param input key = find_key key (get_all_query_params input)

-- `split_parse` stands for the cookie crate: the raw names and values of the cookies in a header.
module _ (split_parse : Str → List (Str × Str)) where
  unfoldable pub cookies_of : List (Str × Option Str) → List (Str × Str)
  cookies_of [] = []
  cookies_of ((name, none) ∷ headers) = cookies_of headers
  cookies_of ((name, some value) ∷ headers) =
      (if str_eq name (codes "cookie") then split_parse value else []) ++ cookies_of headers

  unfoldable pub get_all_cookies : RequestInput → List (Str × Str)
  unfolding cookies_of
  get_all_cookies input = cookies_of input.headers

  unfoldable pub get_cookie : RequestInput → Str → Option Str
  unfolding get_all_cookies find_key
  get_cookie input key = find_key key (get_all_cookies input)
