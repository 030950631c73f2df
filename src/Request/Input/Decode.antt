-- ===== src/Request/Input/Decode.antt =====
-- About `decode_query_component` of src/routing/types.rs.
use fastrapi.Prelude.{◌≡◌, false, arith, Bool-cases, inl, inr}
use fastrapi.Text.{Str, contains_char, replace_char}
use fastrapi.Text.Laws.{replace_char_absent}
use fastrapi.Request.Input.{decode_query_component}

-- Let percent decoding leave a text without `%` as it is. Then a component of the query decodes, on
-- every branch, as if each `+` were made a blank and the result percent-decoded.
pub decode_query_component_lem :
    (percent_decode : Str → Str) (raw : Str)
    → ((s : Str) → contains_char s b'%' ≡ false → percent_decode s ≡ s)
    → decode_query_component percent_decode raw ≡ percent_decode (replace_char raw b'+' b' ')
unfolding decode_query_component
decode_query_component_lem percent_decode raw h = elim (Bool-cases (contains_char raw b'+')) [
  | inl plus ↦ rw plus (ground arith)
  | inr no_plus ↦ rw (no_plus, replace_char_absent raw b'+' b' ' no_plus) (ground (arith, h raw))
]
