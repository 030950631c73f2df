-- ===== src/Request/Input/Query.antt =====
-- About `get_all_query_params` of src/routing/types.rs.
use fastrapi.Prelude.{◌≡◌, refl, ap, false, List, [], ◌∷◌, ◌++◌, arith, All, is_empty}
use fastrapi.Text.{Str, contains_char, split}
use fastrapi.Text.Laws.{contains_char-append, split_absent, split-append, split_once-append}
use fastrapi.Request.Input.{
  RequestInput, decode_query_component, decode_pair, decode_pairs, get_all_query_params,
}

abbrev pub pair_text : Str × Str → Str
pair_text (k, v) = k ++ b'=' ∷ v

-- `k=v` for each pair, with `&` between them.
abbrev pub query_text : List (Str × Str) → Str
query_text [] = []
query_text (pair ∷ []) = pair_text pair
query_text (pair ∷ next ∷ pairs) = pair_text pair ++ b'&' ∷ query_text (next ∷ pairs)

-- Neither part holds `&`, `%` or `+`, nor the key `=`.
abbrev pub IsPlainPair : Str × Str → Type 0
IsPlainPair (k, v) =
    (contains_char k b'&' ≡ false)
    × (contains_char k b'=' ≡ false)
    × (contains_char k b'%' ≡ false)
    × (contains_char k b'+' ≡ false)
    × (contains_char v b'&' ≡ false)
    × (contains_char v b'%' ≡ false)
    × (contains_char v b'+' ≡ false)

pair_text-no_and :
    (pair : Str × Str) → IsPlainPair pair → contains_char (pair_text pair) b'&' ≡ false
unfolding contains_char
pair_text-no_and (k, v) h = ground (arith, contains_char-append k (b'=' ∷ v) b'&')

is_empty-pair_text : (pair : Str × Str) → is_empty (pair_text pair) ≡ false
is_empty-pair_text ([], v) = refl
is_empty-pair_text (c ∷ k, v) = refl

is_empty-query_text :
    (pair : Str × Str) (pairs : List (Str × Str)) → is_empty (query_text (pair ∷ pairs)) ≡ false
is_empty-query_text pair [] = is_empty-pair_text pair
is_empty-query_text ([], v) (next ∷ pairs) = refl
is_empty-query_text (c ∷ k, v) (next ∷ pairs) = refl

module _ (percent_decode : Str → Str) where
  decode_pair-pair_text :
      (pair : Str × Str) → IsPlainPair pair → decode_pair percent_decode (pair_text pair) ≡ pair
  unfolding decode_query_component
  decode_pair-pair_text (k, v) h = rw (split_once-append k v b'=' h.1) (rw (h.2, h.3, h.5, h.6))

  decode_pairs-query_text :
      (pair : Str × Str) (pairs : List (Str × Str))
      → All IsPlainPair (pair ∷ pairs)
      → decode_pairs percent_decode (split (query_text (pair ∷ pairs)) b'&') ≡ pair ∷ pairs
  unfolding decode_pairs
  decode_pairs-query_text pair [] h = rw (
    split_absent (pair_text pair) b'&' (pair_text-no_and pair h.0),
    is_empty-pair_text pair,
    decode_pair-pair_text pair h.0,
  )
  decode_pairs-query_text pair (next ∷ pairs) h =
      rw
        (
          split-append (pair_text pair) (query_text (next ∷ pairs)) b'&'
              (pair_text-no_and pair h.0),
          is_empty-pair_text pair,
          decode_pair-pair_text pair h.0,
        )
        (ap (λ rest. pair ∷ rest) (decode_pairs-query_text next pairs h.1))

  -- A request whose query is written from pairs with no `&`, `%` or `+`, and with no `=` in a key,
  -- has exactly these pairs as its query parameters, in their order, repeated and empty ones too.
  pub get_all_query_params-query_text :
      (input : RequestInput) (pairs : List (Str × Str))
      → All IsPlainPair pairs
      → input.query_string ≡ query_text pairs
      → get_all_query_params percent_decode input ≡ pairs
  unfolding get_all_query_params
  get_all_query_params-query_text input [] h e = rw e
  get_all_query_params-query_text input (pair ∷ pairs) h e =
      rw (e, is_empty-query_text pair pairs) (decode_pairs-query_text pair pairs h)
