-- ===== src/Server/Dispatch/Slices.antt =====
-- About the path parameters of `build_request_input_from_parts` (src/ffi/py_handlers.rs).
use fastrapi.Prelude.{◌≡◌, refl, ℕ, ◌+◌, ◌-◌, ◌<◌, some, List, [], ◌∷◌, ◌++◌, arith}
use fastrapi.Text.{Str, len, len_utf8}
use fastrapi.Routing.Types.{RouteHandler}
use fastrapi.Routing.Frozen.{PathMatch, params}
use fastrapi.Server.Dispatch.{param_ranges, skip_bytes, take_bytes, slice, path_params_of}

len_utf8_positive : (c : ℕ) → 0 < len_utf8 c
len_utf8_positive c = ground arith

skip_bytes-zero : (s : Str) → skip_bytes s 0 ≡ some s
skip_bytes-zero [] = refl
skip_bytes-zero (c ∷ s) = refl

take_bytes-zero : (s : Str) → take_bytes s 0 ≡ some []
take_bytes-zero [] = refl
take_bytes-zero (c ∷ s) = refl

skip_bytes-append : (a s : Str) (n : ℕ) → n ≡ len a → skip_bytes (a ++ s) n ≡ some s
unfolding len
skip_bytes-append [] s n e = rw e (skip_bytes-zero s)
skip_bytes-append (c ∷ a) s n e =
    ground (arith, len_utf8_positive c, skip_bytes-append a s (n - len_utf8 c) (omega (arith, e)))

take_bytes-append : (v s : Str) (n : ℕ) → n ≡ len v → take_bytes (v ++ s) n ≡ some v
unfolding len
take_bytes-append [] s n e = rw e (take_bytes-zero s)
take_bytes-append (c ∷ v) s n e =
    ground (arith, len_utf8_positive c, take_bytes-append v s (n - len_utf8 c) (omega (arith, e)))

pub slice-append :
    (a v b : Str) (start stop : ℕ)
    → start ≡ len a
    → stop ≡ len a + len v
    → slice (a ++ (v ++ b)) start stop ≡ some v
unfolding slice
slice-append a v b start stop e f = ground (
  arith,
  skip_bytes-append a (v ++ b) start e,
  take_bytes-append v b (stop - start) (omega (arith, e, f)),
)

-- The match stands where the path has this value.
pub record StandsAt (path : Str) (m : PathMatch) (value : Str) : Type 0 where
  pub before : Str
  pub after : Str
  pub path_eq : path ≡ before ++ (value ++ after)
  pub start_eq : m.start ≡ len before
  pub width_eq : m.width ≡ len value

abbrev pub AllStandAt : Str → List PathMatch → List (Str × Str) → Type 0
AllStandAt path [] [] = Unit
AllStandAt path [] (p ∷ pairs) = ⊥
AllStandAt path (m ∷ found) [] = ⊥
AllStandAt path (m ∷ found) ((key, value) ∷ pairs) =
    StandsAt path m value × (m.key ≡ key) × AllStandAt path found pairs

-- Where each match of the router stands in the path that a request carries, the path parameters of
-- the handler are the keys and the values of the matches, in their order, and no slice panics.
pub path_params_of-param_ranges :
    (path : Str) (handler : RouteHandler) (found : List PathMatch) (pairs : List (Str × Str))
    → AllStandAt path found pairs
    → path_params_of path (param_ranges (params handler found)) ≡ some pairs
unfolding path_params_of param_ranges
path_params_of-param_ranges path handler [] [] h = refl
path_params_of-param_ranges path handler [] (p ∷ pairs) h = elim h [ ]
path_params_of-param_ranges path handler (m ∷ found) [] h = elim h [ ]
path_params_of-param_ranges path handler (m ∷ found) ((key, value) ∷ pairs) (s, k, h) =
    ground (arith, k, path_params_of-param_ranges path handler found pairs h, read)
  where
    read : slice path m.start (m.start + m.width) ≡ some value
    read = rw s.path_eq (
        slice-append s.before value s.after m.start _ s.start_eq
          (omega (arith, s.start_eq, s.width_eq)))
