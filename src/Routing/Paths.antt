-- ===== src/Routing/Paths.antt =====
-- How paths are joined (src/ffi/decorators/routing.rs) and normalised (src/routing/router.rs).
pub mod Join
pub mod Braces
use fastrapi.Prelude.{
  ℕ, ◌<◌, Bool, true, false, ◌&&◌, not, List, [], ◌∷◌, ◌++◌, ltb, ◌==◌, if◌then◌else◌, pop,
}
use fastrapi.Text.{Str, len, starts_with_char, ends_with_char, trim, trim_end_matches, str_eq}

unfoldable pub join_path : Str → Str → Str
unfolding ends_with_char starts_with_char
join_path a b =
    let a_ends = ends_with_char a b'/' in
    let b_starts = starts_with_char b b'/' in
    if a_ends && b_starts
    then pop a ++ b
    else if not a_ends && not b_starts
    then a ++ b'/' ∷ b
    else a ++ b

unfoldable pub normalize_lookup : Str → Str
unfolding trim trim_end_matches len
normalize_lookup input =
    let trimmed = trim input in
    if ltb 1 (len trimmed) then trim_end_matches trimmed b'/' else trimmed

-- `base` of `normalize_register`.
unfoldable pub with_slash : Str → Str
unfolding starts_with_char
with_slash normalized = if starts_with_char normalized b'/' then normalized else b'/' ∷ normalized

-- The loop of `normalize_register`, from the state (`has_params`, `in_param`), over code points: the
-- bytes that it looks for are ASCII, and stand in no longer code.
unfoldable pub scan_braces : Bool → Bool → Str → Bool
scan_braces has_params in_param [] = if in_param then false else has_params
scan_braces has_params in_param (c ∷ []) =
    if c == b'{'
    then false
    else if c == b'}'
    then in_param && has_params
    else not in_param && has_params
scan_braces has_params in_param (c ∷ d ∷ s) =
    let skip_two = scan_braces has_params in_param s in
    let opened = scan_braces true true (d ∷ s) in
    let closed = scan_braces has_params false (d ∷ s) in
    let same = scan_braces has_params in_param (d ∷ s) in
    if c == b'{'
    then (if d == b'{' then skip_two else if in_param then false else opened)
    else if c == b'}'
    then (if d == b'}' then skip_two else if in_param then closed else false)
    else same

unfoldable pub normalize_register : Str → Str × Bool
unfolding normalize_lookup with_slash scan_braces
normalize_register input =
    let base = with_slash (normalize_lookup input) in (base, scan_braces false false base)
